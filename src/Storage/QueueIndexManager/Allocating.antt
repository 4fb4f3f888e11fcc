-- ===== src/Storage/QueueIndexManager/Allocating.antt =====
-- storage/pq/QueueIndexManager.cpp: `AllocateProductSpace`, over the loops that make room.
use rdm.Prelude.{ℕ, ◌+◌, ◌%◌, ◌^◌, none, some, ◌==◌, ltb, if◌then◌else◌, set}
use rdm.Prelude.Errno.{enomem}
use rdm.Prelude.Int.{ℤ, pos, eqb_ℤ}
use rdm.Prelude.Run.{Run, ok, ◌>>=◌, at}
use rdm.Core.Timestamp.{Timestamp}
use rdm.Storage.RegionList.{
  rl_none, get_extent, set_alloc, clear_alloc, has_space, add_to_hash, remove_from_hash,
}
use rdm.Storage.RegionList.Space
use rdm.Storage.RegionList.Space.{split, put}
use rdm.Storage.SignatureIndex
use rdm.Storage.SignatureIndex.{Signature, SignatureIndex, off_none}
use rdm.Storage.QueueIndexManager.{
  dup, Index, store_of, with_store, Info, round_up, make_slot, make_space,
}

-- A large region is split; with an error code the region is given back.
unfoldable pub fit_region : (ℕ → ℕ) → Index → ℕ → ℕ → Run (ℕ × Index)
unfolding split put
fit_region random ix rlix extent = do
  hit ← at ix.regions.rp rlix
  let halved : Run (ℕ × Index) = split random (store_of ix) rlix extent >>= λ (status, s).
      let given_back : Run (ℕ × Index) = put random s rlix >>= λ t. ok (status, with_store ix t) in
      if status == 0 then ok (0, with_store ix s) else given_back
  let margin = (extent + ix.smallest_extent_seen + 64) % 2 ^ 64
  if ltb margin (get_extent hit) then halved else ok (0, ix)

-- The answer of `AllocateProductSpace`: the status, the offset and the allocated extent.
pub data Allocation : Type 0 where
  refused : ℤ → Allocation
  allocated : ℤ → ℕ → Allocation

-- The region is marked, and added to the hash and to the signatures.
unfoldable pub enter_region : (ℕ → ℕ) → Index → Signature → ℕ → Run (Allocation × Index)
unfolding add_to_hash remove_from_hash SignatureIndex.add put
enter_region random ix sig rlix = do
  hit ← at ix.regions.rp rlix
  l ← add_to_hash (record ix.regions { rp = set ix.regions.rp rlix (set_alloc hit) }) rlix
  marked ← at l.rp rlix
  (sxep, signatures) ← SignatureIndex.add ix.signatures sig marked.offset
  let undone : Run (Allocation × Index) = do
    m ← remove_from_hash l rlix
    r ← at m.rp rlix
    s ←
        put random
          (record { list = record m { rp = set m.rp rlix (clear_alloc r) }; blocks = ix.blocks })
          rlix
    ok (refused (pos enomem), with_store (record ix { signatures = signatures }) s)
  let entered : Allocation × Index = (
    allocated marked.offset (get_extent marked),
    record ix { regions = l; signatures = signatures },
  )
  elim sxep [ none ↦ undone | some element ↦ ok entered ]

-- What follows the division of the region, by its error code.
unfoldable pub enter_fitted : (ℕ → ℕ) → ℕ → Index → Signature → ℕ → Run (Allocation × Index)
unfolding enter_region
enter_fitted random error ix sig rlix =
    let entered = enter_region random ix sig rlix in
    if error == 0 then entered else ok (refused (pos error), ix)

module _ (decode : ℤ → ℕ → ℤ × Info) where
  module _ (mvrt : Timestamp → Info → Index → Index) (random : ℕ → ℕ → ℕ) where
    -- The region that is found or for which space is made.
    unfoldable pub find_region : Index → ℕ → Run (ℤ × ℕ × Index)
    unfolding Space.get make_space
    find_region ix extent = Space.get (store_of ix) extent >>= λ (rlix, s).
        let made = make_space decode mvrt random (s.list.nelems + 1) (with_store ix s) extent in
        if rlix == rl_none then made else ok (pos 0, rlix, with_store ix s)

    -- The steps of `AllocateProductSpace` from `Get` on, for a rounded extent.
    unfoldable pub allocate_extent : Index → ℕ → Signature → Run (Allocation × Index)
    unfolding find_region fit_region enter_fitted
    allocate_extent ix extent sig = do
      (status, rlix, ix1) ← find_region ix extent
      let fitted : Run (Allocation × Index) = do
        (error, ix2) ← fit_region (random 0) ix1 rlix extent
        enter_fitted (random 1) error ix2 sig rlix
      if eqb_ℤ status (pos 0) then fitted else ok (refused status, ix1)

    unfoldable pub allocate_rounded : Index → ℕ → Signature → Run (Allocation × Index)
    unfolding allocate_extent
    allocate_rounded ix extent sig =
        let rounded = round_up extent ix.control.align in
        let smallest =
          if ltb rounded ix.smallest_extent_seen then rounded else ix.smallest_extent_seen in
        allocate_extent (record ix { smallest_extent_seen = smallest }) rounded sig

    unfoldable pub allocate_product_space : Index → ℕ → Signature → Run (Allocation × Index)
    unfolding SignatureIndex.find make_slot allocate_rounded
    allocate_product_space ix extent sig = do
      found ← SignatureIndex.find ix.signatures sig
      let with_slot : Run (Allocation × Index) = do
        (status, ix1) ← make_slot decode mvrt random (ix.regions.nelems + 1) ix
        let rounded = allocate_rounded ix1 extent sig
        if eqb_ℤ status (pos 0) then rounded else ok (refused status, ix1)
      let at_once = allocate_rounded ix extent sig
      let absent : Run (Allocation × Index) = if has_space ix.regions then at_once else with_slot
      elim found [ some element ↦ ok (refused dup, ix) | none ↦ absent ]

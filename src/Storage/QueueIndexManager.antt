-- ===== src/Storage/QueueIndexManager.antt =====
-- storage/pq/QueueIndexManager.h and .cpp: the three indexes kept in step. The decoding of a stored
-- product and the report of a deletion are the callbacks that the code takes; `random` has the
-- answers of `GetRandomLevel`, for each deletion by the number of elements before it.
pub mod Slots
pub mod Ends
pub mod Allocating
pub mod Lookup
pub mod Regions
pub mod Extents
mod Tests
use rdm.Prelude.{
  ℕ, zero, suc, ◌+◌, ◌-◌, ◌*◌, ◌/◌, ◌%◌, ◌^◌, Bool, true, false, not, ◌&&◌, ◌||◌, List, Option,
  none, some, ◌==◌, ltb, if◌then◌else◌, set, length,
}
use rdm.Prelude.Errno.{eacces, enomem, einval}
use rdm.Prelude.Int.{ℤ, pos, negsuc, eqb_ℤ, ◌-ℤ◌}
use rdm.Prelude.Run.{Run, ok, fault, out_of_fuel, ◌>>=◌, ◌>>◌, at}
use rdm.Core.Timestamp.{Timestamp}
use rdm.Storage.Control.{Pqctl}
use rdm.Storage.FreeBlock.{FreeBlock}
use rdm.Storage.RegionList
use rdm.Storage.RegionList.{
  Region, RegionList, rl_none, is_alloc, get_extent, set_alloc, clear_alloc, has_space, add_to_hash,
  remove_from_hash,
}
use rdm.Storage.RegionList.Free.{Store}
use rdm.Storage.RegionList.Space
use rdm.Storage.RegionList.Space.{split, put}
use rdm.Storage.SignatureIndex
use rdm.Storage.SignatureIndex.{Signature, SignatureIndex, off_none}
use rdm.Storage.TimeQueue
use rdm.Storage.TimeQueue.{TimeQueue, Times, less_than, equal_to, greater_than}

-- `PqStatus`
abbrev pub dup : ℤ
dup = negsuc 1

abbrev pub corrupt : ℤ
corrupt = negsuc 5

abbrev pub not_found : ℤ
not_found = negsuc 6

-- The header, the indexes with the free blocks that two of them share, and the member of the
-- manager.
pub record Index : Type 0 where
  pub control : Pqctl
  pub regions : RegionList
  pub times : TimeQueue
  pub signatures : SignatureIndex
  pub blocks : FreeBlock
  pub smallest_extent_seen : ℕ

abbrev pub store_of : Index → Store
store_of ix = record { list = ix.regions; blocks = ix.blocks }

abbrev pub with_store : Index → Store → Index
with_store ix s = record ix { regions = s.list; blocks = s.blocks }

abbrev pub times_of : Index → Times
times_of ix = record { queue = ix.times; blocks = ix.blocks }

abbrev pub with_times : Index → Times → Index
with_times ix t = record ix { times = t.queue; blocks = t.blocks }

-- What the code reads of the description of a stored product.
pub record Info : Type 0 where
  pub signature : Signature
  pub arrival : Timestamp

-- `roundUp` on a `size_t`.
abbrev pub round_up : ℕ → ℕ → ℕ
round_up x unit = (x + unit + (2 ^ 64 - 1)) % 2 ^ 64 / unit * unit

module _ (decode : ℤ → ℕ → ℤ × Info) where
  -- The steps of `TryDeleteProduct` behind the decoding.
  unfoldable pub delete_product : (ℕ → ℕ) → Index → ℕ → ℕ → Info → Run (ℤ × Info × Index)
  unfolding SignatureIndex.remove TimeQueue.delete Space.free
  delete_product random ix tqep rlix info = do
    (removed, signatures) ← SignatureIndex.remove ix.signatures info.signature
    let ix1 : Index = record ix { signatures = signatures }
    let deleted : Run (ℤ × Info × Index) = do
      t ← TimeQueue.delete (times_of ix1) tqep
      let ix2 : Index = with_times ix1 t
      s ← Space.free random (store_of ix2) rlix
      ok (pos 0, info, with_store ix2 s)
    if removed then deleted else ok (corrupt, info, ix1)

  unfoldable pub try_delete_product : (ℕ → ℕ) → Index → ℕ → ℕ → Run (ℤ × Info × Index)
  unfolding delete_product
  try_delete_product random ix tqep rlix = do
    rep ← at ix.regions.rp rlix
    e ← at ix.times.tqep tqep
    let (status, info) = decode rep.offset (get_extent rep)
    let deleted = delete_product random ix tqep rlix info
    if not (eqb_ℤ rep.offset e.offset)
        then ok (corrupt, info, ix)
        else if not (eqb_ℤ status (pos 0))
        then ok (status, info, ix)
        else deleted

  module _ (mvrt : Timestamp → Info → Index → Index) where
    -- The loop of `DeleteOldest`, from an element of the time queue on, or behind its end.
    unfoldable pub delete_from : (ℕ → ℕ) → ℕ → Index → Option ℕ → ℤ → Run (ℤ × Index)
    unfolding RegionList.find try_delete_product TimeQueue.next
    delete_from random zero ix tqep status = fault out_of_fuel
    delete_from random (suc f) ix none status = ok (status, ix)
    delete_from random (suc f) ix (some tqep) status = at ix.times.tqep tqep >>= λ e.
        RegionList.find ix.regions e.offset >>= λ rlix.
        let tried : Run (ℤ × Index) = try_delete_product random ix tqep rlix >>= λ (st, info, ix1).
        let full : Index = record ix1 { control = record ix1.control { is_full = true } } in
        let further : Run (ℤ × Index) =
          TimeQueue.next (times_of ix1) tqep >>= λ next. delete_from random f ix1 (some next) st in
        if eqb_ℤ st (pos 0)
        then ok (pos 0, mvrt e.tv info full)
        else if not (eqb_ℤ st (pos eacces))
        then ok (st, ix1)
        else further in
        if rlix == rl_none then ok (status, ix) else tried

    -- The time queue has at most all elements.
    unfoldable pub delete_oldest : (ℕ → ℕ) → Index → Run (ℤ × Index)
    unfolding TimeQueue.first delete_from
    delete_oldest random ix = TimeQueue.first (times_of ix) >>= λ oldest.
        delete_from random (length ix.times.tqep + 2) ix oldest (pos eacces)

    module _ (random : ℕ → ℕ → ℕ) where
      -- The loop of `MakeSlot`: each turn deletes a product.
      unfoldable pub make_slot : ℕ → Index → Run (ℤ × Index)
      unfolding delete_oldest
      make_slot zero ix = fault out_of_fuel
      make_slot (suc f) ix =
          let turn : Run (ℤ × Index) =
            delete_oldest (random ix.regions.nelems) ix >>= λ (status, ix1).
            let rest = make_slot f ix1 in
            if not (eqb_ℤ status (pos 0))
            then ok (status, ix1)
            else if has_space ix1.regions
            then ok (pos 0, ix1)
            else rest in
          if ix.regions.nelems == 0 then ok (pos enomem, ix) else turn

      -- The loop of `MakeSpace`: the status, the region and the indexes.
      unfoldable pub make_space : ℕ → Index → ℕ → Run (ℤ × ℕ × Index)
      unfolding delete_oldest Space.get
      make_space zero ix extent = fault out_of_fuel
      make_space (suc f) ix extent =
          let turn : Run (ℤ × ℕ × Index) =
            delete_oldest (random ix.regions.nelems) ix >>= λ (status, ix1).
            let tried : Run (ℤ × ℕ × Index) = Space.get (store_of ix1) extent >>= λ (rlix, s).
            let rest = make_space f (with_store ix1 s) extent in
            if rlix == rl_none then rest else ok (pos 0, rlix, with_store ix1 s) in
            if not (eqb_ℤ status (pos 0)) then ok (status, rl_none, ix1) else tried in
          if ix.regions.nelems == 0 then ok (pos enomem, rl_none, ix) else turn

-- ===== src/Storage/QueueIndexManager/Extents.antt =====
-- storage/pq/QueueIndexManager.cpp: a product gets at least the bytes that it asks for.
use rdm.Prelude.{
  ℕ, zero, suc, ◌+◌, ◌-◌, ◌*◌, ◌/◌, ◌%◌, ◌^◌, ◌<◌, ◌≤◌, ◌≡◌, refl, sym, ap, ◌∙◌, subst, inl, inr,
  Bool-cases, none, some, arith, ltb, if◌then◌else◌,
}
use native.Mathlib.Nat.{div-add-mod', mod-lt, mul_assoc, mul-mod_left}
use rdm.Prelude.Int.{ℤ, pos, eqb_ℤ, eq_of_eqb}
use rdm.Prelude.Run.{Run-cases, ok}
use rdm.Core.Timestamp.{Timestamp}
use rdm.Storage.RegionList.{has_space}
use rdm.Storage.SignatureIndex
use rdm.Storage.SignatureIndex.{Signature, SignatureIndex}
use rdm.Storage.QueueIndexManager.{Index, Info, round_up, make_slot}
use rdm.Storage.QueueIndexManager.Allocating.{
  find_region, fit_region, enter_region, enter_fitted, allocated, allocate_extent, allocate_rounded,
  allocate_product_space,
}
use rdm.Storage.QueueIndexManager.Slots.{IsReport, make_slot-align}
use rdm.Storage.QueueIndexManager.Regions.{
  find_region-IsLarge, fit_region-IsLarge, enter_region-large,
}

enter_fitted-zero :
    (random : ℕ → ℕ) (error : ℕ) (ix end : Index) (sig : Signature) (rlix : ℕ) (offset : ℤ)
    (got : ℕ)
    → enter_fitted random error ix sig rlix ≡ ok (allocated offset got, end)
    → (error ≡ 0) × (enter_region random ix sig rlix ≡ ok (allocated offset got, end))
unfolding enter_fitted
enter_fitted-zero random zero ix end sig rlix offset got h = (refl, h)
enter_fitted-zero random (suc error) ix end sig rlix offset got h = ground (arith, h)

even-mul : (q u : ℕ) → u % 2 ≡ 0 → q * u % 2 ≡ 0
even-mul q u h =
    let halves : u ≡ u / 2 * 2 = omega (arith, h) in
    ap (λ x. q * x % 2) halves
    ∙ (ap (λ x. x % 2) (sym (mul_assoc q (u / 2) 2)) ∙ mul-mod_left (q * (u / 2)) 2)

-- Rounding up does not make an extent smaller, and keeps it even for an even unit.
round_up-large : (x unit : ℕ) → 0 < unit → x + unit < 2 ^ 64 → x ≤ round_up x unit
round_up-large x unit p b =
    let whole : (x + unit + (2 ^ 64 - 1)) % 2 ^ 64 ≡ x + unit - 1 = omega (arith, p, b) in
    let parts = div-add-mod' ((x + unit + (2 ^ 64 - 1)) % 2 ^ 64) unit in
    let rest = mod-lt ((x + unit + (2 ^ 64 - 1)) % 2 ^ 64) p in omega (arith, whole, parts, rest)

module _ (decode : ℤ → ℕ → ℤ × Info) (mvrt : Timestamp → Info → Index → Index)
    (random : ℕ → ℕ → ℕ) where
  allocate_extent-large :
      (ix end : Index) (extent : ℕ) (sig : Signature) (offset : ℤ) (got : ℕ)
      → extent % 2 ≡ 0
      → allocate_extent decode mvrt random ix extent sig ≡ ok (allocated offset got, end)
      → extent ≤ got
  unfolding allocate_extent
  allocate_extent-large ix end extent sig offset got even h =
      elim (Run-cases (find_region decode mvrt random ix extent)) [
        | inr (x, a) ↦ ground (arith, h, a)
        | inl ((status, rlix, ix1), a) ↦ elim (Bool-cases (eqb_ℤ status (pos 0))) [
          | inr t ↦ ground (arith, h, a, t)
          | inl t ↦ elim (Run-cases (fit_region (random 0) ix1 rlix extent)) [
            | inr (x, b) ↦ ground (arith, h, a, t, b)
            | inl ((error, ix2), b) ↦
                let run : enter_fitted (random 1) error ix2 sig rlix
                    ≡ ok (allocated offset got, end) =
                  ground (arith, h, a, t, b) in
                let (e, entered) =
                  enter_fitted-zero (random 1) error ix2 end sig rlix offset got run in
                let good = eq_of_eqb status (pos 0) t in
                let large =
                  find_region-IsLarge decode mvrt random ix ix1 extent rlix
                    (a ∙ ap (λ x. ok (x, rlix, ix1)) good) in
                let fitted =
                  fit_region-IsLarge (random 0) ix1 ix2 rlix extent even large
                    (b ∙ ap (λ x. ok (x, ix2)) e) in
                enter_region-large (random 1) ix2 end sig rlix extent offset got fitted entered
          ]
        ]
      ]

  allocate_rounded-large :
      (ix end : Index) (extent : ℕ) (sig : Signature) (offset : ℤ) (got : ℕ)
      → 0 < ix.control.align
      → ix.control.align % 2 ≡ 0
      → extent + ix.control.align < 2 ^ 64
      → allocate_rounded decode mvrt random ix extent sig ≡ ok (allocated offset got, end)
      → extent ≤ got
  unfolding allocate_rounded
  allocate_rounded-large ix end extent sig offset got p even b h =
      let rounded : ℕ = round_up extent ix.control.align in
      let smallest : ℕ =
        if ltb rounded ix.smallest_extent_seen then rounded else ix.smallest_extent_seen in
      let large =
        allocate_extent-large (record ix { smallest_extent_seen = smallest }) end rounded sig offset
          got
          (even-mul ((extent + ix.control.align + (2 ^ 64 - 1)) % 2 ^ 64 / ix.control.align)
            ix.control.align even)
          h in
      omega (arith, round_up-large extent ix.control.align p b, large)

  -- Where AllocateProductSpace hands out space, it is at least as many bytes as were asked for, if
  -- the alignment of the queue is even and not zero, it and the extent stay below 2^64 together and
  -- the report of a deletion leaves the alignment and the number of elements alone.
  pub allocate-large :
      (ix end : Index) (extent : ℕ) (sig : Signature) (offset : ℤ) (got : ℕ)
      → IsReport decode mvrt
      → 0 < ix.control.align
      → ix.control.align % 2 ≡ 0
      → extent + ix.control.align < 2 ^ 64
      → allocate_product_space decode mvrt random ix extent sig ≡ ok (allocated offset got, end)
      → extent ≤ got
  unfolding allocate_product_space
  allocate-large ix end extent sig offset got report p even b h =
      elim (Run-cases (SignatureIndex.find ix.signatures sig)) [
        | inr (x, a) ↦ ground (arith, h, a)
        | inl (some element, a) ↦ ground (arith, h, a)
        | inl (none, a) ↦ elim (Bool-cases (has_space ix.regions)) [
          | inl t ↦
              allocate_rounded-large ix end extent sig offset got p even b (ground (arith, h, a, t))
          | inr t ↦ elim (Run-cases (make_slot decode mvrt random (ix.regions.nelems + 1) ix)) [
            | inr (x, c) ↦ ground (arith, h, a, t, c)
            | inl ((status, ix1), c) ↦ elim (Bool-cases (eqb_ℤ status (pos 0))) [
              | inr u ↦ ground (arith, h, a, t, c, u)
              | inl u ↦
                  let run : allocate_rounded decode mvrt random ix1 extent sig
                      ≡ ok (allocated offset got, end) =
                    ground (arith, h, a, t, c, u) in
                  let good = eq_of_eqb status (pos 0) u in
                  let same =
                    make_slot-align decode mvrt random (ix.regions.nelems + 1) ix ix1 report
                      (c ∙ ap (λ x. ok (x, ix1)) good) in
                  allocate_rounded-large ix1 end extent sig offset got
                    (subst (λ x. 0 < x) (sym same) p) (subst (λ x. x % 2 ≡ 0) (sym same) even)
                    (subst (λ x. extent + x < 2 ^ 64) (sym same) b) run
            ]
          ]
        ]
      ]

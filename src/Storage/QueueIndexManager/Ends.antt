-- ===== src/Storage/QueueIndexManager/Ends.antt =====
-- storage/pq/QueueIndexManager.cpp: the loops that delete products to make room come to an end.
use rdm.Prelude.{
  ℕ, zero, suc, ◌-◌, ◌^◌, ◌<◌, ◌≡◌, ◌≢◌, ap, ◌∙◌, ◌⊎◌, inl, inr, Bool-cases, true, arith,
  ℕ_discrete,
}
use rdm.Prelude.Errno.{enomem}
use rdm.Prelude.Int.{ℤ, pos, eqb_ℤ, eq_of_eqb}
use rdm.Prelude.Run.{Run-cases, Fault, ok, fault}
use rdm.Core.Timestamp.{Timestamp}
use rdm.Storage.RegionList.{rl_none, has_space}
use rdm.Storage.RegionList.Space
use rdm.Storage.RegionList.Space.Fits.{get-fits}
use rdm.Storage.QueueIndexManager.Slots.{IsReport, delete_oldest-nelems}
use rdm.Storage.QueueIndexManager.{
  Index, Info, store_of, with_store, delete_oldest, make_slot, make_space,
}

module _ (decode : ℤ → ℕ → ℤ × Info) (mvrt : Timestamp → Info → Index → Index)
    (random : ℕ → ℕ → ℕ) where
  -- What the deletions of the loop lead to, while each of them succeeds.
  pub data Reached : Index → Index → Type 0 where
    here : {ix : Index} → Reached ix ix
    deleted :
        {ix jx kx : Index}
        → delete_oldest decode mvrt (random ix.regions.nelems) ix ≡ ok (pos 0, jx)
        → Reached jx kx
        → Reached ix kx

  -- A fault of the deletion, or of Get after it, on indexes that the loop comes to.
  abbrev pub IsDeletionFault : Index → Fault → Type 0
  IsDeletionFault ix x =
      (jx : Index) × Reached ix jx
      × (delete_oldest decode mvrt (random jx.regions.nelems) jx ≡ fault x)

  abbrev pub IsGetFault : Index → ℕ → Fault → Type 0
  IsGetFault ix extent x = (jx : Index) × Reached ix jx × (Space.get (store_of jx) extent ≡ fault x)

  -- A turn that deletes takes one off the number of elements.
  turn-fewer :
      (ix ix1 : Index) (status : ℤ)
      → IsReport decode mvrt
      → ix.regions.nelems < 2 ^ 64
      → ix.regions.nelems ≢ 0
      → eqb_ℤ status (pos 0) ≡ true
      → delete_oldest decode mvrt (random ix.regions.nelems) ix ≡ ok (status, ix1)
      → (delete_oldest decode mvrt (random ix.regions.nelems) ix ≡ ok (pos 0, ix1))
        × (ix1.regions.nelems ≡ ix.regions.nelems - 1)
  turn-fewer ix ix1 status report b d t a =
      let run = a ∙ ap (λ x. ok (x, ix1)) (eq_of_eqb status (pos 0) t) in
      let (fell, align) =
        delete_oldest-nelems decode mvrt (random ix.regions.nelems) ix ix1 report run in
      (run, omega (arith, fell, b, d))

  make_slot-ends :
      (f : ℕ) (ix : Index)
      → IsReport decode mvrt
      → ix.regions.nelems < 2 ^ 64
      → ix.regions.nelems < f
      → ((r : ℤ × Index) × (make_slot decode mvrt random f ix ≡ ok r))
        ⊎ ((x : Fault) × (make_slot decode mvrt random f ix ≡ fault x) × IsDeletionFault ix x)
  unfolding make_slot
  make_slot-ends zero ix report b p = absurd (omega arith)
  make_slot-ends (suc f) ix report b p = elim (ℕ_discrete ix.regions.nelems 0) [
    | yes e ↦ inl ((pos enomem, ix), ground (arith, e))
    | no d ↦ elim (Run-cases (delete_oldest decode mvrt (random ix.regions.nelems) ix)) [
      | inr (x, a) ↦ inr (x, ground (arith, d, a), (ix, here, a))
      | inl ((status, ix1), a) ↦ elim (Bool-cases (eqb_ℤ status (pos 0))) [
        | inr t ↦ inl ((status, ix1), ground (arith, d, a, t))
        | inl t ↦
            let (run, below) = turn-fewer ix ix1 status report b d t a in
            elim (Bool-cases (has_space ix1.regions)) [
              | inl u ↦ inl ((pos 0, ix1), ground (arith, d, a, t, u))
              | inr u ↦
                  elim (make_slot-ends f ix1 report (omega (arith, below, b))
                    (omega (arith, below, p, d))) [
                      | inl (r, h) ↦ inl (r, ground (arith, d, a, t, u, h))
                      | inr (x, h, (jx, reached, fails)) ↦
                          inr (x, ground (arith, d, a, t, u, h), (jx, deleted run reached, fails))
                    ]
            ]
      ]
    ]
  ]

  make_space-ends :
      (f : ℕ) (ix : Index) (extent : ℕ)
      → IsReport decode mvrt
      → ix.regions.nelems < 2 ^ 64
      → ix.regions.nelems < f
      → ((r : ℤ × ℕ × Index) × (make_space decode mvrt random f ix extent ≡ ok r))
        ⊎ ((x : Fault) × (make_space decode mvrt random f ix extent ≡ fault x)
            × (IsDeletionFault ix x ⊎ IsGetFault ix extent x))
  unfolding make_space
  make_space-ends zero ix extent report b p = absurd (omega arith)
  make_space-ends (suc f) ix extent report b p = elim (ℕ_discrete ix.regions.nelems 0) [
    | yes e ↦ inl ((pos enomem, rl_none, ix), ground (arith, e))
    | no d ↦ elim (Run-cases (delete_oldest decode mvrt (random ix.regions.nelems) ix)) [
      | inr (x, a) ↦ inr (x, ground (arith, d, a), inl (ix, here, a))
      | inl ((status, ix1), a) ↦ elim (Bool-cases (eqb_ℤ status (pos 0))) [
        | inr t ↦ inl ((status, rl_none, ix1), ground (arith, d, a, t))
        | inl t ↦
            let (run, below) = turn-fewer ix ix1 status report b d t a in
            elim (Run-cases (Space.get (store_of ix1) extent)) [
              | inr (x, c) ↦ inr (x, ground (arith, d, a, t, c), inr (ix1, deleted run here, c))
              | inl ((rlix, s), c) ↦ elim (get-fits (store_of ix1) s extent rlix c) [
                | inr found ↦
                    inl ((pos 0, rlix, with_store ix1 s), ground (arith, d, a, t, c, found.1))
                | inl (missing, same) ↦
                    let back : with_store ix1 s ≡ ix1 = ap (λ z. with_store ix1 z) same in
                    let rest : make_space decode mvrt random (suc f) ix extent
                        ≡ make_space decode mvrt random f ix1 extent =
                      ground (arith, d, a, t, c, missing)
                      ∙ ap (λ z. make_space decode mvrt random f z extent) back in
                    elim (make_space-ends f ix1 extent report (omega (arith, below, b))
                      (omega (arith, below, p, d))) [
                        | inl (r, h) ↦ inl (r, rest ∙ h)
                        | inr (x, h, inl (jx, reached, fails)) ↦
                            inr (x, rest ∙ h, inl (jx, deleted run reached, fails))
                        | inr (x, h, inr (jx, reached, fails)) ↦
                            inr (x, rest ∙ h, inr (jx, deleted run reached, fails))
                      ]
              ]
            ]
      ]
    ]
  ]

-- With fewer than 2^64 elements, a report of a deletion that leaves their number and the alignment
-- alone, and more fuel than there are elements, the loops of MakeSlot and MakeSpace end: each
-- returns, or stops at a fault of DeleteOldest or of Get itself on indexes that its deletions have
-- led to. The loops run out of fuel nowhere else.
pub loops-end :
    (decode : ℤ → ℕ → ℤ × Info) (mvrt : Timestamp → Info → Index → Index) (random : ℕ → ℕ → ℕ)
    (ix : Index) (extent f : ℕ)
    → IsReport decode mvrt
    → ix.regions.nelems < 2 ^ 64
    → ix.regions.nelems < f
    → (((r : ℤ × Index) × (make_slot decode mvrt random f ix ≡ ok r))
        ⊎ ((x : Fault) × (make_slot decode mvrt random f ix ≡ fault x)
            × IsDeletionFault decode mvrt random ix x))
      × (((r : ℤ × ℕ × Index) × (make_space decode mvrt random f ix extent ≡ ok r))
          ⊎ ((x : Fault) × (make_space decode mvrt random f ix extent ≡ fault x)
              × (IsDeletionFault decode mvrt random ix x
                  ⊎ IsGetFault decode mvrt random ix extent x)))
loops-end decode mvrt random ix extent f report b p = (
  make_slot-ends decode mvrt random f ix report b p,
  make_space-ends decode mvrt random f ix extent report b p,
)

-- ===== src/Storage/QueueIndexManager/Slots.antt =====
-- storage/pq/QueueIndexManager.cpp: what the deletions that make room leave of the indexes.
use rdm.Prelude.{
  ℕ, zero, suc, ◌+◌, ◌≡◌, ◌≢◌, ap, ◌∙◌, ◌⊎◌, inl, inr, Bool-cases, Option-cases, true, false,
  Option, none, some, get_elem?, arith, length, ◌==◌,
}
use rdm.Prelude.Errno.{eacces}
use rdm.Prelude.Int.{ℤ, pos, eqb_ℤ, eq_of_eqb}
use rdm.Prelude.Run.{Run-cases, ok}
use rdm.Core.Timestamp.{Timestamp}
use rdm.Storage.RegionList
use rdm.Storage.RegionList.{Region, RegionList, rl_none, fewer, has_space, get_extent}
use rdm.Storage.RegionList.Space
use rdm.Storage.RegionList.Space.Elements.{free-nelems}
use rdm.Storage.SignatureIndex
use rdm.Storage.SignatureIndex.{SignatureIndex}
use rdm.Storage.TimeQueue
use rdm.Storage.TimeQueue.{Times, TimeQueueElement}
use rdm.Storage.QueueIndexManager.{
  Index, Info, store_of, times_of, with_times, delete_product, try_delete_product, delete_from,
  delete_oldest, make_slot,
}

-- A deletion that succeeds takes one off the number of elements, any other changes no region; the
-- control header stays.
abbrev IsDeletion : Index → ℤ × Info × Index → Type 0
IsDeletion ix r =
    ((r.0 ≡ pos 0) × (r.2.regions.nelems ≡ fewer ix.regions.nelems) × (r.2.control ≡ ix.control))
    ⊎ ((r.0 ≢ pos 0) × (r.2.regions ≡ ix.regions) × (r.2.control ≡ ix.control))

-- One element fewer, and the same alignment.
abbrev pub IsFewer : Index → Index → Type 0
IsFewer ix end =
    (end.regions.nelems ≡ fewer ix.regions.nelems) × (end.control.align ≡ ix.control.align)

module _ (decode : ℤ → ℕ → ℤ × Info) where
  delete_product-IsDeletion :
      (random : ℕ → ℕ) (ix : Index) (i rlix : ℕ) (info : Info) (r : ℤ × Info × Index)
      → delete_product decode random ix i rlix info ≡ ok r
      → IsDeletion ix r
  unfolding delete_product
  delete_product-IsDeletion random ix i rlix info r h =
      elim (Run-cases (SignatureIndex.remove ix.signatures info.signature)) [
        | inr (x, a) ↦ ground (arith, h, a)
        | inl ((removed, signatures), a) ↦ elim (Bool-cases removed) [
          | inr t ↦ inr (ground (arith, h, a, t))
          | inl t ↦
              let ix1 : Index = record ix { signatures = signatures } in
              elim (Run-cases (TimeQueue.delete (times_of ix1) i)) [
                | inr (x, b) ↦ ground (arith, h, a, t, b)
                | inl (times, b) ↦
                    let ix2 : Index = with_times ix1 times in
                    elim (Run-cases (Space.free random (store_of ix2) rlix)) [
                      | inr (x, c) ↦ ground (arith, h, a, t, b, c)
                      | inl (s, c) ↦
                          let less = free-nelems random (store_of ix2) s rlix c in
                          inl (ground (arith, h, a, t, b, c, less))
                    ]
              ]
        ]
      ]

  try_delete_product-IsDeletion :
      (random : ℕ → ℕ) (ix : Index) (i rlix : ℕ) (r : ℤ × Info × Index)
      → try_delete_product decode random ix i rlix ≡ ok r
      → IsDeletion ix r
  unfolding try_delete_product
  try_delete_product-IsDeletion random ix i rlix r h =
      elim (Option-cases (get_elem? ix.regions.rp rlix)) [
        | inl a ↦ ground (arith, h, a)
        | inr (rep, a) ↦ elim (Option-cases (get_elem? ix.times.tqep i)) [
          | inl b ↦ ground (arith, h, a, b)
          | inr (e, b) ↦
              let (status, info) = decode rep.offset (get_extent rep) in
              elim (Bool-cases (eqb_ℤ rep.offset e.offset)) [
                | inr t ↦ inr (ground (arith, h, a, b, t))
                | inl t ↦ elim (Bool-cases (eqb_ℤ status (pos 0))) [
                  | inr u ↦ inr (ground (arith, h, a, b, t, u))
                  | inl u ↦
                      delete_product-IsDeletion random ix i rlix info r
                        (ground (arith, h, a, b, t, u))
                ]
              ]
        ]
      ]

  module _ (mvrt : Timestamp → Info → Index → Index) where
    -- The report of a deletion leaves the number of elements and the alignment alone.
    abbrev pub IsReport : Type 0
    IsReport =
        (t : Timestamp) (i : Info) (ix : Index)
        → ((mvrt t i ix).regions.nelems ≡ ix.regions.nelems)
          × ((mvrt t i ix).control.align ≡ ix.control.align)

    -- The report after the deletion.
    abbrev reported_to : Index → Timestamp → Info → Index
    reported_to ix t info =
        mvrt t info (record ix { control = record ix.control { is_full = true } })

    delete_from-done :
        (random : ℕ → ℕ) (f : ℕ) (ix end ix1 : Index) (i rlix : ℕ) (status st : ℤ) (info : Info)
        (e : TimeQueueElement)
        → get_elem? ix.times.tqep i ≡ some e
        → RegionList.find ix.regions e.offset ≡ ok rlix
        → (rlix == rl_none) ≡ false
        → try_delete_product decode random ix i rlix ≡ ok (st, info, ix1)
        → st ≡ pos 0
        → delete_from decode mvrt random (suc f) ix (some i) status ≡ ok (pos 0, end)
        → end ≡ reported_to ix1 e.tv info
    unfolding delete_from
    delete_from-done random f ix end ix1 i rlix status st info e a b t c good h =
        ground (arith, h, a, b, t, c, good) steps 30000000

    delete_from-nelems :
        (random : ℕ → ℕ) (f : ℕ) (ix end : Index) (tqep : Option ℕ) (status : ℤ)
        → IsReport
        → status ≢ pos 0
        → delete_from decode mvrt random f ix tqep status ≡ ok (pos 0, end)
        → IsFewer ix end
    unfolding delete_from
    delete_from-nelems random zero ix end tqep status report n h = ground (arith, h)
    delete_from-nelems random (suc f) ix end none status report n h = ground (arith, h, n)
    delete_from-nelems random (suc f) ix end (some i) status report n h =
        elim (Option-cases (get_elem? ix.times.tqep i)) [
          | inl a ↦ ground (arith, h, a)
          | inr (e, a) ↦ elim (Run-cases (RegionList.find ix.regions e.offset)) [
            | inr (x, b) ↦ ground (arith, h, a, b)
            | inl (rlix, b) ↦ elim (Bool-cases (rlix == rl_none)) [
              | inl t ↦ ground (arith, h, a, b, t, n)
              | inr t ↦ elim (Run-cases (try_delete_product decode random ix i rlix)) [
                | inr (x, c) ↦ ground (arith, h, a, b, t, c)
                | inl ((st, info, ix1), c) ↦
                    let full : Index = record ix1 {
                      control = record ix1.control { is_full = true };
                    } in
                    let reported = report e.tv info full in
                    elim (try_delete_product-IsDeletion random ix i rlix (st, info, ix1) c) [
                      | inl (good, fell, control) ↦
                          let is : end ≡ mvrt e.tv info full =
                            delete_from-done random f ix end ix1 i rlix status st info e a b t c
                              good h in
                          (
                            ap (λ x. x.regions.nelems) is ∙ (reported.0 ∙ fell),
                            ap (λ x. x.control.align) is ∙ (reported.1 ∙ ap (λ x. x.align) control),
                          )
                      | inr (bad, same, control) ↦ elim (Bool-cases (eqb_ℤ st (pos eacces))) [
                        | inr u ↦ ground (arith, h, a, b, t, c, bad, u)
                        | inl u ↦ elim (Run-cases (TimeQueue.next (times_of ix1) i)) [
                          | inr (x, d) ↦ ground (arith, h, a, b, t, c, bad, u, d)
                          | inl (next, d) ↦
                              let (fell, align) =
                                delete_from-nelems random f ix1 end (some next) st report bad
                                  (ground (arith, h, a, b, t, c, bad, u, d)) in
                              (
                                fell ∙ ap (λ x. fewer x.nelems) same,
                                align ∙ ap (λ x. x.align) control,
                              )
                        ]
                      ]
                    ]
              ]
            ]
          ]
        ]

    pub delete_oldest-nelems :
        (random : ℕ → ℕ) (ix end : Index)
        → IsReport
        → delete_oldest decode mvrt random ix ≡ ok (pos 0, end)
        → IsFewer ix end
    unfolding delete_oldest
    delete_oldest-nelems random ix end report h = elim (Run-cases (TimeQueue.first (times_of ix))) [
      | inr (x, a) ↦ ground (arith, h, a)
      | inl (oldest, a) ↦
          delete_from-nelems random (length ix.times.tqep + 2) ix end oldest (pos eacces) report
            (λ e. ground (arith, e)) (ground (arith, h, a))
    ]

    module _ (random : ℕ → ℕ → ℕ) where
      pub make_slot-align :
          (f : ℕ) (ix end : Index)
          → IsReport
          → make_slot decode mvrt random f ix ≡ ok (pos 0, end)
          → end.control.align ≡ ix.control.align
      unfolding make_slot
      make_slot-align zero ix end report h = ground (arith, h)
      make_slot-align (suc f) ix end report h =
          elim (Run-cases (delete_oldest decode mvrt (random ix.regions.nelems) ix)) [
            | inr (x, a) ↦ ground (arith, h, a)
            | inl ((status, ix1), a) ↦ elim (Bool-cases (eqb_ℤ status (pos 0))) [
              | inr t ↦ ground (arith, h, a, t)
              | inl t ↦
                  let good = eq_of_eqb status (pos 0) t in
                  let (fell, align) =
                    delete_oldest-nelems (random ix.regions.nelems) ix ix1 report
                      (a ∙ ap (λ x. ok (x, ix1)) good) in
                  elim (Bool-cases (has_space ix1.regions)) [
                    | inl u ↦ ground (arith, h, a, t, u, align)
                    | inr u ↦ make_slot-align f ix1 end report (ground (arith, h, a, t, u)) ∙ align
                  ]
            ]
          ]

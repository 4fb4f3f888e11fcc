-- ===== src/Storage/ProductQueue/Reserved.antt =====
-- storage/pq/ProductQueue.cpp: an entry that is handed out has room for the product.
use rdm.Prelude.{ℕ, ◌+◌, ◌%◌, ◌^◌, ◌<◌, ◌≤◌, ◌≡◌, ap, ◌∙◌, inl, inr, Bool-cases, arith}
use rdm.Prelude.Int.{ℤ, pos, ◌+ℤ◌}
use rdm.Prelude.Run.{Run-cases, ok}
use rdm.Core.Timestamp.{Timestamp, greater, minus}
use rdm.Storage.Control.{Pqctl}
use rdm.Storage.RegionList.{RegionList}
use rdm.Storage.QueueMetrics.{track_mvrt, record_stay, start_of}
use rdm.Storage.SignatureIndex.{Signature}
use rdm.Storage.QueueIndexManager.{Index, Info}
use rdm.Storage.QueueIndexManager.Allocating.{
  Allocation, allocated, refused, allocate_product_space,
}
use rdm.Storage.QueueIndexManager.Lookup.{free_by_offset}
use rdm.Storage.QueueIndexManager.Slots.{IsReport}
use rdm.Storage.QueueIndexManager.Extents.{allocate-large}
use rdm.Storage.ProductQueue.{
  ProductQueue, Answers, reserved, mvrt_func, new_element, new_element_direct, finish_element,
  finish_direct, tracked,
}

record_stay-align :
    (ctl : Pqctl) (rl : RegionList) (t : Timestamp) → (record_stay ctl rl t).align ≡ ctl.align
unfolding record_stay
record_stay-align ctl rl t = ground arith

-- The report of a deletion changes neither the number of elements nor the alignment.
mvrt_func-IsReport : (now : Timestamp) (decode : ℤ → ℕ → ℤ × Info) → IsReport decode (mvrt_func now)
unfolding mvrt_func track_mvrt
mvrt_func-IsReport now decode t i ix =
    let start : Timestamp = start_of i.arrival t in
    elim (Bool-cases (greater now start)) [
      | inr later ↦ ground (arith, later)
      | inl later ↦ ground (arith, later, record_stay-align ix.control ix.regions (minus now start))
    ]

finish_element-reserved :
    (q end : ProductQueue) (a : Answers) (r : Allocation) (ix : Index) (offset : ℤ) (got : ℕ)
    → finish_element q a r ix ≡ (reserved offset got, end)
    → (r ≡ allocated offset got) × (end.pqe_count ≡ q.pqe_count +ℤ pos 1)
unfolding finish_element
finish_element-reserved q end a (refused status) ix offset got h = ground (arith, h)
finish_element-reserved q end a (allocated o e) ix offset got h = elim (Bool-cases a.is_mapped) [
  | inr t ↦ ground (arith, h, t)
  | inl t ↦ elim (Bool-cases a.is_encoded) [
    | inr u ↦ ground (arith, h, t, u)
    | inl u ↦ ground (arith, h, t, u)
  ]
]

finish_direct-reserved :
    (q end : ProductQueue) (a : Answers) (sig : Signature) (r : Allocation) (ix : Index)
    (offset : ℤ) (got : ℕ)
    → finish_direct q a sig r ix ≡ ok (reserved offset got, end)
    → (r ≡ allocated offset got) × (end.pqe_count ≡ q.pqe_count +ℤ pos 1)
unfolding finish_direct
finish_direct-reserved q end a sig (refused status) ix offset got h = ground (arith, h)
finish_direct-reserved q end a sig (allocated o e) ix offset got h = elim (Bool-cases a.is_mapped) [
  | inl t ↦ ground (arith, h, t)
  | inr t ↦ elim (Run-cases (free_by_offset (a.levels 0) (tracked ix o e) o sig)) [
    | inr (x, b) ↦ ground (arith, h, t, b)
    | inl ((status, ix2), b) ↦ ground (arith, h, t, b)
  ]
]

-- The alignment of the queue and an extent for which rounding up does what it should.
abbrev pub IsAligned : ProductQueue → ℕ → Type 0
IsAligned q extent =
    (0 < q.index.control.align)
    × (q.index.control.align % 2 ≡ 0)
    × (extent + q.index.control.align < 2 ^ 64)

new_element-run :
    (q end : ProductQueue) (a : Answers) (size extent : ℕ) (sig : Signature) (offset : ℤ) (got : ℕ)
    → new_element q a size extent sig ≡ ok (reserved offset got, end)
    → (r : Allocation) × (ix : Index) × (allocate_product_space a.decode
          (mvrt_func a.now)
          a.levels
          q.index
          extent
          sig
        ≡ ok (r, ix))
      × (finish_element q a r ix ≡ (reserved offset got, end))
unfolding new_element
new_element-run q end a size extent sig offset got h =
    elim (Run-cases
      (allocate_product_space a.decode (mvrt_func a.now) a.levels q.index extent sig)) [
        | inr (x, b) ↦ ground (arith, h, b)
        | inl ((r, ix), b) ↦ (r, ix, b, ground (arith, h, b))
      ]

new_element_direct-run :
    (q end : ProductQueue) (a : Answers) (size : ℕ) (sig : Signature) (offset : ℤ) (got : ℕ)
    → new_element_direct q a size sig ≡ ok (reserved offset got, end)
    → (r : Allocation) × (ix : Index) × (allocate_product_space a.decode
          (mvrt_func a.now)
          a.levels
          q.index
          size
          sig
        ≡ ok (r, ix))
      × (finish_direct q a sig r ix ≡ ok (reserved offset got, end))
unfolding new_element_direct
new_element_direct-run q end a size sig offset got h =
    elim (Run-cases (allocate_product_space a.decode (mvrt_func a.now) a.levels q.index size sig)) [
      | inr (x, b) ↦ ground (arith, h, b)
      | inl ((r, ix), b) ↦ (r, ix, b, ground (arith, h, b))
    ]

allocated-large :
    (q : ProductQueue) (a : Answers) (extent : ℕ) (sig : Signature) (offset : ℤ) (got : ℕ)
    (r : Allocation) (ix : Index)
    → IsAligned q extent
    → r ≡ allocated offset got
    → allocate_product_space a.decode (mvrt_func a.now) a.levels q.index extent sig ≡ ok (r, ix)
    → extent ≤ got
allocated-large q a extent sig offset got r ix (p, even, b) same run =
    allocate-large a.decode (mvrt_func a.now) a.levels q.index ix extent sig offset got
      (mvrt_func-IsReport a.now a.decode) p even b (run ∙ ap (λ x. ok (x, ix)) same)

-- Where newElement or newElementDirect hands out an entry of a queue with an even alignment that is
-- not zero, and the extent and the alignment stay below 2^64 together: its region has room for as
-- many bytes as were asked for, whatever products were deleted to make room, and one entry more is
-- counted.
pub entry-large :
    (q end : ProductQueue) (a : Answers) (size extent : ℕ) (sig : Signature) (offset : ℤ) (got : ℕ)
    → IsAligned q extent
    → (new_element q a size extent sig ≡ ok (reserved offset got, end)
        → (extent ≤ got) × (end.pqe_count ≡ q.pqe_count +ℤ pos 1))
      × (new_element_direct q a extent sig ≡ ok (reserved offset got, end)
          → (extent ≤ got) × (end.pqe_count ≡ q.pqe_count +ℤ pos 1))
entry-large q end a size extent sig offset got aligned = (
  (λ h.
      let (r, ix, run, finished) = new_element-run q end a size extent sig offset got h in
      let (same, counted) = finish_element-reserved q end a r ix offset got finished in
      (allocated-large q a extent sig offset got r ix aligned same run, counted)),
  (λ h.
      let (r, ix, run, finished) = new_element_direct-run q end a extent sig offset got h in
      let (same, counted) = finish_direct-reserved q end a sig r ix offset got finished in
      (allocated-large q a extent sig offset got r ix aligned same run, counted)),
)

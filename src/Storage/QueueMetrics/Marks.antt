-- ===== src/Storage/QueueMetrics/Marks.antt =====
-- storage/pq/QueueMetrics.h: the high-water marks bound what was measured, and never fall.
use rdm.Prelude.{ℕ, ◌≤◌, ◌≡◌, inl, inr, Option-cases, none, some, List, [], ◌∷◌, arith}
use rdm.Prelude.Int.{ℤ, pos, ◌+ℤ◌, ◌-ℤ◌, ◌≤ℤ◌}
use rdm.Core.Timestamp.{Timestamp, minus}
use rdm.Storage.Control.{Pqctl}
use rdm.Storage.RegionList.{RegionList}
use rdm.Storage.QueueMetrics.{
  Metrics, track_allocation, track_mvrt, mark_most_recent, clear_mvrt, record_stay, start_of,
}

pub data Event : Type 0 where
  allocation : ℤ → ℕ → Event
  residence : Timestamp → Timestamp → Timestamp → Event
  most_recent : Timestamp → Event
  cleared : Event

abbrev pub handle : Metrics → Event → Metrics
handle m (allocation offset extent) = track_allocation m offset extent
handle m (residence now creation reception) = track_mvrt m now creation reception
handle m (most_recent now) = mark_most_recent m now
handle m cleared = clear_mvrt m

abbrev pub run : Metrics → List Event → Metrics
run m [] = m
run m (e ∷ es) = run (handle m e) es

abbrev pub high : Metrics → ℤ
high m = elim m.control [ none ↦ pos 0 | some ctl ↦ ctl.highwater ]

abbrev pub products : Metrics → ℕ
products m = elim m.control [ none ↦ 0 | some ctl ↦ ctl.maxproducts ]

abbrev bytes_now : Metrics → ℕ
bytes_now m = elim m.regions [ none ↦ 0 | some rl ↦ rl.nbytes ]

abbrev bytes_most : Metrics → ℕ
bytes_most m = elim m.regions [ none ↦ 0 | some rl ↦ rl.maxbytes ]

-- No mark is lower than before.
abbrev pub IsRise : Metrics → Metrics → Type 0
IsRise m n = (high m ≤ℤ high n) × (products m ≤ products n) × (bytes_most m ≤ bytes_most n)

-- The bytes in use are not more than the most that were in use.
abbrev pub IsBounded : Metrics → Type 0
IsBounded m = bytes_now m ≤ bytes_most m

track_allocation-IsRise :
    (m : Metrics) (offset : ℤ) (extent : ℕ)
    → IsRise m (track_allocation m offset extent)
      × (IsBounded m → IsBounded (track_allocation m offset extent))
unfolding track_allocation
track_allocation-IsRise m offset extent = elim (Option-cases m.control) [
  | inl c ↦ ground (arith, c)
  | inr (ctl, c) ↦ elim (Option-cases m.regions) [
    | inl r ↦ ground (arith, c, r)
    | inr (rl, r) ↦ ground (arith, c, r)
  ]
]

record_stay-same :
    (ctl : Pqctl) (rl : RegionList) (t : Timestamp)
    → ((record_stay ctl rl t).highwater ≡ ctl.highwater)
      × ((record_stay ctl rl t).maxproducts ≡ ctl.maxproducts)
unfolding record_stay
record_stay-same ctl rl t = ground arith

track_mvrt-IsRise :
    (m : Metrics) (now creation reception : Timestamp)
    → IsRise m (track_mvrt m now creation reception)
      × (IsBounded m → IsBounded (track_mvrt m now creation reception))
unfolding track_mvrt
track_mvrt-IsRise m now creation reception = elim (Option-cases m.control) [
  | inl c ↦ ground (arith, c)
  | inr (ctl, c) ↦ elim (Option-cases m.regions) [
    | inl r ↦ ground (arith, c, r)
    | inr (rl, r) ↦
        let same = record_stay-same ctl rl (minus now (start_of creation reception)) in
        ground (arith, c, r, same)
  ]
]

handle-IsRise :
    (m : Metrics) (e : Event) → IsRise m (handle m e) × (IsBounded m → IsBounded (handle m e))
unfolding mark_most_recent clear_mvrt
handle-IsRise m (allocation offset extent) = track_allocation-IsRise m offset extent
handle-IsRise m (residence now creation reception) = track_mvrt-IsRise m now creation reception
handle-IsRise m (most_recent now) = elim (Option-cases m.control) [
  | inl c ↦ ground (arith, c)
  | inr (ctl, c) ↦ ground (arith, c)
]
handle-IsRise m cleared = elim (Option-cases m.control) [
  | inl c ↦ ground (arith, c)
  | inr (ctl, c) ↦ ground (arith, c)
]

run-IsRise :
    (es : List Event) (m : Metrics) → IsRise m (run m es) × (IsBounded m → IsBounded (run m es))
run-IsRise [] m = omega arith
run-IsRise (e ∷ es) m =
    let (rise, bounded) = handle-IsRise m e in
    let (rise_on, bounded_on) = run-IsRise es (handle m e) in
    (omega (arith, rise, rise_on), (λ h. bounded_on (bounded h)))

allocation-marks :
    (m : Metrics) (offset : ℤ) (extent : ℕ) (ctl : Pqctl) (rl : RegionList)
    → m.control ≡ some ctl
    → m.regions ≡ some rl
    → ((offset +ℤ pos extent) -ℤ ctl.datao ≤ℤ high (track_allocation m offset extent))
      × (rl.nelems ≤ products (track_allocation m offset extent))
      × IsBounded (track_allocation m offset extent)
unfolding track_allocation
allocation-marks m offset extent ctl rl c r = ground (arith, c, r)

-- With a control header and a list of regions: after the tracking of an allocation and of whatever
-- comes then, the mark of the offsets is at least the end of that allocation, the mark of the
-- products at least their number at that time, the bytes in use are within their mark, and no mark
-- is lower than before all this.
pub marks-bound :
    (es : List Event) (m : Metrics) (offset : ℤ) (extent : ℕ) (ctl : Pqctl) (rl : RegionList)
    → m.control ≡ some ctl
    → m.regions ≡ some rl
    → let n = run m (allocation offset extent ∷ es) in
      ((offset +ℤ pos extent) -ℤ ctl.datao ≤ℤ high n)
      × (rl.nelems ≤ products n)
      × IsBounded n
      × IsRise m n
marks-bound es m offset extent ctl rl c r =
    let (high_mark, product_mark, bounded) = allocation-marks m offset extent ctl rl c r in
    let (rise, first) = handle-IsRise m (allocation offset extent) in
    let (rise_on, bounded_on) = run-IsRise es (track_allocation m offset extent) in
    (
      omega (arith, high_mark, rise_on),
      omega (arith, product_mark, rise_on),
      bounded_on bounded,
      omega (arith, rise, rise_on),
    )

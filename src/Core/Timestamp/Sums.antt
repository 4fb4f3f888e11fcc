-- ===== src/Core/Timestamp/Sums.antt =====
-- core/Timestamp.cpp: `operator+` and `operator-` on normal times.
use rdm.Prelude.{◌≡◌, true, arith}
use rdm.Prelude.Int.{pos, ◌≤ℤ◌, +ℤ_parts, -ℤ_parts, ◌+ℤ◌, ◌-ℤ◌}
use rdm.Core.Timestamp.{Timestamp, plus, minus, equal}
use rdm.Core.Timestamp.Order.{IsNormal, eq_of_equal}

pub plus-IsNormal : (t r : Timestamp) → IsNormal t → IsNormal r → IsNormal (plus t r)
unfolding plus ◌+ℤ◌ ◌-ℤ◌
plus-IsNormal t r n m = ground arith

pub minus-IsNormal : (t r : Timestamp) → IsNormal t → IsNormal r → IsNormal (minus t r)
unfolding minus ◌+ℤ◌ ◌-ℤ◌
minus-IsNormal t r n m = ground arith

-- A difference that borrows, on the sum that carried.
equal-minus-plus :
    (t r : Timestamp)
    → IsNormal t
    → IsNormal r
    → pos 0 ≤ℤ t.tv_sec
    → equal (minus (plus t r) r) t ≡ true
unfolding plus minus equal
equal-minus-plus t r n m h =
    let sec = t.tv_sec +ℤ r.tv_sec in
    let usec = t.tv_usec +ℤ r.tv_usec in
    let sec1 = sec +ℤ pos 1 in
    let usec1 = usec -ℤ pos 1000000 in
    ground (
      arith,
      +ℤ_parts t.tv_sec r.tv_sec,
      +ℤ_parts t.tv_usec r.tv_usec,
      -ℤ_parts sec r.tv_sec,
      -ℤ_parts usec r.tv_usec,
      +ℤ_parts sec (pos 1),
      -ℤ_parts usec (pos 1000000),
      -ℤ_parts sec1 r.tv_sec,
      -ℤ_parts usec1 r.tv_usec,
      -ℤ_parts (sec1 -ℤ r.tv_sec) (pos 1),
      +ℤ_parts (usec1 -ℤ r.tv_usec) (pos 1000000),
    )

-- Of normal times, the first from the epoch on: a sum is normal, and taking the second time away
-- again gives the first one.
pub minus-plus :
    (t r : Timestamp)
    → IsNormal t
    → IsNormal r
    → pos 0 ≤ℤ t.tv_sec
    → IsNormal (plus t r) × (minus (plus t r) r ≡ t)
minus-plus t r n m h =
    (plus-IsNormal t r n m, eq_of_equal (minus (plus t r) r) t (equal-minus-plus t r n m h))

-- ===== src/Core/Timestamp/Order.antt =====
-- core/Timestamp.cpp: the comparison operators, and the neighbours of a time.
use rdm.Prelude.{◌≡◌, true, false, not, arith}
use rdm.Prelude.Int.{ℤ, pos, ◌≤ℤ◌, ltb_ℤ, eqb_ℤ, eq_of_parts, ◌+ℤ◌, ◌-ℤ◌, ◌*ℤ◌}
use rdm.Core.Timestamp.{
  Timestamp, equal, less, less_equal, greater, greater_equal, increment_microsecond,
  decrement_microsecond,
}

-- 0 ≤ tv_usec < 1000000
abbrev pub IsNormal : Timestamp → Type 0
IsNormal t = (pos 0 ≤ℤ t.tv_usec) × (t.tv_usec ≤ℤ pos 999999)

pub eq_of_equal : (t r : Timestamp) → equal t r ≡ true → t ≡ r
unfolding equal
eq_of_equal t r h =
    let sec : t.tv_sec ≡ r.tv_sec = ground (arith, eq_of_parts t.tv_sec r.tv_sec) in
    let usec : t.tv_usec ≡ r.tv_usec = ground (arith, eq_of_parts t.tv_usec r.tv_usec) in
    λ i. record { tv_sec = sec i; tv_usec = usec i }

-- A time as the number of microseconds since the epoch.
unfoldable pub micros : Timestamp → ℤ
unfolding ◌+ℤ◌ ◌*ℤ◌
micros t = t.tv_sec *ℤ pos 1000000 +ℤ t.tv_usec

-- On normal times the operators <, <=, >, >= and == are the comparisons of the numbers of
-- microseconds since the epoch.
pub compare-micros :
    (t r : Timestamp)
    → IsNormal t
    → IsNormal r
    → (less t r ≡ ltb_ℤ (micros t) (micros r))
      × (less_equal t r ≡ not (ltb_ℤ (micros r) (micros t)))
      × (greater t r ≡ ltb_ℤ (micros r) (micros t))
      × (greater_equal t r ≡ not (ltb_ℤ (micros t) (micros r)))
      × (equal t r ≡ eqb_ℤ (micros t) (micros r))
unfolding less equal less_equal greater greater_equal micros ◌+ℤ◌ ◌*ℤ◌
compare-micros t r n m = (ground arith, ground arith, ground arith, ground arith, ground arith)

-- `<` is transitive.
pub less_trans : (t r u : Timestamp) → less t r ≡ true → less r u ≡ true → less t u ≡ true
unfolding less
less_trans t r u h k = ground arith

back :
    (t : Timestamp) → IsNormal t → equal (decrement_microsecond (increment_microsecond t)) t ≡ true
unfolding equal increment_microsecond decrement_microsecond ◌+ℤ◌ ◌-ℤ◌
back t n = ground arith

-- The increment of a normal time is normal and later, and the decrement takes it back.
pub decrement-increment :
    (t : Timestamp)
    → IsNormal t
    → (less t (increment_microsecond t) ≡ true)
      × (decrement_microsecond (increment_microsecond t) ≡ t)
      × IsNormal (increment_microsecond t)
unfolding less increment_microsecond ◌+ℤ◌
decrement-increment t n = (
  ground arith,
  eq_of_equal (decrement_microsecond (increment_microsecond t)) t (back t n),
  ground arith,
)

-- No normal time lies between a normal time and its increment.
increment-least :
    (t r : Timestamp)
    → IsNormal t
    → IsNormal r
    → less t r ≡ true
    → less r (increment_microsecond t) ≡ false
unfolding less increment_microsecond ◌+ℤ◌
increment-least t r n m h = ground arith

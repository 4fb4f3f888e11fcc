-- ===== src/Core/Timestamp/Tests.antt =====
-- Times on concrete values.
use rdm.Prelude.{◌≡◌, refl, true, not, arith}
use rdm.Prelude.Int.{pos, ltb_ℤ, eqb_ℤ, ◌+ℤ◌, ◌*ℤ◌, ◌-ℤ◌}
use rdm.Core.Timestamp.{
  Timestamp, plus, minus, equal, less, less_equal, greater, greater_equal, increment_microsecond,
  decrement_microsecond, zero_time, end_time, none_time,
}
use rdm.Core.Timestamp.Order.{IsNormal, micros, compare-micros, decrement-increment}
use rdm.Core.Timestamp.Sums.{minus-plus}

abbrev noon : Timestamp
noon = record { tv_sec = pos 43199; tv_usec = pos 999999 }

abbrev later : Timestamp
later = record { tv_sec = pos 7; tv_usec = pos 500000 }

none_first : less none_time zero_time ≡ true
unfolding less
none_first = refl

borrow_below_epoch : minus zero_time later ≡ record { tv_sec = pos 0; tv_usec = pos 0 }
unfolding minus ◌-ℤ◌
borrow_below_epoch = refl

compare-micros_example :
    (less noon end_time ≡ ltb_ℤ (micros noon) (micros end_time))
    × (less_equal noon end_time ≡ not (ltb_ℤ (micros end_time) (micros noon)))
    × (greater noon end_time ≡ ltb_ℤ (micros end_time) (micros noon))
    × (greater_equal noon end_time ≡ not (ltb_ℤ (micros noon) (micros end_time)))
    × (equal noon end_time ≡ eqb_ℤ (micros noon) (micros end_time))
compare-micros_example =
    compare-micros noon end_time (omega arith, omega arith) (omega arith, omega arith)

noon-micros : micros noon ≡ pos 43199999999
unfolding micros ◌+ℤ◌ ◌*ℤ◌
noon-micros = refl

decrement-increment_example :
    (less noon (increment_microsecond noon) ≡ true)
    × (decrement_microsecond (increment_microsecond noon) ≡ noon)
    × IsNormal (increment_microsecond noon)
decrement-increment_example = decrement-increment noon (omega arith, omega arith)

noon_before_end : less noon end_time ≡ true
unfolding less
noon_before_end = refl

minus-plus_example : IsNormal (plus noon later) × (minus (plus noon later) later ≡ noon)
minus-plus_example =
    minus-plus noon later (omega arith, omega arith) (omega arith, omega arith) (omega arith)

-- ===== src/Core/Timestamp.antt =====
-- core/Timestamp.h and .cpp: seconds and microseconds, with the arithmetic and the order of the
-- source. `int64_t` and `int32_t` values are integers.
pub mod Order
pub mod Sums
mod Tests
use rdm.Prelude.{ℕ, ◌-◌, Bool, true, false, not, ◌&&◌, ◌||◌, if◌then◌else◌}
use rdm.Prelude.Int.{ℤ, pos, negsuc, ◌+ℤ◌, ◌-ℤ◌, ltb_ℤ, eqb_ℤ}

pub record Timestamp : Type 0 where
  pub tv_sec : ℤ
  pub tv_usec : ℤ

abbrev pub none_time : Timestamp
none_time = record { tv_sec = negsuc 0; tv_usec = negsuc 0 }

abbrev pub zero_time : Timestamp
zero_time = record { tv_sec = pos 0; tv_usec = pos 0 }

abbrev pub end_time : Timestamp
end_time = record { tv_sec = pos 0x7fffffff; tv_usec = pos 999999 }

-- `operator+`
unfoldable pub plus : Timestamp → Timestamp → Timestamp
plus t r =
    let sec = t.tv_sec +ℤ r.tv_sec in
    let usec = t.tv_usec +ℤ r.tv_usec in
    if ltb_ℤ usec (pos 1000000)
    then record { tv_sec = sec; tv_usec = usec }
    else record { tv_sec = sec +ℤ pos 1; tv_usec = usec -ℤ pos 1000000 }

-- `operator-`
unfoldable pub minus : Timestamp → Timestamp → Timestamp
minus t r =
    let sec = t.tv_sec -ℤ r.tv_sec in
    let usec = t.tv_usec -ℤ r.tv_usec in
    if ltb_ℤ usec (pos 0)
    then if ltb_ℤ (pos 0) sec
      then record { tv_sec = sec -ℤ pos 1; tv_usec = usec +ℤ pos 1000000 }
      else record { tv_sec = pos 0; tv_usec = pos 0 }
    else record { tv_sec = sec; tv_usec = usec }

unfoldable pub equal : Timestamp → Timestamp → Bool
equal t r = eqb_ℤ t.tv_sec r.tv_sec && eqb_ℤ t.tv_usec r.tv_usec

unfoldable pub less : Timestamp → Timestamp → Bool
less t r = if eqb_ℤ t.tv_sec r.tv_sec then ltb_ℤ t.tv_usec r.tv_usec else ltb_ℤ t.tv_sec r.tv_sec

unfoldable pub less_equal : Timestamp → Timestamp → Bool
unfolding less equal
less_equal t r = less t r || equal t r

unfoldable pub greater : Timestamp → Timestamp → Bool
unfolding less_equal
greater t r = not (less_equal t r)

unfoldable pub greater_equal : Timestamp → Timestamp → Bool
unfolding less
greater_equal t r = not (less t r)

unfoldable pub increment_microsecond : Timestamp → Timestamp
increment_microsecond t =
    if eqb_ℤ t.tv_usec (pos 999999)
    then record { tv_sec = t.tv_sec +ℤ pos 1; tv_usec = pos 0 }
    else record { tv_sec = t.tv_sec; tv_usec = t.tv_usec +ℤ pos 1 }

unfoldable pub decrement_microsecond : Timestamp → Timestamp
decrement_microsecond t =
    if eqb_ℤ t.tv_usec (pos 0)
    then record { tv_sec = t.tv_sec -ℤ pos 1; tv_usec = pos 999999 }
    else record { tv_sec = t.tv_sec; tv_usec = t.tv_usec -ℤ pos 1 }

-- ===== src/Core/FeedType/Tests.antt =====
-- Feed types on concrete input.
use rdm.Prelude.{ℕ, ◌+◌, ◌≡◌, refl, List, [], Option, none, some, arith}
use rdm.Prelude.Text.{bytes}
use rdm.Prelude.Run.{ok, fault, out_of_fuel}
use rdm.Core.FeedType.Masks.{wmo}
use rdm.Core.FeedType.Names.{feed_defs, to_string, decompose, up_to_any}
use rdm.Core.FeedType.Expression.{
  ParseState, parse, parse_ok, err_rp, err_garb, err_ukft, diff_token, diff_loop,
}
use rdm.Core.FeedType.Cover.{to_string-covers, union_with}
use rdm.Core.FeedType.Diverges.{diff_loop-stuck}

-- A `stoul` that reads no number.
abbrev no_number : List ℕ → Option (ℕ × ℕ)
no_number word = none

wmo_without_pps : parse no_number 60 (bytes " WMO - (pps|dds)") ≡ ok (parse_ok, some 12)
unfolding parse
wmo_without_pps = refl

open_paren : parse no_number 60 (bytes "(wmo|pps") ≡ ok (err_rp, none)
unfolding parse
open_paren = refl

two_names : parse no_number 60 (bytes "wmo pps") ≡ ok (err_garb, none)
unfolding parse
two_names = refl

unknown_name : parse no_number 60 (bytes "bogus") ≡ ok (err_ukft, none)
unfolding parse
unknown_name = refl

unknown_then_minus : parse no_number 200 (bytes "wmo-bogus-pps") ≡ fault out_of_fuel
unfolding parse
unknown_then_minus = refl

text_of_wmo_gps : to_string (wmo + 0x40000) ≡ bytes "GPS|WMO"
unfolding to_string
text_of_wmo_gps = refl

text_of_high_bit : to_string 0x80000001 ≡ bytes "PPS|0x80000000"
unfolding to_string
text_of_high_bit = refl

to_string-covers_example :
    union_with
      (decompose (up_to_any feed_defs []) 0x80000003).0
      (decompose (up_to_any feed_defs []) 0x80000003).1
    ≡ 0x80000003
to_string-covers_example = to_string-covers 0x80000003 (omega arith)

-- The state behind `wmo-bogus-`.
abbrev behind_bogus : ParseState
behind_bogus = record { err = err_ukft; tok = diff_token; name = bytes "bogus"; cp = bytes "pps" }

diff_loop-stuck_example : diff_loop no_number 1000 15 diff_token behind_bogus ≡ fault out_of_fuel
diff_loop-stuck_example = diff_loop-stuck no_number 1000 15 behind_bogus refl refl

-- ===== src/Core/FeedType/Diverges.antt =====
-- core/FeedType.cpp: a `-` behind an unknown name.
use rdm.Prelude.{ℕ, zero, suc, ◌≡◌, refl, sym, subst, true, List, Option, bit_and}
use rdm.Prelude.Bits.{flip}
use rdm.Prelude.Run.{ok, fault, out_of_fuel}
use rdm.Core.FeedType.Masks.{Mask}
use rdm.Core.FeedType.Expression.{
  ParseState, failed, advance_token, parse_primary, diff_loop, diff_token,
}

advance-failed : (ps : ParseState) → failed ps ≡ true → advance_token ps ≡ ps
unfolding advance_token
advance-failed ps h = rw h refl

module _ (stoul : List ℕ → Option (ℕ × ℕ)) where
  parse_primary-failed :
      (fuel : ℕ) (ps : ParseState)
      → failed ps ≡ true
      → parse_primary stoul (suc fuel) ps ≡ ok (0, ps)
  unfolding parse_primary
  parse_primary-failed fuel ps h = rw h refl

  -- With an error set, and `-` the token, the loop of ParseTerm runs out of any fuel: AdvanceToken
  -- leaves the token alone and ParsePrimary returns at once, so that the loop never ends.
  pub diff_loop-stuck :
      (fuel : ℕ) (left : Mask) (ps : ParseState)
      → failed ps ≡ true
      → ps.tok ≡ diff_token
      → diff_loop stoul fuel left ps.tok ps ≡ fault out_of_fuel
  unfolding diff_loop
  diff_loop-stuck zero left ps h t = refl
  diff_loop-stuck (suc zero) left ps h t =
      subst (λ tok. diff_loop stoul 1 left tok ps ≡ fault out_of_fuel) (sym t) refl
  diff_loop-stuck (suc (suc f)) left ps h t =
      let again = diff_loop-stuck (suc f) (bit_and left (flip 32 0)) ps h t in
      subst (λ tok. diff_loop stoul (suc (suc f)) left tok ps ≡ fault out_of_fuel) (sym t)
        (rw (advance-failed ps h, parse_primary-failed f ps h) again)

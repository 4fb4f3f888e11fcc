-- ===== src/Core/ProdClass/Selection.antt =====
-- core/ProdClass.cpp: the products that a class selects.
use rdm.Prelude.{
  ℕ, ◌≡◌, Bool, false, not, ◌&&◌, ◌||◌, List, [], ◌∷◌, Option, none, some, arith, bit_and, ◌==◌,
}
use rdm.Core.Pattern.{new_pattern, is_match}
use rdm.Core.ProdClass.{
  ProdSpec, ProdInfo, ProdClass, earlier, matches_all, any_spec, contains, is_empty,
}

-- The arrival lies in the interval of the class, its ends included.
unfoldable pub in_time : ProdClass → ProdInfo → Bool
in_time c info =
    not (earlier info.arrival.tv_sec info.arrival.tv_usec c.from_sec c.from_usec)
    && not (earlier c.to_sec c.to_usec info.arrival.tv_sec info.arrival.tv_usec)

module _ (regex : List ℕ → Bool → Option (List ℕ → Bool)) where
  -- The pattern of a spec is trivial, or compiles and is found in the identifier.
  unfoldable pub text_matches : List ℕ → List ℕ → Bool
  text_matches pattern ident =
      matches_all pattern || elim (new_pattern regex pattern false) as (λ _. Bool) [
        | none ↦ false
        | some pat ↦ is_match regex pat ident
      ]

  -- The spec has a feed type in common with the product, and its pattern matches.
  unfoldable pub spec_selects : ProdSpec → ProdInfo → Bool
  spec_selects sp info =
      not (bit_and info.feedtype sp.feedtype == 0) && text_matches sp.pattern info.ident

  unfoldable pub some_selects : List ProdSpec → ProdInfo → Bool
  some_selects [] info = false
  some_selects (sp ∷ specs) info = spec_selects sp info || some_selects specs info

  unfoldable pub selects : ProdClass → ProdInfo → Bool
  selects c info = in_time c info && (is_empty c.specs || some_selects c.specs info)

  any_spec-selects :
      (specs : List ProdSpec) (info : ProdInfo) (b : Bool)
      → any_spec regex specs info ≡ some b
      → b ≡ some_selects specs info
  unfolding any_spec some_selects spec_selects text_matches
  any_spec-selects [] info b h = ground (arith, h)
  any_spec-selects (sp ∷ specs) info b h = ground (arith, any_spec-selects specs info b)

  -- Where Contains does not throw, its answer is whether the arrival lies in the interval of the
  -- class and, if the class has specs, one of them has a feed type in common with the product and
  -- a pattern that matches its identifier.
  pub contains-selects :
      (c : ProdClass) (info : ProdInfo) (b : Bool)
      → contains regex c info ≡ some b
      → b ≡ selects c info
  unfolding contains selects in_time
  contains-selects c info b h = ground (arith, any_spec-selects c.specs info b)

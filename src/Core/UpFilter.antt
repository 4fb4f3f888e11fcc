-- ===== src/Core/UpFilter.antt =====
-- core/UpFilter.h and .cpp: the filter that an upstream process applies to each product.
pub mod Disjoint
use rdm.Prelude.{
  ℕ, Bool, true, false, not, ◌&&◌, ◌||◌, List, [], ◌∷◌, ◌++◌, Option, none, some, ◌==◌,
  if◌then◌else◌, bit_and,
}
use rdm.Core.FeedType.Masks.{Mask}
use rdm.Core.Pattern.{Pattern, is_match}
use rdm.Core.ProdClass.{ProdInfo}

pub record Element : Type 0 where
  pub ft : Mask
  pub ok_pattern : Pattern
  pub not_pattern : Option Pattern

-- `feedtype & elt->ft` for one of the elements.
unfoldable pub overlaps : Mask → List Element → Bool
overlaps feedtype [] = false
overlaps feedtype (elt ∷ elements) =
    not (bit_and feedtype elt.ft == 0) || overlaps feedtype elements

-- `AddComponent`, or none where it throws `std::invalid_argument`.
unfoldable pub add_component :
    List Element → Mask → Pattern → Option Pattern → Option (List Element)
unfolding overlaps
add_component elements feedtype ok_pattern not_pattern =
    let elt : Element = record {
      ft = feedtype;
      ok_pattern = ok_pattern;
      not_pattern = not_pattern;
    } in
    if overlaps feedtype elements then none else some (elements ++ (elt ∷ []))

module _ (regex : List ℕ → Bool → Option (List ℕ → Bool)) where
  -- `okMatch && !notMatch`
  unfoldable pub passes : Element → List ℕ → Bool
  passes elt ident =
      let not_match : Bool = elim elt.not_pattern [
        | none ↦ false
        | some p ↦ is_match regex p ident
      ] in
      is_match regex elt.ok_pattern ident && not not_match

  -- `IsMatch`: the first element with a feed type in common decides.
  unfoldable pub filter_match : List Element → ProdInfo → Bool
  unfolding passes
  filter_match [] info = false
  filter_match (elt ∷ elements) info =
      let rest = filter_match elements info in
      if bit_and elt.ft info.feedtype == 0 then rest else passes elt info.ident

-- ===== src/Core/UpFilter/Disjoint.antt =====
-- core/UpFilter.cpp: the feed types of the elements are disjoint.
use rdm.Prelude.{
  ◌≡◌, refl, ◌⊎◌, inl, inr, Bool-cases, Bool, true, false, not, ◌&&◌, ◌||◌, List, [], ◌∷◌, ◌++◌,
  Option, none, some, ◌==◌, bit_and, arith,
}
use rdm.Prelude.Bits.{bit_and_comm}
use rdm.Core.FeedType.Masks.{Mask}
use rdm.Core.Pattern.{Pattern}
use rdm.Core.UpFilter.{Element, overlaps, add_component}

-- No two elements have a feed type in common.
unfoldable pub disjoint : List Element → Bool
disjoint [] = true
disjoint (elt ∷ elements) = not (overlaps elt.ft elements) && disjoint elements

overlaps-append :
    (m : Mask) (xs : List Element) (y : Element)
    → overlaps m (xs ++ (y ∷ [])) ≡ (overlaps m xs || not (bit_and m y.ft == 0))
unfolding overlaps
overlaps-append m [] y = ground arith
overlaps-append m (x ∷ xs) y = ground (arith, overlaps-append m xs y)

pub disjoint-append :
    (xs : List Element) (y : Element)
    → disjoint xs ≡ true
    → overlaps y.ft xs ≡ false
    → disjoint (xs ++ (y ∷ [])) ≡ true
unfolding disjoint overlaps
disjoint-append [] y h k = refl
disjoint-append (x ∷ xs) y h k =
    ground (arith, disjoint-append xs y, overlaps-append x.ft xs y, bit_and_comm y.ft x.ft)

-- AddComponent throws exactly where the feed type overlaps that of an element; otherwise it appends
-- the element, and disjoint elements stay disjoint.
pub add_component-disjoint :
    (elements : List Element) (feedtype : Mask) (okp : Pattern) (notp : Option Pattern)
    → disjoint elements ≡ true
    → ((overlaps feedtype elements ≡ true) × (add_component elements feedtype okp notp ≡ none))
      ⊎ ((overlaps feedtype elements ≡ false)
          × ((elts : List Element) × (add_component elements feedtype okp notp ≡ some elts)
              × (elts
                  ≡ elements
                    ++ (record { ft = feedtype; ok_pattern = okp; not_pattern = notp } ∷ []))
              × (disjoint elts ≡ true)))
unfolding add_component
add_component-disjoint elements feedtype okp notp h =
    let elt : Element = record { ft = feedtype; ok_pattern = okp; not_pattern = notp } in
    elim (Bool-cases (overlaps feedtype elements)) [
      | inl o ↦ inl (o, rw o refl)
      | inr o ↦ inr (o, (elements ++ (elt ∷ []), rw o refl, refl, disjoint-append elements elt h o))
    ]

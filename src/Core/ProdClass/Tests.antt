-- ===== src/Core/ProdClass/Tests.antt =====
-- Product classes on concrete input.
use rdm.Prelude.{ℕ, ◌≡◌, ◌≢◌, refl, Bool, true, false, List, [], ◌∷◌, ◌++◌, Option, some, arith}
use rdm.Prelude.Int.{pos}
use rdm.Prelude.Text.{bytes, text_eq}
use rdm.Core.FeedType.Masks.{wmo, ids}
use rdm.Core.Pattern.{sanitize_expression, new_pattern, is_match}
use rdm.Core.Pattern.Sanitized.{stars, has_prefix, is_empty, sanitize-trims}
use rdm.Core.ProdClass.{ProdInfo, ProdClass, contains, matches_all, intersect, get_union_feedtype}
use rdm.Core.ProdClass.Selection.{
  selects, in_time, some_selects, spec_selects, text_matches, contains-selects,
}
use rdm.Core.ProdClass.Meet.{intersect-selects}

-- An expression is found in the text that it is.
abbrev pub literal : List ℕ → Bool → Option (List ℕ → Bool)
literal ere ignore_case = some (text_eq ere)

abbrev all_day : ProdClass
all_day = record {
  from_sec = pos 0;
  from_usec = pos 0;
  to_sec = pos 86400;
  to_usec = pos 0;
  specs = record { feedtype = wmo; pattern = bytes ".*" } ∷ [];
}

abbrev morning : ProdClass
morning = record {
  from_sec = pos 100;
  from_usec = pos 5;
  to_sec = pos 99999;
  to_usec = pos 0;
  specs =
      record { feedtype = ids; pattern = bytes "SAUS" }
      ∷ record { feedtype = 0x40000000; pattern = bytes "x" }
      ∷ [];
}

abbrev product : ProdInfo
product = record {
  arrival = record { tv_sec = pos 100; tv_usec = pos 7 };
  feedtype = ids;
  ident = bytes "SAUS";
}

contains-product : contains literal morning product ≡ some true
unfolding contains
contains-product = refl

met : ProdClass
met = (intersect all_day morning all_day).1

met_once : get_union_feedtype met.specs 0 ≡ ids
unfolding get_union_feedtype met intersect
met_once = refl

contains-selects_example : true ≡ selects literal morning product
contains-selects_example = contains-selects literal morning product true contains-product

intersect_answers : (intersect all_day morning all_day).0 ≡ true
unfolding intersect
intersect_answers = refl

intersect_keeps : selects literal (intersect all_day morning all_day).1 product ≡ true
unfolding selects intersect in_time some_selects spec_selects text_matches matches_all new_pattern
    is_match
intersect_keeps = refl

ids_not_none : ids ≢ 0
ids_not_none e = absurd (omega arith)

intersect-selects_example :
    (selects literal all_day product ≡ true) × (selects literal morning product ≡ true)
intersect-selects_example =
    intersect-selects literal all_day morning all_day product refl ids_not_none (omega arith)
      intersect_answers intersect_keeps

sanitize-trims_example :
    ((n : ℕ) × (bytes ".*.*.*KTLX" ≡ stars n ++ sanitize_expression (bytes ".*.*.*KTLX")))
    × (has_prefix (sanitize_expression (bytes ".*.*.*KTLX")) ≡ false)
    × (is_empty (sanitize_expression (bytes ".*.*.*KTLX")) ≡ false)
sanitize-trims_example = sanitize-trims (bytes ".*.*.*KTLX")

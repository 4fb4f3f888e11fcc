-- ===== src/Core/AclManager/Tests.antt =====
-- Access rules and filters on concrete input.
use rdm.Prelude.{
  ℕ, ◌≡◌, ◌≢◌, refl, ◌⊎◌, Bool, true, false, List, [], ◌∷◌, ◌++◌, Option, none, some, ◌&&◌, bit_and,
}
use rdm.Prelude.Bits.{bit}
use rdm.Prelude.Int.{pos}
use rdm.Prelude.Text.{bytes, text_eq}
use rdm.Core.FeedType.Masks.{wmo, ids, dds, nexrad}
use rdm.Core.Pattern.{Pattern}
use rdm.Core.ProdClass.{ProdSpec, ProdInfo, ProdClass, matches_all}
use rdm.Core.ProdClass.Selection.{some_selects, spec_selects, text_matches}
use rdm.Core.UpFilter.{Element, overlaps, add_component, filter_match}
use rdm.Core.UpFilter.Disjoint.{disjoint, add_component-disjoint}
use rdm.Core.AclManager.{AclManager, get_allowed, reduce_specs, get_upstream_filter}
use rdm.Core.AclManager.Bounds.{allows_bit, get_allowed-bits, reduce_specs-selects}
use rdm.Core.AclManager.Upstream.{permits, get_upstream_filter-permits}

-- An expression is found in the text that it is.
abbrev literal : List ℕ → Bool → Option (List ℕ → Bool)
literal ere ignore_case = some (text_eq ere)

abbrev literal_host : List ℕ → Option (List ℕ → Bool)
literal_host ere = some (text_eq ere)

abbrev match_all : Pattern
match_all = record { ere = bytes ".*"; ignore_case = false; is_match_all = true }

abbrev acl : AclManager
acl = record {
  allow_rules =
      record {
        feedtype = wmo;
        host_pattern = bytes "a.edu";
        ok_pattern = match_all;
        not_pattern = none;
      }
      ∷ record {
        feedtype = nexrad;
        host_pattern = bytes "b.edu";
        ok_pattern = match_all;
        not_pattern = none;
      }
      ∷ [];
  accept_rules = [];
}

abbrev two_specs : List ProdSpec
two_specs =
    record { feedtype = ids; pattern = bytes ".*" }
    ∷ record { feedtype = dds; pattern = bytes "SAUS" }
    ∷ []

abbrev want : ProdClass
want = record {
  from_sec = pos 0;
  from_usec = pos 0;
  to_sec = pos 1000;
  to_usec = pos 0;
  specs = two_specs;
}

abbrev bulletin : ProdInfo
bulletin = record {
  arrival = record { tv_sec = pos 10; tv_usec = pos 0 };
  feedtype = ids;
  ident = bytes "SAUS";
}

abbrev filter_for_a : List Element
filter_for_a =
    record { ft = ids; ok_pattern = match_all; not_pattern = none }
    ∷ record { ft = dds; ok_pattern = match_all; not_pattern = none }
    ∷ []

filter_is :
    get_upstream_filter literal_host acl (bytes "a.edu") (bytes "10.0.0.1") want
    ≡ some (some filter_for_a)
unfolding get_upstream_filter
filter_is = refl

get_upstream_filter-permits_example :
    (disjoint filter_for_a ≡ true)
    × (filter_match literal filter_for_a bulletin ≡ true
        → permits literal literal_host (bytes "a.edu") (bytes "10.0.0.1") bulletin acl.allow_rules
          ≡ true)
get_upstream_filter-permits_example =
    get_upstream_filter-permits literal literal_host (bytes "a.edu") (bytes "10.0.0.1") bulletin acl
      want filter_for_a filter_is

get_allowed-bits_example :
    bit 1 (get_allowed literal_host acl (bytes "a.edu") (bytes "10.0.0.1") 0xffffffff) ≡ (
      bit 1 0xffffffff
      && allows_bit literal_host 1 (bytes "a.edu") (bytes "10.0.0.1") acl.allow_rules)
get_allowed-bits_example =
    get_allowed-bits literal_host acl (bytes "a.edu") (bytes "10.0.0.1") 0xffffffff 1

reduced_selects : some_selects literal (reduce_specs two_specs wmo) bulletin ≡ true
unfolding some_selects reduce_specs spec_selects text_matches matches_all
reduced_selects = refl

reduce_specs-selects_example :
    (some_selects literal two_specs bulletin ≡ true) × (bit_and ids wmo ≢ 0)
reduce_specs-selects_example = reduce_specs-selects literal two_specs wmo bulletin reduced_selects

filter_disjoint : disjoint filter_for_a ≡ true
unfolding disjoint overlaps
filter_disjoint = refl

add_component-disjoint_example :
    ((overlaps wmo filter_for_a ≡ true) × (add_component filter_for_a wmo match_all none ≡ none))
    ⊎ ((overlaps wmo filter_for_a ≡ false)
        × ((elts : List Element) × (add_component filter_for_a wmo match_all none ≡ some elts)
            × (elts
                ≡ filter_for_a
                  ++ (record { ft = wmo; ok_pattern = match_all; not_pattern = none } ∷ []))
            × (disjoint elts ≡ true)))
add_component-disjoint_example =
    add_component-disjoint filter_for_a wmo match_all none filter_disjoint

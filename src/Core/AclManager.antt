-- ===== src/Core/AclManager.antt =====
-- core/AclManager.h and .cpp, and the rules of core/ServerConfig.h: what a host may request and
-- what is accepted from it.
pub mod Bounds
pub mod Upstream
mod Tests
use rdm.Prelude.{
  ℕ, zero, suc, Bool, true, false, not, ◌&&◌, ◌||◌, List, [], ◌∷◌, ◌++◌, Option, none, some, ◌==◌,
  if◌then◌else◌, map, bit_and, bit_or,
}
use rdm.Prelude.Text.{text_eq}
use rdm.Core.FeedType.Masks.{Mask, none_feed}
use rdm.Core.Pattern.{Pattern}
use rdm.Core.ProdClass.{ProdSpec, ProdClass, is_empty}
use rdm.Core.UpFilter.{Element, add_component}

pub record AllowRule : Type 0 where
  pub feedtype : Mask
  pub host_pattern : List ℕ
  pub ok_pattern : Pattern
  pub not_pattern : Option Pattern

pub record AcceptRule : Type 0 where
  pub feedtype : Mask
  pub prod_pattern : Pattern
  pub host_pattern : List ℕ
  pub is_primary : Bool

pub record AclManager : Type 0 where
  pub allow_rules : List AllowRule
  pub accept_rules : List AcceptRule

unfoldable pub requires_server : AclManager → Bool
requires_server acl = elim acl.allow_rules [
  | [] ↦ elim acl.accept_rules [ [] ↦ false | r ∷ rs ↦ true ]
  | r ∷ rs ↦ true
]

-- The loop over the specs in `ReduceToAllowed` and `ReduceToAcceptable`.
unfoldable pub reduce_specs : List ProdSpec → Mask → List ProdSpec
reduce_specs [] feed = []
reduce_specs (spec ∷ specs) feed =
    let rest = reduce_specs specs feed in
    let reduced = bit_and spec.feedtype feed in
    if spec.feedtype == none_feed
    then spec ∷ rest
    else if reduced == none_feed
    then rest
    else record { feedtype = reduced; pattern = spec.pattern } ∷ rest

-- The two functions after the feed type is known: the status, and what is in `intersect` after.
unfoldable pub reduce : Mask → ProdClass → ProdClass → ℕ × ProdClass
unfolding reduce_specs
reduce feed want intersect =
    let specs = reduce_specs want.specs feed in
    if feed == none_feed
    then (1, intersect)
    else (if is_empty specs then 1 else 0, record want { specs = specs })

-- `std::regex` with the flags extended and icase: the texts in which an expression is found, or
-- none where the constructor throws.
module _ (regex : List ℕ → Option (List ℕ → Bool)) where
  unfoldable pub is_host_match : List ℕ → List ℕ → List ℕ → Bool
  unfolding text_eq
  is_host_match host_name ip_addr pattern = elim (regex pattern) [
    | some found ↦ found ip_addr || found host_name
    | none ↦ text_eq ip_addr pattern || text_eq host_name pattern
  ]

  unfoldable pub some_allow : List ℕ → List ℕ → List AllowRule → Bool
  unfolding is_host_match
  some_allow host_name ip_addr [] = false
  some_allow host_name ip_addr (rule ∷ rules) =
      is_host_match host_name ip_addr rule.host_pattern || some_allow host_name ip_addr rules

  unfoldable pub some_accept : List ℕ → List ℕ → List AcceptRule → Bool
  unfolding is_host_match
  some_accept host_name ip_addr [] = false
  some_accept host_name ip_addr (rule ∷ rules) =
      is_host_match host_name ip_addr rule.host_pattern || some_accept host_name ip_addr rules

  unfoldable pub is_host_ok : AclManager → List ℕ → List ℕ → Bool
  unfolding some_allow some_accept
  is_host_ok acl host_name ip_addr =
      some_allow host_name ip_addr acl.allow_rules || some_accept host_name ip_addr acl.accept_rules

  -- The loops that accumulate the feed types of the rules for a host.
  unfoldable pub allowed_feed : List ℕ → List ℕ → List AllowRule → Mask → Mask
  unfolding is_host_match
  allowed_feed host_name ip_addr [] acc = acc
  allowed_feed host_name ip_addr (rule ∷ rules) acc =
      allowed_feed host_name ip_addr rules (
        if is_host_match host_name ip_addr rule.host_pattern then bit_or acc rule.feedtype else acc)

  unfoldable pub accepted_feed : List ℕ → List ℕ → List AcceptRule → Mask → Mask
  unfolding is_host_match
  accepted_feed host_name ip_addr [] acc = acc
  accepted_feed host_name ip_addr (rule ∷ rules) acc =
      accepted_feed host_name ip_addr rules (
        if is_host_match host_name ip_addr rule.host_pattern then bit_or acc rule.feedtype else acc)

  unfoldable pub get_allowed : AclManager → List ℕ → List ℕ → Mask → Mask
  unfolding allowed_feed
  get_allowed acl host_name ip_addr desired =
      bit_and desired (allowed_feed host_name ip_addr acl.allow_rules 0)

  unfoldable pub reduce_to_allowed :
      AclManager → List ℕ → List ℕ → ProdClass → ProdClass → ℕ × ProdClass
  unfolding reduce get_allowed
  reduce_to_allowed acl host_name ip_addr want intersect =
      reduce (get_allowed acl host_name ip_addr 0xffffffff) want intersect

  unfoldable pub reduce_to_acceptable :
      AclManager → List ℕ → List ℕ → ProdClass → ProdClass → ℕ × ProdClass
  unfolding reduce accepted_feed
  reduce_to_acceptable acl host_name ip_addr offered intersect =
      reduce (accepted_feed host_name ip_addr acl.accept_rules none_feed) offered intersect

  -- The inner loop of `GetUpstreamFilter`: the first rule for the spec adds an element.
  unfoldable pub add_for_spec :
      List ℕ → List ℕ → ProdSpec → List AllowRule → List Element → Option (List Element)
  unfolding is_host_match add_component
  add_for_spec host_name ip_addr spec [] filt = some filt
  add_for_spec host_name ip_addr spec (rule ∷ rules) filt =
      let both = bit_and rule.feedtype spec.feedtype in
      let rest = add_for_spec host_name ip_addr spec rules filt in
      if not (both == none_feed) && is_host_match host_name ip_addr rule.host_pattern
      then add_component filt both rule.ok_pattern rule.not_pattern
      else rest

  unfoldable pub add_for_specs :
      List ℕ → List ℕ → List AllowRule → List ProdSpec → List Element → Option (List Element)
  unfolding add_for_spec
  add_for_specs host_name ip_addr rules [] filt = some filt
  add_for_specs host_name ip_addr rules (spec ∷ specs) filt =
      elim (add_for_spec host_name ip_addr spec rules filt) [
        | none ↦ none
        | some added ↦ add_for_specs host_name ip_addr rules specs added
      ]

  -- None where `AddComponent` throws; otherwise the filter, or none for the null pointer.
  unfoldable pub get_upstream_filter :
      AclManager → List ℕ → List ℕ → ProdClass → Option (Option (List Element))
  unfolding add_for_specs
  get_upstream_filter acl host_name ip_addr want =
      elim (add_for_specs host_name ip_addr acl.allow_rules want.specs []) [
        | none ↦ none
        | some [] ↦ some none
        | some (elt ∷ filt) ↦ some (some (elt ∷ filt))
      ]

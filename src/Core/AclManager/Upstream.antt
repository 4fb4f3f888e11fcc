-- ===== src/Core/AclManager/Upstream.antt =====
-- core/AclManager.cpp: `GetUpstreamFilter` passes only what an ALLOW rule for the host permits.
use rdm.Prelude.{
  ℕ, ◌≡◌, ◌≢◌, refl, ◌∙◌, inl, inr, Bool, Option-cases, true, false, not, ◌&&◌, ◌||◌, List, [], ◌∷◌,
  ◌++◌, Option, some, ◌==◌, bit_and, arith,
}
use rdm.Prelude.Bits.{bit_and_comm}
use rdm.Core.FeedType.Masks.{Mask}
use rdm.Core.Pattern.{Pattern}
use rdm.Core.ProdClass.{ProdSpec, ProdInfo, ProdClass}
use rdm.Core.ProdClass.Meet.{and-parts}
use rdm.Core.UpFilter.{Element, add_component, filter_match, passes}
use rdm.Core.UpFilter.Disjoint.{disjoint, disjoint-append}
use rdm.Core.AclManager.{
  AllowRule, AclManager, is_host_match, add_for_spec, add_for_specs, get_upstream_filter,
}

-- The two compilers of expressions: of patterns, and of host patterns.
module _ (regex : List ℕ → Bool → Option (List ℕ → Bool)) (hosts : List ℕ → Option (List ℕ → Bool))
    (host_name ip_addr : List ℕ) (info : ProdInfo) where
  -- Some element has a feed type in common with the product and lets its identifier pass.
  unfoldable some_passes : List Element → Bool
  some_passes [] = false
  some_passes (elt ∷ elements) =
      (not (bit_and elt.ft info.feedtype == 0) && passes regex elt info.ident)
      || some_passes elements

  -- The same of the rules for the host.
  unfoldable pub permits : List AllowRule → Bool
  permits [] = false
  permits (rule ∷ rules) =
      (is_host_match hosts host_name ip_addr rule.host_pattern
        && not (bit_and rule.feedtype info.feedtype == 0)
        && passes regex
            (record {
              ft = rule.feedtype;
              ok_pattern = rule.ok_pattern;
              not_pattern = rule.not_pattern;
            })
            info.ident)
      || permits rules

  some_passes-append :
      (xs : List Element) (y : Element)
      → some_passes (xs ++ (y ∷ []))
        ≡ (some_passes xs || not (bit_and y.ft info.feedtype == 0) && passes regex y info.ident)
  unfolding some_passes
  some_passes-append [] y = ground arith
  some_passes-append (x ∷ xs) y = ground (arith, some_passes-append xs y)

  filter_match-passes :
      (xs : List Element) → filter_match regex xs info ≡ true → some_passes xs ≡ true
  unfolding filter_match some_passes
  filter_match-passes [] h = ground arith
  filter_match-passes (x ∷ xs) h = ground (arith, filter_match-passes xs)

  common : (r s : Mask) → bit_and (bit_and r s) info.feedtype ≢ 0 → bit_and r info.feedtype ≢ 0
  common r s h e =
      let swap = bit_and_comm (bit_and r s) info.feedtype in
      (and-parts info.feedtype r s (λ z. h (swap ∙ z))).0 (bit_and_comm info.feedtype r ∙ e)

  -- The feed type of an element has no part in how it treats an identifier.
  passes_any_feed :
      (a b : Mask) (okp : Pattern) (notp : Option Pattern)
      → passes regex (record { ft = a; ok_pattern = okp; not_pattern = notp }) info.ident
        ≡ passes regex (record { ft = b; ok_pattern = okp; not_pattern = notp }) info.ident
  unfolding passes
  passes_any_feed a b okp notp = refl

  -- A component that is added: the list stays disjoint and what it passes is old, or new.
  added :
      (xs ys : List Element) (m : Mask) (okp : Pattern) (notp : Option Pattern)
      → disjoint xs ≡ true
      → add_component xs m okp notp ≡ some ys
      → (disjoint ys ≡ true)
        × (some_passes ys ≡ (
            some_passes xs
            || not (bit_and m info.feedtype == 0)
              && passes regex (record { ft = m; ok_pattern = okp; not_pattern = notp }) info.ident))
  unfolding add_component
  added xs ys m okp notp d h =
      let elt : Element = record { ft = m; ok_pattern = okp; not_pattern = notp } in
      ground (arith, h, some_passes-append xs elt, disjoint-append xs elt d)

  add_for_spec-permits :
      (spec : ProdSpec) (rules : List AllowRule) (xs ys : List Element)
      → disjoint xs ≡ true
      → add_for_spec hosts host_name ip_addr spec rules xs ≡ some ys
      → (disjoint ys ≡ true) × ((not (some_passes ys) || some_passes xs || permits rules) ≡ true)
  unfolding add_for_spec permits
  add_for_spec-permits spec [] xs ys d h = ground (arith, h)
  add_for_spec-permits spec (rule ∷ rules) xs ys d h = ground (
    arith,
    h,
    common rule.feedtype spec.feedtype,
    passes_any_feed rule.feedtype (bit_and rule.feedtype spec.feedtype) rule.ok_pattern
        rule.not_pattern,
    added xs ys (bit_and rule.feedtype spec.feedtype) rule.ok_pattern rule.not_pattern d,
    add_for_spec-permits spec rules xs ys d,
  )

  add_for_specs-permits :
      (rules : List AllowRule) (specs : List ProdSpec) (xs ys : List Element)
      → disjoint xs ≡ true
      → add_for_specs hosts host_name ip_addr rules specs xs ≡ some ys
      → (disjoint ys ≡ true) × ((not (some_passes ys) || some_passes xs || permits rules) ≡ true)
  unfolding add_for_specs
  add_for_specs-permits rules [] xs ys d h = ground (arith, h)
  add_for_specs-permits rules (spec ∷ specs) xs ys d h =
      elim (Option-cases (add_for_spec hosts host_name ip_addr spec rules xs)) [
        | inl e ↦ ground (arith, h, e)
        | inr (zs, e) ↦
            let one = add_for_spec-permits spec rules xs zs d e in
            let rest = add_for_specs-permits rules specs zs ys one.0 (ground (arith, h, e)) in
            ground (arith, one, rest)
      ]

  -- Where GetUpstreamFilter returns a filter, its elements are disjoint, and each product that it
  -- passes has a feed type in common with an ALLOW rule for the host, whose patterns let the
  -- identifier of the product pass.
  pub get_upstream_filter-permits :
      (acl : AclManager) (want : ProdClass) (filt : List Element)
      → get_upstream_filter hosts acl host_name ip_addr want ≡ some (some filt)
      → (disjoint filt ≡ true)
        × (filter_match regex filt info ≡ true → permits acl.allow_rules ≡ true)
  unfolding get_upstream_filter some_passes disjoint
  get_upstream_filter-permits acl want filt h =
      elim (Option-cases (add_for_specs hosts host_name ip_addr acl.allow_rules want.specs [])) [
        | inl e ↦ ground (arith, h, e)
        | inr (zs, e) ↦
            let all = add_for_specs-permits acl.allow_rules want.specs [] zs refl e in
            let same : zs ≡ filt = ground (arith, h, e) in
            ground (arith, all, same, filter_match-passes filt)
      ]

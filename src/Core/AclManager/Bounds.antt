-- ===== src/Core/AclManager/Bounds.antt =====
-- core/AclManager.cpp: what a host is granted lies within the rules for it.
use rdm.Prelude.{
  ℕ, ◌≡◌, ◌≢◌, ap, ◌∙◌, Bool, true, false, ◌&&◌, ◌||◌, List, [], ◌∷◌, Option, bit_and, bit_or,
  arith,
}
use rdm.Prelude.Bits.{bit, bit-and, bit-or, bit-zero, bit_and_comm, bit_and-zero}
use rdm.Core.FeedType.Masks.{Mask}
use rdm.Core.ProdClass.{ProdSpec, ProdInfo}
use rdm.Core.ProdClass.Meet.{and-parts}
use rdm.Core.ProdClass.Selection.{some_selects, spec_selects}
use rdm.Core.AclManager.{
  AllowRule, AclManager, is_host_match, allowed_feed, get_allowed, reduce_specs,
}

module _ (regex : List ℕ → Option (List ℕ → Bool)) where
  -- Some rule for the host has the feed type of bit `i`.
  unfoldable pub allows_bit : ℕ → List ℕ → List ℕ → List AllowRule → Bool
  allows_bit i host_name ip_addr [] = false
  allows_bit i host_name ip_addr (rule ∷ rules) =
      (is_host_match regex host_name ip_addr rule.host_pattern && bit i rule.feedtype)
      || allows_bit i host_name ip_addr rules

  bit-allowed_feed :
      (i : ℕ) (host_name ip_addr : List ℕ) (rules : List AllowRule) (acc : Mask)
      → bit i (allowed_feed regex host_name ip_addr rules acc)
        ≡ (bit i acc || allows_bit i host_name ip_addr rules)
  unfolding allowed_feed allows_bit
  bit-allowed_feed i host_name ip_addr [] acc = ground arith
  bit-allowed_feed i host_name ip_addr (rule ∷ rules) acc = ground (
    arith,
    bit-allowed_feed i host_name ip_addr rules acc,
    bit-allowed_feed i host_name ip_addr rules (bit_or acc rule.feedtype),
    bit-or i acc rule.feedtype,
  )

  -- A host may have exactly those of the feed types it desires that an ALLOW rule for it names.
  pub get_allowed-bits :
      (acl : AclManager) (host_name ip_addr : List ℕ) (desired : Mask) (i : ℕ)
      → bit i (get_allowed regex acl host_name ip_addr desired)
        ≡ (bit i desired && allows_bit i host_name ip_addr acl.allow_rules)
  unfolding get_allowed
  get_allowed-bits acl host_name ip_addr desired i =
      bit-and i desired (allowed_feed regex host_name ip_addr acl.allow_rules 0)
      ∙ ap (λ b. bit i desired && b)
          (bit-allowed_feed i host_name ip_addr acl.allow_rules 0
            ∙ ap (λ b. b || allows_bit i host_name ip_addr acl.allow_rules) (bit-zero i))

-- The list of specs that ReduceToAllowed and ReduceToAcceptable leave selects a product only if the
-- list wanted selects it and the product has a feed type that is granted.
pub reduce_specs-selects :
    (regex : List ℕ → Bool → Option (List ℕ → Bool)) (specs : List ProdSpec) (feed : Mask)
    (info : ProdInfo)
    → some_selects regex (reduce_specs specs feed) info ≡ true
    → (some_selects regex specs info ≡ true) × (bit_and info.feedtype feed ≢ 0)
unfolding some_selects reduce_specs spec_selects
reduce_specs-selects regex [] feed info h = ground arith
reduce_specs-selects regex (sp ∷ specs) feed info h = ground (
  arith,
  reduce_specs-selects regex specs feed info,
  and-parts info.feedtype sp.feedtype feed,
  bit_and_comm info.feedtype 0,
  bit_and-zero info.feedtype,
)

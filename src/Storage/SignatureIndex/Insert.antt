-- ===== src/Storage/SignatureIndex/Insert.antt =====
-- What `SignatureIndex::Add` does when an element is free.
use rdm.Prelude.{
  ℕ, ◌+◌, ◌-◌, ◌%◌, ◌<◌, ◌≡◌, refl, sym, subst, inl, inr, Bool-cases, true, false, List, [], ◌∷◌,
  arith, ◌==◌, length, set, get_or-set, length-set, total-set, if◌then◌else◌,
}
use rdm.Prelude.Int.{ℤ}
use rdm.Prelude.Links.{has, Linked, Linked-frame}
use rdm.Storage.SignatureIndex.{
  Signature, SignatureElement, SignatureIndex, hash_bytes, hash, sx_none,
}
use rdm.Storage.SignatureIndex.Chains.{elem_of, next_of, blank}
use rdm.Storage.SignatureIndex.Valid.{heads, chain, Layout, hash-lt}

module _ (s : SignatureIndex) (sig : Signature) (offset : ℤ) (i : ℕ) where
  abbrev pub home : ℕ
  home = hash s sig

  abbrev pub new_element : SignatureElement
  new_element = record { sxi = sig; offset = offset; next = heads s home }

  -- The state in which `Add` leaves the table when it takes element `i`.
  unfoldable pub added : SignatureIndex
  added = record s {
    free_head = next_of s.sxep i;
    nfree = s.nfree - 1;
    nelems = s.nelems + 1;
    sxep = set s.sxep i new_element;
    chains = set s.chains home i;
  }

  pub elem-added :
      (j : ℕ)
      → i < length s.sxep
      → elem_of added.sxep j ≡ (if i == j then new_element else elem_of s.sxep j)
  unfolding added
  elem-added j h = get_or-set s.sxep i j new_element blank h

  module _ (free : List ℕ) (cs : List (List ℕ)) (v : Layout s (i ∷ free) cs) where
    pub in_table : i < length s.sxep
    in_table = omega (arith, v.elements, v.free_linked.1)

    home-lt : home < s.nchains
    home-lt = hash-lt s sig v.some_chain

    abbrev pub longer : List (List ℕ)
    longer = set cs home (i ∷ chain cs home)

    pub chain-longer :
        (k : ℕ) → chain longer k ≡ (if home == k then i ∷ chain cs home else chain cs k)
    chain-longer k = get_or-set cs home k (i ∷ chain cs home) [] (omega (arith, home-lt, v.widths))

    heads-added : (k : ℕ) → heads added k ≡ (if home == k then i else heads s k)
    unfolding added
    heads-added k = get_or-set s.chains home k i sx_none (omega (arith, home-lt, v.slots))

    -- A list without element `i` stays as it was.
    spared :
        (p : ℕ) (is : List ℕ)
        → has i is ≡ false
        → Linked (next_of s.sxep) s.nalloc sx_none p is
        → Linked (next_of added.sxep) s.nalloc sx_none p is
    spared p is out =
        Linked-frame (next_of s.sxep) (next_of added.sxep) s.nalloc sx_none p is
          (λ j m. ground (arith, elem-added j in_table))

    next_added : next_of added.sxep i ≡ heads s home
    next_added = ground (arith, elem-added i in_table)

    home_bytes : hash_bytes sig % s.nchains ≡ home
    unfolding hash
    home_bytes = refl

    homes_longer :
        (k j : ℕ)
        → has j (chain longer k) ≡ true
        → hash_bytes (elem_of added.sxep j).sxi % s.nchains ≡ k
    homes_longer k j e = ground (
      arith,
      home_bytes,
      chain-longer k,
      elem-added j in_table,
      v.homes k j,
      v.apart k i,
      v.apart home i,
    )

    Linked-longer :
        (k : ℕ)
        → k < s.nchains
        → Linked (next_of added.sxep) s.nalloc sx_none (heads added k) (chain longer k)
    Linked-longer k hk = elim (Bool-cases (home == k)) [
      | inl e ↦
          rw (chain-longer k, heads-added k, e)
            (
              refl,
              v.free_linked.1,
              v.apart home i (ground arith),
              subst (λ p. Linked (next_of added.sxep) s.nalloc sx_none p (chain cs home))
                  (sym next_added)
                  (spared (heads s home) (chain cs home) (v.apart home i (ground arith))
                    (v.linked home home-lt)),
            )
      | inr e ↦
          rw (chain-longer k, heads-added k, e)
            (spared (heads s k) (chain cs k) (v.apart k i (ground arith)) (v.linked k hk))
    ]

    pub added-Layout : Layout added free longer
    added-Layout = record {
      magic = unfold added in v.magic;
      nonempty = unfold added in v.nonempty;
      fits = unfold added in v.fits;
      elements = unfold added in (simp length-set v.elements);
      slots = unfold added in (simp length-set v.slots);
      some_chain = unfold added in v.some_chain;
      widths = unfold added in (simp length-set v.widths);
      free_linked =
          unfold added in (spared (next_of s.sxep i) free v.free_linked.2 v.free_linked.3);
      free_count = unfold added in (omega (arith, v.free_count));
      linked = unfold added in Linked-longer;
      counted =
          unfold added in
          (omega (arith, total-set cs home (i ∷ chain cs home), home-lt, v.widths, v.counted));
      all = unfold added in (omega (arith, v.all, v.free_count));
      homes = unfold added in homes_longer;
      apart = λ k j e. ground (arith, chain-longer k, v.apart k j, v.free_linked.2);
    }

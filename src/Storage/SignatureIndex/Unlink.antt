-- ===== src/Storage/SignatureIndex/Unlink.antt =====
-- What `SignatureIndex::Remove` does to the chain that it takes an element from.
use rdm.Prelude.{
  ℕ, zero, suc, ◌+◌, ◌-◌, ◌<◌, ◌≡◌, refl, ◌⊎◌, inl, inr, Bool-cases, true, false, List, [], ◌∷◌,
  none, some, arith, ◌==◌, if◌then◌else◌, length, get_or-set, set, length-set,
}
use rdm.Prelude.Links.{has, Linked, Linked-frame}
use rdm.Prelude.Run.{ok, at-get_or}
use rdm.Storage.SignatureIndex.{
  Signature, SignatureIndex, same, sx_none, off_none, free_element, unlink_at, unlink_from,
}
use rdm.Storage.SignatureIndex.Chains.{
  blank, elem_of, next_of, find_in, erase, find_in-has, has-erase,
}

-- `t` is `s` after element `m` went from the chain cells `touched` to the free list.
pub record Freed (s : SignatureIndex) (m : ℕ) (touched : List ℕ) (t : SignatureIndex) : Type 0 where
  pub magic : t.magic ≡ s.magic
  pub nalloc : t.nalloc ≡ s.nalloc
  pub nchains : t.nchains ≡ s.nchains
  pub free_head : t.free_head ≡ m
  pub nfree : t.nfree ≡ s.nfree + 1
  pub nelems : t.nelems ≡ s.nelems - 1
  pub elements : length t.sxep ≡ length s.sxep
  pub sigs : (j : ℕ) → (elem_of t.sxep j).sxi ≡ (elem_of s.sxep j).sxi
  pub offs : (j : ℕ) → (j == m) ≡ false → (elem_of t.sxep j).offset ≡ (elem_of s.sxep j).offset
  pub nexts : (j : ℕ) → has j touched ≡ false → next_of t.sxep j ≡ next_of s.sxep j
  pub next_freed : next_of t.sxep m ≡ s.free_head

module _ (s : SignatureIndex) (n : ℕ) (len : length s.sxep ≡ n) where
  -- The state that `unlink_at` leaves behind `prev`.
  unlinked : ℕ → ℕ → SignatureIndex
  unlinked prev m = record s {
    sxep =
        set (set s.sxep prev (record (elem_of s.sxep prev) { next = next_of s.sxep m })) m
          (record (elem_of s.sxep m) { offset = off_none; next = s.free_head });
    free_head = m;
    nfree = s.nfree + 1;
    nelems = s.nelems - 1;
  }

  unlink_at-eq :
      (prev m : ℕ)
      → prev < n
      → m < n
      → (prev == m) ≡ false
      → unlink_at s prev (elem_of s.sxep m) m ≡ ok (true, unlinked prev m)
  unfolding unlink_at free_element unlinked
  unlink_at-eq prev m hp hm ne = ground (
    arith,
    at-get_or s.sxep prev blank,
    at-get_or (set s.sxep prev (record (elem_of s.sxep prev) { next = next_of s.sxep m })) m blank,
    length-set s.sxep prev (record (elem_of s.sxep prev) { next = next_of s.sxep m }),
    get_or-set s.sxep prev m (record (elem_of s.sxep prev) { next = next_of s.sxep m }) blank,
  )

  elem-unlinked :
      (prev m j : ℕ)
      → prev < n
      → m < n
      → elem_of (unlinked prev m).sxep j ≡ (
          if m == j
          then record (elem_of s.sxep m) { offset = off_none; next = s.free_head }
          else if prev == j
          then record (elem_of s.sxep prev) { next = next_of s.sxep m }
          else elem_of s.sxep j)
  unfolding unlinked
  elem-unlinked prev m j hp hm =
      let mid = set s.sxep prev (record (elem_of s.sxep prev) { next = next_of s.sxep m }) in
      ground (
        arith,
        length-set s.sxep prev (record (elem_of s.sxep prev) { next = next_of s.sxep m }),
        get_or-set mid m j (record (elem_of s.sxep m) { offset = off_none; next = s.free_head })
            blank,
        get_or-set s.sxep prev j (record (elem_of s.sxep prev) { next = next_of s.sxep m }) blank,
      )

  unlinked-Freed :
      (prev m : ℕ) (touched : List ℕ)
      → prev < n
      → m < n
      → has prev touched ≡ true
      → has m touched ≡ true
      → Freed s m touched (unlinked prev m)
  unlinked-Freed prev m touched hp hm tp tm = record {
    magic = unfold unlinked in refl;
    nalloc = unfold unlinked in refl;
    nchains = unfold unlinked in refl;
    free_head = unfold unlinked in refl;
    nfree = unfold unlinked in refl;
    nelems = unfold unlinked in refl;
    elements = unfold unlinked in (simp length-set);
    sigs = λ j. ground (arith, elem-unlinked prev m j);
    offs = λ j e. ground (arith, elem-unlinked prev m j);
    nexts = λ j e. ground (arith, elem-unlinked prev m j);
    next_freed = ground (arith, elem-unlinked prev m m);
  }

  -- The end of the loop of `Remove` over the cells `is` behind `prev`.
  pub record Unlinks (sig : Signature) (prev : ℕ) (is : List ℕ) (m : ℕ) (t : SignatureIndex)
      : Type 0 where
    pub found : find_in s.sxep sig is ≡ some m
    pub freed : Freed s m (prev ∷ is) t
    pub chains : t.chains ≡ s.chains
    pub linked : Linked (next_of t.sxep) n sx_none prev (prev ∷ erase m is)

  wider : (m p : ℕ) (is : List ℕ) (t : SignatureIndex) → Freed s m is t → Freed s m (p ∷ is) t
  wider m p is t u = record {
    magic = u.magic;
    nalloc = u.nalloc;
    nchains = u.nchains;
    free_head = u.free_head;
    nfree = u.nfree;
    nelems = u.nelems;
    elements = u.elements;
    sigs = u.sigs;
    offs = u.offs;
    nexts = λ j e. u.nexts j (ground arith);
    next_freed = u.next_freed;
  }

  unlink_from-miss :
      (f : ℕ) (sig : Signature) (prev i : ℕ)
      → i < n
      → n < sx_none
      → same sig (elem_of s.sxep i).sxi ≡ false
      → unlink_from (suc f) s sig prev i ≡ unlink_from f s sig i (next_of s.sxep i)
  unfolding unlink_from
  unlink_from-miss f sig prev i hi fits miss = ground (arith, at-get_or s.sxep i blank)

  deeper :
      (sig : Signature) (prev i m : ℕ) (is : List ℕ) (t : SignatureIndex)
      → prev < n
      → has prev (i ∷ is) ≡ false
      → has i is ≡ false
      → next_of s.sxep prev ≡ i
      → same sig (elem_of s.sxep i).sxi ≡ false
      → Unlinks sig i is m t
      → Unlinks sig prev (i ∷ is) m t
  unfolding find_in
  deeper sig prev i m is t hp out alone at_p miss u = record {
    found = ground (arith, u.found);
    freed = wider m prev (i ∷ is) t u.freed;
    chains = u.chains;
    linked = ground (
      arith,
      find_in-has s.sxep sig m is u.found,
      has-erase prev m is,
      u.linked,
      u.freed.nexts prev,
    );
  }

  pub unlink_from-Unlinks :
      (f : ℕ) (sig : Signature) (prev p : ℕ) (is : List ℕ)
      → n < sx_none
      → length is < f
      → prev < n
      → has prev is ≡ false
      → next_of s.sxep prev ≡ p
      → Linked (next_of s.sxep) n sx_none p is
      → ((find_in s.sxep sig is ≡ none) × (unlink_from f s sig prev p ≡ ok (false, s)))
        ⊎ ((m : ℕ) × (t : SignatureIndex) × (unlink_from f s sig prev p ≡ ok (true, t))
            × Unlinks sig prev is m t)
  unfolding unlink_from find_in
  unlink_from-Unlinks zero sig prev p is fits fuel hp out at_p h = absurd (omega arith)
  unlink_from-Unlinks (suc f) sig prev p [] fits fuel hp out at_p h = inl (refl, ground arith)
  unlink_from-Unlinks (suc f) sig prev p (i ∷ is) fits fuel hp out at_p h =
      elim (Bool-cases (same sig (elem_of s.sxep i).sxi)) [
        | inl hit ↦ inr (
          i,
          unlinked prev i,
          ground (arith, at-get_or s.sxep i blank, unlink_at-eq prev i),
          record {
            found = ground arith;
            freed = unlinked-Freed prev i (prev ∷ i ∷ is) hp h.1 (ground arith) (ground arith);
            chains = unfold unlinked in refl;
            linked = ground (
              arith,
              elem-unlinked prev i prev,
              Linked-frame (next_of s.sxep) (next_of (unlinked prev i).sxep) n sx_none
                  (next_of s.sxep i) is (λ j m. ground (arith, elem-unlinked prev i j)) h.3,
            );
          },
        )
        | inr miss ↦
            elim (unlink_from-Unlinks f sig i (next_of s.sxep i) is fits (omega arith) h.1 h.2 refl
              h.3) [
                | inl (absent, e) ↦
                    inl (rw (miss, find_in) absent, ground (arith, unlink_from-miss f sig prev i))
                | inr (m, t, e, u) ↦ inr (
                  m,
                  t,
                  ground (arith, unlink_from-miss f sig prev i),
                  deeper sig prev i m is t hp out h.2 (ground arith) miss u,
                )
              ]
      ]

-- ===== src/Storage/SignatureIndex/Removal.antt =====
-- What `SignatureIndex::Remove` does to the contents.
use rdm.Prelude.{
  ℕ, suc, ◌+◌, ◌<◌, ◌≡◌, refl, sym, subst, ap, ◌∙◌, Bool, true, false, inl, inr, Bool-cases, List,
  [], ◌∷◌, Option, none, some, arith, ◌==◌, if◌then◌else◌, length, set, get_or-set, length-set,
  length-le-total,
}
use rdm.Prelude.Int.{ℤ}
use rdm.Prelude.Links.{Linked, Linked-frame}
use rdm.Prelude.Run.{ok, at-get_or}
use rdm.Storage.SignatureIndex.{
  Signature, SignatureElement, SignatureIndex, same, hash, sx_none, remove, unlink_from,
}
use rdm.Storage.SignatureIndex.Chains.{
  elem_of, next_of, blank, find_in, offsets, erase, tail, same_iff, find_in-has, length-erase,
}
use rdm.Storage.SignatureIndex.Behead.{beheaded, elem-beheaded, unlink_head-eq, beheaded-Freed}
use rdm.Storage.SignatureIndex.Unlink.{Freed, Unlinks, unlink_from-Unlinks}
use rdm.Storage.SignatureIndex.Valid.{heads, chain, Freed-Layout}
use rdm.Storage.SignatureIndex.Contents.{
  Models, Answers, find_in-Answers, pop, offsets-frame, home-lt, cells, fuel_enough, head_read,
  checks_pass,
}

-- Without the first element that holds `sig`, the offsets under `sig` lose the latest.
offsets-erase :
    (e e' : List SignatureElement) (sig q : Signature) (n p m : ℕ) (is : List ℕ)
    → Linked (next_of e) n sx_none p is
    → find_in e sig is ≡ some m
    → ((j : ℕ) → (elem_of e' j).sxi ≡ (elem_of e j).sxi)
    → ((j : ℕ) → (j == m) ≡ false → (elem_of e' j).offset ≡ (elem_of e j).offset)
    → offsets e' q (erase m is) ≡ (if same q sig then tail (offsets e q is) else offsets e q is)
unfolding find_in offsets
offsets-erase e e' sig q n p m [] h found sigs offs = cc
offsets-erase e e' sig q n p m (i ∷ is) h found sigs offs =
    elim (Bool-cases (same sig (elem_of e i).sxi)) [
      | inl hit ↦
          let first : i ≡ m = ground arith in
          ground (
            arith,
            same_iff sig (elem_of e i).sxi hit,
            offsets-frame e e' q is (λ j r. (sigs j, offs j (ground (arith, first)))),
          )
      | inr miss ↦ ground (
        arith,
        same_iff q sig,
        find_in-has e sig m is,
        offsets-erase e e' sig q n (next_of e i) m is h.3,
        sigs i,
        offs i,
      )
    ]

hash-Freed :
    (s t : SignatureIndex) (c : ℕ) (is : List ℕ)
    → Freed s c is t
    → (q : Signature) → hash t q ≡ hash s q
unfolding hash
hash-Freed s t c is u q = rw u.nchains

-- Whether a `Remove` finds anything.
abbrev pub is_some_offset : List ℤ → Bool
is_some_offset [] = false
is_some_offset (x ∷ xs) = true

abbrev to_nat : Bool → ℕ
to_nat true = 1
to_nat false = 0

module _ {f : Signature → List ℤ} {s : SignatureIndex} (m : Models f s) (sig : Signature) where
  -- The end of `Remove`.
  pub record Removes (b : Bool) (t : SignatureIndex) : Type 0 where
    pub answer : b ≡ is_some_offset (f sig)
    pub models : Models (pop f sig) t
    pub counted : t.nelems + to_nat b ≡ s.nelems

  cells-Linked : Linked (next_of s.sxep) s.nalloc sx_none (heads s (hash s sig)) (cells m sig)
  cells-Linked = m.layout.linked (hash s sig) (home-lt m sig)

  found-Answers : (r : Option ℕ) → find_in s.sxep sig (cells m sig) ≡ r → Answers s sig (f sig) r
  found-Answers r e = subst (Answers s sig (f sig)) e (
      subst (λ xs. Answers s sig xs (find_in s.sxep sig (cells m sig))) (m.reads sig)
        (find_in-Answers s sig (heads s (hash s sig)) (cells m sig) cells-Linked))

  absent-Removes : find_in s.sxep sig (cells m sig) ≡ none → Removes false s
  absent-Removes e = record {
    answer = rw (found-Answers none e);
    models = record {
      free = m.free;
      cs = m.cs;
      layout = m.layout;
      reads = λ q. ground (arith, m.reads q, same_iff q sig, found-Answers none e);
    };
    counted = omega arith;
  }

  reads-Freed :
      (c : ℕ) (t : SignatureIndex)
      → find_in s.sxep sig (cells m sig) ≡ some c
      → Freed s c (cells m sig) t
      → (q : Signature)
      → offsets t.sxep q (chain (set m.cs (hash s sig) (erase c (cells m sig))) (hash s q))
        ≡ pop f sig q
  reads-Freed c t found u q = ground (
    arith,
    get_or-set m.cs (hash s sig) (hash s q) (erase c (cells m sig)) [],
    home-lt m sig,
    m.layout.widths,
    offsets-erase s.sxep t.sxep sig q s.nalloc (heads s (hash s sig)) c (cells m sig) cells-Linked
        found u.sigs u.offs,
    m.reads q,
    same_iff q sig,
    elsewhere,
  )
    where
      elsewhere :
          (hash s sig == hash s q) ≡ false
          → offsets t.sxep q (chain m.cs (hash s q)) ≡ offsets s.sxep q (chain m.cs (hash s q))
      elsewhere ne = offsets-frame s.sxep t.sxep q (chain m.cs (hash s q)) λ j e. (
        u.sigs j,
        u.offs j (
            ground (
              arith,
              m.layout.homes (hash s q) j e,
              m.layout.homes (hash s sig) c (find_in-has s.sxep sig c (cells m sig) found),
            )),
      )

  Freed-Removes :
      (c : ℕ) (t : SignatureIndex)
      → find_in s.sxep sig (cells m sig) ≡ some c
      → Freed s c (cells m sig) t
      → length t.chains ≡ s.nchains
      → ((k : ℕ) → (hash s sig == k) ≡ false → heads t k ≡ heads s k)
      → Linked (next_of t.sxep) s.nalloc sx_none (heads t (hash s sig)) (erase c (cells m sig))
      → Removes true t
  Freed-Removes c t found u slots others here = record {
    answer = rw ((found-Answers (some c) found).2);
    models = record {
      free = c ∷ m.free;
      cs = set m.cs (hash s sig) (erase c (cells m sig));
      layout =
          Freed-Layout s t m.free m.cs (hash s sig) c m.layout (home-lt m sig)
            (find_in-has s.sxep sig c (cells m sig) found) u slots others here;
      reads = λ q. rw (hash-Freed s t c (cells m sig) u q) (reads-Freed c t found u q);
    };
    counted = omega (
      arith,
      u.nelems,
      m.layout.counted,
      length-le-total m.cs (hash s sig),
      length-erase c (cells m sig) (find_in-has s.sxep sig c (cells m sig) found),
    );
  }

  remove-empty : heads s (hash s sig) ≡ sx_none → remove s sig ≡ ok (false, s)
  unfolding remove
  remove-empty e = ground (arith, checks_pass m sig, head_read m sig)

  module _ (i : ℕ) (is : List ℕ) (e : cells m sig ≡ i ∷ is) where
    Linked-start : Linked (next_of s.sxep) s.nalloc sx_none (heads s (hash s sig)) (i ∷ is)
    Linked-start =
        subst (Linked (next_of s.sxep) s.nalloc sx_none (heads s (hash s sig))) e cells-Linked

    in_table : i < length s.sxep
    in_table = omega (arith, Linked-start.1, m.layout.elements)

    remove-head :
        same sig (elem_of s.sxep i).sxi ≡ true → remove s sig ≡ ok (true, beheaded s (hash s sig) i)
    unfolding remove
    remove-head hit = ground (
      arith,
      checks_pass m sig,
      head_read m sig,
      Linked-start.0,
      Linked-start.1,
      m.layout.fits,
      in_table,
      at-get_or s.sxep i blank,
      unlink_head-eq s (hash s sig) i in_table,
    )

    remove-behind :
        same sig (elem_of s.sxep i).sxi ≡ false
        → remove s sig ≡ unlink_from (suc s.nalloc) s sig i (next_of s.sxep i)
    unfolding remove
    remove-behind miss = ground (
      arith,
      checks_pass m sig,
      head_read m sig,
      Linked-start.0,
      Linked-start.1,
      m.layout.fits,
      in_table,
      at-get_or s.sxep i blank,
    )

    heads-beheaded :
        (k : ℕ)
        → heads (beheaded s (hash s sig) i) k
          ≡ (if hash s sig == k then next_of s.sxep i else heads s k)
    unfolding beheaded
    heads-beheaded k =
        get_or-set s.chains (hash s sig) k (next_of s.sxep i) sx_none
          (omega (arith, home-lt m sig, m.layout.slots))

    length-beheaded : length (beheaded s (hash s sig) i).chains ≡ s.nchains
    unfolding beheaded
    length-beheaded = simp length-set m.layout.slots

    behead-Removes :
        same sig (elem_of s.sxep i).sxi ≡ true → Removes true (beheaded s (hash s sig) i)
    behead-Removes hit =
        Freed-Removes i (beheaded s (hash s sig) i) (rw e (unfold find_in in (rw hit)))
          (rw e (beheaded-Freed s (hash s sig) i is in_table)) length-beheaded
          (λ k ne. ground (arith, heads-beheaded k))
          (rw e (
            ground (
              arith,
              heads-beheaded (hash s sig),
              Linked-frame (next_of s.sxep) (next_of (beheaded s (hash s sig) i).sxep) s.nalloc
                  sx_none (next_of s.sxep i) is
                  (λ j r. ground (arith, elem-beheaded s (hash s sig) i j in_table, Linked-start.2))
                  Linked-start.3,
            )))

    link :
        (c : ℕ) (t : SignatureIndex)
        → Unlinks s s.nalloc m.layout.elements sig i is c t
        → Linked (next_of t.sxep) s.nalloc sx_none (heads t (hash s sig)) (erase c (cells m sig))
    link c t u =
        let ne : (i == c) ≡ false =
          ground (arith, find_in-has s.sxep sig c is u.found, Linked-start.2) in
        let start : heads t (hash s sig) ≡ i = ground (arith, u.chains, Linked-start.0) in
        rw (e, ne)
          (subst (λ p. Linked (next_of t.sxep) s.nalloc sx_none p (i ∷ erase c is)) (sym start)
            u.linked)

    remove_cons : (b : Bool) × (t : SignatureIndex) × (remove s sig ≡ ok (b, t)) × Removes b t
    remove_cons = elim (Bool-cases (same sig (elem_of s.sxep i).sxi)) [
      | inl hit ↦ (true, beheaded s (hash s sig) i, remove-head hit, behead-Removes hit)
      | inr miss ↦
          elim (unlink_from-Unlinks s s.nalloc m.layout.elements (suc s.nalloc) sig i
            (next_of s.sxep i) is m.layout.fits (omega (arith, fuel_enough m sig, ap length e))
            Linked-start.1 Linked-start.2 refl Linked-start.3) [
              | inl (absent, run) ↦ (
                false,
                s,
                remove-behind miss ∙ run,
                absent-Removes (rw e (unfold find_in in (rw miss absent))),
              )
              | inr (c, t, run, u) ↦ (
                true,
                t,
                remove-behind miss ∙ run,
                Freed-Removes c t (rw e (unfold find_in in (rw miss u.found))) (rw e u.freed)
                    (rw u.chains m.layout.slots) (λ k ne. rw u.chains) (link c t u),
              )
            ]
    ]

  -- `Remove` does not abort, touches no element outside the table and ends; it says whether there
  -- was an offset under the signature, and takes the latest one away.
  pub remove-Removes : (b : Bool) × (t : SignatureIndex) × (remove s sig ≡ ok (b, t)) × Removes b t
  remove-Removes = go (cells m sig) refl
    where
      go :
          (is : List ℕ)
          → cells m sig ≡ is
          → (b : Bool) × (t : SignatureIndex) × (remove s sig ≡ ok (b, t)) × Removes b t
      go [] e = (
        false,
        s,
        remove-empty (
            subst (Linked (next_of s.sxep) s.nalloc sx_none (heads s (hash s sig))) e cells-Linked),
        absent-Removes (rw e (unfold find_in in refl)),
      )
      go (i ∷ is) e = remove_cons i is e

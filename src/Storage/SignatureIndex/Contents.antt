-- ===== src/Storage/SignatureIndex/Contents.antt =====
-- The signature table as a map: under each signature the offsets added and not yet removed, the
-- latest first.
use rdm.Prelude.{
  ℕ, suc, ◌+◌, ◌<◌, ◌≡◌, refl, sym, subst, ap, true, inl, inr, Bool-cases, List, [], ◌∷◌, Option,
  none, some, arith, if◌then◌else◌, length, length-le-total,
}
use rdm.Prelude.Int.{ℤ}
use rdm.Prelude.Links.{has, Linked}
use rdm.Prelude.Run.{ok, at-get_or, at}
use rdm.Storage.SignatureIndex.{
  Signature, SignatureElement, SignatureIndex, same, hash, sx_none, find, add, check_counts,
}
use rdm.Storage.SignatureIndex.Chains.{
  elem_of, next_of, blank, find_in, offsets, tail, same_iff, find_from-find_in,
}
use rdm.Storage.SignatureIndex.Valid.{heads, chain, Layout, hash-lt}
use rdm.Storage.SignatureIndex.Insert.{
  added, elem-added, added-Layout, chain-longer, longer, in_table,
}

-- The table `s` holds the offsets `f`.
pub record Models (f : Signature → List ℤ) (s : SignatureIndex) : Type 0 where
  pub free : List ℕ
  pub cs : List (List ℕ)
  pub layout : Layout s free cs
  pub reads : (q : Signature) → offsets s.sxep q (chain cs (hash s q)) ≡ f q

-- The answer `r` of a lookup of `sig` in `s`, where `xs` are the offsets under `sig`.
abbrev pub Answers : SignatureIndex → Signature → List ℤ → Option ℕ → Type 0
Answers s sig xs none = xs ≡ []
Answers s sig xs (some m) =
    (m < s.nalloc) × ((elem_of s.sxep m).sxi ≡ sig) × (xs ≡ (elem_of s.sxep m).offset ∷ tail xs)

pub find_in-Answers :
    (s : SignatureIndex) (sig : Signature) (p : ℕ) (is : List ℕ)
    → Linked (next_of s.sxep) s.nalloc sx_none p is
    → Answers s sig (offsets s.sxep sig is) (find_in s.sxep sig is)
unfolding find_in offsets
find_in-Answers s sig p [] h = refl
find_in-Answers s sig p (i ∷ is) h = elim (Bool-cases (same sig (elem_of s.sxep i).sxi)) [
  | inl e ↦ rw e (h.1, sym (same_iff sig _ e), refl)
  | inr e ↦ rw e (find_in-Answers s sig (next_of s.sxep i) is h.3)
]

module _ {f : Signature → List ℤ} {s : SignatureIndex} (m : Models f s) (sig : Signature) where
  pub home-lt : hash s sig < s.nchains
  home-lt = hash-lt s sig m.layout.some_chain

  abbrev pub cells : List ℕ
  cells = chain m.cs (hash s sig)

  pub fuel_enough : length cells < suc s.nalloc
  fuel_enough = omega (arith, length-le-total m.cs (hash s sig), m.layout.counted, m.layout.all)

  pub head_read : at s.chains (hash s sig) ≡ ok (heads s (hash s sig))
  head_read = at-get_or s.chains (hash s sig) sx_none (omega (arith, home-lt, m.layout.slots))

  find-eq : find s sig ≡ ok (find_in s.sxep sig cells)
  unfolding find
  find-eq = ground (
    arith,
    m.layout.magic,
    head_read,
    find_from-find_in (suc s.nalloc) s.sxep sig s.nalloc (heads s (hash s sig)) cells
        m.layout.elements m.layout.fits fuel_enough (m.layout.linked (hash s sig) home-lt),
  )

  -- `Find` does not abort, reads no element outside the table, ends, and answers with an element
  -- that holds the signature and its latest offset, or with none where the table has no offset.
  pub find-Answers : (r : Option ℕ) × (find s sig ≡ ok r) × Answers s sig (f sig) r
  find-Answers = (
    find_in s.sxep sig cells,
    find-eq,
    subst (λ xs. Answers s sig xs (find_in s.sxep sig cells)) (m.reads sig)
        (find_in-Answers s sig (heads s (hash s sig)) cells (m.layout.linked (hash s sig) home-lt)),
  )

-- One more offset under `sig`.
abbrev pub push : (Signature → List ℤ) → Signature → ℤ → Signature → List ℤ
push f sig offset q = if same q sig then offset ∷ f q else f q

-- The latest offset under `sig` is gone.
abbrev pub pop : (Signature → List ℤ) → Signature → Signature → List ℤ
pop f sig q = if same q sig then tail (f q) else f q

-- Offsets in cells that two arrays agree on.
pub offsets-frame :
    (e e' : List SignatureElement) (q : Signature) (is : List ℕ)
    → ((j : ℕ)
        → has j is ≡ true
        → ((elem_of e' j).sxi ≡ (elem_of e j).sxi) × ((elem_of e' j).offset ≡ (elem_of e j).offset))
    → offsets e' q is ≡ offsets e q is
unfolding offsets
offsets-frame e e' q [] h = refl
offsets-frame e e' q (i ∷ is) h =
    ground (arith, h i, offsets-frame e e' q is (λ j m. h j (ground arith)))

hash-added :
    (s : SignatureIndex) (sig : Signature) (offset : ℤ) (i : ℕ) (q : Signature)
    → hash (added s sig offset i) q ≡ hash s q
unfolding hash added
hash-added s sig offset i q = refl

added-Models :
    (f : Signature → List ℤ) (s : SignatureIndex) (sig : Signature) (offset : ℤ) (i : ℕ)
    (free : List ℕ) (cs : List (List ℕ))
    → Layout s (i ∷ free) cs
    → ((q : Signature) → offsets s.sxep q (chain cs (hash s q)) ≡ f q)
    → Models (push f sig offset) (added s sig offset i)
unfolding offsets
added-Models f s sig offset i free cs v reads = record {
  free = free;
  cs = longer s sig offset i free cs v;
  layout = added-Layout s sig offset i free cs v;
  reads = λ q. rw (hash-added s sig offset i q) (
      ground (
        arith,
        chain-longer s sig offset i free cs v (hash s q),
        elem-added s sig offset i i,
        in_table s sig offset i free cs v,
        offsets-frame s.sxep (added s sig offset i).sxep q (chain cs (hash s q)) (untouched q),
        reads q,
        same_iff q sig,
      ));
}
  where
    untouched :
        (q : Signature) (j : ℕ)
        → has j (chain cs (hash s q)) ≡ true
        → let e' = (added s sig offset i).sxep in
          ((elem_of e' j).sxi ≡ (elem_of s.sxep j).sxi)
          × ((elem_of e' j).offset ≡ (elem_of s.sxep j).offset)
    untouched q j h = ground (
      arith,
      elem-added s sig offset i j,
      in_table s sig offset i free cs v,
      v.apart (hash s q) i,
    )

module _ {f : Signature → List ℤ} {s : SignatureIndex} (m : Models f s) (sig : Signature) where
  pub checks_pass : check_counts s ≡ ok tt
  unfolding check_counts
  checks_pass = ground (arith, m.layout.magic, m.layout.all)

  -- A full table refuses, and is not changed.
  pub add-full : (offset : ℤ) → s.nfree ≡ 0 → add s sig offset ≡ ok (none, s)
  unfolding add
  add-full offset h = ground (arith, checks_pass, m.layout.nonempty)

  add-added :
      (offset : ℤ) (i : ℕ) (rest : List ℕ)
      → Layout s (i ∷ rest) m.cs
      → add s sig offset ≡ ok (some i, added s sig offset i)
  unfolding add added
  add-added offset i rest v = ground (
    arith,
    checks_pass,
    v.nonempty,
    v.fits,
    v.free_count,
    v.free_linked.0,
    v.free_linked.1,
    v.elements,
    at-get_or s.sxep i blank,
    head_read m sig,
  )

  -- The end of an `Add` that finds a free element.
  pub record Adds (offset : ℤ) (i : ℕ) (t : SignatureIndex) : Type 0 where
    pub holds :
        elem_of t.sxep i ≡ record { sxi = sig; offset = offset; next = heads s (hash s sig) }
    pub models : Models (push f sig offset) t
    pub counted : t.nelems ≡ s.nelems + 1
    pub sized : t.nalloc ≡ s.nalloc

  -- With a free element `Add` does not abort, and the offset is the latest under the signature.
  pub add-Adds :
      (offset : ℤ)
      → 0 < s.nfree
      → (i : ℕ) × (t : SignatureIndex) × (add s sig offset ≡ ok (some i, t)) × Adds offset i t
  add-Adds offset h = go m.free refl
    where
      go :
          (free : List ℕ)
          → m.free ≡ free
          → (i : ℕ) × (t : SignatureIndex) × (add s sig offset ≡ ok (some i, t)) × Adds offset i t
      go [] e = absurd (omega (arith, ap length e, m.layout.free_count))
      go (i ∷ rest) e =
          let v : Layout s (i ∷ rest) m.cs = subst (λ l. Layout s l m.cs) e m.layout in
          (
            i,
            added s sig offset i,
            add-added offset i rest v,
            record {
              holds =
                  ground (arith, elem-added s sig offset i i, in_table s sig offset i rest m.cs v);
              models = added-Models f s sig offset i rest m.cs v m.reads;
              counted = unfold added in refl;
              sized = unfold added in refl;
            },
          )

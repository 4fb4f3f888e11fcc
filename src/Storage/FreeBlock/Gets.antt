-- ===== src/Storage/FreeBlock/Gets.antt =====
-- storage/pq/FreeBlock.cpp: Get takes the first block of the first list that has one, and gives back
-- what is too much of it.
use rdm.Prelude.{
  ℕ, suc, ◌+◌, ◌-◌, ◌<◌, ◌≤◌, ◌≡◌, sym, ap, subst, ◌∙◌, ℕ_discrete, ◌⊎◌, inl, inr, true, false,
  List, [], ◌∷◌, some, get_elem?, arith, set, length, get_elem?-set_ne, Option-cases,
}
use rdm.Prelude.Run.{ok}
use rdm.Storage.FreeBlock.{FreeBlock, take_block, fblk_none}
use rdm.Storage.FreeBlock.Lists.{
  has, Chain, Lists, replaced, size_of, IsApart, IsDisjoint, IsListed,
}
use rdm.Storage.FreeBlock.Releases.{set-read, replaced_self, replaced_other, IsList}

has-replaced :
    (lists : Lists) (level i y x : ℕ) (rest : List ℕ)
    → lists level ≡ x ∷ rest
    → has y (replaced lists level rest i) ≡ true
    → (has y (lists i) ≡ true) × (level ≡ i → has y rest ≡ true)
unfolding has
has-replaced lists level i y x rest e h = elim (ℕ_discrete level i) [
  | yes s ↦
      let inside : has y rest ≡ true =
        subst (λ z. has y z ≡ true) (replaced_self lists level i rest s) h in
      let front : has y (x ∷ rest) ≡ true = ground (arith, inside) in
      let there : has y (lists level) ≡ true = ap (λ z. has y z) e ∙ front in
      (subst (λ z. has y (lists z) ≡ true) s there, (λ _. inside))
  | no n ↦
      (subst (λ z. has y z ≡ true) (replaced_other lists level i rest n) h, (λ s. absurd (n s)))
]

-- The first block of a list that is not empty.
Chain-front :
    (fblks : List ℕ) (x next : ℕ) (xs : List ℕ)
    → Chain fblks x xs
    → 0 < length xs
    → get_elem? fblks x ≡ some next
    → (rest : List ℕ) × (xs ≡ x ∷ rest) × (has x rest ≡ false) × Chain fblks next rest
unfolding Chain
Chain-front fblks x next [] c p h = absurd (omega arith)
Chain-front fblks x next (y ∷ ys) (e, n, out, (after, linked, c)) p h =
    let same : after ≡ next =
      ground (arith, sym linked ∙ subst (λ z. get_elem? fblks z ≡ some next) e h) in
    (
      ys,
      (λ i. sym e i ∷ ys),
      subst (λ z. has z ys ≡ false) (sym e) out,
      subst (λ z. Chain fblks z ys) same c,
    )

take_block-parts :
    (b c : FreeBlock) (level n x : ℕ)
    → take_block b level n ≡ ok (x, c)
    → (get_elem? b.free level ≡ some x)
      × ((next : ℕ) × (get_elem? b.fblks x ≡ some next)
          × (c.maxsize ≡ b.maxsize)
          × (c.arena_sz ≡ b.arena_sz)
          × (c.fblks ≡ b.fblks)
          × (c.free ≡ set b.free level next)
          × (c.nfree ≡ set b.nfree level (n - 1)))
unfolding take_block
take_block-parts b c level n x h = elim (Option-cases (get_elem? b.free level)) [
  | inl o ↦ ground (arith, h, o)
  | inr (y, o) ↦ elim (Option-cases (get_elem? b.fblks y)) [
    | inl p ↦ ground (arith, h, o, p)
    | inr (next, p) ↦
        let same : y ≡ x = ground (arith, h, o, p) in
        (
          o ∙ ap some same,
          (
            next,
            subst (λ z. get_elem? b.fblks z ≡ some next) same p,
            ground (arith, h, o, p),
            ground (arith, h, o, p),
            ground (arith, h, o, p),
            ground (arith, h, o, p),
            ground (arith, h, o, p),
          ),
        )
  ]
]

-- The block is on no list any more.
taken-IsApart :
    (m : ℕ) (lists : Lists) (level x : ℕ) (rest : List ℕ)
    → lists level ≡ x ∷ rest
    → has x rest ≡ false
    → IsDisjoint m lists
    → IsApart m (replaced lists level rest) x (size_of m level)
unfolding has
taken-IsApart m lists level x rest e out disjoint i y h =
    let (there, behind) = has-replaced lists level i y x rest e h in
    let front : has x (x ∷ rest) ≡ true = ground arith in
    elim (disjoint level i x y (ap (λ z. has x z) e ∙ front) there) [
      | inr apart ↦ apart
      | inl (a, s) ↦ ground (arith, out, subst (λ z. has z rest ≡ true) (sym a) (behind s))
    ]

pub take_block-IsListed :
    (b c : FreeBlock) (lists : Lists) (level n x : ℕ)
    → IsListed b lists
    → level ≤ b.maxsize
    → get_elem? b.nfree level ≡ some n
    → 0 < n
    → take_block b level n ≡ ok (x, c)
    → (rest : List ℕ) × (lists level ≡ x ∷ rest)
      × (c.maxsize ≡ b.maxsize)
      × IsListed c (replaced lists level rest)
      × IsApart b.maxsize (replaced lists level rest) x (size_of b.maxsize level)
take_block-IsListed b c lists level n x (small, listed, disjoint) le nf p h =
    let (fr, (next, wr, maxsize, arena, fblks, free, nfree)) = take_block-parts b c level n x h in
    let ((hd, fr2, chain), count) = listed level n le nf in
    let same : hd ≡ x = ground (arith, sym fr2 ∙ fr) in
    let (rest, e, out, tail) =
      Chain-front b.fblks x next (lists level)
        (subst (λ z. Chain b.fblks z (lists level)) same chain) (omega (arith, count, p)) wr in
    (
      rest,
      e,
      maxsize,
      (
        subst (λ z. z ≤ fblk_none) (sym arena) small,
        (λ i k q g. elim (ℕ_discrete level i) [
          | yes s ↦
              let gi = subst (λ z. get_elem? c.nfree z ≡ some k) (sym s) g in
              let first = ap (λ z. get_elem? z level) free ∙ set-read b.free level x next fr in
              let counted =
                ap (λ z. get_elem? z level) nfree ∙ set-read b.nfree level n (n - 1) nf in
              let is_count : k ≡ n - 1 = ground (arith, sym gi ∙ counted) in
              let whole : length (lists level) ≡ suc (length rest) = ap (λ z. length z) e in
              subst (λ z. IsList c i k z) (sym (replaced_self lists level i rest s))
                (
                  (
                    next,
                    subst (λ z. get_elem? c.free z ≡ some next) s first,
                    subst (λ z. Chain z next rest) (sym fblks) tail,
                  ),
                  omega (arith, is_count, count, whole),
                )
          | no d ↦
              let gi =
                sym (ap (λ z. get_elem? z i) nfree ∙ get_elem?-set_ne b.nfree (n - 1) d) ∙ g in
              let ((h1, f1, c1), cnt) = listed i k (subst (λ z. i ≤ z) maxsize q) gi in
              let fi = ap (λ z. get_elem? z i) free ∙ (get_elem?-set_ne b.free next d ∙ f1) in
              subst (λ z. IsList c i k z) (sym (replaced_other lists level i rest d))
                ((h1, fi, subst (λ z. Chain z h1 (lists i)) (sym fblks) c1), cnt)
        ]),
        (λ i j y z k l.
            subst (λ m. ((y ≡ z) × (i ≡ j)) ⊎ (y + size_of m i ≤ z) ⊎ (z + size_of m j ≤ y))
              (sym maxsize)
              (disjoint i j y z (has-replaced lists level i y x rest e k).0
                (has-replaced lists level j z x rest e l).0)),
      ),
      taken-IsApart b.maxsize lists level x rest e out disjoint,
    )

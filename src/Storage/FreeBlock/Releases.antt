-- ===== src/Storage/FreeBlock/Releases.antt =====
-- storage/pq/FreeBlock.cpp: Release puts a block at the front of the list of its size.
use rdm.Prelude.{
  ℕ, zero, suc, ◌+◌, ◌-◌, ◌%◌, ◌^◌, ◌<◌, ◌≤◌, ◌≡◌, ◌≢◌, refl, sym, ap, subst, ◌∙◌, ℕ_discrete, ◌⊎◌,
  inl, inr, true, List, [], ◌∷◌, some, get_elem?, arith, set, length, get_elem?-set_ne,
}
use rdm.Prelude.Run.{ok}
use rdm.Storage.FreeBlock.{FreeBlock, release, fblk_none}
use rdm.Storage.FreeBlock.Lists.{
  has, Chain, Lists, replaced, added, size_of, IsApart, IsDisjoint, IsListed, Chain-set,
  not-has_of_apart, release-parts,
}

-- What a write leaves at its own place.
pub set-read :
    {A : Type 0} (xs : List A) (i : ℕ) (a v : A)
    → get_elem? xs i ≡ some a
    → get_elem? (set xs i v) i ≡ some v
set-read [] i a v h = ground (arith, h)
set-read (x ∷ xs) zero a v h = refl
set-read (x ∷ xs) (suc i) a v h = set-read xs i a v h

pub replaced_self :
    (lists : Lists) (level i : ℕ) (xs : List ℕ) → level ≡ i → replaced lists level xs i ≡ xs
replaced_self lists level i xs e =
    elim (ℕ_discrete level i) as (λ d. (elim d [ yes _ ↦ xs | no _ ↦ lists i ]) ≡ xs) [
      | yes _ ↦ refl
      | no d ↦ absurd (d e)
    ]

pub replaced_other :
    (lists : Lists) (level i : ℕ) (xs : List ℕ) → level ≢ i → replaced lists level xs i ≡ lists i
replaced_other lists level i xs n =
    elim (ℕ_discrete level i) as (λ d. (elim d [ yes _ ↦ xs | no _ ↦ lists i ]) ≡ lists i) [
      | yes e ↦ absurd (n e)
      | no d ↦ refl
    ]

pub has-added :
    (lists : Lists) (level x i y : ℕ)
    → has y (added lists level x i) ≡ true
    → ((y ≡ x) × (i ≡ level)) ⊎ (has y (lists i) ≡ true)
unfolding has
has-added lists level x i y h = elim (ℕ_discrete level i) [
  | no n ↦ inr (ground (arith, h, n))
  | yes e ↦ elim (ℕ_discrete y x) [ yes s ↦ inl (s, sym e) | no d ↦ inr (ground (arith, h, e, d)) ]
]

added-IsDisjoint :
    (m : ℕ) (lists : Lists) (level x : ℕ)
    → IsDisjoint m lists
    → IsApart m lists x (size_of m level)
    → IsDisjoint m (added lists level x)
added-IsDisjoint m lists level x disjoint apart i j y z h k = elim (has-added lists level x i y h) [
  | inl (a, b) ↦ elim (has-added lists level x j z k) [
    | inl (c, d) ↦ inl (a ∙ sym c, b ∙ sym d)
    | inr l ↦ inr (ground (arith, a, b, apart j z l))
  ]
  | inr o ↦ elim (has-added lists level x j z k) [
    | inl (c, d) ↦ inr (ground (arith, c, d, apart i y o))
    | inr l ↦ disjoint i j y z o l
  ]
]

-- What IsListed says of one level.
abbrev pub IsList : FreeBlock → ℕ → ℕ → List ℕ → Type 0
IsList c i n xs =
    ((head : ℕ) × (get_elem? c.free i ≡ some head) × Chain c.fblks head xs) × (n ≡ length xs)

-- Where Release returns, on well-formed free lists, for a block that overlaps no listed one and a
-- list of its size whose counter has room: the block is at the front of that list, the other lists
-- are as they were, and all are well-formed.
pub release-IsListed :
    (b c : FreeBlock) (lists : Lists) (size fblk : ℕ)
    → IsListed b lists
    → length (lists (size - 1)) + 1 < 2 ^ 64
    → IsApart b.maxsize lists fblk size
    → release b size fblk ≡ ok c
    → IsListed c (added lists (size - 1) fblk)
unfolding Chain
release-IsListed b c lists size fblk (small, listed, disjoint) room apart h =
    let (p, q, inside, (head, n, old, fr, nf, wr, maxsize, arena, fblks, free, nfree)) =
      release-parts b c size fblk h in
    let out = not-has_of_apart b.maxsize fblk size lists (omega (arith, p, q)) p apart in
    let ((hd, fr2, chain2), count) = listed (size - 1) n (omega (arith, p, q)) nf in
    let same : hd ≡ head = ground (arith, sym fr2 ∙ fr) in
    let chain = subst (λ z. Chain b.fblks z (lists (size - 1))) same chain2 in
    let is_size : size_of b.maxsize (size - 1) ≡ size = ground (arith, p, q) in
    let link : (i : ℕ) (x : ℕ) → Chain b.fblks x (lists i) → Chain c.fblks x (lists i) = λ i x ch.
      subst (λ z. Chain z x (lists i)) (sym fblks)
        (Chain-set b.fblks fblk head x (lists i) (out i) ch) in
    (
      subst (λ z. z ≤ fblk_none) (sym arena) small,
      (λ i k le g. elim (ℕ_discrete (size - 1) i) [
        | yes e ↦
            let gi = subst (λ z. get_elem? c.nfree z ≡ some k) (sym e) g in
            let first =
              ap (λ z. get_elem? z (size - 1)) free ∙ set-read b.free (size - 1) head fblk fr in
            let counted =
              ap (λ z. get_elem? z (size - 1)) nfree
              ∙ set-read b.nfree (size - 1) n ((n + 1) % 2 ^ 64) nf in
            let linked = ap (λ z. get_elem? z fblk) fblks ∙ set-read b.fblks fblk old head wr in
            let is_count : k ≡ (n + 1) % 2 ^ 64 = ground (arith, sym gi ∙ counted) in
            subst (λ z. IsList c i k z)
              (sym (replaced_self lists (size - 1) i (fblk ∷ lists (size - 1)) e))
              (
                (
                  fblk,
                  subst (λ z. get_elem? c.free z ≡ some fblk) e first,
                  (
                    refl,
                    (λ z. omega (arith, z, small, inside)),
                    out (size - 1),
                    (head, linked, link (size - 1) head chain),
                  ),
                ),
                omega (arith, is_count, count, room),
              )
        | no d ↦
            let gi =
              sym (ap (λ z. get_elem? z i) nfree ∙ get_elem?-set_ne b.nfree ((n + 1) % 2 ^ 64) d)
              ∙ g in
            let ((h1, f1, c1), cnt) = listed i k (subst (λ z. i ≤ z) maxsize le) gi in
            let fi = ap (λ z. get_elem? z i) free ∙ (get_elem?-set_ne b.free fblk d ∙ f1) in
            subst (λ z. IsList c i k z)
              (sym (replaced_other lists (size - 1) i (fblk ∷ lists (size - 1)) d))
              ((h1, fi, link i h1 c1), cnt)
      ]),
      subst (λ z. IsDisjoint z (added lists (size - 1) fblk)) (sym maxsize)
          (added-IsDisjoint b.maxsize lists (size - 1) fblk disjoint
            (subst (λ z. IsApart b.maxsize lists fblk z) (sym is_size) apart)),
    )

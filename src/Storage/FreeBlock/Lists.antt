-- ===== src/Storage/FreeBlock/Lists.antt =====
-- storage/pq/FreeBlock.cpp: the lists of free blocks, and what a release does to them.
use rdm.Prelude.{
  ℕ, ◌+◌, ◌-◌, ◌%◌, ◌^◌, ◌<◌, ◌≤◌, ◌≡◌, ◌≢◌, ◌∙◌, ℕ_discrete, ◌⊎◌, inl, inr, Bool, true, false,
  ◌||◌, ◌==◌, if◌then◌else◌, List, [], ◌∷◌, some, Option-cases, get_elem?, arith, set, length,
  get_elem?-set_ne, Bool-cases,
}
use rdm.Prelude.Run.{ok}
use rdm.Storage.FreeBlock.{FreeBlock, release, fblk_none}

unfoldable pub has : ℕ → List ℕ → Bool
has x [] = false
has x (y ∷ ys) = (x == y) || has x ys

-- From the block `head` the links lead through the blocks of the list, each once, to FBLK_NONE.
unfoldable pub Chain : List ℕ → ℕ → List ℕ → Type 0
unfolding has
Chain fblks head [] = head ≡ fblk_none
Chain fblks head (x ∷ xs) =
    (head ≡ x)
    × (x ≢ fblk_none)
    × (has x xs ≡ false)
    × ((next : ℕ) × (get_elem? fblks x ≡ some next) × Chain fblks next xs)

-- The list of each level.
abbrev pub Lists : Type 0
Lists = ℕ → List ℕ

abbrev pub replaced : Lists → ℕ → List ℕ → Lists
replaced lists level xs i = elim (ℕ_discrete level i) [ yes _ ↦ xs | no _ ↦ lists i ]

abbrev pub added : Lists → ℕ → ℕ → Lists
added lists level x = replaced lists level (x ∷ lists level)

-- The words of a block of a level: the last level has blocks of the largest size once more.
abbrev pub size_of : ℕ → ℕ → ℕ
size_of maxsize level = if level == maxsize then maxsize else level + 1

-- No listed block overlaps the `size` words from `x` on.
abbrev pub IsApart : ℕ → Lists → ℕ → ℕ → Type 0
IsApart maxsize lists x size =
    (i y : ℕ) → has y (lists i) ≡ true → (x + size ≤ y) ⊎ (y + size_of maxsize i ≤ x)

-- No two listed blocks overlap.
abbrev pub IsDisjoint : ℕ → Lists → Type 0
IsDisjoint maxsize lists =
    (i j x y : ℕ)
    → has x (lists i) ≡ true
    → has y (lists j) ≡ true
    → ((x ≡ y) × (i ≡ j)) ⊎ (x + size_of maxsize i ≤ y) ⊎ (y + size_of maxsize j ≤ x)

-- The lists are those that `free_` and the links lead through, `nfree_` has their lengths, and no
-- two of their blocks overlap. `arena_sz_` is a `size_t`.
abbrev pub IsListed : FreeBlock → Lists → Type 0
IsListed b lists =
    (b.arena_sz ≤ fblk_none)
    × ((i n : ℕ)
        → i ≤ b.maxsize
        → get_elem? b.nfree i ≡ some n
        → ((head : ℕ) × (get_elem? b.free i ≡ some head) × Chain b.fblks head (lists i))
          × (n ≡ length (lists i)))
    × IsDisjoint b.maxsize lists

-- The counter of no list is about to wrap around.
abbrev pub HasRoom : Lists → Type 0
HasRoom lists = (i : ℕ) → length (lists i) + 1 < 2 ^ 64

-- A write elsewhere leaves a list alone.
pub Chain-set :
    (fblks : List ℕ) (y v head : ℕ) (xs : List ℕ)
    → has y xs ≡ false
    → Chain fblks head xs
    → Chain (set fblks y v) head xs
unfolding has Chain
Chain-set fblks y v head [] h c = c
Chain-set fblks y v head (x ∷ xs) h (e, n, out, (next, linked, c)) =
    let apart : y ≢ x = λ s. ground (arith, s, h) in
    let rest : has y xs ≡ false = ground (arith, h) in
    (e, n, out, (next, get_elem?-set_ne fblks v apart ∙ linked, Chain-set fblks y v next xs rest c))

pub not-has_of_apart :
    (m x size : ℕ) (lists : Lists)
    → 0 < m
    → 0 < size
    → IsApart m lists x size
    → (i : ℕ) → has x (lists i) ≡ false
not-has_of_apart m x size lists p q apart i = elim (Bool-cases (has x (lists i))) [
  | inr h ↦ h
  | inl h ↦ ground (arith, p, q, apart i x h)
]

pub release-parts :
    (b c : FreeBlock) (size fblk : ℕ)
    → release b size fblk ≡ ok c
    → (0 < size)
      × (size ≤ b.maxsize)
      × (fblk < b.arena_sz)
      × ((head n old : ℕ) × (get_elem? b.free (size - 1) ≡ some head)
          × (get_elem? b.nfree (size - 1) ≡ some n)
          × (get_elem? b.fblks fblk ≡ some old)
          × (c.maxsize ≡ b.maxsize)
          × (c.arena_sz ≡ b.arena_sz)
          × (c.fblks ≡ set b.fblks fblk head)
          × (c.free ≡ set b.free (size - 1) fblk)
          × (c.nfree ≡ set b.nfree (size - 1) ((n + 1) % 2 ^ 64)))
unfolding release
release-parts b c size fblk h = elim (Option-cases (get_elem? b.free (size - 1))) [
  | inl o ↦ ground (arith, h, o)
  | inr (head, o) ↦ elim (Option-cases (get_elem? b.nfree (size - 1))) [
    | inl p ↦ ground (arith, h, o, p)
    | inr (n, p) ↦ elim (Option-cases (get_elem? b.fblks fblk)) [
      | inl q ↦ ground (arith, h, o, p, q)
      | inr (old, q) ↦ (
        ground (arith, h, o, p, q),
        ground (arith, h, o, p, q),
        ground (arith, h, o, p, q),
        (
          head,
          n,
          old,
          o,
          p,
          q,
          ground (arith, h, o, p, q),
          ground (arith, h, o, p, q),
          ground (arith, h, o, p, q),
          ground (arith, h, o, p, q),
          ground (arith, h, o, p, q),
        ),
      )
    ]
  ]
]

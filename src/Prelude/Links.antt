-- ===== src/Prelude/Links.antt =====
-- Singly linked lists whose cells are the elements of an array: `next i` is the successor of cell
-- `i`, cells lie below `n`, and `stop` ends a list.
use rdm.Prelude.{ℕ, ◌<◌, ◌≡◌, sym, subst, Bool, true, false, ◌||◌, List, [], ◌∷◌, arith, ◌==◌}

abbrev pub has : ℕ → List ℕ → Bool
has a [] = false
has a (i ∷ is) = a == i || has a is

-- The list that starts at `p` has the cells `is`, all different.
abbrev pub Linked : (ℕ → ℕ) → ℕ → ℕ → ℕ → List ℕ → Type 0
Linked next n stop p [] = p ≡ stop
Linked next n stop p (i ∷ is) =
    (p ≡ i) × (i < n) × (has i is ≡ false) × Linked next n stop (next i) is

-- A list survives any change that spares its cells.
pub Linked-frame :
    (next next' : ℕ → ℕ) (n stop p : ℕ) (is : List ℕ)
    → ((i : ℕ) → has i is ≡ true → next' i ≡ next i)
    → Linked next n stop p is
    → Linked next' n stop p is
Linked-frame next next' n stop p [] same h = h
Linked-frame next next' n stop p (i ∷ is) same h =
    ground
      (arith, same i, Linked-frame next next' n stop (next i) is (λ j m. same j (ground arith)) h.3)

pub has-lt :
    (next : ℕ → ℕ) (n stop p a : ℕ) (is : List ℕ)
    → Linked next n stop p is
    → has a is ≡ true
    → a < n
has-lt next n stop p a [] h m = ground arith
has-lt next n stop p a (i ∷ is) h m = ground (arith, has-lt next n stop (next i) a is h.3)

pub Linked-cast :
    (next : ℕ → ℕ) (n n' stop p : ℕ) (is : List ℕ)
    → n' ≡ n
    → Linked next n stop p is
    → Linked next n' stop p is
Linked-cast next n n' stop p is e h = subst (λ k. Linked next k stop p is) (sym e) h

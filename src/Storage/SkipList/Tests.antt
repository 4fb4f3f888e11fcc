-- ===== src/Storage/SkipList/Tests.antt =====
-- The skip lists on concrete input: a head, a tail and two elements, one of them on two levels. An
-- element is its key and its block of links.
use rdm.Prelude.{
  ℕ, zero, suc, ◌<◌, ◌≡◌, ◌⊎◌, inl, inr, refl, Bool, true, List, [], ◌∷◌, some, get_elem?, get_or,
  arith, ltb,
}
use rdm.Prelude.Run.{ok}
use rdm.Storage.SkipList.{search, link_of, unlink, lower, link_from}
use rdm.Storage.SkipList.Separates.{IsFound, search-IsFound}
use rdm.Storage.SkipList.Returns.{IsLinked, search-returns}

abbrev elems : List (ℕ × ℕ)
elems = (0, 0) ∷ (99, 6) ∷ (20, 2) ∷ (10, 4) ∷ []

abbrev node : ℕ × ℕ → ℕ
node e = e.1

-- The head leads to 3 and then to 2 on the lowest level, to 2 on the other one.
abbrev blocks : List ℕ
blocks = 3 ∷ 2 ∷ 1 ∷ 1 ∷ 2 ∷ 0 ∷ 1 ∷ []

abbrev below_15 : ℕ × ℕ → Bool
below_15 e = ltb e.0 15

found : search node elems blocks below_15 1 0 ≡ ok (2, 3 ∷ 0 ∷ [])
unfolding search
found = refl

search-IsFound_example : IsFound node elems blocks below_15 0 2 (2, 3 ∷ 0 ∷ [])
search-IsFound_example = search-IsFound node elems blocks below_15 1 0 (2, 3 ∷ 0 ∷ []) found

-- The element 2 is taken out of both levels, and then only the lowest one is left.
taken_out : unlink node elems (3 ∷ 0 ∷ []) 0 2 blocks ≡ ok (2, 3 ∷ 1 ∷ 1 ∷ 1 ∷ 1 ∷ 0 ∷ 1 ∷ [])
unfolding unlink
taken_out = refl

lowered : lower node elems (3 ∷ 1 ∷ 1 ∷ 1 ∷ 1 ∷ 0 ∷ 1 ∷ []) 0 1 1 ≡ ok 0
unfolding lower
lowered = refl

put_in : link_from node elems (3 ∷ 0 ∷ []) (3 ∷ 1 ∷ 1 ∷ 1 ∷ 1 ∷ 0 ∷ 1 ∷ []) 2 1 ≡ ok blocks
unfolding link_from
put_in = refl

-- What lies before 15 on a level, and the order of the elements.
abbrev On : ℕ → ℕ → Type 0
On k p = ((p ≡ 0) × (k < 2)) ⊎ ((p ≡ 3) × (k ≡ 0))

abbrev place : ℕ → ℕ
place p = get_or (0 ∷ 4 ∷ 3 ∷ 1 ∷ []) p 0

onward :
    (k p : ℕ)
    → On k p
    → (q : ℕ) × (e : ℕ × ℕ) × (link_of node elems blocks k p ≡ ok q)
      × (get_elem? elems q ≡ some e)
      × (place p < place q)
      × (below_15 e ≡ true → On k q)
unfolding link_of
onward zero zero on = (3, (10, 4), refl, refl, omega arith, λ h. inr (refl, refl))
onward (suc zero) zero on = (2, (20, 2), refl, refl, omega arith, λ h. ground (arith, h))
onward (suc (suc k)) zero on = ground (arith, on)
onward zero (suc (suc (suc zero))) on =
    (2, (20, 2), refl, refl, omega arith, λ h. ground (arith, h))
onward k (suc zero) on = ground (arith, on)
onward k (suc (suc zero)) on = ground (arith, on)
onward (suc k) (suc (suc (suc zero))) on = ground (arith, on)
onward k (suc (suc (suc (suc p)))) on = ground (arith, on)

numbered : (k p : ℕ) → On k p → place p < 4
numbered k zero on = omega arith
numbered k (suc zero) on = ground (arith, on)
numbered k (suc (suc zero)) on = ground (arith, on)
numbered k (suc (suc (suc zero))) on = omega arith
numbered k (suc (suc (suc (suc p)))) on = ground (arith, on)

linked : IsLinked node elems blocks below_15 On place
linked = record { onward = onward; below = λ k p on. omega (arith, on); numbered = numbered }

search-returns_example : (r : ℕ × List ℕ) × (search node elems blocks below_15 1 0 ≡ ok r)
search-returns_example =
    search-returns node elems blocks below_15 On place linked 1 0 (inl (refl, omega arith))

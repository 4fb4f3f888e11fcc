-- ===== src/Storage/SkipList/Returns.antt =====
-- The searches of storage/pq/RegionList.cpp and TimeQueue.cpp end.
use rdm.Prelude.{
  ℕ, zero, suc, ◌+◌, ◌<◌, ◌≡◌, inl, inr, Bool-cases, Bool, true, List, [], ◌∷◌, some, get_elem?,
  arith, length,
}
use rdm.Prelude.Run.{ok}
use rdm.Storage.SkipList.{link_of, walk, descend, search}

module _ {E : Type 0} (node : E → ℕ) (elems : List E) (blocks : List ℕ) (before : E → Bool) where
  -- The levels are linked: `On k p` says that `p` is the head or an element of the level `k` before
  -- the target, `place` numbers the elements in the order of the links.
  pub record IsLinked (On : ℕ → ℕ → Type 0) (place : ℕ → ℕ) : Type 0 where
    pub onward :
        (k p : ℕ)
        → On k p
        → (q : ℕ) × (e : E) × (link_of node elems blocks k p ≡ ok q)
          × (get_elem? elems q ≡ some e)
          × (place p < place q)
          × (before e ≡ true → On k q)
    pub below : (k p : ℕ) → On (suc k) p → On k p
    pub numbered : (k p : ℕ) → On k p → place p < length elems

  module _ (On : ℕ → ℕ → Type 0) (place : ℕ → ℕ) (linked : IsLinked On place) where
    walk-returns :
        (f k p : ℕ)
        → length elems < place p + f
        → On k p
        → (r : ℕ × ℕ) × (walk node elems blocks before f k p ≡ ok r) × On k r.0
    unfolding walk
    walk-returns zero k p enough on = absurd (omega (arith, enough, linked.numbered k p on))
    walk-returns (suc f) k p enough on =
        let (q, e, o, w, up, more) = linked.onward k p on in
        elim (Bool-cases (before e)) [
          | inl t ↦
              let (r, h, there) = walk-returns f k q (omega (arith, enough, up)) (more t) in
              (r, ground (arith, o, w, t, h), there)
          | inr t ↦ ((p, q), ground (arith, o, w, t), on)
        ]

    descend-returns :
        (k p : ℕ) (update : List ℕ)
        → On k p
        → (r : ℕ × List ℕ) × (descend node elems blocks before k p update ≡ ok r)
    unfolding descend
    descend-returns zero p update on =
        let (r, h, there) = walk-returns (suc (length elems)) zero p (omega arith) on in
        ((r.1, r.0 ∷ update), ground (arith, h))
    descend-returns (suc k) p update on =
        let (r, h, there) = walk-returns (suc (length elems)) (suc k) p (omega arith) on in
        let (found, e) = descend-returns k r.0 (r.0 ∷ update) (linked.below k r.0 there) in
        (found, ground (arith, h, e))

    -- Where the links of each level lead on in some order of the elements, and an element of a level
    -- is on the levels below it, a search from a head that is on the highest level returns: it reads
    -- nothing outside of the arrays and its fuel is enough.
    pub search-returns :
        (level head : ℕ)
        → On level head
        → (r : ℕ × List ℕ) × (search node elems blocks before level head ≡ ok r)
    unfolding search
    search-returns level head on = descend-returns level head [] on

-- ===== src/Storage/SkipList/Separates.antt =====
-- The searches of storage/pq/RegionList.cpp and TimeQueue.cpp find the place of the target.
use rdm.Prelude.{
  ℕ, zero, suc, ◌+◌, ◌≡◌, refl, subst, ◌⊎◌, inl, inr, Bool-cases, Option-cases, Bool, true, false,
  List, [], ◌∷◌, some, get_elem?, arith, length,
}
use rdm.Prelude.Run.{Run-cases, ok}
use rdm.Storage.SkipList.{link_of, walk, descend, search}

module _ {E : Type 0} (node : E → ℕ) (elems : List E) (blocks : List ℕ) (before : E → Bool) where
  -- The element is the head or lies before the target.
  abbrev pub IsStart : ℕ → ℕ → Type 0
  IsStart head p = (p ≡ head) ⊎ ((e : E) × (get_elem? elems p ≡ some e) × (before e ≡ true))

  -- The target belongs between `p` and the element `q` behind it on the level `k`.
  abbrev pub IsPlace : ℕ → ℕ → ℕ → ℕ → Type 0
  IsPlace head k p q =
      IsStart head p
      × (link_of node elems blocks k p ≡ ok q)
      × ((e : E) × (get_elem? elems q ≡ some e) × (before e ≡ false))

  -- The elements are the places on the levels from `k` on.
  abbrev pub IsPlaces : ℕ → ℕ → List ℕ → Type 0
  IsPlaces head k ps = (i p : ℕ) → get_elem? ps i ≡ some p → (q : ℕ) × IsPlace head (k + i) p q

  pub walk-IsPlace :
      (f k head p last q : ℕ)
      → IsStart head p
      → walk node elems blocks before f k p ≡ ok (last, q)
      → IsPlace head k last q
  unfolding walk
  walk-IsPlace zero k head p last q s h = ground (arith, h)
  walk-IsPlace (suc f) k head p last q s h = elim (Run-cases (link_of node elems blocks k p)) [
    | inr (x, o) ↦ ground (arith, h, o)
    | inl (r, o) ↦ elim (Option-cases (get_elem? elems r)) [
      | inl w ↦ ground (arith, h, o, w)
      | inr (e, w) ↦ elim (Bool-cases (before e)) [
        | inl t ↦ walk-IsPlace f k head r last q (inr (e, w, t)) (ground (arith, h, o, w, t))
        | inr t ↦
            let same : (p ≡ last) × (r ≡ q) = ground (arith, h, o, w, t) in
            subst (λ x. IsPlace head k x q) same.0
              (subst (λ x. IsPlace head k p x) same.1 (s, o, (e, w, t)))
      ]
    ]
  ]

  IsPlaces-cons :
      (head k p q : ℕ) (ps : List ℕ)
      → IsPlace head k p q
      → IsPlaces head (suc k) ps
      → IsPlaces head k (p ∷ ps)
  IsPlaces-cons head k p q ps here above zero r h =
      let same : p ≡ r = ground (arith, h) in
      let level : k ≡ k + 0 = omega arith in
      (q, subst (λ x. IsPlace head (k + 0) x q) same (subst (λ x. IsPlace head x p q) level here))
  IsPlaces-cons head k p q ps here above (suc i) r h =
      let (next, there) = above i r h in
      let level : suc k + i ≡ k + suc i = omega arith in
      (next, subst (λ x. IsPlace head x r next) level there)

  -- What the loop leaves, from the level `k` down.
  abbrev pub IsFound : ℕ → ℕ → ℕ × List ℕ → Type 0
  IsFound head count r =
      (length r.1 ≡ count)
      × IsPlaces head 0 r.1
      × ((p : ℕ) × (get_elem? r.1 0 ≡ some p) × IsPlace head 0 p r.0)

  descend-IsFound :
      (k head p : ℕ) (update : List ℕ) (r : ℕ × List ℕ)
      → IsStart head p
      → IsPlaces head (suc k) update
      → descend node elems blocks before k p update ≡ ok r
      → IsFound head (length update + suc k) r
  unfolding descend
  descend-IsFound zero head p update r s above h =
      elim (Run-cases (walk node elems blocks before (suc (length elems)) zero p)) [
        | inr (x, o) ↦ ground (arith, h, o)
        | inl ((last, q), o) ↦
            let here = walk-IsPlace (suc (length elems)) zero head p last q s o in
            let same : (q, last ∷ update) ≡ r = ground (arith, h, o) in
            subst (IsFound head (length update + 1)) same
              (omega arith, IsPlaces-cons head zero last q update here above, (last, refl, here))
      ]
  descend-IsFound (suc k) head p update r s above h =
      elim (Run-cases (walk node elems blocks before (suc (length elems)) (suc k) p)) [
        | inr (x, o) ↦ ground (arith, h, o)
        | inl ((last, q), o) ↦
            let here = walk-IsPlace (suc (length elems)) (suc k) head p last q s o in
            let found =
              descend-IsFound k head last (last ∷ update) r here.0
                (IsPlaces-cons head (suc k) last q update here above) (ground (arith, h, o)) in
            let count : suc (length update) + suc k ≡ length update + suc (suc k) = omega arith in
            subst (λ n. IsFound head n r) count found
      ]

  -- Where a search returns, `update` has an element for each level: the head or one before the
  -- target, and the one that is linked behind it there is not before the target. The element that
  -- the search answers is the one behind the place on the lowest level.
  pub search-IsFound :
      (level head : ℕ) (r : ℕ × List ℕ)
      → search node elems blocks before level head ≡ ok r
      → IsFound head (suc level) r
  unfolding search
  search-IsFound level head r h =
      let found = descend-IsFound level head head [] r (inl refl) (λ i p e. ground (arith, e)) h in
      let count : 0 + suc level ≡ suc level = omega arith in
      subst (λ n. IsFound head n r) count found

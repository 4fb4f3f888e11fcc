-- ===== src/Storage/SkipList.antt =====
-- storage/pq/RegionList.cpp and TimeQueue.cpp: the loops that their skip lists share. The elements
-- are an array; the links of an element are a block of the arena of storage/pq/FreeBlock.h, one
-- word for each level, and hold indexes of elements.
pub mod Separates
pub mod Returns
mod Tests
use rdm.Prelude.{
  ℕ, zero, suc, ◌+◌, Bool, true, false, List, [], ◌∷◌, ◌==◌, if◌then◌else◌, set, length,
}
use rdm.Prelude.Run.{Run, ok, fault, out_of_fuel, out_of_range, ◌>>=◌, ◌>>◌, at}

-- The length of the local array `update`.
abbrev pub max_levels : ℕ
max_levels = 15

-- An access of `update` at an index, which is outside of the array if the test fails.
abbrev pub in_range : Bool → Run (Unit {0})
in_range true = ok tt
in_range false = fault out_of_range

-- The links of the head, one for each level, to the tail.
unfoldable pub link_head : ℕ → List ℕ → ℕ → ℕ → Run (List ℕ)
link_head zero fblks fblk tail = ok fblks
link_head (suc n) fblks fblk tail =
    at fblks fblk >>= λ _. link_head n (set fblks fblk tail) (fblk + 1) tail

module _ {E : Type 0} (node : E → ℕ) (elems : List E) where
  -- The link of the element `p` on the level `k`.
  unfoldable pub link_of : List ℕ → ℕ → ℕ → Run ℕ
  link_of blocks k p = at elems p >>= λ e. at blocks (node e + k)

  -- `link = q` of the element `p` on the level `k`.
  unfoldable pub set_link : List ℕ → ℕ → ℕ → ℕ → Run (List ℕ)
  set_link blocks k p q =
      at elems p >>= λ e. at blocks (node e + k) >>= λ _. ok (set blocks (node e + k) q)

  -- The inner loop of a search: the last element before the target and the one behind it.
  unfoldable pub walk : List ℕ → (E → Bool) → ℕ → ℕ → ℕ → Run (ℕ × ℕ)
  unfolding link_of
  walk blocks before zero k p = fault out_of_fuel
  walk blocks before (suc f) k p = link_of blocks k p >>= λ q. at elems q >>= λ e.
      let rest = walk blocks before f k q in if before e then rest else ok (p, q)

  -- The outer loop, down from the level `k`: the element behind the place that is found, and
  -- `update`, which holds the element before it on each level. A level has at most all elements.
  unfoldable pub descend : List ℕ → (E → Bool) → ℕ → ℕ → List ℕ → Run (ℕ × List ℕ)
  unfolding walk
  descend blocks before zero p update =
      walk blocks before (suc (length elems)) zero p >>= λ (last, q). ok (q, last ∷ update)
  descend blocks before (suc k) p update =
      walk blocks before (suc (length elems)) (suc k) p >>= λ (last, q).
      descend blocks before k last (last ∷ update)

  unfoldable pub search : List ℕ → (E → Bool) → ℕ → ℕ → Run (ℕ × List ℕ)
  unfolding descend
  search blocks before level head = descend blocks before level head []

  -- The element `q` is taken out of the levels on which it is linked; the first level on which it
  -- is not is the number of its links.
  unfoldable pub unlink : List ℕ → ℕ → ℕ → List ℕ → Run (ℕ × List ℕ)
  unfolding link_of set_link
  unlink [] k q blocks = ok (k, blocks)
  unlink (p ∷ update) k q blocks = link_of blocks k p >>= λ linked.
      let gone : Run (ℕ × List ℕ) = link_of blocks k q >>= λ next.
      set_link blocks k p next >>= λ bs. unlink update (suc k) q bs in
      if linked == q then gone else ok (k, blocks)

  -- The levels on which the head is linked to the tail are given up.
  unfoldable pub lower : List ℕ → ℕ → ℕ → ℕ → Run ℕ
  unfolding link_of
  lower blocks head tail zero = link_of blocks zero head >>= λ _. ok zero
  lower blocks head tail (suc m) = link_of blocks (suc m) head >>= λ next.
      let rest = lower blocks head tail m in if next == tail then rest else ok (suc m)

  -- The element `x` is put behind `p` on the level `k`.
  unfoldable pub link_level : List ℕ → ℕ → ℕ → ℕ → Run (List ℕ)
  unfolding link_of set_link
  link_level blocks k p x = do
    next ← link_of blocks k p
    bs ← set_link blocks k x next
    set_link bs k p x

  -- The loop from the level `k` of the new element down.
  unfoldable pub link_from : List ℕ → List ℕ → ℕ → ℕ → Run (List ℕ)
  unfolding link_level
  link_from update blocks x zero = at update zero >>= λ p. link_level blocks zero p x
  link_from update blocks x (suc k) =
      at update (suc k) >>= λ p. link_level blocks (suc k) p x >>= λ bs. link_from update bs x k

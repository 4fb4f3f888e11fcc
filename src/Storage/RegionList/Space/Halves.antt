-- ===== src/Storage/RegionList/Space/Halves.antt =====
-- storage/pq/RegionList.cpp: Split divides a region, and nothing else moves.
use rdm.Prelude.{
  ℕ, ◌-◌, ◌≤◌, ◌≡◌, ◌≢◌, refl, sym, ◌∙◌, subst, inl, inr, Option-cases, Option, none, some,
  get_elem?, get_elem?-set_self, get_elem?-set_ne, set, arith,
}
use rdm.Prelude.Int.{ℤ, pos, ◌+ℤ◌}
use rdm.Prelude.Run.{Run-cases, ok}
use rdm.Storage.RegionList.{Region, get_extent}
use rdm.Storage.RegionList.Chained.{has_elem}
use rdm.Storage.RegionList.Free.{Store}
use rdm.Storage.RegionList.Space.{add, split, keep_low}
use rdm.Storage.RegionList.Space.Unmoved.{IsAt, add-IsAt}

pub keep_low-parts :
    (s t : Store) (rlix extent rem i : ℕ) (kept : Region)
    → get_elem? s.list.rp rlix ≡ some kept
    → keep_low rlix extent rem (some i) s ≡ ok (0, t)
    → t.list.rp ≡ set s.list.rp rlix (record kept { extent = extent })
unfolding keep_low
keep_low-parts s t rlix extent rem i kept w h = elim (Option-cases (get_elem? s.list.rp i)) [
  | inl b ↦ ground (arith, h, b)
  | inr (r, b) ↦ ground (arith, h, b, w)
]

pub split-parts :
    (random : ℕ → ℕ) (s t : Store) (rlix extent : ℕ) (low : Region)
    → get_elem? s.list.rp rlix ≡ some low
    → split random s rlix extent ≡ ok (0, t)
    → (extent ≤ get_extent low)
      × ((n : Option ℕ) × (s1 : Store) × (add random s
              (low.offset +ℤ pos extent)
              (get_extent low - extent)
            ≡ ok (n, s1))
          × (keep_low rlix extent (get_extent low - extent) n s1 ≡ ok (0, t)))
unfolding split
split-parts random s t rlix extent low w h =
    elim (Run-cases (add random s (low.offset +ℤ pos extent) (get_extent low - extent))) [
      | inr (x, a) ↦ ground (arith, h, w, a)
      | inl ((n, s1), a) ↦ (ground (arith, h, w), (n, s1, a, ground (arith, h, w, a)))
    ]

pub keep_low-fails :
    (s t : Store) (rlix extent rem : ℕ) → keep_low rlix extent rem none s ≢ ok (0, t)
unfolding keep_low
keep_low-fails s t rlix extent rem h = ground (arith, h)

-- What Split does from Add on.
add-IsHalved :
    (random : ℕ → ℕ) (s s1 t : Store) (n : Option ℕ) (rlix extent : ℕ) (low : Region)
    → get_elem? s.list.rp rlix ≡ some low
    → rlix ≢ s.list.empty
    → add random s (low.offset +ℤ pos extent) (get_extent low - extent) ≡ ok (n, s1)
    → keep_low rlix extent (get_extent low - extent) n s1 ≡ ok (0, t)
    → IsAt t.list.rp rlix low.offset extent
      × IsAt t.list.rp s.list.empty (low.offset +ℤ pos extent) (get_extent low - extent)
      × ((j : ℕ) (o : ℤ) (e : ℕ)
          → j ≢ rlix
          → j ≢ s.list.empty
          → IsAt s.list.rp j o e
          → IsAt t.list.rp j o e)
add-IsHalved random s s1 t none rlix extent low w other a k =
    absurd (keep_low-fails s1 t rlix extent (get_extent low - extent) k)
add-IsHalved random s s1 t (some i) rlix extent low w other a k =
    let (first, new, rest) =
      add-IsAt random s s1 (low.offset +ℤ pos extent) (get_extent low - extent) i a in
    let (kept, at, offs, exts) =
      rest rlix low.offset low.extent (λ e. other (e ∙ first)) (low, w, refl, refl) in
    let halved : Region = record kept { extent = extent } in
    let moved : t.list.rp ≡ set s1.list.rp rlix halved =
      keep_low-parts s1 t rlix extent (get_extent low - extent) i kept at k in
    let elsewhere : (j : ℕ) (o : ℤ) (e : ℕ)
        → j ≢ rlix
        → IsAt s1.list.rp j o e
        → IsAt t.list.rp j o e =
      λ j o e apart (r, there, p, x).
        subst (λ y. IsAt y j o e) (sym moved)
          (r, get_elem?-set_ne s1.list.rp halved (λ k. apart (sym k)) ∙ there, p, x) in
    (
      subst (λ y. IsAt y rlix low.offset extent) (sym moved)
          (
            halved,
            get_elem?-set_self s1.list.rp rlix halved (has_elem s1.list.rp rlix kept at),
            offs,
            refl,
          ),
      elsewhere s.list.empty (low.offset +ℤ pos extent) (get_extent low - extent)
          (λ k. other (sym k))
          (subst (λ y. IsAt s1.list.rp y (low.offset +ℤ pos extent) (get_extent low - extent)) first
            new),
      (λ j o e apart unused at. elsewhere j o e apart (rest j o e (λ k. unused (k ∙ first)) at)),
    )

-- Where Split answers with 0 and the region is not the first unused one: the region keeps its
-- offset and has the extent that was asked; the first unused region now starts where it ends and
-- has the rest of the old extent; every other region has the offset and the extent that it had.
pub split-IsHalved :
    (random : ℕ → ℕ) (s t : Store) (rlix extent : ℕ) (low : Region)
    → get_elem? s.list.rp rlix ≡ some low
    → rlix ≢ s.list.empty
    → split random s rlix extent ≡ ok (0, t)
    → (extent ≤ get_extent low)
      × IsAt t.list.rp rlix low.offset extent
      × IsAt t.list.rp s.list.empty (low.offset +ℤ pos extent) (get_extent low - extent)
      × ((j : ℕ) (o : ℤ) (e : ℕ)
          → j ≢ rlix
          → j ≢ s.list.empty
          → IsAt s.list.rp j o e
          → IsAt t.list.rp j o e)
split-IsHalved random s t rlix extent low w other h =
    let (fits, (n, s1, a, k)) = split-parts random s t rlix extent low w h in
    let (kept, new, rest) = add-IsHalved random s s1 t n rlix extent low w other a k in
    (fits, kept, new, rest)

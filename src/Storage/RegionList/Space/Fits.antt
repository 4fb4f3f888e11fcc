-- ===== src/Storage/RegionList/Space/Fits.antt =====
-- storage/pq/RegionList.cpp: Get hands out a region that is large enough.
use rdm.Prelude.{
  ℕ, ◌≤◌, ◌≡◌, ◌≢◌, refl, sym, subst, ◌⊎◌, inl, inr, Bool-cases, Option-cases, ◌==◌, ◌||◌, ltb,
  get_elem?, some, arith,
}
use rdm.Prelude.Int.{negsuc}
use rdm.Prelude.Run.{Run-cases, ok}
use rdm.Storage.FreeBlock
use rdm.Storage.FreeBlock.{FreeBlock}
use rdm.Storage.SkipList.{unlink, lower}
use rdm.Storage.SkipList.Separates.{search-IsFound}
use rdm.Storage.RegionList.{Region, RegionList, get_extent, rl_none, fewer}
use rdm.Storage.RegionList.Free.{
  Store, Order, Target, by_offset, by_extent, delete, find_extent, search_update, search_for,
  target_of, recalculate_max_free_extent, rl_fext_tl,
}
use rdm.Storage.RegionList.Space.{get, take_region, more}

-- A deletion changes the level and the blocks.
pub delete-parts :
    (o : Order) (s t : Store) (i : ℕ)
    → delete o s i ≡ ok t
    → (t ≡ s)
      ⊎ ((level : ℕ) × (blocks : FreeBlock) × (t
            ≡ record { list = o.with_level s.list level; blocks = blocks }))
unfolding delete
delete-parts o s t i h = elim (Option-cases (get_elem? s.list.rp i)) [
  | inl w ↦ ground (arith, h, w)
  | inr (rep, w) ↦ elim (Run-cases (search_update o s (target_of rep))) [
    | inr (x, u) ↦ ground (arith, h, w, u)
    | inl ((q, update), u) ↦ elim (Option-cases (get_elem? s.list.rp q)) [
      | inl v ↦ ground (arith, h, w, u, v)
      | inr (sqp, v) ↦ elim (Bool-cases (o.found (target_of rep) sqp)) [
        | inr f ↦ inl (ground (arith, h, w, u, v, f))
        | inl f ↦ elim (Run-cases (unlink o.node s.list.rp update 0 q s.blocks.fblks)) [
          | inr (x, a) ↦ ground (arith, h, w, u, v, f, a)
          | inl ((k, fblks), a) ↦
              elim (Run-cases
                (FreeBlock.release (record s.blocks { fblks = fblks }) k (o.node sqp))) [
                  | inr (x, b) ↦ ground (arith, h, w, u, v, f, a, b)
                  | inl (blocks, b) ↦
                      elim (Run-cases (
                        lower o.node s.list.rp blocks.fblks (o.head s.list) o.tail
                          (o.level s.list))) [
                            | inr (x, c) ↦ ground (arith, h, w, u, v, f, a, b, c)
                            | inl (level, c) ↦
                                inr (level, blocks, ground (arith, h, w, u, v, f, a, b, c))
                          ]
                ]
        ]
      ]
    ]
  ]
]

-- What a deletion leaves alone: the regions and all the counters.
abbrev IsKept : RegionList → RegionList → Type 0
IsKept l m =
    (m.rp ≡ l.rp)
    × (m.nelems ≡ l.nelems)
    × (m.nfree ≡ l.nfree)
    × (m.nempty ≡ l.nempty)
    × (m.maxfextent ≡ l.maxfextent)

pub delete-IsKept :
    (s t : Store) (i : ℕ)
    → (delete by_offset s i ≡ ok t → IsKept s.list t.list)
      × (delete by_extent s i ≡ ok t → IsKept s.list t.list)
delete-IsKept s t i = (
  (λ h. elim (delete-parts by_offset s t i h) [
    | inl e ↦ subst (λ x. IsKept s.list x.list) (sym e) (refl, refl, refl, refl, refl)
    | inr (level, blocks, e) ↦
        subst (λ x. IsKept s.list x.list) (sym e) (refl, refl, refl, refl, refl)
  ]),
  (λ h. elim (delete-parts by_extent s t i h) [
    | inl e ↦ subst (λ x. IsKept s.list x.list) (sym e) (refl, refl, refl, refl, refl)
    | inr (level, blocks, e) ↦
        subst (λ x. IsKept s.list x.list) (sym e) (refl, refl, refl, refl, refl)
  ]),
)

-- The region is one of the array and not smaller than asked.
abbrev pub IsLarge : Store → ℕ → ℕ → Type 0
IsLarge s extent i = (r : Region) × (get_elem? s.list.rp i ≡ some r) × (extent ≤ get_extent r)

find_extent-IsLarge : (s : Store) (extent i : ℕ) → find_extent s extent ≡ ok i → IsLarge s extent i
unfolding find_extent search_for
find_extent-IsLarge s extent i h =
    let target : Target = record { extent = extent; offset = negsuc 0 } in
    elim (Run-cases (search_for by_extent s target)) [
      | inr (x, o) ↦ ground (arith, h, o)
      | inl (r, o) ↦
          let same : r.0 ≡ i = ground (arith, h, o) in
          let (count, places, (p, first, (start, linked, (e, w, t)))) =
            search-IsFound by_extent.node s.list.rp s.blocks.fblks (by_extent.before target)
              s.list.level_fext s.list.fext r o in
          subst (IsLarge s extent) same (e, w, ground (arith, t))
    ]

-- DeleteOffset and then DeleteExtent of the region have led to the blocks and the levels of the two
-- skip lists.
abbrev pub IsTakenOff : Store → Store → ℕ → Type 0
IsTakenOff s t i =
    (s1 : Store) × (s2 : Store) × (delete by_offset s i ≡ ok s1)
    × (delete by_extent s1 i ≡ ok s2)
    × (t.blocks ≡ s2.blocks)
    × (t.list.level_foff ≡ s2.list.level_foff)
    × (t.list.level_fext ≡ s2.list.level_fext)

take_region-parts :
    (s t : Store) (i q : ℕ)
    → take_region s q ≡ ok (i, t)
    → (i ≡ q)
      × (t.list.rp ≡ s.list.rp)
      × (t.list.nelems ≡ more s.list.nelems)
      × (t.list.nfree ≡ fewer s.list.nfree)
      × (t.list.nempty ≡ s.list.nempty)
      × IsTakenOff s t i
unfolding take_region
take_region-parts s t i q h = elim (Option-cases (get_elem? s.list.rp q)) [
  | inl w ↦ ground (arith, h, w)
  | inr (rep, w) ↦ elim (Run-cases (delete by_offset s q)) [
    | inr (x, a) ↦ ground (arith, h, w, a)
    | inl (s1, a) ↦ elim (Run-cases (delete by_extent s1 q)) [
      | inr (x, b) ↦ ground (arith, h, w, a, b)
      | inl (s2, b) ↦
          let s3 : Store = record s2 { list = record s2.list { nfree = fewer s2.list.nfree } } in
          let kept1 = (delete-IsKept s s1 q).0 a in
          let kept2 = (delete-IsKept s1 s2 q).1 b in
          let moved : ((i ≡ q)
                × (t.list.rp ≡ s.list.rp)
                × (t.list.nelems ≡ more s.list.nelems)
                × (t.list.nfree ≡ fewer s.list.nfree)
                × (t.list.nempty ≡ s.list.nempty))
              → ((t.blocks ≡ s2.blocks)
                  × (t.list.level_foff ≡ s2.list.level_foff)
                  × (t.list.level_fext ≡ s2.list.level_fext))
              → (i ≡ q)
                × (t.list.rp ≡ s.list.rp)
                × (t.list.nelems ≡ more s.list.nelems)
                × (t.list.nfree ≡ fewer s.list.nfree)
                × (t.list.nempty ≡ s.list.nempty)
                × IsTakenOff s t i =
            λ (is, rp, more_elems, fewer_free, empty) (bs, foff, fext). (
              is,
              rp,
              more_elems,
              fewer_free,
              empty,
              subst (IsTakenOff s t) (sym is) (s1, s2, a, b, bs, foff, fext),
            ) in
          elim (Run-cases (recalculate_max_free_extent s3)) [
            | inr (x, c) ↦
                moved (ground (arith, h, w, a, b, c, kept1, kept2)) (ground (arith, h, w, a, b, c))
            | inl (largest, c) ↦
                moved (ground (arith, h, w, a, b, c, kept1, kept2)) (ground (arith, h, w, a, b, c))
          ]
    ]
  ]
]

-- Where Get answers with RL_NONE, nothing has changed. Where it answers with a region, the region
-- is not smaller than asked and not the tail of the free list, all regions are as they were, the
-- counter of the elements is one more and that of the free regions one less, and DeleteOffset and
-- then DeleteExtent of the region have led to the blocks and the levels of the two free lists.
pub get-fits :
    (s t : Store) (extent i : ℕ)
    → get s extent ≡ ok (i, t)
    → ((i ≡ rl_none) × (t ≡ s))
      ⊎ (IsLarge s extent i
          × (i ≢ rl_none)
          × (i ≢ rl_fext_tl)
          × (t.list.rp ≡ s.list.rp)
          × (t.list.nelems ≡ more s.list.nelems)
          × (t.list.nfree ≡ fewer s.list.nfree)
          × (t.list.nempty ≡ s.list.nempty)
          × IsTakenOff s t i)
unfolding get
get-fits s t extent i h = elim (Bool-cases (ltb s.list.maxfextent extent)) [
  | inl big ↦ inl (ground (arith, h, big), ground (arith, h, big))
  | inr small ↦ elim (Run-cases (find_extent s extent)) [
    | inr (x, o) ↦ ground (arith, h, small, o)
    | inl (q, o) ↦ elim (Bool-cases (q == rl_fext_tl || q == rl_none)) [
      | inl end ↦ inl (ground (arith, h, small, o, end), ground (arith, h, small, o, end))
      | inr hit ↦
          let run : take_region s q ≡ ok (i, t) = ground (arith, h, small, o, hit) in
          let (same, regions, nelems, nfree, nempty, off) = take_region-parts s t i q run in
          let is_some : i ≢ rl_none = ground (arith, same, hit) in
          let inside : i ≢ rl_fext_tl = ground (arith, same, hit) in
          inr (
            subst (IsLarge s extent) (sym same) (find_extent-IsLarge s extent q o),
            is_some,
            inside,
            regions,
            nelems,
            nfree,
            nempty,
            off,
          )
    ]
  ]
]

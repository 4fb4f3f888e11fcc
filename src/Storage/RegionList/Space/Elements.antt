-- ===== src/Storage/RegionList/Space/Elements.antt =====
-- storage/pq/RegionList.cpp: giving back a region takes exactly one element off the count.
use rdm.Prelude.{
  ℕ, ◌+◌, ◌-◌, ◌%◌, ◌^◌, ◌≡◌, refl, ap, ◌∙◌, inl, inr, Option-cases, List, get_elem?, arith, set,
}
use rdm.Prelude.Int.{ℤ}
use rdm.Prelude.Run.{Run, Run-cases, ok}
use rdm.Storage.FreeBlock
use rdm.Storage.FreeBlock.{FreeBlock}
use rdm.Storage.SkipList.{link_from}
use rdm.Storage.RegionList.{
  Region, RegionList, get_extent, fewer, clear_alloc, release_empty_region, link_past, link_back,
  remove_from_hash,
}
use rdm.Storage.RegionList.Free.{
  Store, Order, by_offset, by_extent, add_free, delete, search_update, target_of, raise,
  get_next_offset, previous,
}
use rdm.Storage.RegionList.Space.{
  release_region, merge, merge_right, merge_left, consolidate, give_back, free,
}
use rdm.Storage.RegionList.Space.Fits.{delete-IsKept}

raise-nelems :
    (o : Order) (l : RegionList) (update : List ℕ) (k : ℕ)
    → ((m : RegionList) (n : ℕ) → (o.with_level m n).nelems ≡ m.nelems)
    → (raise o l update k).0.nelems ≡ l.nelems
unfolding raise
raise-nelems o l update k same = ground (arith, same l (o.level l + 1))

add_free-nelems :
    (o : Order) (random i : ℕ) (s t : Store) (status : ℤ)
    → ((m : RegionList) (n : ℕ) → (o.with_level m n).nelems ≡ m.nelems)
    → add_free o random s i ≡ ok (status, t)
    → t.list.nelems ≡ s.list.nelems
unfolding add_free
add_free-nelems o random i s t status same h = elim (Option-cases (get_elem? s.list.rp i)) [
  | inl w ↦ ground (arith, h, w)
  | inr (rep, w) ↦ elim (Run-cases (search_update o s (target_of rep))) [
    | inr (x, u) ↦ ground (arith, h, w, u)
    | inl ((q, update), u) ↦
        let (l, k, places) = raise o s.list update random in
        let kept : l.nelems ≡ s.list.nelems = raise-nelems o s.list update random same in
        elim (Run-cases (FreeBlock.get s.blocks k)) [
          | inr (x, b) ↦ ground (arith, h, w, u, b)
          | inl ((fblk, blocks), b) ↦
              let rp : List Region = set l.rp i (o.with_node rep fblk) in
              elim (Run-cases (link_from o.node rp places blocks.fblks i k)) [
                | inr (x, c) ↦ ground (arith, h, w, u, b, c, kept)
                | inl (fblks, c) ↦ ground (arith, h, w, u, b, c, kept)
              ]
        ]
  ]
]

-- The count of elements is the same.
abbrev pub IsSameCount : Store → Run Store → Type 0
IsSameCount s r = (t : Store) → r ≡ ok t → t.list.nelems ≡ s.list.nelems

add-nelems :
    (random i : ℕ) (s t : Store) (status : ℤ)
    → (add_free by_offset random s i ≡ ok (status, t) → t.list.nelems ≡ s.list.nelems)
      × (add_free by_extent random s i ≡ ok (status, t) → t.list.nelems ≡ s.list.nelems)
add-nelems random i s t status = (
  (λ h. add_free-nelems by_offset random i s t status (λ m n. refl) h),
  (λ h. add_free-nelems by_extent random i s t status (λ m n. refl) h),
)

delete-nelems :
    (s : Store) (i : ℕ)
    → IsSameCount s (delete by_offset s i) × IsSameCount s (delete by_extent s i)
delete-nelems s i = ((λ t h. ((delete-IsKept s t i).0 h).1), (λ t h. ((delete-IsKept s t i).1 h).1))

release_region-nelems :
    (random : ℕ → ℕ) (s t : Store) (i : ℕ) (status : ℤ)
    → release_region random s i ≡ ok (status, t)
    → t.list.nelems ≡ s.list.nelems
unfolding release_region
release_region-nelems random s t i status h = elim (Run-cases (add_free by_offset (random 0) s i)) [
  | inr (x, a) ↦ ground (arith, h, a)
  | inl ((status1, s1), a) ↦
      let first = (add-nelems (random 0) i s s1 status1).0 a in
      elim (Run-cases (add_free by_extent (random 1) s1 i)) [
        | inr (x, b) ↦ ground (arith, h, a, b, first)
        | inl ((status2, s2), b) ↦
            let second = (add-nelems (random 1) i s1 s2 status2).1 b in
            elim (Run-cases (delete by_offset s2 i)) [
              | inr (x, c) ↦ ground (arith, h, a, b, c, first, second)
              | inl (s3, c) ↦
                  let third = (delete-nelems s2 i).0 s3 c in
                  ground (arith, h, a, b, c, first, second, third)
            ]
      ]
]

release_empty-nelems :
    (l m : RegionList) (i : ℕ) → release_empty_region l i ≡ ok m → m.nelems ≡ l.nelems
unfolding release_empty_region
release_empty-nelems l m i h = elim (Option-cases (get_elem? l.rp i)) [
  | inl w ↦ ground (arith, h, w)
  | inr (rep, w) ↦ ground (arith, h, w)
]

-- The state in which the lower region of a merger is put back into the list by extent.
abbrev grown : Store → ℕ → Region → Region → Store
grown s keep low high = record s {
  list = record s.list {
    rp = set s.list.rp keep (record low { extent = (low.extent + get_extent high) % 2 ^ 64 });
  };
}

merge-nelems : (random : ℕ) (s : Store) (keep gone : ℕ) → IsSameCount s (merge random s keep gone)
unfolding merge
merge-nelems random s keep gone t h = elim (Run-cases (delete by_extent s keep)) [
  | inr (x, a) ↦ ground (arith, h, a)
  | inl (s1, a) ↦ elim (Option-cases (get_elem? s1.list.rp keep)) [
    | inl b ↦ ground (arith, h, a, b)
    | inr (low, b) ↦ elim (Option-cases (get_elem? s1.list.rp gone)) [
      | inl c ↦ ground (arith, h, a, b, c)
      | inr (high, c) ↦ elim (Run-cases (add_free by_extent random (grown s1 keep low high) keep)) [
        | inr (x, d) ↦ ground (arith, h, a, b, c, d)
        | inl ((status, s2), d) ↦
            let s2f : Store = record s2 { list = record s2.list { nfree = fewer s2.list.nfree } } in
            elim (Run-cases (delete by_offset s2f gone)) [
              | inr (x, e) ↦ ground (arith, h, a, b, c, d, e)
              | inl (s3, e) ↦ elim (Run-cases (delete by_extent s3 gone)) [
                | inr (x, f) ↦ ground (arith, h, a, b, c, d, e, f)
                | inl (s4, f) ↦ elim (Run-cases (release_empty_region s4.list gone)) [
                  | inr (x, g) ↦ ground (arith, h, a, b, c, d, e, f, g)
                  | inl (l, g) ↦
                      let last : t.list.nelems ≡ l.nelems =
                        ground (arith, h, a, b, c, d, e, f, g) in
                      last
                      ∙ (release_empty-nelems s4.list l gone g
                          ∙ ((delete-nelems s3 gone).1 s4 f
                              ∙ ((delete-nelems s2f gone).0 s3 e
                                  ∙ ((add-nelems random keep (grown s1 keep low high) s2 status).1 d
                                      ∙ (delete-nelems s keep).1 s1 a))))
                ]
              ]
            ]
      ]
    ]
  ]
]

merge_right-nelems : (random : ℕ) (s : Store) (i j : ℕ) → IsSameCount s (merge_right random s i j)
unfolding merge_right
merge_right-nelems random s i j t h = elim (Option-cases (get_elem? s.list.rp i)) [
  | inl a ↦ ground (arith, h, a)
  | inr (rep, a) ↦ elim (Option-cases (get_elem? s.list.rp j)) [
    | inl b ↦ ground (arith, h, a, b)
    | inr (rght, b) ↦ ground (arith, h, a, b, merge-nelems random s i j t)
  ]
]

merge_left-nelems :
    (random : ℕ) (s t : Store) (i j kept : ℕ)
    → merge_left random s i j ≡ ok (kept, t)
    → t.list.nelems ≡ s.list.nelems
unfolding merge_left
merge_left-nelems random s t i j kept h = elim (Option-cases (get_elem? s.list.rp i)) [
  | inl a ↦ ground (arith, h, a)
  | inr (rep, a) ↦ elim (Option-cases (get_elem? s.list.rp j)) [
    | inl b ↦ ground (arith, h, a, b)
    | inr (left, b) ↦ elim (Run-cases (merge random s j i)) [
      | inr (x, c) ↦ ground (arith, h, a, b, c)
      | inl (m, c) ↦ ground (arith, h, a, b, c, merge-nelems random s j i m c)
    ]
  ]
]

consolidate-nelems : (random : ℕ → ℕ) (s : Store) (i : ℕ) → IsSameCount s (consolidate random s i)
unfolding consolidate
consolidate-nelems random s i t h = elim (Run-cases (get_next_offset s i)) [
  | inr (x, a) ↦ ground (arith, h, a)
  | inl (rght, a) ↦ elim (Run-cases (previous by_offset s i)) [
    | inr (x, b) ↦ ground (arith, h, a, b)
    | inl (left, b) ↦ elim (Run-cases (merge_right (random 2) s i rght)) [
      | inr (x, c) ↦ ground (arith, h, a, b, c)
      | inl (s1, c) ↦ elim (Run-cases (merge_left (random 3) s1 i left)) [
        | inr (x, d) ↦ ground (arith, h, a, b, c, d)
        | inl ((kept, s2), d) ↦
            let right_side = merge_right-nelems (random 2) s i rght s1 c in
            let left_side = merge_left-nelems (random 3) s1 s2 i left kept d in
            elim (Option-cases (get_elem? s2.list.rp kept)) [
              | inl e ↦ ground (arith, h, a, b, c, d, e)
              | inr (rep, e) ↦ ground (arith, h, a, b, c, d, e, right_side, left_side)
            ]
      ]
    ]
  ]
]

give_back-nelems :
    (random : ℕ → ℕ) (s t : Store) (i : ℕ)
    → give_back random s i ≡ ok t
    → t.list.nelems ≡ fewer s.list.nelems
unfolding give_back
give_back-nelems random s t i h =
    let s0 : Store = record s { list = record s.list { nelems = fewer s.list.nelems } } in
    elim (Run-cases (release_region random s0 i)) [
      | inr (x, a) ↦ ground (arith, h, a)
      | inl ((status, s1), a) ↦ elim (Run-cases (consolidate random s1 i)) [
        | inr (x, b) ↦ ground (arith, h, a, b)
        | inl (s2, b) ↦
            let first = release_region-nelems random s0 s1 i status a in
            let second = consolidate-nelems random s1 i s2 b in
            ground (arith, h, a, b, first, second)
      ]
    ]

remove_from_hash-nelems :
    (l m : RegionList) (i : ℕ) → remove_from_hash l i ≡ ok m → m.nelems ≡ l.nelems
unfolding remove_from_hash link_past
remove_from_hash-nelems l m i h = elim (Option-cases (get_elem? l.rp i)) [
  | inl a ↦ ground (arith, h, a)
  | inr (rep, a) ↦ elim (Run-cases (link_past l rep)) [
    | inr (x, b) ↦ ground (arith, h, a, b)
    | inl (k, b) ↦
        let same : k.nelems ≡ l.nelems = ground (arith, b) in
        elim (Run-cases (link_back k.rp rep.next rep.prev)) [
          | inr (x, c) ↦ ground (arith, h, a, b, c)
          | inl (rp, c) ↦ ground (arith, h, a, b, c, same)
        ]
  ]
]

-- Free takes one off the number of elements.
pub free-nelems :
    (random : ℕ → ℕ) (s t : Store) (i : ℕ)
    → free random s i ≡ ok t
    → t.list.nelems ≡ fewer s.list.nelems
unfolding free
free-nelems random s t i h = elim (Option-cases (get_elem? s.list.rp i)) [
  | inl a ↦ ground (arith, h, a)
  | inr (rep, a) ↦
      let freed : Region = clear_alloc rep in
      let l0 : RegionList = record s.list {
        rp = set s.list.rp i freed;
        nbytes = (s.list.nbytes + (2 ^ 64 - get_extent freed)) % 2 ^ 64;
      } in
      elim (Run-cases (remove_from_hash l0 i)) [
        | inr (x, b) ↦ ground (arith, h, a, b)
        | inl (l, b) ↦
            let same = remove_from_hash-nelems l0 l i b in
            let s1 : Store = record s { list = l } in
            let run : give_back random s1 i ≡ ok t = ground (arith, h, a, b) in
            give_back-nelems random s1 t i run ∙ ap fewer same
      ]
]

-- ===== src/Storage/RegionList/Space/Unmoved.antt =====
-- storage/pq/RegionList.cpp: Add leaves all other regions where they are.
use rdm.Prelude.{
  ℕ, ◌+◌, ◌≡◌, ◌≢◌, refl, sym, ap, ◌∙◌, subst, inl, inr, Bool-cases, Option-cases, some, List,
  get_elem?, get_elem?-set_self, get_elem?-set_ne, set, arith, ℕ_discrete,
}
use rdm.Prelude.Int.{ℤ, pos, eqb_ℤ}
use rdm.Prelude.Run.{Run-cases, ok}
use rdm.Storage.FreeBlock
use rdm.Storage.FreeBlock.{FreeBlock, fblk_none}
use rdm.Storage.SkipList.{link_from}
use rdm.Storage.RegionList.{Region, RegionList, get_empty_region, release_empty_region}
use rdm.Storage.RegionList.Chained.{has_elem}
use rdm.Storage.RegionList.Free.{
  Store, Order, by_offset, by_extent, add_free, delete, search_update, target_of, raise,
}
use rdm.Storage.RegionList.Space.{add, release_region}
use rdm.Storage.RegionList.Space.Fits.{delete-parts}

-- The region at the index has this offset and this extent.
abbrev pub IsAt : List Region → ℕ → ℤ → ℕ → Type 0
IsAt rp i offset extent =
    (r : Region) × (get_elem? rp i ≡ some r) × (r.offset ≡ offset) × (r.extent ≡ extent)

-- No region has another offset or extent.
abbrev IsUnmoved : List Region → List Region → Type 0
IsUnmoved rp ps =
    (i : ℕ) (offset : ℤ) (extent : ℕ) → IsAt rp i offset extent → IsAt ps i offset extent

IsUnmoved-set :
    (rp : List Region) (j : ℕ) (old new : Region)
    → get_elem? rp j ≡ some old
    → new.offset ≡ old.offset
    → new.extent ≡ old.extent
    → IsUnmoved rp (set rp j new)
IsUnmoved-set rp j old new w o e i offset extent (r, h, p, q) = elim (ℕ_discrete j i) [
  | yes same ↦
      let both : some old ≡ some r = sym w ∙ (ap (λ x. get_elem? rp x) same ∙ h) in
      (
        new,
        subst (λ x. get_elem? (set rp j new) x ≡ some new) same
            (get_elem?-set_self rp j new (has_elem rp j old w)),
        ground (arith, o, both, p),
        ground (arith, e, both, q),
      )
  | no other ↦ (r, get_elem?-set_ne rp new other ∙ h, p, q)
]

-- What sets the lists apart leaves the offsets and extents alone.
abbrev IsLinks : Order → Type 0
IsLinks o =
    ((l : RegionList) (n : ℕ) → (o.with_level l n).rp ≡ l.rp)
    × ((r : Region) (n : ℕ) → (o.with_node r n).offset ≡ r.offset)
    × ((r : Region) (n : ℕ) → (o.with_node r n).extent ≡ r.extent)

raise-rp :
    (o : Order) (l : RegionList) (update : List ℕ) (k : ℕ)
    → IsLinks o
    → (raise o l update k).0.rp ≡ l.rp
unfolding raise
raise-rp o l update k links = ground (arith, links.0 l (o.level l + 1))

add_free-IsUnmoved :
    (o : Order) (random i : ℕ) (s t : Store) (status : ℤ)
    → IsLinks o
    → add_free o random s i ≡ ok (status, t)
    → IsUnmoved s.list.rp t.list.rp
unfolding add_free
add_free-IsUnmoved o random i s t status links h = elim (Option-cases (get_elem? s.list.rp i)) [
  | inl w ↦ ground (arith, h, w)
  | inr (rep, w) ↦ elim (Run-cases (search_update o s (target_of rep))) [
    | inr (x, u) ↦ ground (arith, h, w, u)
    | inl ((q, update), u) ↦
        let (l, k, places) = raise o s.list update random in
        let kept : l.rp ≡ s.list.rp = raise-rp o s.list update random links in
        elim (Run-cases (FreeBlock.get s.blocks k)) [
          | inr (x, b) ↦ ground (arith, h, w, u, b)
          | inl ((fblk, blocks), b) ↦
              let rp : List Region = set l.rp i (o.with_node rep fblk) in
              let moved : t.list.rp ≡ set s.list.rp i (o.with_node rep fblk) =
                elim (Run-cases (link_from o.node rp places blocks.fblks i k)) [
                  | inr (x, c) ↦ ground (arith, h, w, u, b, c, kept)
                  | inl (fblks, c) ↦ ground (arith, h, w, u, b, c, kept)
                ] in
              subst (IsUnmoved s.list.rp) (sym moved) (
                IsUnmoved-set s.list.rp i rep (o.with_node rep fblk) w (links.1 rep fblk)
                  (links.2 rep fblk))
        ]
  ]
]

delete-IsUnmoved :
    (s t : Store) (i : ℕ) → delete by_offset s i ≡ ok t → IsUnmoved s.list.rp t.list.rp
delete-IsUnmoved s t i h = elim (delete-parts by_offset s t i h) [
  | inl e ↦ subst (λ x. IsUnmoved s.list.rp x.list.rp) (sym e) (λ j offset extent at. at)
  | inr (level, blocks, e) ↦
      subst (λ x. IsUnmoved s.list.rp x.list.rp) (sym e) (λ j offset extent at. at)
]

release_region-IsUnmoved :
    (random : ℕ → ℕ) (s t : Store) (i : ℕ) (status : ℤ)
    → release_region random s i ≡ ok (status, t)
    → IsUnmoved s.list.rp t.list.rp
unfolding release_region
release_region-IsUnmoved random s t i status h =
    let offsets : IsLinks by_offset = ((λ l n. refl), (λ r n. refl), (λ r n. refl)) in
    let extents : IsLinks by_extent = ((λ l n. refl), (λ r n. refl), (λ r n. refl)) in
    elim (Run-cases (add_free by_offset (random 0) s i)) [
      | inr (x, a) ↦ ground (arith, h, a)
      | inl ((status1, s1), a) ↦
          let first = add_free-IsUnmoved by_offset (random 0) i s s1 status1 offsets a in
          elim (Bool-cases (eqb_ℤ status1 (pos 0))) [
            | inr bad ↦
                let same : s1 ≡ t = ground (arith, h, a, bad) in
                subst (λ x. IsUnmoved s.list.rp x.list.rp) same first
            | inl good ↦ elim (Run-cases (add_free by_extent (random 1) s1 i)) [
              | inr (x, b) ↦ ground (arith, h, a, good, b)
              | inl ((status2, s2), b) ↦
                  let second = add_free-IsUnmoved by_extent (random 1) i s1 s2 status2 extents b in
                  elim (Bool-cases (eqb_ℤ status2 (pos 0))) [
                    | inl fine ↦
                        let same : s2.list.rp ≡ t.list.rp = ground (arith, h, a, good, b, fine) in
                        subst (IsUnmoved s.list.rp) same
                          (λ j offset extent at. second j offset extent (first j offset extent at))
                    | inr undone ↦ elim (Run-cases (delete by_offset s2 i)) [
                      | inr (x, c) ↦ ground (arith, h, a, good, b, undone, c)
                      | inl (s3, c) ↦
                          let same : s3 ≡ t = ground (arith, h, a, good, b, undone, c) in
                          let third = delete-IsUnmoved s2 s3 i c in
                          subst (λ x. IsUnmoved s.list.rp x.list.rp) same
                            (λ j offset extent at.
                              third j offset extent
                                (second j offset extent (first j offset extent at)))
                    ]
                  ]
            ]
          ]
    ]

get_empty_region-parts :
    (l m : RegionList) (q : ℕ) → get_empty_region l ≡ ok (q, m) → (q ≡ l.empty) × (m.rp ≡ l.rp)
unfolding get_empty_region
get_empty_region-parts l m q h = elim (Option-cases (get_elem? l.rp l.empty)) [
  | inl w ↦ (ground (arith, h, w), ground (arith, h, w))
  | inr (rep, w) ↦ (ground (arith, h, w), ground (arith, h, w))
]

-- What Add does where it adds a region: the first unused one gets the offset and the extent.
pub add-IsAt :
    (random : ℕ → ℕ) (s t : Store) (offset : ℤ) (extent i : ℕ)
    → add random s offset extent ≡ ok (some i, t)
    → (i ≡ s.list.empty)
      × IsAt t.list.rp i offset extent
      × ((j : ℕ) (o : ℤ) (e : ℕ) → j ≢ i → IsAt s.list.rp j o e → IsAt t.list.rp j o e)
unfolding add
add-IsAt random s t offset extent i h = elim (Run-cases (get_empty_region s.list)) [
  | inr (x, a) ↦ ground (arith, h, a)
  | inl ((q, l), a) ↦ elim (Option-cases (get_elem? l.rp q)) [
    | inl w ↦ ground (arith, h, a, w)
    | inr (rep, w) ↦
        let new : Region = record rep { offset = offset; extent = extent } in
        let s0 : Store = record s { list = record l { rp = set l.rp q new } } in
        elim (Run-cases (release_region random s0 q)) [
          | inr (x, b) ↦ ground (arith, h, a, w, b)
          | inl ((status, s1), b) ↦ elim (Bool-cases (eqb_ℤ status (pos 0))) [
            | inr bad ↦ elim (Run-cases (release_empty_region s1.list q)) [
              | inr (x, c) ↦ ground (arith, h, a, w, b, bad, c)
              | inl (back, c) ↦ ground (arith, h, a, w, b, bad, c)
            ]
            | inl good ↦
                let (first, same) = get_empty_region-parts s.list l q a in
                let here : q ≡ i = ground (arith, h, a, w, b, good) in
                let there : s1.list.rp ≡ t.list.rp = ground (arith, h, a, w, b, good) in
                let unmoved = release_region-IsUnmoved random s0 s1 q status b in
                (
                  sym here ∙ first,
                  subst (λ x. IsAt x i offset extent) there
                      (subst (λ x. IsAt s1.list.rp x offset extent) here
                        (unmoved q offset extent (
                          new,
                          get_elem?-set_self l.rp q new (has_elem l.rp q rep w),
                          refl,
                          refl,
                        ))),
                  (λ j o e other (r, at, p, x).
                      subst (λ y. IsAt y j o e) there
                        (unmoved j o e (
                          r,
                          get_elem?-set_ne l.rp new (λ k. other (sym k ∙ here))
                              ∙ (ap (λ y. get_elem? y j) same ∙ at),
                          p,
                          x,
                        ))),
                )
          ]
        ]
  ]
]

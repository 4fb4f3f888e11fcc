-- ===== src/Storage/QueueIndexManager/Regions.antt =====
-- storage/pq/QueueIndexManager.cpp: the region that is found for a product stays large enough.
use rdm.Prelude.{
  ℕ, zero, suc, ◌+◌, ◌-◌, ◌%◌, ◌^◌, ◌≤◌, ◌≡◌, ◌≢◌, sym, ap, ◌∙◌, subst, inl, inr, Bool-cases,
  Option-cases, List, Option, none, some, get_elem?, get_elem?-set_self, set, arith, ltb,
  ℕ_discrete,
}
use rdm.Prelude.Int.{ℤ, pos, eqb_ℤ}
use rdm.Prelude.Run.{Run-cases, ok}
use rdm.Core.Timestamp.{Timestamp}
use rdm.Storage.RegionList.{
  Region, RegionList, rl_none, get_extent, set_alloc, clear_alloc, add_to_hash, remove_from_hash,
}
use rdm.Storage.RegionList.Chained.{has_elem, add_to_hash-parts, link_back-keeps}
use rdm.Storage.RegionList.Free.{Store}
use rdm.Storage.RegionList.Space
use rdm.Storage.RegionList.Space.{split, put, keep_low, add}
use rdm.Storage.RegionList.Space.Fits.{IsLarge, get-fits}
use rdm.Storage.RegionList.Space.Halves.{split-parts, keep_low-parts, keep_low-fails}
use rdm.Storage.SignatureIndex
use rdm.Storage.SignatureIndex.{Signature, SignatureIndex}
use rdm.Storage.QueueIndexManager.{Index, Info, store_of, with_store, make_space, delete_oldest}
use rdm.Storage.QueueIndexManager.Allocating.{find_region, fit_region, enter_region, allocated}

get-IsLarge :
    (s t : Store) (extent i : ℕ) → Space.get s extent ≡ ok (i, t) → i ≢ rl_none → IsLarge t extent i
get-IsLarge s t extent i h n = elim (get-fits s t extent i h) [
  | inl missing ↦ absurd (n missing.0)
  | inr found ↦
      let (r, w, large) = found.0 in
      (r, subst (λ rp. get_elem? rp i ≡ some r) (sym found.3) w, large)
]

module _ (decode : ℤ → ℕ → ℤ × Info) (mvrt : Timestamp → Info → Index → Index)
    (random : ℕ → ℕ → ℕ) where
  make_space-IsLarge :
      (f : ℕ) (ix end : Index) (extent i : ℕ)
      → make_space decode mvrt random f ix extent ≡ ok (pos 0, i, end)
      → IsLarge (store_of end) extent i
  unfolding make_space
  make_space-IsLarge zero ix end extent i h = ground (arith, h)
  make_space-IsLarge (suc f) ix end extent i h =
      elim (Run-cases (delete_oldest decode mvrt (random ix.regions.nelems) ix)) [
        | inr (x, a) ↦ ground (arith, h, a)
        | inl ((status, ix1), a) ↦ elim (Bool-cases (eqb_ℤ status (pos 0))) [
          | inr t ↦ ground (arith, h, a, t)
          | inl t ↦ elim (Run-cases (Space.get (store_of ix1) extent)) [
            | inr (x, c) ↦ ground (arith, h, a, t, c)
            | inl ((rlix, s), c) ↦ elim (ℕ_discrete rlix rl_none) [
              | yes e ↦
                  make_space-IsLarge f (with_store ix1 s) end extent i
                    (ground (arith, h, a, t, c, e))
              | no d ↦
                  let same : rlix ≡ i = ground (arith, h, a, t, c, d) in
                  let last : with_store ix1 s ≡ end = ground (arith, h, a, t, c, d) in
                  subst (λ x. IsLarge (store_of x) extent i) last
                    (subst (IsLarge s extent) same (get-IsLarge (store_of ix1) s extent rlix c d))
            ]
          ]
        ]
      ]

  pub find_region-IsLarge :
      (ix end : Index) (extent i : ℕ)
      → find_region decode mvrt random ix extent ≡ ok (pos 0, i, end)
      → IsLarge (store_of end) extent i
  unfolding find_region
  find_region-IsLarge ix end extent i h = elim (Run-cases (Space.get (store_of ix) extent)) [
    | inr (x, c) ↦ ground (arith, h, c)
    | inl ((rlix, s), c) ↦ elim (ℕ_discrete rlix rl_none) [
      | yes e ↦
          make_space-IsLarge (s.list.nelems + 1) (with_store ix s) end extent i
            (ground (arith, h, c, e))
      | no d ↦
          let same : rlix ≡ i = ground (arith, h, c, d) in
          let last : with_store ix s ≡ end = ground (arith, h, c, d) in
          subst (λ x. IsLarge (store_of x) extent i) last
            (subst (IsLarge s extent) same (get-IsLarge (store_of ix) s extent rlix c d))
    ]
  ]

keep_low-present :
    (s t : Store) (rlix extent rem i : ℕ)
    → keep_low rlix extent rem (some i) s ≡ ok (0, t)
    → (kept : Region) × (get_elem? s.list.rp rlix ≡ some kept)
unfolding keep_low
keep_low-present s t rlix extent rem i h = elim (Option-cases (get_elem? s.list.rp rlix)) [
  | inr found ↦ found
  | inl w ↦ elim (Option-cases (get_elem? s.list.rp i)) [
    | inl b ↦ ground (arith, h, w, b)
    | inr (r, b) ↦ ground (arith, h, w, b)
  ]
]

keep_low-IsLarge :
    (s t : Store) (rlix extent rem : ℕ) (n : Option ℕ)
    → extent % 2 ≡ 0
    → keep_low rlix extent rem n s ≡ ok (0, t)
    → IsLarge t extent rlix
keep_low-IsLarge s t rlix extent rem none even h = absurd (keep_low-fails s t rlix extent rem h)
keep_low-IsLarge s t rlix extent rem (some i) even h =
    let (kept, w) = keep_low-present s t rlix extent rem i h in
    let halved : Region = record kept { extent = extent } in
    let moved = keep_low-parts s t rlix extent rem i kept w h in
    (
      halved,
      ap (λ x. get_elem? x rlix) moved
          ∙ get_elem?-set_self s.list.rp rlix halved (has_elem s.list.rp rlix kept w),
      omega (arith, even),
    )

pub fit_region-IsLarge :
    (random : ℕ → ℕ) (ix end : Index) (rlix extent : ℕ)
    → extent % 2 ≡ 0
    → IsLarge (store_of ix) extent rlix
    → fit_region random ix rlix extent ≡ ok (0, end)
    → IsLarge (store_of end) extent rlix
unfolding fit_region
fit_region-IsLarge random ix end rlix extent even (hit, w, large) h =
    elim (Bool-cases (ltb ((extent + ix.smallest_extent_seen + 64) % 2 ^ 64) (get_extent hit))) [
      | inr t ↦
          let last : ix ≡ end = ground (arith, h, w, t) in
          subst (λ x. IsLarge (store_of x) extent rlix) last (hit, w, large)
      | inl t ↦ elim (Run-cases (split random (store_of ix) rlix extent)) [
        | inr (x, a) ↦ ground (arith, h, w, t, a)
        | inl ((status, s), a) ↦ elim (ℕ_discrete status 0) [
          | no d ↦ elim (Run-cases (put random s rlix)) [
            | inr (x, b) ↦ ground (arith, h, w, t, a, d, b)
            | inl (u, b) ↦ ground (arith, h, w, t, a, d, b)
          ]
          | yes e ↦
              let last : with_store ix s ≡ end = ground (arith, h, w, t, a, e) in
              let (fits, (n, s1, added, kept)) =
                split-parts random (store_of ix) s rlix extent hit w (a ∙ ap (λ x. ok (x, s)) e) in
              subst (λ x. IsLarge (store_of x) extent rlix) last
                (keep_low-IsLarge s1 s rlix extent (get_extent hit - extent) n even kept)
        ]
      ]
    ]

add_to_hash-extent :
    (l m : RegionList) (i : ℕ) (r : Region)
    → get_elem? l.rp i ≡ some r
    → add_to_hash l i ≡ ok m
    → (q : Region) × (get_elem? m.rp i ≡ some q) × (q.extent ≡ r.extent)
add_to_hash-extent l m i r w h =
    let (g, a, (next, ps, own, c, b, v, is)) = add_to_hash-parts l m i r w h in
    let (q, same, off, ext) = link_back-keeps l.rp ps next i r w b in
    let owned : own ≡ q = ground (arith, v, same) in
    let linked : Region = record own { next = next; prev = rl_none } in
    (
      linked,
      ap (λ x. get_elem? x.rp i) is ∙ get_elem?-set_self ps i linked (has_elem ps i own v),
      ap (λ x. x.extent) owned ∙ ext,
    )

pub enter_region-large :
    (random : ℕ → ℕ) (ix end : Index) (sig : Signature) (rlix extent : ℕ) (offset : ℤ) (got : ℕ)
    → IsLarge (store_of ix) extent rlix
    → enter_region random ix sig rlix ≡ ok (allocated offset got, end)
    → extent ≤ got
unfolding enter_region
enter_region-large random ix end sig rlix extent offset got (hit, w, large) h =
    let rp : List Region = set ix.regions.rp rlix (set_alloc hit) in
    let l0 : RegionList = record ix.regions { rp = rp } in
    let there =
      get_elem?-set_self ix.regions.rp rlix (set_alloc hit) (has_elem ix.regions.rp rlix hit w) in
    elim (Run-cases (add_to_hash l0 rlix)) [
      | inr (x, a) ↦ ground (arith, h, w, a)
      | inl (l, a) ↦
          let (marked, v, ext) = add_to_hash-extent l0 l rlix (set_alloc hit) there a in
          elim (Run-cases (SignatureIndex.add ix.signatures sig marked.offset)) [
            | inr (x, b) ↦ ground (arith, h, w, a, v, b)
            | inl ((some element, signatures), b) ↦
                let is : got ≡ get_extent marked = ground (arith, h, w, a, v, b) in
                omega (arith, is, ext, large)
            | inl ((none, signatures), b) ↦ elim (Run-cases (remove_from_hash l rlix)) [
              | inr (x, c) ↦ ground (arith, h, w, a, v, b, c)
              | inl (m, c) ↦ elim (Option-cases (get_elem? m.rp rlix)) [
                | inl d ↦ ground (arith, h, w, a, v, b, c, d)
                | inr (r, d) ↦
                    let back : Store = record {
                      list = record m { rp = set m.rp rlix (clear_alloc r) };
                      blocks = ix.blocks;
                    } in
                    elim (Run-cases (put random back rlix)) [
                      | inr (x, e) ↦ ground (arith, h, w, a, v, b, c, d, e)
                      | inl (s, e) ↦ ground (arith, h, w, a, v, b, c, d, e)
                    ]
              ]
            ]
          ]
    ]

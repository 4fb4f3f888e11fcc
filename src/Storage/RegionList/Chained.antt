-- ===== src/Storage/RegionList/Chained.antt =====
-- storage/pq/RegionList.cpp: a region that is added to the hash is found, and can be taken out.
use rdm.Prelude.{
  ℕ, zero, suc, ◌+◌, ◌%◌, ◌^◌, ◌<◌, ◌≡◌, ◌≢◌, refl, sym, ap, ◌∙◌, subst, inl, inr, Bool-cases,
  Option-cases, true, List, [], ◌∷◌, some, ◌==◌, ltb, if◌then◌else◌, arith, set, get_elem?,
  get_elem?-set_self, get_elem?-set_ne, length, ℕ_discrete,
}
use rdm.Prelude.Int.{ℤ, negsuc}
use rdm.Prelude.Run.{Run-cases, ok}
use rdm.Storage.RegionList.{
  Region, RegionList, rl_none, rl_magic, is_alloc, get_empty_region, release_empty_region,
  hash_offset, find, add_to_hash, link_back,
}

pub has_elem : {A : Type 0} (xs : List A) (i : ℕ) (a : A) → get_elem? xs i ≡ some a → i < length xs
has_elem [] i a h = ground (arith, h)
has_elem (x ∷ xs) zero a h = omega arith
has_elem (x ∷ xs) (suc i) a h = ground (arith, has_elem xs i a h)

-- The element at `rpix` stays the same but for its links.
pub link_back-keeps :
    (rp ps : List Region) (next rpix : ℕ) (r : Region)
    → get_elem? rp rpix ≡ some r
    → link_back rp next rpix ≡ ok ps
    → (q : Region) × (get_elem? ps rpix ≡ some q) × (q.offset ≡ r.offset) × (q.extent ≡ r.extent)
unfolding link_back
link_back-keeps rp ps next rpix r h e = elim (Option-cases (get_elem? rp next)) [
  | inl o ↦
      let is : ps ≡ rp = ground (arith, e, o) in
      (r, ap (λ xs. get_elem? xs rpix) is ∙ h, refl, refl)
  | inr (head, o) ↦ elim (Bool-cases (next == rl_none)) [
    | inl last ↦
        let is : ps ≡ rp = ground (arith, e, last) in
        (r, ap (λ xs. get_elem? xs rpix) is ∙ h, refl, refl)
    | inr more ↦
        let is : ps ≡ set rp next (record head { prev = rpix }) = ground (arith, e, o, more) in
        elim (ℕ_discrete next rpix) [
          | yes same ↦
              let own : some head ≡ some r = sym o ∙ (ap (λ i. get_elem? rp i) same ∙ h) in
              (
                record head { prev = rpix },
                ap (λ xs. get_elem? xs rpix) is
                    ∙ subst
                        (λ i.
                          get_elem? (set rp next (record head { prev = rpix })) i
                          ≡ some (record head { prev = rpix }))
                        same
                        (get_elem?-set_self rp next (record head { prev = rpix })
                          (has_elem rp next head o)),
                ground (arith, own),
                ground (arith, own),
              )
          | no other ↦ (
            r,
            ap (λ xs. get_elem? xs rpix) is
                ∙ (get_elem?-set_ne rp (record head { prev = rpix }) other ∙ h),
            refl,
            refl,
          )
        ]
  ]
]

-- What AddToHash does where it returns.
pub add_to_hash-parts :
    (l m : RegionList) (rpix : ℕ) (r : Region)
    → get_elem? l.rp rpix ≡ some r
    → add_to_hash l rpix ≡ ok m
    → (l.magic ≡ rl_magic)
      × (is_alloc r ≡ true)
      × ((next : ℕ) × (ps : List Region) × (own : Region) × (get_elem? l.chains
              (hash_offset l r.offset)
            ≡ some next)
          × (link_back l.rp next rpix ≡ ok ps)
          × (get_elem? ps rpix ≡ some own)
          × (m ≡ record l {
            rp = set ps rpix (record own { next = next; prev = rl_none });
            chains = set l.chains (hash_offset l r.offset) rpix;
          }))
unfolding add_to_hash
add_to_hash-parts l m rpix r h e =
    elim (Option-cases (get_elem? l.chains (hash_offset l r.offset))) [
      | inl o ↦ ground (arith, h, e, o)
      | inr (next, o) ↦ elim (Run-cases (link_back l.rp next rpix)) [
        | inr (x, b) ↦ ground (arith, h, e, o, b)
        | inl (ps, b) ↦ elim (Option-cases (get_elem? ps rpix)) [
          | inl w ↦ ground (arith, h, e, o, b, w)
          | inr (own, w) ↦ (
            ground (arith, h, e, o, b, w),
            ground (arith, h, e, o, b, w),
            (next, ps, own, o, b, w, ground (arith, h, e, o, b, w)),
          )
        ]
      ]
    ]

find-head :
    (m : RegionList) (i : ℕ) (q : Region)
    → m.magic ≡ rl_magic
    → get_elem? m.chains (hash_offset m q.offset) ≡ some i
    → i ≢ rl_none
    → get_elem? m.rp i ≡ some q
    → is_alloc q ≡ true
    → find m q.offset ≡ ok i
unfolding find
find-head m i q g c n e a = ground (arith, g, c, n, e, a)

-- A region that AddToHash puts into its chain is what Find answers for its offset.
pub find-add_to_hash :
    (l m : RegionList) (rpix : ℕ) (r : Region)
    → get_elem? l.rp rpix ≡ some r
    → rpix ≢ rl_none
    → add_to_hash l rpix ≡ ok m
    → find m r.offset ≡ ok rpix
unfolding hash_offset
find-add_to_hash l m rpix r h n e =
    let (g, a, (next, ps, own, c, b, w, is)) = add_to_hash-parts l m rpix r h e in
    let (q, same, off, ext) = link_back-keeps l.rp ps next rpix r h b in
    let owned : own ≡ q = ground (arith, w, same) in
    let linked : Region = record own { next = next; prev = rl_none } in
    let placed : ℤ → RegionList =
      λ o. record l { rp = set ps rpix linked; chains = set l.chains (hash_offset l o) rpix } in
    let offs : own.offset ≡ r.offset = ap (λ x. x.offset) owned ∙ off in
    let exts : own.extent ≡ r.extent = ap (λ x. x.extent) owned ∙ ext in
    let found : find (placed r.offset) own.offset ≡ ok rpix =
      find-head (placed r.offset) rpix linked g
        (subst
          (λ o.
            get_elem? (set l.chains (hash_offset l r.offset) rpix) (hash_offset l o) ≡ some rpix)
          (sym offs)
          (get_elem?-set_self l.chains (hash_offset l r.offset) rpix
            (has_elem l.chains (hash_offset l r.offset) next c)))
        n (get_elem?-set_self ps rpix linked (has_elem ps rpix own w))
        (ap (λ x. x % 2 == 1) exts ∙ a) in
    subst (λ k. find k r.offset ≡ ok rpix) (sym is)
      (subst (λ o. find (placed r.offset) o ≡ ok rpix) offs found)

-- The element that ReleaseEmptyRegion gives back is the one that GetEmptyRegion hands out next,
-- and then the list of unused elements and their number are what they were, for numbers of
-- elements below 2^63.
pub get_empty-release_empty :
    (l m : RegionList) (rlix : ℕ)
    → l.nalloc < 2 ^ 63
    → l.nempty < 2 ^ 63
    → release_empty_region l rlix ≡ ok m
    → (n : RegionList) × (get_empty_region m ≡ ok (rlix, n))
      × (n.empty ≡ l.empty)
      × (n.nempty ≡ l.nempty)
unfolding release_empty_region get_empty_region
get_empty-release_empty l m rlix b c e = elim (Option-cases (get_elem? l.rp rlix)) [
  | inl o ↦ ground (arith, e, o)
  | inr (rep, o) ↦
      let freed : Region = record rep { next = l.empty; offset = negsuc 0; extent = 0 } in
      let is : m
          ≡ record l { rp = set l.rp rlix freed; empty = rlix; nempty = (l.nempty + 1) % 2 ^ 64 } =
        ground (arith, e, o) in
      let inside : rlix < l.nalloc + 4 = ground (arith, e, o) in
      let self = get_elem?-set_self l.rp rlix freed (has_elem l.rp rlix rep o) in
      let taken : RegionList = record l {
        rp = set l.rp rlix freed;
        minempty = if ltb l.nempty l.minempty then l.nempty else l.minempty;
      } in
      (taken, ground (arith, is, self, inside, b, c), refl, refl)
]

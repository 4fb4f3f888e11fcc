-- ===== src/Storage/RegionList/Space.antt =====
-- storage/pq/RegionList.cpp: regions are handed out, split, given back and merged. `random` has the
-- answers of `GetRandomLevel`, in the order of its calls. An `off_t` does not wrap around.
pub mod Fits
pub mod Halves
pub mod Unmoved
pub mod Elements
mod Tests
use rdm.Prelude.{
  ℕ, zero, suc, ◌+◌, ◌-◌, ◌%◌, ◌^◌, Bool, true, false, ◌&&◌, ◌||◌, List, ◌==◌, ltb, leb,
  if◌then◌else◌, set, Option, none, some,
}
use rdm.Prelude.Int.{ℤ, pos, ◌+ℤ◌, eqb_ℤ}
use rdm.Prelude.Run.{Run, ok, ◌>>=◌, ◌>>◌, log_assert, at}
use rdm.Prelude.Errno.{enomem}
use rdm.Storage.RegionList.{
  Region, RegionList, is_alloc, get_extent, clear_alloc, rl_none, fewer, get_empty_region,
  release_empty_region, remove_from_hash,
}
use rdm.Storage.RegionList.Free.{
  Store, by_offset, by_extent, delete, add_free, delete_offset, delete_extent, add_offset,
  add_extent, find_extent, previous, recalculate_max_free_extent, get_next_offset, rl_fext_tl,
  rl_foff_tl, rl_foff_hd,
}

abbrev pub more : ℕ → ℕ
more n = (n + 1) % 2 ^ 64

-- `nelems_ + nfree_ + nempty_ == nalloc_`
abbrev pub adds_up : RegionList → Bool
adds_up l = (l.nelems + l.nfree + l.nempty) % 2 ^ 64 == l.nalloc

-- The region that is found leaves both lists.
unfoldable pub take_region : Store → ℕ → Run (ℕ × Store)
unfolding delete recalculate_max_free_extent
take_region s sqbest = do
  rep ← at s.list.rp sqbest
  s1 ← delete_offset s sqbest
  s2 ← delete_extent s1 sqbest
  let s3 : Store = record s2 { list = record s2.list { nfree = fewer s2.list.nfree } }
  let largest : Run ℕ = recalculate_max_free_extent s3
  maxfextent ← if get_extent rep == s3.list.maxfextent then largest else ok s3.list.maxfextent
  let nelems = more s3.list.nelems
  ok (
    sqbest,
    record s3 {
      list = record s3.list {
        maxfextent = maxfextent;
        nelems = nelems;
        maxelems = if ltb s3.list.maxelems nelems then nelems else s3.list.maxelems;
      };
    },
  )

-- The region at the index and what is left, or `RL_NONE`.
unfoldable pub get : Store → ℕ → Run (ℕ × Store)
unfolding find_extent take_region
get s extent =
    let found : Run (ℕ × Store) = find_extent s extent >>= λ sqbest.
    let taken = take_region s sqbest in
    if sqbest == rl_fext_tl || sqbest == rl_none then ok (rl_none, s) else taken in
    if ltb s.list.maxfextent extent then ok (rl_none, s) else found

-- `ReleaseRegion`
unfoldable pub release_region : (ℕ → ℕ) → Store → ℕ → Run (ℤ × Store)
unfolding add_free delete
release_region random s rlix = do
  (status, s1) ← add_offset (random 0) s rlix
  let second : Run (ℤ × Store) = do
    (status2, s2) ← add_extent (random 1) s1 rlix
    let undone : Run (ℤ × Store) = delete_offset s2 rlix >>= λ s3. ok (status2, s3)
    if eqb_ℤ status2 (pos 0)
        then ok (status2, record s2 { list = record s2.list { nfree = more s2.list.nfree } })
        else undone
  if eqb_ℤ status (pos 0) then second else ok (status, s1)

-- The region `gone` is merged into `keep`, which it follows.
unfoldable pub merge : ℕ → Store → ℕ → ℕ → Run Store
unfolding delete add_free release_empty_region
merge random s keep gone = do
  s1 ← delete_extent s keep
  low ← at s1.list.rp keep
  high ← at s1.list.rp gone
  let extent = (low.extent + get_extent high) % 2 ^ 64
  (status, s2) ←
      add_extent random
        (record s1 {
          list = record s1.list { rp = set s1.list.rp keep (record low { extent = extent }) };
        })
        keep
  s3 ← delete_offset (record s2 { list = record s2.list { nfree = fewer s2.list.nfree } }) gone
  s4 ← delete_extent s3 gone
  l ← release_empty_region s4.list gone
  ok (record s4 { list = l })

-- `keep` ends where `gone` starts.
abbrev pub meets : Region → Region → Bool
meets keep gone = eqb_ℤ (keep.offset +ℤ pos (get_extent keep)) gone.offset

-- The right neighbour, or the tail of the list.
unfoldable pub merge_right : ℕ → Store → ℕ → ℕ → Run Store
unfolding merge
merge_right random s rpix rghtix =
    let tried : Run Store = at s.list.rp rpix >>= λ rep. at s.list.rp rghtix >>= λ rght.
    let merged = merge random s rpix rghtix in if meets rep rght then merged else ok s in
    if rghtix == rl_foff_tl then ok s else tried

-- The left neighbour, or the head of the list; and the index of the region that is left.
unfoldable pub merge_left : ℕ → Store → ℕ → ℕ → Run (ℕ × Store)
unfolding merge
merge_left random s rpix leftix =
    let tried : Run (ℕ × Store) = at s.list.rp rpix >>= λ rep. at s.list.rp leftix >>= λ left.
    let merged : Run (ℕ × Store) = merge random s leftix rpix >>= λ m. ok (leftix, m) in
    if meets left rep then merged else ok (rpix, s) in
    if leftix == rl_foff_hd then ok (rpix, s) else tried

unfoldable pub consolidate : (ℕ → ℕ) → Store → ℕ → Run Store
unfolding get_next_offset previous merge_right merge_left
consolidate random s rpix = do
  rghtix ← get_next_offset s rpix
  leftix ← previous by_offset s rpix
  s1 ← merge_right (random 2) s rpix rghtix
  (kept, s2) ← merge_left (random 3) s1 rpix leftix
  rep ← at s2.list.rp kept
  ok (record s2 {
    list = record s2.list {
      maxfextent =
          if ltb s2.list.maxfextent (get_extent rep) then get_extent rep else s2.list.maxfextent;
    };
  })

abbrev pub with_maxfree : RegionList → RegionList
with_maxfree l = record l { maxfree = if ltb l.maxfree l.nfree then l.nfree else l.maxfree }

-- `Add`: the index of the new free region, or the null pointer.
unfoldable pub add : (ℕ → ℕ) → Store → ℤ → ℕ → Run (Option ℕ × Store)
unfolding get_empty_region release_region release_empty_region
add random s offset extent = do
  (rpix, l) ← get_empty_region s.list
  let inserted : Run (Option ℕ × Store) = do
    log_assert (ltb l.nelems l.nalloc)
    rep ← at l.rp rpix
    (status, s1) ←
        release_region random
          (record s {
            list = record l {
              rp = set l.rp rpix (record rep { offset = offset; extent = extent });
            };
          })
          rpix
    let refused : Run (Option ℕ × Store) =
        release_empty_region s1.list rpix >>= λ back. ok (none, record s1 { list = back })
    let added : Run (Option ℕ × Store) =
        log_assert (adds_up s1.list) >> ok (some rpix, record s1 { list = with_maxfree s1.list })
    if eqb_ℤ status (pos 0) then added else refused
  if rpix == rl_none then ok (none, record s { list = l }) else inserted

-- The lower part of a region keeps `extent`, when the upper part with the extent `rem` is added.
unfoldable pub keep_low : ℕ → ℕ → ℕ → Option ℕ → Store → Run (ℕ × Store)
keep_low rlix extent rem none s = ok (enomem, s)
keep_low rlix extent rem (some newregion) s = do
  new ← at s.list.rp newregion
  log_assert (if is_alloc new then false else true)
  low ← at s.list.rp rlix
  ok (
    0,
    record s {
      list = record s.list {
        rp = set s.list.rp rlix (record low { extent = extent });
        maxfextent = if ltb s.list.maxfextent rem then rem else s.list.maxfextent;
      };
    },
  )

-- `Split`: 0 or an error code.
unfoldable pub split : (ℕ → ℕ) → Store → ℕ → ℕ → Run (ℕ × Store)
unfolding add keep_low
split random s rlix extent = do
  low ← at s.list.rp rlix
  log_assert (if is_alloc low then false else true)
  log_assert (leb extent (get_extent low))
  (newregion, s1) ← add random s (low.offset +ℤ pos extent) (get_extent low - extent)
  keep_low rlix extent (get_extent low - extent) newregion s1

-- What `Put` and `Free` end with.
unfoldable pub give_back : (ℕ → ℕ) → Store → ℕ → Run Store
unfolding release_region consolidate
give_back random s rlix = do
  (status, s1) ←
      release_region random (record s { list = record s.list { nelems = fewer s.list.nelems } })
        rlix
  s2 ← consolidate random s1 rlix
  log_assert (adds_up s2.list)
  ok (record s2 { list = with_maxfree s2.list })

unfoldable pub put : (ℕ → ℕ) → Store → ℕ → Run Store
unfolding give_back
put random s rlix = log_assert (ltb rlix s.list.nalloc) >> give_back random s rlix

unfoldable pub free : (ℕ → ℕ) → Store → ℕ → Run Store
unfolding give_back remove_from_hash
free random s rpix = do
  rep ← at s.list.rp rpix
  let freed = clear_alloc rep
  l ←
      remove_from_hash
        (record s.list {
          rp = set s.list.rp rpix freed;
          nbytes = (s.list.nbytes + (2 ^ 64 - get_extent freed)) % 2 ^ 64;
        })
        rpix
  give_back random (record s { list = l }) rpix

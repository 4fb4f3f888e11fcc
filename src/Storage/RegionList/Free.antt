-- ===== src/Storage/RegionList/Free.antt =====
-- storage/pq/RegionList.cpp: the free regions in two skip lists, by offset (the field `next` is the
-- block of links) and by extent (the field `prev`). The code has each operation twice; here a
-- record says how the lists differ.
use rdm.Prelude.{
  ℕ, ◌+◌, ◌-◌, ◌%◌, ◌^◌, Bool, true, false, ◌&&◌, ◌||◌, List, ◌∷◌, ◌++◌, [], ◌==◌, ltb,
  if◌then◌else◌, set, replicate,
}
use rdm.Prelude.Int.{ℤ, pos, negsuc, ltb_ℤ, eqb_ℤ}
use rdm.Prelude.Run.{Run, ok, ◌>>=◌, ◌>>◌, log_assert, at}
use rdm.Storage.FreeBlock
use rdm.Storage.FreeBlock.{FreeBlock, fblk_none}
use rdm.Storage.RegionList.{
  Region, RegionList, is_alloc, get_extent, clear_alloc, init_array, init_hash,
  calculate_num_chains, rl_empty_hd, rl_free_overhead,
}
use rdm.Storage.SkipList.{
  max_levels, in_range, search, unlink, lower, link_from, link_of, link_head,
}

abbrev pub rl_foff_hd : ℕ
rl_foff_hd = 0

abbrev pub rl_foff_tl : ℕ
rl_foff_tl = 1

abbrev pub rl_fext_hd : ℕ
rl_fext_hd = 2

abbrev pub rl_fext_tl : ℕ
rl_fext_tl = 3

-- The region list with the free blocks that its field `fbp_off_` leads to.
pub record Store : Type 0 where
  pub list : RegionList
  pub blocks : FreeBlock

-- What is looked for: an extent and an offset.
pub record Target : Type 0 where
  pub extent : ℕ
  pub offset : ℤ

abbrev pub target_of : Region → Target
target_of r = record { extent = get_extent r; offset = r.offset }

-- What distinguishes the two lists.
pub record Order : Type 0 where
  pub node : Region → ℕ
  pub with_node : Region → ℕ → Region
  pub level : RegionList → ℕ
  pub with_level : RegionList → ℕ → RegionList
  pub head : RegionList → ℕ
  pub tail : ℕ
  pub before : Target → Region → Bool
  pub found : Target → Region → Bool

abbrev pub by_offset : Order
by_offset = record {
  node = λ r. r.next;
  with_node = λ r n. record r { next = n };
  level = λ l. l.level_foff;
  with_level = λ l n. record l { level_foff = n };
  head = λ l. l.foff;
  tail = rl_foff_tl;
  before = λ t r. ltb_ℤ r.offset t.offset;
  found = λ t r. eqb_ℤ r.offset t.offset;
}

abbrev pub by_extent : Order
by_extent = record {
  node = λ r. r.prev;
  with_node = λ r n. record r { prev = n };
  level = λ l. l.level_fext;
  with_level = λ l n. record l { level_fext = n };
  head = λ l. l.fext;
  tail = rl_fext_tl;
  before =
      λ t r. ltb (get_extent r) t.extent || (get_extent r == t.extent && ltb_ℤ r.offset t.offset);
  found = λ t r. get_extent r == t.extent && eqb_ℤ r.offset t.offset;
}

-- `SearchOffset` and `SearchExtent`, without an array `update`: the index of `*outSqp`.
unfoldable pub search_for : Order → Store → Target → Run (ℕ × List ℕ)
unfolding search
search_for o s t =
    search o.node s.list.rp s.blocks.fblks (o.before t) (o.level s.list) (o.head s.list)

abbrev pub search_extent : Store → Target → Run (ℕ × List ℕ)
search_extent = search_for by_extent

-- With the array, which has 15 elements.
unfoldable pub search_update : Order → Store → Target → Run (ℕ × List ℕ)
unfolding search_for
search_update o s t = in_range (ltb (o.level s.list) max_levels) >> search_for o s t

-- `DeleteOffset` and `DeleteExtent`.
unfoldable pub delete : Order → Store → ℕ → Run Store
unfolding search_update unlink lower FreeBlock.release
delete o s rlix = do
  rep ← at s.list.rp rlix
  (sqix, update) ← search_update o s (target_of rep)
  sqp ← at s.list.rp sqix
  let gone : Run Store = do
    (k, fblks) ← unlink o.node s.list.rp update 0 sqix s.blocks.fblks
    blocks ← FreeBlock.release (record s.blocks { fblks = fblks }) k (o.node sqp)
    level ← lower o.node s.list.rp blocks.fblks (o.head s.list) o.tail (o.level s.list)
    ok (record { list = o.with_level s.list level; blocks = blocks })
  if o.found (target_of rep) sqp then gone else ok s

-- A level above the highest one is the next level, which starts at the head.
unfoldable pub raise : Order → RegionList → List ℕ → ℕ → RegionList × ℕ × List ℕ
raise o l update k =
    if ltb (o.level l) k
    then (o.with_level l (o.level l + 1), o.level l + 1, update ++ (o.head l ∷ []))
    else (l, k, update)

-- `AddOffset` and `AddExtent`; `random` is the answer of `GetRandomLevel`.
unfoldable pub add_free : Order → ℕ → Store → ℕ → Run (ℤ × Store)
unfolding search_update raise link_from FreeBlock.get
add_free o random s rlix = do
  rep ← at s.list.rp rlix
  (sqix, update) ← search_update o s (target_of rep)
  let (l, k, places) = raise o s.list update random
  in_range (ltb k max_levels)
  (fblk, blocks) ← FreeBlock.get s.blocks k
  let rp = set l.rp rlix (o.with_node rep fblk)
  let linked : Run (ℤ × Store) = link_from o.node rp places blocks.fblks rlix k >>= λ fblks.
      ok (pos 0, record { list = record l { rp = rp }; blocks = record blocks { fblks = fblks } })
  if fblk == fblk_none
      then ok (negsuc 3, record { list = record l { rp = rp }; blocks = blocks })
      else linked

abbrev pub delete_offset : Store → ℕ → Run Store
delete_offset = delete by_offset

abbrev pub delete_extent : Store → ℕ → Run Store
delete_extent = delete by_extent

abbrev pub add_offset : ℕ → Store → ℕ → Run (ℤ × Store)
add_offset = add_free by_offset

abbrev pub add_extent : ℕ → Store → ℕ → Run (ℤ × Store)
add_extent = add_free by_extent

-- `FindExtent`
unfoldable pub find_extent : Store → ℕ → Run ℕ
unfolding search_for
find_extent s extent =
    search_extent s (record { extent = extent; offset = negsuc 0 }) >>= λ r. ok r.0

-- The first element of `update`, as in `FindPrevExtent` and `GetPrevOffset`.
unfoldable pub previous : Order → Store → ℕ → Run ℕ
unfolding search_update
previous o s rlix = do
  rep ← at s.list.rp rlix
  (sqix, update) ← search_update o s (target_of rep)
  at update 0

unfoldable pub recalculate_max_free_extent : Store → Run ℕ
unfolding previous
recalculate_max_free_extent s = do
  rmix ← previous by_extent s rl_fext_tl
  rep ← at s.list.rp rmix
  ok (get_extent rep)

unfoldable pub get_next_offset : Store → ℕ → Run ℕ
unfolding link_of
get_next_offset s rlix = do
  rep ← at s.list.rp rlix
  log_assert (if is_alloc rep then false else true)
  link_of by_offset.node s.list.rp s.blocks.fblks 0 rlix

-- `((off_t)1 << 62) + (((off_t)1 << 62) - 1)`
abbrev pub huge_off_t : ℤ
huge_off_t = pos (2 ^ 63 - 1)

-- `InitOffsets`; the assignments to `rp_[RL_FOFF_HD]` and `rp_[RL_FOFF_TL]` set every field.
unfoldable pub init_offsets : Store → Run Store
unfolding FreeBlock.get link_head
init_offsets s = do
  (hd, b1) ← FreeBlock.get s.blocks (s.blocks.maxsize - 1)
  (tl, b2) ← FreeBlock.get b1 0
  fblks ← link_head s.blocks.maxsize b2.fblks hd rl_foff_tl
  let rp =
      set (set s.list.rp rl_foff_hd (record { offset = pos 0; extent = 0; next = hd; prev = 0 }))
        rl_foff_tl (record { offset = huge_off_t; extent = 0; next = tl; prev = 0 })
  ok (record {
    list = record s.list { rp = rp; level_foff = 0; foff = rl_foff_hd };
    blocks = record b2 { fblks = fblks };
  })

-- `InitExtents`
unfoldable pub init_extents : Store → Run Store
unfolding FreeBlock.get link_head
init_extents s = do
  (hd, b1) ← FreeBlock.get s.blocks (s.blocks.maxsize - 1)
  (tl, b2) ← FreeBlock.get b1 0
  fblks ← link_head s.blocks.maxsize b2.fblks hd rl_fext_tl
  let rp =
      set (set s.list.rp rl_fext_hd (record { offset = pos 0; extent = 0; next = 0; prev = hd }))
        rl_fext_tl
        (clear_alloc (record { offset = pos 0; extent = 2 ^ 64 - 1; next = 0; prev = tl }))
  ok (record {
    list = record s.list { rp = rp; level_fext = 0; fext = rl_fext_hd };
    blocks = record b2 { fblks = fblks };
  })

-- `Initialize` for at least one region. The first four regions are those of the two lists.
unfoldable pub initialize : ℕ → FreeBlock → Run Store
unfolding calculate_num_chains init_array init_hash init_offsets init_extents
initialize nalloc b = do
  let unset : Region = record { offset = pos 0; extent = 0; next = 0; prev = 0 }
  let l : RegionList = record {
    nalloc = nalloc;
    nchains = calculate_num_chains nalloc;
    empty = rl_empty_hd;
    nelems = 0;
    maxelems = 0;
    nfree = 0;
    maxfree = 0;
    maxfextent = 0;
    nempty = nalloc;
    minempty = nalloc;
    nbytes = 0;
    maxbytes = 0;
    level_foff = 0;
    foff = 0;
    level_fext = 0;
    fext = 0;
    rp = replicate rl_free_overhead unset ++ init_array nalloc (rl_empty_hd + 1);
    magic = 0;
    chains = [];
  }
  s1 ← init_offsets (record { list = init_hash l; blocks = b })
  s2 ← init_extents s1
  log_assert ((s2.list.nelems + s2.list.nfree + s2.list.nempty) % 2 ^ 64 == s2.list.nalloc)
  ok s2

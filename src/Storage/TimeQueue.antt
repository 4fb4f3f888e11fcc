-- ===== src/Storage/TimeQueue.antt =====
-- storage/pq/TimeQueue.h and .cpp: the products in the order of their insertion times, as a skip
-- list over an array of elements with a list of the free ones. The time of day and the answer of
-- `GetRandomLevel` are arguments; where the code has a pointer to an element, here is its index.
pub mod Places
pub mod Matches
mod Tests
use rdm.Prelude.{
  ℕ, zero, suc, ◌+◌, ◌-◌, ◌*◌, ◌%◌, ◌^◌, Bool, true, false, not, ◌&&◌, ◌||◌, List, [], ◌∷◌, ◌++◌,
  Option, none, some, ◌==◌, ltb, leb, if◌then◌else◌, set, length,
}
use rdm.Prelude.Errno.{enospc}
use rdm.Prelude.Int.{ℤ, pos, negsuc, eqb_ℤ, ltb_ℤ}
use rdm.Prelude.Run.{Run, ok, fault, out_of_fuel, out_of_range, ◌>>=◌, ◌>>◌, log_assert, at}
use rdm.Core.Timestamp.{Timestamp, none_time, end_time, less, equal, increment_microsecond}
use rdm.Storage.FreeBlock
use rdm.Storage.FreeBlock.{FreeBlock, fblk_none}
use rdm.Storage.SkipList.{
  max_levels, in_range, walk, search, unlink, lower, link_from, link_of, link_head,
}

abbrev pub tq_overhead_elems : ℕ
tq_overhead_elems = 2

abbrev pub tq_none : ℤ
tq_none = negsuc 0

abbrev pub tq_nil : ℕ
tq_nil = 0

abbrev pub tq_head : ℕ
tq_head = 1

-- The offset of a free element is the index of the next free one.
pub record TimeQueueElement : Type 0 where
  pub tv : Timestamp
  pub offset : ℤ
  pub fblk : ℕ

pub record TimeQueue : Type 0 where
  pub nalloc : ℕ
  pub nelems : ℕ
  pub nfree : ℕ
  pub free_head : ℤ
  pub level : ℕ
  pub tqep : List TimeQueueElement

-- The queue with the free blocks that its field `fbp_off_` leads to.
pub record Times : Type 0 where
  pub queue : TimeQueue
  pub blocks : FreeBlock

abbrev pub node : TimeQueueElement → ℕ
node e = e.fblk

abbrev pub free_element_at : ℤ → TimeQueueElement
free_element_at next = record { tv = none_time; offset = next; fblk = fblk_none }

-- `n` free elements from index `next - 1` on, the last one linked to none.
unfoldable pub init_free : ℕ → ℕ → List TimeQueueElement
init_free zero next = []
init_free (suc zero) next = free_element_at tq_none ∷ []
init_free (suc (suc n)) next = free_element_at (pos next) ∷ init_free (suc n) (next + 1)

-- For at least one element.
unfoldable pub initialize : ℕ → FreeBlock → Run Times
unfolding init_free link_head FreeBlock.get
initialize alloc_size b = do
  (nil, b1) ← FreeBlock.get b 0
  (head, b2) ← FreeBlock.get b1 (b.maxsize - 1)
  fblks ← link_head b.maxsize b2.fblks head tq_nil
  ok (record {
    queue = record {
      nalloc = alloc_size;
      nelems = tq_overhead_elems;
      nfree = alloc_size;
      free_head = pos tq_overhead_elems;
      level = 0;
      tqep =
          record { tv = end_time; offset = negsuc 0; fblk = nil }
          ∷ record { tv = none_time; offset = negsuc 0; fblk = head }
          ∷ init_free alloc_size (tq_overhead_elems + 1);
    };
    blocks = record b2 { fblks = fblks };
  })

-- `nelems_ - TQ_OVERHEAD_ELEMS` on a `size_t`.
abbrev pub used : TimeQueue → ℕ
used q = (q.nelems + (2 ^ 64 - tq_overhead_elems)) % 2 ^ 64

unfoldable pub has_space : TimeQueue → Run Bool
has_space q = log_assert (leb (used q) q.nalloc) >> ok (ltb (used q) q.nalloc)

-- An `off_t` as an index of the array.
abbrev pub index_of : ℤ → Run ℕ
index_of (pos n) = ok n
index_of (negsuc n) = fault out_of_range

unfoldable pub allocate_element : TimeQueue → Run (ℤ × TimeQueue)
allocate_element q =
    let allocated : Run (ℤ × TimeQueue) = index_of q.free_head >>= λ i. at q.tqep i >>= λ e.
    log_assert (ltb tq_head i)
    >> ok (
      q.free_head,
      record q { free_head = e.offset; nfree = q.nfree - 1; nelems = (q.nelems + 1) % 2 ^ 64 },
    ) in
    if ltb 0 q.nfree then allocated else ok (tq_none, q)

-- `level` is `size - 1`.
unfoldable pub free_element : Times → ℕ → ℕ → Run Times
unfolding FreeBlock.release
free_element s size p = do
  e ← at s.queue.tqep p
  log_assert (ltb tq_head p && ltb p (s.queue.nalloc + tq_overhead_elems))
  blocks ← FreeBlock.release s.blocks size e.fblk
  ok (record {
    queue = record s.queue {
      tqep = set s.queue.tqep p (free_element_at s.queue.free_head);
      free_head = pos p;
      nfree = (s.queue.nfree + 1) % 2 ^ 64;
      nelems = (s.queue.nelems + (2 ^ 64 - 1)) % 2 ^ 64;
    };
    blocks = blocks;
  })

abbrev pub before : Timestamp → TimeQueueElement → Bool
before t e = less e.tv t

abbrev pub last_of : ℕ → List ℕ → ℕ
last_of p [] = p
last_of p (q ∷ qs) = last_of q qs

-- The search of `Add`, from the element `p` on the level `k`. Where the time is taken, it becomes a
-- microsecond later and the search goes back to the highest level.
unfoldable pub place : Times → ℕ → ℕ → ℕ → Timestamp → List ℕ → Run (Timestamp × List ℕ)
unfolding walk
place s zero k p t update = fault out_of_fuel
place s (suc f) k p t update =
    walk node s.queue.tqep s.blocks.fblks (before t) (suc (length s.queue.tqep)) k p
    >>= λ (last, q). at s.queue.tqep q >>= λ e.
        let later = increment_microsecond t in
        let again = place s f s.queue.level (last_of p update) later [] in
        let on = place s f k last later update in
        let down = place s f (k - 1) last t (last ∷ update) in
        if equal e.tv t
        then if ltb k s.queue.level then again else on
        else if k == 0
        then ok (t, last ∷ update)
        else down

-- Each element is met at most once on each level for each time that is tried.
abbrev pub place_fuel : Times → ℕ
place_fuel s = (length s.queue.tqep + 1) * (s.queue.level + 2)

-- A level above the highest one is the next one, which starts at the head.
unfoldable pub insert_at : Times → ℕ → ℕ → ℤ → Timestamp → List ℕ → Run (ℕ × Times)
unfolding FreeBlock.get link_from
insert_at s random i offset t update = do
  let k = if ltb s.queue.level random then s.queue.level + 1 else random
  (fblk, blocks) ← FreeBlock.get s.blocks k
  e ← at s.queue.tqep i
  let timed : Times = record s {
    queue = record s.queue { tqep = set s.queue.tqep i (record e { tv = t }) };
    blocks = blocks;
  }
  let inserted : Run (ℕ × Times) = do
    in_range (ltb k max_levels)
    let tqep = set s.queue.tqep i (record { tv = t; offset = offset; fblk = fblk })
    let places = if ltb s.queue.level k then update ++ (tq_head ∷ []) else update
    fblks ← link_from node tqep places blocks.fblks i k
    let level = if ltb s.queue.level k then k else s.queue.level
    ok (
      0,
      record {
        queue = record s.queue { tqep = tqep; level = level };
        blocks = record blocks { fblks = fblks };
      },
    )
  if fblk == fblk_none then ok (enospc, timed) else inserted

unfoldable pub add : Times → Timestamp → ℕ → ℤ → Run (ℕ × Times)
unfolding has_space allocate_element place insert_at
add s now random offset = do
  log_assert (if s.queue.nalloc == 0 then false else true)
  space ← has_space s.queue
  log_assert space
  (tpix, queue) ← allocate_element s.queue
  i ← index_of tpix
  let s1 : Times = record s { queue = queue }
  in_range (ltb queue.level max_levels)
  (t, update) ← place s1 (place_fuel s1) queue.level tq_head now []
  insert_at s1 random i offset t update

pub data Match : Type 0 where
  less_than equal_to greater_than : Match

-- What `Find` answers at the place between the elements `p` and `q`.
unfoldable pub match_at : Times → Timestamp → Match → ℕ → ℕ → TimeQueueElement → Run (Option ℕ)
unfolding link_of
match_at s key less_than p q e = ok (if p == tq_head then none else some p)
match_at s key equal_to p q e = ok (if equal e.tv key then some q else none)
match_at s key greater_than p q e =
    let behind : Run (Option ℕ) = link_of node s.queue.tqep s.blocks.fblks 0 q >>= λ r.
    ok (if r == tq_nil then none else some r) in
    if q == tq_nil then ok none else if equal e.tv key then behind else ok (some q)

unfoldable pub find_place : Times → Timestamp → Match → Run (Option ℕ)
unfolding search match_at
find_place s key mt = do
  (q, places) ← search node s.queue.tqep s.blocks.fblks (before key) s.queue.level tq_head
  e ← at s.queue.tqep q
  p ← at places 0
  match_at s key mt p q e

unfoldable pub find : Times → Timestamp → Match → Run (Option ℕ)
unfolding find_place
find s key mt = let found = find_place s key mt in if used s.queue == 0 then ok none else found

unfoldable pub next : Times → ℕ → Run ℕ
unfolding link_of
next s i = link_of node s.queue.tqep s.blocks.fblks 0 i

unfoldable pub first : Times → Run (Option ℕ)
unfolding next
first s = next s tq_head >>= λ q. ok (if q == tq_nil then none else some q)

-- The element is before the one that is deleted: its time is earlier, or the same and its offset is
-- lower.
abbrev pub before_element : TimeQueueElement → TimeQueueElement → Bool
before_element d e = less e.tv d.tv || (equal e.tv d.tv && ltb_ℤ e.offset d.offset)

abbrev pub is_link : TimeQueue → ℕ → Bool
is_link queue q = q == tq_nil || (ltb tq_head q && ltb q (queue.nalloc + tq_overhead_elems))

-- The search of `Delete`, which checks every link that it follows.
unfoldable pub walk_checked : Times → TimeQueueElement → ℕ → ℕ → ℕ → Run (ℕ × ℕ)
unfolding link_of
walk_checked s d zero k p = fault out_of_fuel
walk_checked s d (suc f) k p = link_of node s.queue.tqep s.blocks.fblks k p >>= λ q.
    log_assert (is_link s.queue q) >> at s.queue.tqep q >>= λ e.
    let rest = walk_checked s d f k q in if before_element d e then rest else ok (p, q)

unfoldable pub descend_checked : Times → TimeQueueElement → ℕ → ℕ → List ℕ → Run (ℕ × List ℕ)
unfolding walk_checked
descend_checked s d zero p update =
    walk_checked s d (suc (length s.queue.tqep)) zero p >>= λ (last, q). ok (q, last ∷ update)
descend_checked s d (suc k) p update =
    walk_checked s d (suc (length s.queue.tqep)) (suc k) p >>= λ (last, q).
    descend_checked s d k last (last ∷ update)

-- The element at the index is taken out of its levels and freed.
unfoldable pub delete_at : Times → List ℕ → ℕ → Run Times
unfolding unlink free_element lower
delete_at s update q = do
  (k, fblks) ← unlink node s.queue.tqep update 0 q s.blocks.fblks
  s1 ← free_element (record s { blocks = record s.blocks { fblks = fblks } }) k q
  level ← lower node s1.queue.tqep s1.blocks.fblks tq_head tq_nil s.queue.level
  ok (record s1 { queue = record s1.queue { level = level } })

-- `Delete` of the element at the index.
unfoldable pub delete : Times → ℕ → Run Times
unfolding descend_checked delete_at
delete s i = do
  d ← at s.queue.tqep i
  in_range (ltb s.queue.level max_levels)
  (q, update) ← descend_checked s d s.queue.level tq_head []
  e ← at s.queue.tqep q
  let gone = delete_at s update q
  if equal e.tv d.tv && eqb_ℤ e.offset d.offset then gone else ok s

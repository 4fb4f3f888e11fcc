-- ===== src/Storage/FreeBlock.antt =====
-- storage/pq/FreeBlock.h and .cpp: the blocks of the skip-list nodes, in one arena with a list of
-- free blocks for each size.
pub mod Lists
pub mod Releases
pub mod Gets
pub mod Refines
mod Tests
use rdm.Prelude.{
  ℕ, zero, suc, ◌+◌, ◌-◌, ◌%◌, ◌^◌, Bool, true, false, ◌&&◌, List, ◌==◌, ltb, leb, if◌then◌else◌,
  set,
}
use rdm.Prelude.Run.{Run, ok, fault, out_of_fuel, ◌>>=◌, ◌>>◌, log_assert, at}

-- `static_cast<fblk_t>(-1)`
abbrev pub fblk_none : ℕ
fblk_none = 2 ^ 64 - 1

pub record FreeBlock : Type 0 where
  pub maxsize : ℕ
  pub arena_sz : ℕ
  pub avail : ℕ
  pub allocated : ℕ
  pub nfree : List ℕ
  pub free : List ℕ
  pub fblks : List ℕ

-- The loop of `InitLevel`: `n` blocks are linked from `off` on.
unfoldable pub link_blocks : ℕ → ℕ → ℕ → List ℕ → Run (ℕ × List ℕ)
link_blocks zero off blksize fblks = ok (off, fblks)
link_blocks (suc n) off blksize fblks =
    at fblks off >>= λ _. link_blocks n (off + blksize) blksize (set fblks off (off + blksize))

-- The new value of `*offset`, and the state.
unfoldable pub init_level : FreeBlock → ℕ → ℕ → ℕ → ℕ → Run (ℕ × FreeBlock)
unfolding link_blocks
init_level b offset level blksize numblks = do
  log_assert (leb level b.maxsize)
  log_assert (ltb 0 blksize && leb level blksize)
  log_assert (ltb 0 numblks)
  (off, fblks) ← link_blocks (numblks - 1) offset blksize b.fblks
  _ ← at fblks off
  _ ← at b.free level
  _ ← at b.nfree level
  ok (
    off + blksize,
    record b {
      free = set b.free level offset;
      fblks = set fblks off fblk_none;
      nfree = set b.nfree level numblks;
      avail = (b.avail + numblks) % 2 ^ 64;
    },
  )

-- `allocated_--` on a `size_t`.
abbrev pub one_less : ℕ → ℕ
one_less n = (n + (2 ^ 64 - 1)) % 2 ^ 64

-- `level` is `size - 1`.
unfoldable pub release : FreeBlock → ℕ → ℕ → Run FreeBlock
release b size fblk = do
  log_assert (ltb 0 size && leb size b.maxsize)
  log_assert (ltb fblk b.arena_sz)
  head ← at b.free (size - 1)
  n ← at b.nfree (size - 1)
  _ ← at b.fblks fblk
  ok (record b {
    fblks = set b.fblks fblk head;
    free = set b.free (size - 1) fblk;
    nfree = set b.nfree (size - 1) ((n + 1) % 2 ^ 64);
    avail = (b.avail + 1) % 2 ^ 64;
    allocated = one_less b.allocated;
  })

-- The first block of the list of `level`, which has one.
unfoldable pub take_block : FreeBlock → ℕ → ℕ → Run (ℕ × FreeBlock)
take_block b level n = do
  fblk ← at b.free level
  log_assert (if fblk == fblk_none then false else true)
  log_assert (ltb fblk b.arena_sz)
  next ← at b.fblks fblk
  log_assert (ltb 0 b.avail)
  ok (
    fblk,
    record b {
      free = set b.free level next;
      nfree = set b.nfree level (n - 1);
      avail = b.avail - 1;
      allocated = (b.allocated + 1) % 2 ^ 64;
    },
  )

-- What is too much of a larger block goes to the list of its size.
unfoldable pub split_block : FreeBlock → ℕ → ℕ → ℕ → Run (ℕ × FreeBlock)
unfolding release
split_block b level want fblk =
    let split : Run (ℕ × FreeBlock) = release b (level + 1 - want) (fblk + want) >>= λ c.
    ok (fblk, record c { allocated = (c.allocated + 1) % 2 ^ 64 }) in
    if ltb level b.maxsize && ltb want (level + 1) then split else ok (fblk, b)

-- The loop of `Get`, over the `m` levels from `level` to `maxsize_`.
unfoldable pub get_from : ℕ → FreeBlock → ℕ → ℕ → Run (ℕ × FreeBlock)
unfolding take_block split_block
get_from zero b level want = ok (fblk_none, b)
get_from (suc m) b level want = at b.nfree level >>= λ n.
    let rest = get_from m b (level + 1) want in
    let taken : Run (ℕ × FreeBlock) =
      take_block b level n >>= λ (fblk, c). split_block c level want fblk in
    if ltb 0 n then taken else rest

unfoldable pub get : FreeBlock → ℕ → Run (ℕ × FreeBlock)
unfolding get_from
get b level = do
  log_assert (ltb level b.maxsize)
  get_from (b.maxsize + 1 - level) b level (level + 1)

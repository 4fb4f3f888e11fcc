-- ===== src/Storage/RegionList.antt =====
-- storage/pq/RegionList.h and .cpp: the array of regions, the list of its unused elements, and the
-- hash chains of the allocated regions by their offset. Free holds the two skip lists of the free
-- regions, Space the operations that hand regions out and take them back.
pub mod Chained
pub mod Free
pub mod Space
mod Tests
use rdm.Prelude.{
  ℕ, zero, suc, ◌+◌, ◌-◌, ◌/◌, ◌%◌, ◌^◌, Bool, true, false, ◌&&◌, List, [], ◌∷◌, Option, none, some,
  ◌==◌, ltb, if◌then◌else◌, set, replicate, length,
}
use rdm.Prelude.Int.{ℤ, pos, negsuc, eqb_ℤ}
use rdm.Prelude.Run.{Run, ok, fault, out_of_fuel, ◌>>=◌, ◌>>◌, log_assert, at}
use rdm.Math.{prev_prime}

-- `static_cast<size_t>(-1)`
abbrev pub rl_none : ℕ
rl_none = 2 ^ 64 - 1

abbrev pub rl_magic : ℕ
rl_magic = 0x524c4841

abbrev pub rl_free_overhead : ℕ
rl_free_overhead = 4

abbrev pub rl_empty_hd : ℕ
rl_empty_hd = rl_free_overhead

abbrev pub rl_exp_chain_len : ℕ
rl_exp_chain_len = 4

pub record Region : Type 0 where
  pub offset : ℤ
  pub extent : ℕ
  pub next : ℕ
  pub prev : ℕ

-- The lowest bit of the extent marks an allocated region.
abbrev pub is_alloc : Region → Bool
is_alloc r = r.extent % 2 == 1

abbrev pub get_extent : Region → ℕ
get_extent r = r.extent - r.extent % 2

abbrev pub set_alloc : Region → Region
set_alloc r = record r { extent = r.extent - r.extent % 2 + 1 }

abbrev pub clear_alloc : Region → Region
clear_alloc r = record r { extent = r.extent - r.extent % 2 }

-- `rp` holds the regions behind the array that the type declares too; the two fields of the hash
-- table, which stands behind them, are the last ones. The offset of the free blocks is left out.
pub record RegionList : Type 0 where
  pub nalloc : ℕ
  pub nchains : ℕ
  pub empty : ℕ
  pub nelems : ℕ
  pub maxelems : ℕ
  pub nfree : ℕ
  pub maxfree : ℕ
  pub maxfextent : ℕ
  pub nempty : ℕ
  pub minempty : ℕ
  pub nbytes : ℕ
  pub maxbytes : ℕ
  pub level_foff : ℕ
  pub foff : ℕ
  pub level_fext : ℕ
  pub fext : ℕ
  pub rp : List Region
  pub magic : ℕ
  pub chains : List ℕ

unfoldable pub calculate_num_chains : ℕ → ℕ
unfolding prev_prime
calculate_num_chains nelems = prev_prime (nelems / rl_exp_chain_len)

-- `n` regions from index `irl - 1` on, each linked to the next one, the last to none.
-- `prev` is what a new file holds, zero.
unfoldable pub init_array : ℕ → ℕ → List Region
init_array zero irl = []
init_array (suc zero) irl = record { offset = negsuc 0; extent = 0; next = rl_none; prev = 0 } ∷ []
init_array (suc (suc n)) irl =
    record { offset = negsuc 0; extent = 0; next = irl; prev = 0 } ∷ init_array (suc n) (irl + 1)

-- `nempty_--` on a `size_t`.
abbrev pub fewer : ℕ → ℕ
fewer n = (n + (2 ^ 64 - 1)) % 2 ^ 64

unfoldable pub get_empty_region : RegionList → Run (ℕ × RegionList)
get_empty_region l =
    let taken : Run (ℕ × RegionList) = at l.rp l.empty >>= λ rep. ok (
      l.empty,
      record l {
        empty = rep.next;
        nempty = fewer l.nempty;
        minempty = if ltb (fewer l.nempty) l.minempty then fewer l.nempty else l.minempty;
      },
    ) in
    let exhausted : Run (ℕ × RegionList) = log_assert (l.nempty == 0) >> ok (rl_none, l) in
    if l.empty == rl_none then exhausted else taken

unfoldable pub release_empty_region : RegionList → ℕ → Run RegionList
release_empty_region l rlix = do
  log_assert (ltb 0 rlix && ltb rlix (l.nalloc + rl_free_overhead))
  rep ← at l.rp rlix
  ok (record l {
    rp = set l.rp rlix (record rep { next = l.empty; offset = negsuc 0; extent = 0 });
    empty = rlix;
    nempty = (l.nempty + 1) % 2 ^ 64;
  })

-- The low 32 bits of the offset, which the assignment to an `unsigned int` keeps.
abbrev pub low_word : ℤ → ℕ
low_word (pos n) = n % 2 ^ 32
low_word (negsuc n) = 2 ^ 32 - 1 - n % 2 ^ 32

unfoldable pub hash_offset : RegionList → ℤ → ℕ
hash_offset l offset = low_word offset % l.nchains

unfoldable pub init_hash : RegionList → RegionList
init_hash l = record l { magic = rl_magic; chains = replicate l.nchains rl_none }

-- The loop of `Find`; a chain holds at most all regions, hence the fuel of `find`.
unfoldable pub find_from : ℕ → List Region → ℤ → ℕ → Run ℕ
find_from zero rp offset next = fault out_of_fuel
find_from (suc f) rp offset next =
    let step : Run ℕ = at rp next >>= λ rep.
    let rest = find_from f rp offset rep.next in
    let hit : Run ℕ = log_assert (is_alloc rep) >> ok next in
    if eqb_ℤ offset rep.offset then hit else rest in
    if next == rl_none then ok rl_none else step

unfoldable pub find : RegionList → ℤ → Run ℕ
unfolding find_from hash_offset
find l offset = do
  log_assert (l.magic == rl_magic)
  next ← at l.chains (hash_offset l offset)
  find_from (suc (length l.rp)) l.rp offset next

-- The old head of the chain, if there is one, points back to the region.
unfoldable pub link_back : List Region → ℕ → ℕ → Run (List Region)
link_back rp next rpix =
    let linked : Run (List Region) = at rp next >>= λ head.
    log_assert (is_alloc head) >> ok (set rp next (record head { prev = rpix })) in
    if next == rl_none then ok rp else linked

unfoldable pub add_to_hash : RegionList → ℕ → Run RegionList
unfolding hash_offset link_back
add_to_hash l rpix = do
  rep ← at l.rp rpix
  log_assert (l.magic == rl_magic)
  log_assert (is_alloc rep)
  next ← at l.chains (hash_offset l rep.offset)
  rp ← link_back l.rp next rpix
  own ← at rp rpix
  ok (record l {
    rp = set rp rpix (record own { next = next; prev = rl_none });
    chains = set l.chains (hash_offset l rep.offset) rpix;
  })

-- The predecessor, or the head of the chain, is linked past the region.
unfoldable pub link_past : RegionList → Region → Run RegionList
unfolding hash_offset
link_past l rep =
    let inner : Run RegionList = at l.rp rep.prev >>= λ before.
    ok (record l { rp = set l.rp rep.prev (record before { next = rep.next }) }) in
    let head : Run RegionList = at l.chains (hash_offset l rep.offset) >>= λ _.
    ok (record l { chains = set l.chains (hash_offset l rep.offset) rep.next }) in
    if rep.prev == rl_none then head else inner

unfoldable pub remove_from_hash : RegionList → ℕ → Run RegionList
unfolding link_past link_back
remove_from_hash l rlix = do
  rep ← at l.rp rlix
  m ← link_past l rep
  rp ← link_back m.rp rep.next rep.prev
  ok (record m { rp = rp })

unfoldable pub has_space : RegionList → Bool
has_space l = ltb 0 l.nempty

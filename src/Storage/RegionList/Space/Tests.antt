-- ===== src/Storage/RegionList/Space/Tests.antt =====
-- The free space on concrete input.
use rdm.Prelude.{ℕ, ◌≤◌, ◌≢◌, ◌⊎◌, some, get_elem?, ◌≡◌, refl, [], ◌∷◌, arith, replicate, get_or}
use rdm.Prelude.Int.{ℤ, pos, negsuc, ◌+ℤ◌}
use rdm.Prelude.Run.{Run, ok, fault, assertion, ◌>>=◌}
use rdm.Storage.FreeBlock.{FreeBlock, fblk_none}
use rdm.Storage.FreeBlock
use rdm.Storage.RegionList.Free.{Store, initialize, rl_fext_tl}
use rdm.Storage.RegionList.{Region, rl_none, get_extent}
use rdm.Storage.RegionList.Space.{get, add, split, put}
use rdm.Storage.RegionList.Space.Fits.{IsTakenOff, get-fits}
use rdm.Storage.RegionList.Space.Halves.{split-IsHalved}
use rdm.Storage.RegionList.Space.Unmoved.{IsAt}

-- Two sizes of blocks, twelve of one word and six of two.
abbrev arena : Run FreeBlock
arena = do
  (off, b) ←
      FreeBlock.init_level
        (record {
          maxsize = 2;
          arena_sz = 24;
          avail = 0;
          allocated = 0;
          nfree = replicate 3 0;
          free = replicate 3 fblk_none;
          fblks = replicate 24 fblk_none;
        })
        0 0 1 12
  (end, c) ← FreeBlock.init_level b off 1 2 6
  ok c

-- The levels of the elements are 1 and 0 in turn.
abbrev levels : ℕ → ℕ
levels n = get_or (1 ∷ 0 ∷ 0 ∷ []) n 1

abbrev one_region : ℕ → Run Store
one_region n = do
  b ← arena
  s ← initialize n b
  (region, t) ← add levels s (pos 4096) 1000
  ok (record t { list = record t.list { maxfextent = 1000 } })

abbrev counts : Store → ℕ × ℕ × ℕ × ℕ
counts s = (s.list.nelems, s.list.nfree, s.list.nempty, s.list.maxfextent)

start_counts : (one_region 5 >>= λ s. ok (counts s)) ≡ ok (0, 1, 4, 1000)
unfolding initialize FreeBlock.init_level add
start_counts = refl

abbrev taken : Run (ℕ × Store)
taken = one_region 5 >>= λ s. get s 600

abbrev answer : ℕ → Store → ℕ × ℕ × ℕ × ℕ × ℕ
answer i s = (i, s.list.nelems, s.list.nfree, s.list.nempty, s.list.maxfextent)

taken_counts : (taken >>= λ r. ok (answer r.0 r.1)) ≡ ok (4, 1, 0, 4, 0)
unfolding initialize FreeBlock.init_level add get
taken_counts = refl

abbrev halves : Run (ℕ × Store)
halves = taken >>= λ r. split levels r.1 r.0 600

halves_counts : (halves >>= λ r. ok (answer r.0 r.1)) ≡ ok (0, 1, 1, 3, 400)
unfolding initialize FreeBlock.init_level add get split ◌+ℤ◌
halves_counts = refl

-- The halves become one region again.
put_back : (halves >>= λ r. put levels r.1 4 >>= λ s. ok (counts s)) ≡ ok (0, 1, 4, 1000)
unfolding initialize FreeBlock.init_level add get split put ◌+ℤ◌
put_back = refl

-- With four regions the first one has the index 4, which Put does not accept.
put_back_aborts : (one_region 4 >>= λ s. get s 600 >>= λ r. put levels r.1 r.0) ≡ fault assertion
unfolding initialize FreeBlock.init_level add get put
put_back_aborts = refl

abbrev store : Store
store = record {
  list = record {
    nalloc = 2;
    nchains = 2;
    empty = 5;
    nelems = 0;
    maxelems = 0;
    nfree = 1;
    maxfree = 1;
    maxfextent = 1000;
    nempty = 1;
    minempty = 1;
    nbytes = 0;
    maxbytes = 0;
    level_foff = 1;
    foff = 0;
    level_fext = 0;
    fext = 2;
    rp =
        record { offset = pos 0; extent = 0; next = 12; prev = 0 }
        ∷ record { offset = pos 9223372036854775807; extent = 0; next = 0; prev = 0 }
        ∷ record { offset = pos 0; extent = 0; next = 0; prev = 14 }
        ∷ record { offset = pos 0; extent = 18446744073709551614; next = 0; prev = 1 }
        ∷ record { offset = pos 4096; extent = 1000; next = 16; prev = 2 }
        ∷ record { offset = negsuc 0; extent = 0; next = rl_none; prev = 0 }
        ∷ [];
    magic = 1380730945;
    chains = rl_none ∷ rl_none ∷ [];
  };
  blocks = record {
    maxsize = 2;
    arena_sz = 24;
    avail = 12;
    allocated = 6;
    nfree = 9 ∷ 3 ∷ 0 ∷ [];
    free = 3 ∷ 18 ∷ rl_none ∷ [];
    fblks =
        1 ∷ 2 ∷ 3 ∷ 4 ∷ 5 ∷ 6 ∷ 7 ∷ 8 ∷ 9 ∷ 10 ∷ 11 ∷ rl_none ∷ 4 ∷ 4 ∷ 4 ∷ 3 ∷ 1 ∷ 1 ∷ 20 ∷ rl_none
        ∷ 22 ∷ rl_none ∷ rl_none ∷ rl_none ∷ [];
  };
}

abbrev got : Store
got = record {
  list = record {
    nalloc = 2;
    nchains = 2;
    empty = 5;
    nelems = 1;
    maxelems = 1;
    nfree = 0;
    maxfree = 1;
    maxfextent = 0;
    nempty = 1;
    minempty = 1;
    nbytes = 0;
    maxbytes = 0;
    level_foff = 0;
    foff = 0;
    level_fext = 0;
    fext = 2;
    rp =
        record { offset = pos 0; extent = 0; next = 12; prev = 0 }
        ∷ record { offset = pos 9223372036854775807; extent = 0; next = 0; prev = 0 }
        ∷ record { offset = pos 0; extent = 0; next = 0; prev = 14 }
        ∷ record { offset = pos 0; extent = 18446744073709551614; next = 0; prev = 1 }
        ∷ record { offset = pos 4096; extent = 1000; next = 16; prev = 2 }
        ∷ record { offset = negsuc 0; extent = 0; next = rl_none; prev = 0 }
        ∷ [];
    magic = 1380730945;
    chains = rl_none ∷ rl_none ∷ [];
  };
  blocks = record {
    maxsize = 2;
    arena_sz = 24;
    avail = 14;
    allocated = 4;
    nfree = 10 ∷ 4 ∷ 0 ∷ [];
    free = 2 ∷ 16 ∷ rl_none ∷ [];
    fblks =
        1 ∷ 2 ∷ 3 ∷ 4 ∷ 5 ∷ 6 ∷ 7 ∷ 8 ∷ 9 ∷ 10 ∷ 11 ∷ rl_none ∷ 1 ∷ 1 ∷ 3 ∷ 3 ∷ 18 ∷ 1 ∷ 20
        ∷ rl_none ∷ 22 ∷ rl_none ∷ rl_none ∷ rl_none ∷ [];
  };
}

abbrev divided : Store
divided = record {
  list = record {
    nalloc = 2;
    nchains = 2;
    empty = rl_none;
    nelems = 1;
    maxelems = 1;
    nfree = 1;
    maxfree = 1;
    maxfextent = 400;
    nempty = 0;
    minempty = 0;
    nbytes = 0;
    maxbytes = 0;
    level_foff = 1;
    foff = 0;
    level_fext = 0;
    fext = 2;
    rp =
        record { offset = pos 0; extent = 0; next = 12; prev = 0 }
        ∷ record { offset = pos 9223372036854775807; extent = 0; next = 0; prev = 0 }
        ∷ record { offset = pos 0; extent = 0; next = 0; prev = 14 }
        ∷ record { offset = pos 0; extent = 18446744073709551614; next = 0; prev = 1 }
        ∷ record { offset = pos 4096; extent = 600; next = 16; prev = 2 }
        ∷ record { offset = pos 4696; extent = 400; next = 16; prev = 2 }
        ∷ [];
    magic = 1380730945;
    chains = rl_none ∷ rl_none ∷ [];
  };
  blocks = record {
    maxsize = 2;
    arena_sz = 24;
    avail = 12;
    allocated = 6;
    nfree = 9 ∷ 3 ∷ 0 ∷ [];
    free = 3 ∷ 18 ∷ rl_none ∷ [];
    fblks =
        1 ∷ 2 ∷ 3 ∷ 4 ∷ 5 ∷ 6 ∷ 7 ∷ 8 ∷ 9 ∷ 10 ∷ 11 ∷ rl_none ∷ 5 ∷ 5 ∷ 5 ∷ 3 ∷ 1 ∷ 1 ∷ 20 ∷ rl_none
        ∷ 22 ∷ rl_none ∷ rl_none ∷ rl_none ∷ [];
  };
}

started : one_region 2 ≡ ok store
unfolding initialize FreeBlock.init_level add
started = refl

get_run : get store 600 ≡ ok (4, got)
unfolding get
get_run = refl

abbrev four : ℕ
four = 4

get-fits_example :
    ((4 ≡ rl_none) × (got ≡ store))
    ⊎ (((r : Region) × (get_elem? store.list.rp 4 ≡ some r) × (600 ≤ get_extent r))
        × (four ≢ rl_none)
        × (four ≢ rl_fext_tl)
        × (got.list.rp ≡ store.list.rp)
        × (got.list.nelems ≡ 1)
        × (got.list.nfree ≡ 0)
        × (got.list.nempty ≡ 1)
        × IsTakenOff store got 4)
get-fits_example = get-fits store got 600 4 get_run

split_run : split levels got 4 600 ≡ ok (0, divided)
unfolding split ◌+ℤ◌
split_run = refl

abbrev region : Region
region = record { offset = pos 4096; extent = 1000; next = 16; prev = 2 }

split-IsHalved_example :
    (600 ≤ 1000)
    × IsAt divided.list.rp 4 (pos 4096) 600
    × IsAt divided.list.rp 5 (pos 4096 +ℤ pos 600) 400
    × ((j : ℕ) (o : ℤ) (e : ℕ)
        → j ≢ 4
        → j ≢ 5
        → IsAt got.list.rp j o e
        → IsAt divided.list.rp j o e)
split-IsHalved_example =
    split-IsHalved levels got divided 4 600 region refl (λ e. absurd (omega arith)) split_run

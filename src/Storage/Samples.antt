-- ===== src/Storage/Samples.antt =====
-- A small queue for the tests: freshly formatted, and with one product in it.
use rdm.Prelude.{ℕ, [], ◌∷◌, replicate}
use rdm.Prelude.Int.{ℤ, pos, negsuc}
use rdm.Prelude.Run.{Run, ok, ◌>>=◌}
use rdm.Core.Timestamp.{Timestamp}
use rdm.Storage.Control.{Pqctl, initialize_control_header}
use rdm.Storage.FreeBlock
use rdm.Storage.FreeBlock.{FreeBlock, fblk_none}
use rdm.Storage.RegionList.Free
use rdm.Storage.RegionList.{rl_none}
use rdm.Storage.RegionList.Space
use rdm.Storage.SignatureIndex
use rdm.Storage.SignatureIndex.{Signature, sx_none, same, hash}
use rdm.Storage.TimeQueue
use rdm.Storage.QueueIndexManager.{Index, Info}
use rdm.Storage.QueueIndexManager.Allocating.{Allocation, allocate_product_space}

-- Two sizes of blocks, twelve of one word and six of two.
abbrev pub arena : Run FreeBlock
arena = do
  (off, b) ←
      FreeBlock.init_level
        (record {
          maxsize = 2;
          arena_sz = 24;
          avail = 0;
          allocated = 0;
          nfree = replicate 3 0;
          free = replicate 3 fblk_none;
          fblks = replicate 24 fblk_none;
        })
        0 0 1 12
  (end, c) ← FreeBlock.init_level b off 1 2 6
  ok c

abbrev pub control : Pqctl
control = initialize_control_header (pos 4096) (pos 6096) 5000 2 8

-- A queue for two products with 2000 bytes.
abbrev pub formatted : Run Index
formatted = do
  b ← arena
  t ← TimeQueue.initialize 2 b
  s ← Free.initialize 2 t.blocks
  (region, s1) ← Space.add (λ n. 0) s (pos 4096) 2000
  ok (record {
    control = control;
    regions = record s1.list { maxfextent = 2000 };
    times = t.queue;
    signatures = SignatureIndex.initialize 2;
    blocks = s1.blocks;
    smallest_extent_seen = rl_none;
  })

abbrev pub sig : Signature
sig = replicate 16 7

abbrev pub at_second : ℕ → Timestamp
at_second n = record { tv_sec = pos n; tv_usec = pos 0 }

abbrev pub decode : ℤ → ℕ → ℤ × Info
decode offset extent = (pos 0, record { signature = sig; arrival = at_second 50 })

abbrev pub mvrt : Timestamp → Info → Index → Index
mvrt t i ix = ix

abbrev pub levels : ℕ → ℕ → ℕ
levels n k = 0

abbrev pub one_in : Run (Allocation × Index)
one_in = formatted >>= λ ix. allocate_product_space decode mvrt levels ix 595 sig

abbrev pub index : Index
index = record {
  control = control;
  regions = record {
    nalloc = 2;
    nchains = 2;
    empty = 5;
    nelems = 0;
    maxelems = 0;
    nfree = 1;
    maxfree = 1;
    maxfextent = 2000;
    nempty = 1;
    minempty = 1;
    nbytes = 0;
    maxbytes = 0;
    level_foff = 0;
    foff = 0;
    level_fext = 0;
    fext = 2;
    rp =
        record { offset = pos 0; extent = 0; next = 14; prev = 0 }
        ∷ record { offset = pos 9223372036854775807; extent = 0; next = 1; prev = 0 }
        ∷ record { offset = pos 0; extent = 0; next = 0; prev = 16 }
        ∷ record { offset = pos 0; extent = 18446744073709551614; next = 0; prev = 2 }
        ∷ record { offset = pos 4096; extent = 2000; next = 3; prev = 4 }
        ∷ record { offset = negsuc 0; extent = 0; next = rl_none; prev = 0 }
        ∷ [];
    magic = 1380730945;
    chains = rl_none ∷ rl_none ∷ [];
  };
  times = record {
    nalloc = 2;
    nelems = 2;
    nfree = 2;
    free_head = pos 2;
    level = 0;
    tqep =
        record {
          tv = record { tv_sec = pos 2147483647; tv_usec = pos 999999 };
          offset = negsuc 0;
          fblk = 0;
        }
        ∷ record {
          tv = record { tv_sec = negsuc 0; tv_usec = negsuc 0 };
          offset = negsuc 0;
          fblk = 12;
        }
        ∷ record {
          tv = record { tv_sec = negsuc 0; tv_usec = negsuc 0 };
          offset = pos 3;
          fblk = rl_none;
        }
        ∷ record {
          tv = record { tv_sec = negsuc 0; tv_usec = negsuc 0 };
          offset = negsuc 0;
          fblk = rl_none;
        }
        ∷ [];
  };
  signatures = record {
    nalloc = 2;
    nelems = 0;
    nchains = 2;
    free_head = 0;
    nfree = 2;
    sxep =
        record { sxi = replicate 16 0; offset = negsuc 0; next = 1 }
        ∷ record { sxi = replicate 16 0; offset = negsuc 0; next = rl_none }
        ∷ [];
    magic = 1398294593;
    chains = rl_none ∷ rl_none ∷ [];
  };
  blocks = record {
    maxsize = 2;
    arena_sz = 24;
    avail = 10;
    allocated = 8;
    nfree = 7 ∷ 3 ∷ 0 ∷ [];
    free = 5 ∷ 18 ∷ rl_none ∷ [];
    fblks =
        1 ∷ 2 ∷ 3 ∷ 1 ∷ 3 ∷ 6 ∷ 7 ∷ 8 ∷ 9 ∷ 10 ∷ 11 ∷ rl_none ∷ 0 ∷ 0 ∷ 4 ∷ 1 ∷ 4 ∷ 3 ∷ 20 ∷ rl_none
        ∷ 22 ∷ rl_none ∷ rl_none ∷ rl_none ∷ [];
  };
  smallest_extent_seen = rl_none;
}

abbrev pub filled : Index
filled = record {
  control = control;
  regions = record {
    nalloc = 2;
    nchains = 2;
    empty = rl_none;
    nelems = 1;
    maxelems = 1;
    nfree = 1;
    maxfree = 1;
    maxfextent = 1400;
    nempty = 0;
    minempty = 0;
    nbytes = 0;
    maxbytes = 0;
    level_foff = 0;
    foff = 0;
    level_fext = 0;
    fext = 2;
    rp =
        record { offset = pos 0; extent = 0; next = 14; prev = 0 }
        ∷ record { offset = pos 9223372036854775807; extent = 0; next = 1; prev = 0 }
        ∷ record { offset = pos 0; extent = 0; next = 0; prev = 16 }
        ∷ record { offset = pos 0; extent = 18446744073709551614; next = 0; prev = 2 }
        ∷ record { offset = pos 4096; extent = 601; next = rl_none; prev = rl_none }
        ∷ record { offset = pos 4696; extent = 1400; next = 4; prev = 3 }
        ∷ [];
    magic = 1380730945;
    chains = 4 ∷ rl_none ∷ [];
  };
  times = record {
    nalloc = 2;
    nelems = 2;
    nfree = 2;
    free_head = pos 2;
    level = 0;
    tqep =
        record {
          tv = record { tv_sec = pos 2147483647; tv_usec = pos 999999 };
          offset = negsuc 0;
          fblk = 0;
        }
        ∷ record {
          tv = record { tv_sec = negsuc 0; tv_usec = negsuc 0 };
          offset = negsuc 0;
          fblk = 12;
        }
        ∷ record {
          tv = record { tv_sec = negsuc 0; tv_usec = negsuc 0 };
          offset = pos 3;
          fblk = rl_none;
        }
        ∷ record {
          tv = record { tv_sec = negsuc 0; tv_usec = negsuc 0 };
          offset = negsuc 0;
          fblk = rl_none;
        }
        ∷ [];
  };
  signatures = record {
    nalloc = 2;
    nelems = 1;
    nchains = 2;
    free_head = 1;
    nfree = 1;
    sxep =
        record { sxi = sig; offset = pos 4096; next = rl_none }
        ∷ record { sxi = replicate 16 0; offset = negsuc 0; next = rl_none }
        ∷ [];
    magic = 1398294593;
    chains = rl_none ∷ 0 ∷ [];
  };
  blocks = record {
    maxsize = 2;
    arena_sz = 24;
    avail = 10;
    allocated = 8;
    nfree = 7 ∷ 3 ∷ 0 ∷ [];
    free = 5 ∷ 18 ∷ rl_none ∷ [];
    fblks =
        1 ∷ 2 ∷ 3 ∷ 3 ∷ 1 ∷ 6 ∷ 7 ∷ 8 ∷ 9 ∷ 10 ∷ 11 ∷ rl_none ∷ 0 ∷ 0 ∷ 5 ∷ 1 ∷ 5 ∷ 3 ∷ 20 ∷ rl_none
        ∷ 22 ∷ rl_none ∷ rl_none ∷ rl_none ∷ [];
  };
  smallest_extent_seen = 600;
}

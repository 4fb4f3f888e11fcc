-- ===== src/Storage/TimeQueue/Tests.antt =====
-- The time queue on concrete input.
use rdm.Prelude.{ℕ, ◌≡◌, ◌⊎◌, refl, [], ◌∷◌, replicate, Option, none, some}
use rdm.Prelude.Errno.{enospc}
use rdm.Prelude.Int.{pos, negsuc, ◌+ℤ◌}
use rdm.Prelude.Run.{Run, ok, ◌>>=◌}
use rdm.Core.Timestamp.{Timestamp, less, equal, increment_microsecond}
use rdm.Storage.FreeBlock
use rdm.Storage.FreeBlock.{FreeBlock, fblk_none}
use rdm.Storage.TimeQueue.{
  Times, initialize, add, find, delete, place, place_fuel, greater_than, tq_head, used,
}
use rdm.Storage.TimeQueue.Places.{IsPlaced, add-IsPlaced}
use rdm.Storage.TimeQueue.Matches.{IsMatch, find-IsMatch}

-- Two sizes of blocks, six of one word and three of two.
abbrev arena : Run FreeBlock
arena = do
  (off, b) ←
      FreeBlock.init_level
        (record {
          maxsize = 2;
          arena_sz = 12;
          avail = 0;
          allocated = 0;
          nfree = replicate 3 0;
          free = replicate 3 fblk_none;
          fblks = replicate 12 fblk_none;
        })
        0 0 1 6
  (end, c) ← FreeBlock.init_level b off 1 2 3
  ok c

abbrev at_second : ℕ → Timestamp
at_second n = record { tv_sec = pos n; tv_usec = pos 0 }

-- Two products in the same microsecond, and an earlier one.
abbrev three : Run Times
three = do
  b ← arena
  s0 ← initialize 3 b
  (st1, s1) ← add s0 (at_second 50) 0 (pos 4096)
  (st2, s2) ← add s1 (at_second 50) 1 (pos 8192)
  (st3, s3) ← add s2 (at_second 40) 0 (pos 512)
  ok s3

abbrev times : Times
times = record {
  queue = record {
    nalloc = 3;
    nelems = 5;
    nfree = 0;
    free_head = negsuc 0;
    level = 1;
    tqep =
        record {
          tv = record { tv_sec = pos 2147483647; tv_usec = pos 999999 };
          offset = negsuc 0;
          fblk = 0;
        }
        ∷ record {
          tv = record { tv_sec = negsuc 0; tv_usec = negsuc 0 };
          offset = negsuc 0;
          fblk = 6;
        }
        ∷ record { tv = record { tv_sec = pos 50; tv_usec = pos 0 }; offset = pos 4096; fblk = 1 }
        ∷ record { tv = record { tv_sec = pos 50; tv_usec = pos 1 }; offset = pos 8192; fblk = 8 }
        ∷ record { tv = record { tv_sec = pos 40; tv_usec = pos 0 }; offset = pos 512; fblk = 2 }
        ∷ [];
  };
  blocks = record {
    maxsize = 2;
    arena_sz = 12;
    avail = 4;
    allocated = 5;
    nfree = 3 ∷ 1 ∷ 0 ∷ [];
    free = 3 ∷ 10 ∷ fblk_none ∷ [];
    fblks = 1 ∷ 3 ∷ 2 ∷ 4 ∷ 5 ∷ fblk_none ∷ 4 ∷ 3 ∷ 0 ∷ 0 ∷ fblk_none ∷ fblk_none ∷ [];
  };
}

three_run : three ≡ ok times
unfolding initialize FreeBlock.init_level add less equal increment_microsecond ◌+ℤ◌
three_run = refl

behind : find times (at_second 50) greater_than ≡ ok (some 3)
unfolding find less equal
behind = refl

abbrev third : Option ℕ
third = some 3

find-IsMatch_example :
    ((used times.queue ≡ 0) × (third ≡ none)) ⊎ IsMatch times (at_second 50) greater_than third
find-IsMatch_example = find-IsMatch times (at_second 50) greater_than third behind

abbrev free_time : Timestamp
free_time = record { tv_sec = pos 50; tv_usec = pos 2 }

placed : place times (place_fuel times) 1 tq_head (at_second 50) [] ≡ ok (free_time, 3 ∷ 3 ∷ [])
unfolding place less equal increment_microsecond ◌+ℤ◌
placed = refl

add-IsPlaced_example : IsPlaced times tq_head (at_second 50) (free_time, 3 ∷ 3 ∷ [])
add-IsPlaced_example =
    add-IsPlaced (place_fuel times) times tq_head (at_second 50) (free_time, 3 ∷ 3 ∷ []) placed

abbrev counters : Times → ℕ × ℕ × ℕ
counters s = (s.queue.nelems, s.queue.nfree, s.queue.level)

-- The element on both levels is deleted, and its level with it.
deleted : (delete times 3 >>= λ s. ok (counters s)) ≡ ok (4, 1, 0)
unfolding delete less equal
deleted = refl

abbrev outcome : ℕ × Times → ℕ × ℕ × ℕ × ℕ
outcome r = (r.0, r.1.queue.nelems, r.1.queue.nfree, r.1.queue.level)

-- Without a free block the product is refused, but the element that was taken for it stays taken.
refused :
    (delete times 4 >>= λ s.
    add (record s { blocks = record s.blocks { nfree = replicate 3 0 } }) (at_second 60) 0 (pos 64)
    >>= λ r. ok (outcome r))
    ≡ ok (enospc, 5, 0, 1)
unfolding delete add less equal increment_microsecond ◌+ℤ◌
refused = refl

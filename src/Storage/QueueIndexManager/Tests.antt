-- ===== src/Storage/QueueIndexManager/Tests.antt =====
-- The three indexes on concrete input.
use rdm.Prelude.{ℕ, ◌≤◌, ◌≡◌, refl, ◌⊎◌, replicate, some, arith}
use rdm.Prelude.Int.{ℤ, pos, ◌+ℤ◌, ◌-ℤ◌}
use rdm.Prelude.Run.{Run, Fault, ok, fault, ◌>>=◌}
use rdm.Math.{prev_prime}
use rdm.Core.Timestamp.{less, equal, increment_microsecond}
use rdm.Storage.Control.{initialize_control_header}
use rdm.Storage.FreeBlock
use rdm.Storage.FreeBlock.{FreeBlock, fblk_none}
use rdm.Storage.RegionList.Free
use rdm.Storage.RegionList.{rl_none}
use rdm.Storage.RegionList.Space
use rdm.Storage.SignatureIndex
use rdm.Storage.SignatureIndex.{Signature, sx_none, same, hash}
use rdm.Storage.TimeQueue
use rdm.Storage.QueueIndexManager.{Index, times_of, with_times, dup, make_slot, make_space}
use rdm.Storage.QueueIndexManager.Allocating.{
  Allocation, allocated, refused, allocate_product_space,
}
use rdm.Storage.QueueIndexManager.Lookup.{free_by_offset, find_time_entry}
use rdm.Storage.QueueIndexManager.Ends.{IsDeletionFault, IsGetFault, loops-end}
use rdm.Storage.QueueIndexManager.Extents.{allocate-large}
use rdm.Storage.Samples.{formatted, sig, at_second, decode, mvrt, levels, index, filled}

formatted_run : formatted ≡ ok index
unfolding initialize_control_header Free.initialize FreeBlock.init_level TimeQueue.initialize
    Space.add SignatureIndex.initialize prev_prime
formatted_run = refl

entered :
    allocate_product_space decode mvrt levels index 595 sig ≡ ok (allocated (pos 4096) 600, filled)
unfolding initialize_control_header allocate_product_space ◌+ℤ◌ SignatureIndex.hash_bytes
    SignatureIndex.find_from rdm.Storage.RegionList.has_space
entered = refl

allocate-large_example : 595 ≤ 600
unfolding initialize_control_header
allocate-large_example =
    allocate-large decode mvrt levels index filled 595 sig (pos 4096) 600 (λ t i ix. (refl, refl))
      (omega arith) (omega arith) (omega arith) entered

loops-end_example :
    (((r : ℤ × Index) × (make_slot decode mvrt levels 2 filled ≡ ok r))
      ⊎ ((x : Fault) × (make_slot decode mvrt levels 2 filled ≡ fault x)
          × IsDeletionFault decode mvrt levels filled x))
    × (((r : ℤ × ℕ × Index) × (make_space decode mvrt levels 2 filled 100 ≡ ok r))
        ⊎ ((x : Fault) × (make_space decode mvrt levels 2 filled 100 ≡ fault x)
            × (IsDeletionFault decode mvrt levels filled x
                ⊎ IsGetFault decode mvrt levels filled 100 x)))
loops-end_example =
    loops-end decode mvrt levels filled 100 2 (λ t i ix. (refl, refl)) (omega arith) (omega arith)

abbrev answer : Allocation × Index → Allocation
answer r = r.0

-- The same product once more is a duplicate.
twice :
    (allocate_product_space decode mvrt levels filled 595 sig >>= λ r. ok (answer r))
    ≡ ok (refused dup)
unfolding initialize_control_header allocate_product_space SignatureIndex.hash_bytes
    SignatureIndex.find_from same
twice = refl

abbrev counts : ℕ × Index → ℕ × ℕ × ℕ × ℕ
counts r = (r.0, r.1.regions.nelems, r.1.regions.nfree, r.1.signatures.nelems)

-- The region becomes one with its neighbour again.
freed : (free_by_offset (λ n. 0) filled (pos 4096) sig >>= λ r. ok (counts r)) ≡ ok (0, 0, 1, 0)
unfolding initialize_control_header free_by_offset ◌+ℤ◌ SignatureIndex.hash_bytes same
freed = refl

abbrev timed : Run Index
timed =
    TimeQueue.add (times_of filled) (at_second 60) 0 (pos 4096) >>= λ r. ok (with_times filled r.1)

found : (timed >>= λ ix. find_time_entry decode (pos 30) ix sig) ≡ ok (pos 0, some 2)
unfolding initialize_control_header TimeQueue.add find_time_entry ◌+ℤ◌ ◌-ℤ◌ less equal
    increment_microsecond hash SignatureIndex.hash_bytes SignatureIndex.find_from same
found = refl

-- The oldest product makes room for another one.
made_room :
    (timed >>= λ ix.
    allocate_product_space decode mvrt levels ix 1000 (replicate 16 8) >>= λ r. ok (answer r))
    ≡ ok (allocated (pos 4096) 1000)
unfolding initialize_control_header TimeQueue.add allocate_product_space ◌+ℤ◌ less equal
    increment_microsecond SignatureIndex.hash_bytes SignatureIndex.find_from
    rdm.Storage.RegionList.has_space same
made_room = refl

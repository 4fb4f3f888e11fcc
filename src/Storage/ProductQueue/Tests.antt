-- ===== src/Storage/ProductQueue/Tests.antt =====
-- Entries of the queue on concrete input.
use rdm.Prelude.{ℕ, ◌≤◌, ◌≡◌, refl, true, false, some, arith}
use rdm.Prelude.Int.{ℤ, pos, ◌+ℤ◌, ◌-ℤ◌}
use rdm.Prelude.Errno.{enomem, eio}
use rdm.Prelude.Run.{ok, ◌>>=◌}
use rdm.Core.Timestamp.{less, equal}
use rdm.Storage.Control.{initialize_control_header}
use rdm.Storage.RegionList.{has_space}
use rdm.Storage.SignatureIndex
use rdm.Storage.SignatureIndex.{Signature, same}
use rdm.Storage.Samples.{index, filled, sig, at_second, decode, levels}
use rdm.Storage.QueueMetrics.{track_allocation}
use rdm.Storage.ProductQueue.{
  ProductQueue, Answers, Reservation, reserved, failed, new_element, new_element_direct,
  commit_entry, insert, big,
}
use rdm.Storage.ProductQueue.Reserved.{entry-large}

abbrev queue : ProductQueue
queue = record {
  is_open = true;
  is_read_only = false;
  data_size = 2000;
  index = index;
  pqe_count = pos 0;
}

abbrev answers : Answers
answers = record {
  lock_status = pos 0;
  is_mapped = true;
  is_encoded = true;
  now = at_second 70;
  decode = decode;
  levels = levels;
}

abbrev with_entry : ProductQueue
with_entry = record queue {
  index = record filled {
    control = record filled.control { highwater = pos 600; maxproducts = 1 };
    regions = record filled.regions { nbytes = 600; maxbytes = 600 };
  };
  pqe_count = pos 1;
}

entered : new_element queue answers 500 595 sig ≡ ok (reserved (pos 4096) 600, with_entry)
unfolding new_element SignatureIndex.hash_bytes SignatureIndex.find_from has_space
    initialize_control_header ◌+ℤ◌ track_allocation ◌-ℤ◌
entered = refl

entry-large_example :
    (new_element queue answers 500 595 sig ≡ ok (reserved (pos 4096) 600, with_entry)
      → (595 ≤ 600) × (pos 1 ≡ pos 0 +ℤ pos 1))
    × (new_element_direct queue answers 595 sig ≡ ok (reserved (pos 4096) 600, with_entry)
        → (595 ≤ 600) × (pos 1 ≡ pos 0 +ℤ pos 1))
unfolding initialize_control_header
entry-large_example =
    entry-large queue with_entry answers 500 595 sig (pos 4096) 600
      (omega arith, omega arith, omega arith)

abbrev summary : ℤ × ProductQueue → ℤ × ℤ × ℕ × ℕ
summary r = (r.0, r.1.pqe_count, r.1.index.signatures.nelems, r.1.index.times.nelems)

committed :
    (commit_entry with_entry answers answers (pos 4096) 600 sig (some 90) >>= λ r. ok (summary r))
    ≡ ok (pos 0, pos 0, 1, 3)
unfolding commit_entry less equal ◌-ℤ◌
committed = refl

-- A description that does not fit its region takes the product out again.
too_big :
    (commit_entry with_entry answers answers (pos 4096) 600 sig (some 700) >>= λ r. ok (summary r))
    ≡ ok (big, pos 0, 0, 2)
unfolding commit_entry SignatureIndex.hash_bytes same ◌+ℤ◌ ◌-ℤ◌
too_big = refl

abbrev kept : Reservation × ProductQueue → Reservation × ℕ
kept r = (r.0, r.1.index.signatures.nelems)

-- Where the region cannot be mapped, newElement keeps the space and the signature of the product
-- that it refuses, newElementDirect gives them back.
refused_but_kept :
    (new_element queue (record answers { is_mapped = false }) 500 595 sig >>= λ r. ok (kept r))
    ≡ ok (failed (pos enomem), 1)
unfolding new_element SignatureIndex.hash_bytes SignatureIndex.find_from has_space
    initialize_control_header ◌+ℤ◌
refused_but_kept = refl

refused_and_freed :
    (new_element_direct queue (record answers { is_mapped = false }) 595 sig >>= λ r. ok (kept r))
    ≡ ok (failed (pos enomem), 0)
unfolding new_element_direct SignatureIndex.hash_bytes SignatureIndex.find_from has_space
    initialize_control_header ◌+ℤ◌ track_allocation same
refused_and_freed = refl

-- A product that is inserted stands in all three indexes; one that cannot be encoded in none.
inserted :
    (insert queue answers answers answers 500 595 sig true (some 90) >>= λ r. ok (summary r))
    ≡ ok (pos 0, pos 0, 1, 3)
unfolding insert SignatureIndex.hash_bytes SignatureIndex.find_from has_space
    initialize_control_header ◌+ℤ◌ less equal ◌-ℤ◌
inserted = refl

not_encoded :
    (insert queue answers answers answers 500 595 sig false (some 90) >>= λ r. ok (summary r))
    ≡ ok (pos eio, pos 0, 0, 2)
unfolding insert SignatureIndex.hash_bytes SignatureIndex.find_from has_space
    initialize_control_header ◌+ℤ◌ track_allocation same ◌-ℤ◌
not_encoded = refl

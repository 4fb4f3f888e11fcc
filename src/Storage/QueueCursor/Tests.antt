-- ===== src/Storage/QueueCursor/Tests.antt =====
-- The cursor on concrete input.
use rdm.Prelude.{ℕ, zero, suc, ◌≡◌, refl, true, false, [], ◌∷◌, none, some, arith}
use rdm.Prelude.Int.{pos, negsuc, ◌+ℤ◌, ◌-ℤ◌}
use rdm.Prelude.Run.{ok, ◌>>=◌}
use rdm.Core.ProdClass.{ProdClass}
use rdm.Core.Timestamp.{increment_microsecond, less, equal, greater, none_time, end_time, plus}
use rdm.Storage.SkipList.{link_of}
use rdm.Storage.TimeQueue.{Times, TimeQueueElement, greater_than}
use rdm.Storage.TimeQueue.Matches.{IsElement}
use rdm.Storage.Control.{initialize_control_header}
use rdm.Storage.SignatureIndex
use rdm.Storage.SignatureIndex.{same, hash}
use rdm.Storage.TimeQueue
use rdm.Storage.QueueIndexManager.{corrupt, times_of, with_times}
use rdm.Storage.Samples.{at_second, decode, filled, sig}
use rdm.Storage.QueueCursor.{
  QueueCursor, new_cursor, move, set_cursor_class, check_cursor_time, set_cursor_from_signature,
}
use rdm.Storage.QueueCursor.Progress.{IsOrdered, move-later}

-- The tail, the head, and two products.
abbrev times : Times
times = record {
  queue = record {
    nalloc = 2;
    nelems = 4;
    nfree = 0;
    free_head = negsuc 0;
    level = 0;
    tqep =
        record { tv = end_time; offset = negsuc 0; fblk = 0 }
        ∷ record { tv = none_time; offset = negsuc 0; fblk = 1 }
        ∷ record { tv = at_second 50; offset = pos 4096; fblk = 2 }
        ∷ record { tv = at_second 60; offset = pos 8192; fblk = 3 }
        ∷ [];
  };
  blocks = record {
    maxsize = 1;
    arena_sz = 4;
    avail = 0;
    allocated = 4;
    nfree = 0 ∷ 0 ∷ [];
    free = 4 ∷ 4 ∷ [];
    fblks = 0 ∷ 2 ∷ 3 ∷ 0 ∷ [];
  };
}

abbrev at_first : QueueCursor
at_first = record { cursor = at_second 50; cursor_offset = pos 4096 }

abbrev at_last : QueueCursor
at_last = record { cursor = at_second 60; cursor_offset = pos 8192 }

from_start : move new_cursor times greater_than ≡ ok (some 2, at_first)
unfolding move less equal
from_start = refl

onward : move at_first times greater_than ≡ ok (some 3, at_last)
unfolding move less equal
onward = refl

at_end : move at_last times greater_than ≡ ok (none, at_last)
unfolding move less equal
at_end = refl

ordered : IsOrdered times
unfolding link_of less
ordered zero q d e n b w v = absurd (n refl)
ordered (suc zero) q d e n b w v = ground (arith, b, w, v)
ordered (suc (suc zero)) q d e n b w v = ground (arith, b, w, v)
ordered (suc (suc (suc zero))) q d e n b w v = ground (arith, b, w, v)
ordered (suc (suc (suc (suc p)))) q d e n b w v = ground (arith, b)

set : equal (at_second 50) none_time ≡ false
unfolding equal
set = refl

abbrev third : ℕ
third = 3

move-later_example :
    (e : TimeQueueElement) × IsElement times third e
    × (at_last.cursor ≡ e.tv)
    × (less at_first.cursor at_last.cursor ≡ true)
move-later_example = move-later at_first at_last times third ordered set onward

abbrev class : ProdClass
class = record {
  from_sec = pos 55;
  from_usec = pos 0;
  to_sec = pos 70;
  to_usec = pos 0;
  specs = record { feedtype = 1; pattern = [] } ∷ [];
}

-- The cursor is set back to the product before the interval, and goes on from there.
placed : set_cursor_class new_cursor times class ≡ ok (0, some greater_than, at_first)
unfolding set_cursor_class less equal greater
placed = refl

inside : check_cursor_time at_last greater_than class (at_second 0) ≡ true
unfolding check_cursor_time equal greater plus ◌+ℤ◌
inside = refl

-- A product that is in the index by signature but not yet in the time queue counts as corrupt.
unstamped :
    set_cursor_from_signature decode (pos 30) new_cursor filled sig ≡ ok (corrupt, new_cursor)
unfolding set_cursor_from_signature initialize_control_header SignatureIndex.hash_bytes
    SignatureIndex.find_from same less equal hash ◌-ℤ◌
unstamped = refl

-- The cursor goes to the product with the signature.
signed :
    (TimeQueue.add (times_of filled) (at_second 60) 0 (pos 4096) >>= λ r.
    set_cursor_from_signature decode (pos 30) new_cursor (with_times filled r.1) sig >>= λ a.
    ok (a.1))
    ≡ ok (record { cursor = at_second 60; cursor_offset = pos 4096 })
unfolding set_cursor_from_signature initialize_control_header SignatureIndex.hash_bytes
    TimeQueue.add SignatureIndex.find_from same less equal increment_microsecond hash ◌-ℤ◌
signed = refl

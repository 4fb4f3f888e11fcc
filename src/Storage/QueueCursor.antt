-- ===== src/Storage/QueueCursor.antt =====
-- storage/pq/QueueCursor.h and .cpp: the position of a reader in the time queue. The queue is open;
-- the control lock and the mapping of a product answer that they succeed, and what is done with the
-- product that is found is left out.
pub mod Progress
mod Tests
use rdm.Prelude.{
  ℕ, Bool, true, false, not, ◌&&◌, ◌||◌, List, [], ◌∷◌, Option, none, some, if◌then◌else◌,
}
use rdm.Prelude.Int.{ℤ, pos, negsuc, eqb_ℤ, ltb_ℤ}
use rdm.Prelude.Errno.{einval}
use rdm.Prelude.Run.{Run, ok, ◌>>=◌, ◌>>◌, log_assert, at}
use rdm.Core.Timestamp.{Timestamp, none_time, zero_time, end_time, less, greater, equal, plus}
use rdm.Core.ProdClass.{ProdClass, ProdSpec}
use rdm.Storage.SignatureIndex.{Signature, off_none}
use rdm.Storage.TimeQueue
use rdm.Storage.TimeQueue.{Times, Match, less_than, equal_to, greater_than}
use rdm.Storage.QueueIndexManager.{Index, Info}
use rdm.Storage.QueueIndexManager.Lookup.{find_time_entry}

pub record QueueCursor : Type 0 where
  pub cursor : Timestamp
  pub cursor_offset : ℤ

abbrev pub new_cursor : QueueCursor
new_cursor = record { cursor = none_time; cursor_offset = off_none }

-- `setCursor`
unfoldable pub set_cursor : QueueCursor → Timestamp → QueueCursor
unfolding equal
set_cursor c t =
    let offset =
      if equal t end_time then off_none else if equal t zero_time then pos 0 else c.cursor_offset in
    record { cursor = t; cursor_offset = offset }

abbrev pub set_cursor_offset : QueueCursor → ℤ → QueueCursor
set_cursor_offset c offset = record c { cursor_offset = offset }

-- `pq_cset`
unfoldable pub pq_cset : QueueCursor → Timestamp → Run QueueCursor
unfolding set_cursor
pq_cset c t =
    log_assert (not (ltb_ℤ t.tv_sec (pos 0)) && not (ltb_ℤ t.tv_usec (pos 0)))
    >> ok (set_cursor c t)

-- A cursor that was not set starts at the end of the queue that the match leads away from.
unfoldable pub started : QueueCursor → Match → Run QueueCursor
started c mt =
    let from : Match → Run QueueCursor = λ m. elim m [
      | less_than ↦ ok (record c { cursor = end_time })
      | equal_to ↦ log_assert false >> ok c
      | greater_than ↦ ok (record c { cursor = zero_time })
    ] in
    if equal c.cursor none_time then from mt else ok c

-- The move of `sequenceHelper` and `next`: the element that is found, or none at the end.
unfoldable pub move : QueueCursor → Times → Match → Run (Option ℕ × QueueCursor)
unfolding started TimeQueue.find pq_cset
move c s mt = do
  c1 ← started c mt
  found ← TimeQueue.find s c1.cursor mt
  let moved : ℕ → Run (Option ℕ × QueueCursor) = λ i. do
    e ← at s.queue.tqep i
    c2 ← pq_cset c1 e.tv
    ok (some i, set_cursor_offset c2 e.offset)
  elim found [ none ↦ ok (none, c1) | some i ↦ moved i ]

abbrev pub from_of : ProdClass → Timestamp
from_of clss = record { tv_sec = clss.from_sec; tv_usec = clss.from_usec }

abbrev pub to_of : ProdClass → Timestamp
to_of clss = record { tv_sec = clss.to_sec; tv_usec = clss.to_usec }

abbrev pub is_empty : List ProdSpec → Bool
is_empty [] = true
is_empty (s ∷ ss) = false

abbrev pub is_none : Timestamp → Bool
is_none t = eqb_ℤ t.tv_sec none_time.tv_sec && eqb_ℤ t.tv_usec none_time.tv_usec

-- The cursor goes to the element that `Find` answers, if there is one.
unfoldable pub set_to_found :
    QueueCursor → Times → Timestamp → Match → Match → Run (ℕ × Option Match × QueueCursor)
unfolding TimeQueue.find
set_to_found c s key otherway onward = do
  found ← TimeQueue.find s key otherway
  let at_element : ℕ → Run (ℕ × Option Match × QueueCursor) = λ i. do
    e ← at s.queue.tqep i
    ok (0, some onward, record { cursor = e.tv; cursor_offset = e.offset })
  elim found [ none ↦ ok (0, some onward, c) | some i ↦ at_element i ]

-- `setCursorClass`: the status, the direction in which to go on, and the cursor, which is set back
-- to the element before the interval.
unfoldable pub set_cursor_class :
    QueueCursor → Times → ProdClass → Run (ℕ × Option Match × QueueCursor)
unfolding pq_cset set_to_found
set_cursor_class c s clss =
    let back = greater (from_of clss) (to_of clss) in
    let onward = if back then less_than else greater_than in
    let otherway = if back then greater_than else less_than in
    let set : Run (ℕ × Option Match × QueueCursor) = pq_cset c (from_of clss) >>= λ c1.
    let placed = set_to_found c1 s (from_of clss) otherway onward in
    if equal (from_of clss) (if back then end_time else zero_time)
    then ok (0, some onward, c1)
    else placed in
    if is_empty clss.specs || (is_none (from_of clss) || is_none (to_of clss))
    then ok (einval, none, c)
    else set

-- `checkCursorTime`: whether the cursor is still inside the interval of the class.
unfoldable pub check_cursor_time : QueueCursor → Match → ProdClass → Timestamp → Bool
check_cursor_time c mt clss max_latency =
    let late = greater c.cursor (plus (to_of clss) max_latency) in
    let inside : Bool = elim mt [
      | less_than ↦ not (less c.cursor (to_of clss))
      | equal_to ↦ not late
      | greater_than ↦ not late
    ] in
    if equal c.cursor none_time then false else if is_empty clss.specs then true else inside

-- `setCursorFromSignature`: the status and the cursor, which is moved on success only. The decoding
-- of a product in its region is a parameter.
unfoldable pub set_cursor_from_signature :
    (ℤ → ℕ → ℤ × Info) → ℤ → QueueCursor → Index → Signature → Run (ℤ × QueueCursor)
unfolding find_time_entry
set_cursor_from_signature decode interval c ix sig = do
  (status, entry) ← find_time_entry decode interval ix sig
  let moved : ℕ → Run (ℤ × QueueCursor) = λ i. do
    e ← at ix.times.tqep i
    ok (status, record { cursor = e.tv; cursor_offset = e.offset })
  elim entry [ none ↦ ok (status, c) | some i ↦ moved i ]

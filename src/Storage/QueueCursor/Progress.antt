-- ===== src/Storage/QueueCursor/Progress.antt =====
-- storage/pq/QueueCursor.cpp: a reader that goes on through the queue never comes back.
use rdm.Prelude.{
  ℕ, ◌≡◌, ◌≢◌, ap, ◌∙◌, sym, subst, inl, inr, Option-cases, true, false, none, some, get_elem?,
  arith,
}
use rdm.Prelude.Run.{Run-cases, ok}
use rdm.Core.Timestamp.{Timestamp, less, equal, none_time}
use rdm.Core.Timestamp.Order.{eq_of_equal}
use rdm.Storage.TimeQueue
use rdm.Storage.TimeQueue.{Times, TimeQueueElement, greater_than, used, tq_nil}
use rdm.Storage.TimeQueue.Matches.{IsBehind, IsElement, IsMatch, find-IsMatch}
use rdm.Storage.QueueCursor.{QueueCursor, started, move, pq_cset, set_cursor}

-- Each element but the tail is earlier than the one that is linked behind it.
abbrev pub IsOrdered : Times → Type 0
IsOrdered s =
    (p q : ℕ) (d e : TimeQueueElement)
    → p ≢ tq_nil
    → IsBehind s p q
    → IsElement s p d
    → IsElement s q e
    → less d.tv e.tv ≡ true

less_of_not : (t r : Timestamp) → less t r ≡ false → equal t r ≡ false → less r t ≡ true
unfolding less equal
less_of_not t r h k = ground (arith, h, k)

IsMatch-later :
    (s : Times) (key : Timestamp) (i : ℕ) (e : TimeQueueElement)
    → IsOrdered s
    → IsElement s i e
    → IsMatch s key greater_than (some i)
    → less key e.tv ≡ true
IsMatch-later s key i e ordered there
      (more, (p, q, d, (start, behind, w, late), inl (same, other))) =
    let both : some d ≡ some e = sym w ∙ (ap (λ x. get_elem? s.queue.tqep x) (sym same) ∙ there) in
    let is : d ≡ e = ground (arith, both) in
    subst (λ x. less key x.tv ≡ true) is (less_of_not d.tv key late other)
IsMatch-later s key i e ordered there
      (more, (p, q, d, (start, behind, w, late), inr (inner, same, next))) =
    subst (λ x. less x e.tv ≡ true) (eq_of_equal d.tv key same) (ordered q i d e inner next w there)

pq_cset-cursor : (c d : QueueCursor) (t : Timestamp) → pq_cset c t ≡ ok d → d.cursor ≡ t
unfolding pq_cset set_cursor
pq_cset-cursor c d t h = ground (arith, h)

-- A move forward of a cursor that was set, over a queue in which each element is earlier than the
-- one behind it, but for the tail: where it finds an element, the cursor is set to the time of that element, which
-- is later than where the cursor was.
pub move-later :
    (c d : QueueCursor) (s : Times) (i : ℕ)
    → IsOrdered s
    → equal c.cursor none_time ≡ false
    → move c s greater_than ≡ ok (some i, d)
    → (e : TimeQueueElement) × IsElement s i e × (d.cursor ≡ e.tv) × (less c.cursor d.cursor ≡ true)
unfolding move started
move-later c d s i ordered set h = elim (Run-cases (TimeQueue.find s c.cursor greater_than)) [
  | inr (x, a) ↦ ground (arith, h, set, a)
  | inl (none, a) ↦ ground (arith, h, set, a)
  | inl (some j, a) ↦ elim (Option-cases (get_elem? s.queue.tqep j)) [
    | inl w ↦ ground (arith, h, set, a, w)
    | inr (e, w) ↦ elim (Run-cases (pq_cset c e.tv)) [
      | inr (x, b) ↦ ground (arith, h, set, a, w, b)
      | inl (c2, b) ↦
          let same : j ≡ i = ground (arith, h, set, a, w, b) in
          let moved : c2.cursor ≡ d.cursor = ground (arith, h, set, a, w, b) in
          let to : d.cursor ≡ e.tv = sym moved ∙ pq_cset-cursor c c2 e.tv b in
          let later : less c.cursor e.tv ≡ true =
            elim (find-IsMatch s c.cursor greater_than (some j) a) [
              | inl empty ↦ ground (arith, empty)
              | inr found ↦ IsMatch-later s c.cursor j e ordered w found
            ] in
          (
            e,
            subst (λ x. IsElement s x e) same w,
            to,
            subst (λ x. less c.cursor x ≡ true) (sym to) later,
          )
    ]
  ]
]

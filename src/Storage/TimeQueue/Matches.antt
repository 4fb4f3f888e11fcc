-- ===== src/Storage/TimeQueue/Matches.antt =====
-- storage/pq/TimeQueue.cpp: Find answers with the element that the match asks for.
use rdm.Prelude.{
  ℕ, ◌≡◌, ◌≢◌, refl, subst, ◌⊎◌, inl, inr, Bool-cases, ℕ_discrete, true, false, List, Option, none,
  some, get_elem?, arith,
}
use rdm.Prelude.Run.{Run-cases, ok}
use rdm.Core.Timestamp.{Timestamp, less, equal}
use rdm.Storage.SkipList.{link_of, search}
use rdm.Storage.SkipList.Separates.{search-IsFound}
use rdm.Storage.TimeQueue.{
  Times, TimeQueueElement, node, before, Match, less_than, equal_to, greater_than, match_at,
  find_place, find, used, tq_head, tq_nil,
}
use rdm.Storage.TimeQueue.Places.{IsEarlier}

-- The element `q` is linked behind `p` on the lowest level.
abbrev pub IsBehind : Times → ℕ → ℕ → Type 0
IsBehind s p q = link_of node s.queue.tqep s.blocks.fblks 0 p ≡ ok q

abbrev pub IsElement : Times → ℕ → TimeQueueElement → Type 0
IsElement s i e = get_elem? s.queue.tqep i ≡ some e

-- The key belongs between the head or an earlier element and an element that is not earlier.
abbrev pub IsBetween : Times → Timestamp → ℕ → ℕ → TimeQueueElement → Type 0
IsBetween s key p q e =
    IsEarlier s key tq_head p × IsBehind s p q × IsElement s q e × (less e.tv key ≡ false)

abbrev pub IsMatch : Times → Timestamp → Match → Option ℕ → Type 0
IsMatch s key less_than (some i) =
    (i ≢ tq_head) × ((q : ℕ) × (e : TimeQueueElement) × IsBetween s key i q e)
IsMatch s key less_than none = (q : ℕ) × (e : TimeQueueElement) × IsBetween s key tq_head q e
IsMatch s key equal_to (some i) =
    (p : ℕ) × (e : TimeQueueElement) × IsBetween s key p i e × (equal e.tv key ≡ true)
IsMatch s key equal_to none =
    (p : ℕ) × (q : ℕ) × (e : TimeQueueElement) × IsBetween s key p q e × (equal e.tv key ≡ false)
IsMatch s key greater_than (some i) =
    (i ≢ tq_nil)
    × ((p : ℕ) × (q : ℕ) × (e : TimeQueueElement) × IsBetween s key p q e
        × (((i ≡ q) × (equal e.tv key ≡ false))
            ⊎ ((q ≢ tq_nil) × (equal e.tv key ≡ true) × IsBehind s q i)))
IsMatch s key greater_than none =
    (p : ℕ) × (q : ℕ) × (e : TimeQueueElement) × IsBetween s key p q e
    × ((q ≡ tq_nil) ⊎ ((equal e.tv key ≡ true) × IsBehind s q tq_nil))

match_at-IsMatch :
    (s : Times) (key : Timestamp) (mt : Match) (p q : ℕ) (e : TimeQueueElement) (answer : Option ℕ)
    → IsBetween s key p q e
    → match_at s key mt p q e ≡ ok answer
    → IsMatch s key mt answer
unfolding match_at
match_at-IsMatch s key less_than p q e answer place h = elim (ℕ_discrete p tq_head) [
  | yes head ↦
      let is : none ≡ answer = ground (arith, h, head) in
      subst (IsMatch s key less_than) is (q, e, subst (λ x. IsBetween s key x q e) head place)
  | no other ↦
      let is : some p ≡ answer = ground (arith, h, other) in
      subst (IsMatch s key less_than) is (other, (q, e, place))
]
match_at-IsMatch s key equal_to p q e answer place h = elim (Bool-cases (equal e.tv key)) [
  | inl t ↦
      let is : some q ≡ answer = ground (arith, h, t) in
      subst (IsMatch s key equal_to) is (p, e, place, t)
  | inr t ↦
      let is : none ≡ answer = ground (arith, h, t) in
      subst (IsMatch s key equal_to) is (p, q, e, place, t)
]
match_at-IsMatch s key greater_than p q e answer place h = elim (ℕ_discrete q tq_nil) [
  | yes nil ↦
      let is : none ≡ answer = ground (arith, h, nil) in
      subst (IsMatch s key greater_than) is (p, q, e, place, inl nil)
  | no more ↦ elim (Bool-cases (equal e.tv key)) [
    | inr t ↦
        let is : some q ≡ answer = ground (arith, h, more, t) in
        subst (IsMatch s key greater_than) is (more, (p, q, e, place, inl (refl, t)))
    | inl t ↦ elim (Run-cases (link_of node s.queue.tqep s.blocks.fblks 0 q)) [
      | inr (x, o) ↦ ground (arith, h, more, t, o)
      | inl (r, o) ↦ elim (ℕ_discrete r tq_nil) [
        | yes nil ↦
            let is : none ≡ answer = ground (arith, h, more, t, o, nil) in
            subst (IsMatch s key greater_than) is
              (p, q, e, place, inr (t, subst (λ x. IsBehind s q x) nil o))
        | no further ↦
            let is : some r ≡ answer = ground (arith, h, more, t, o, further) in
            subst (IsMatch s key greater_than) is (further, (p, q, e, place, inr (more, t, o)))
      ]
    ]
  ]
]

find_place-IsMatch :
    (s : Times) (key : Timestamp) (mt : Match) (answer : Option ℕ)
    → find_place s key mt ≡ ok answer
    → IsMatch s key mt answer
unfolding find_place
find_place-IsMatch s key mt answer h =
    let rp : List TimeQueueElement = s.queue.tqep in
    elim (Run-cases (search node rp s.blocks.fblks (before key) s.queue.level tq_head)) [
      | inr (x, o) ↦ ground (arith, h, o)
      | inl ((q, places), o) ↦
          let (count, all, (p, lowest, (start, behind, (e, w, late)))) =
            search-IsFound node rp s.blocks.fblks (before key) s.queue.level tq_head (q, places)
              o in
          match_at-IsMatch s key mt p q e answer (start, behind, w, late)
            (ground (arith, h, o, lowest, w))
    ]

-- What Find answers, where it returns: none for a queue without elements, and otherwise by the
-- match. LessThan: an element that is earlier than the key and followed by one that is not, or none
-- if the first one is not. Equal: an element of that time, or none if the place of the key is
-- before a later one. GreaterThan: the first that is not earlier, or the one behind it if it has
-- the time of the key, or none if that is the end.
pub find-IsMatch :
    (s : Times) (key : Timestamp) (mt : Match) (answer : Option ℕ)
    → find s key mt ≡ ok answer
    → ((used s.queue ≡ 0) × (answer ≡ none)) ⊎ IsMatch s key mt answer
unfolding find
find-IsMatch s key mt answer h = elim (ℕ_discrete (used s.queue) 0) [
  | yes empty ↦ inl (empty, ground (arith, h, empty))
  | no more ↦ inr (find_place-IsMatch s key mt answer (ground (arith, h, more)))
]

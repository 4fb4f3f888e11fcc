-- ===== src/Storage/TimeQueue/Places.antt =====
-- storage/pq/TimeQueue.cpp: the search of Add finds a time that no element has, and its place.
use rdm.Prelude.{
  ℕ, zero, suc, ◌+◌, ◌-◌, ◌≡◌, refl, sym, subst, ◌⊎◌, inl, inr, Bool-cases, Option-cases, true,
  false, List, [], ◌∷◌, some, get_elem?, arith, length, ltb, ℕ_discrete,
}
use rdm.Prelude.Int.{◌+ℤ◌}
use rdm.Prelude.Run.{Run-cases, ok}
use rdm.Core.Timestamp.{Timestamp, less, equal, increment_microsecond}
use rdm.Core.Timestamp.Order.{less_trans}
use rdm.Storage.SkipList.{link_of, walk}
use rdm.Storage.SkipList.Separates.{walk-IsPlace}
use rdm.Storage.TimeQueue.{Times, TimeQueueElement, node, place, before, last_of}

-- The element is the head of the queue or earlier than the time.
abbrev pub IsEarlier : Times → Timestamp → ℕ → ℕ → Type 0
IsEarlier s t head p =
    (p ≡ head)
    ⊎ ((e : TimeQueueElement) × (get_elem? s.queue.tqep p ≡ some e) × (less e.tv t ≡ true))

-- The element is the head or earlier than the time, and the one behind it on the level is later.
abbrev pub IsGap : Times → Timestamp → ℕ → ℕ → ℕ → Type 0
IsGap s t head k p =
    IsEarlier s t head p
    × ((q : ℕ) × (e : TimeQueueElement) × (link_of node s.queue.tqep s.blocks.fblks k p ≡ ok q)
        × (get_elem? s.queue.tqep q ≡ some e)
        × (less e.tv t ≡ false)
        × (equal e.tv t ≡ false))

abbrev pub AreGaps : Times → Timestamp → ℕ → ℕ → List ℕ → Type 0
AreGaps s t head k [] = Unit
AreGaps s t head k (p ∷ ps) = IsGap s t head k p × AreGaps s t head (suc k) ps

-- The time after some microseconds.
abbrev pub after : ℕ → Timestamp → Timestamp
after zero t = t
after (suc n) t = after n (increment_microsecond t)

less-increment : (t : Timestamp) → less t (increment_microsecond t) ≡ true
unfolding less increment_microsecond ◌+ℤ◌
less-increment t = ground arith

IsEarlier-increment :
    (s : Times) (t : Timestamp) (head p : ℕ)
    → IsEarlier s t head p
    → IsEarlier s (increment_microsecond t) head p
IsEarlier-increment s t head p (inl h) = inl h
IsEarlier-increment s t head p (inr (e, w, l)) =
    inr (e, w, less_trans e.tv t (increment_microsecond t) l (less-increment t))

last_of-IsEarlier :
    (s : Times) (t : Timestamp) (head k p : ℕ) (ps : List ℕ)
    → IsEarlier s t head p
    → AreGaps s t head k ps
    → IsEarlier s t head (last_of p ps)
last_of-IsEarlier s t head k p [] h gaps = h
last_of-IsEarlier s t head k p (q ∷ qs) h (gap, gaps) =
    last_of-IsEarlier s t head (suc k) q qs gap.0 gaps

-- What the search leaves for a time.
abbrev pub IsPlaced : Times → ℕ → Timestamp → Timestamp × List ℕ → Type 0
IsPlaced s head t r =
    ((n : ℕ) × (r.0 ≡ after n t)) × (length r.1 ≡ suc s.queue.level) × AreGaps s r.0 head 0 r.1

IsPlaced-later :
    (s : Times) (head : ℕ) (t : Timestamp) (r : Timestamp × List ℕ)
    → IsPlaced s head (increment_microsecond t) r
    → IsPlaced s head t r
IsPlaced-later s head t r ((n, e), count, gaps) = ((suc n, e), count, gaps)

place-IsPlaced :
    (f : ℕ) (s : Times) (head k p : ℕ) (t : Timestamp) (update : List ℕ) (r : Timestamp × List ℕ)
    → IsEarlier s t head p
    → k + length update ≡ s.queue.level
    → AreGaps s t head (suc k) update
    → place s f k p t update ≡ ok r
    → IsPlaced s head t r
unfolding place
place-IsPlaced zero s head k p t update r start count gaps h = ground (arith, h)
place-IsPlaced (suc f) s head k p t update r start count gaps h =
    let rp : List TimeQueueElement = s.queue.tqep in
    elim (Run-cases (walk node rp s.blocks.fblks (before t) (suc (length rp)) k p)) [
      | inr (x, o) ↦ ground (arith, h, o)
      | inl ((last, q), o) ↦ elim (Option-cases (get_elem? rp q)) [
        | inl w ↦ ground (arith, h, o, w)
        | inr (e, w) ↦
            let (first, linked, (d, v, late)) =
              walk-IsPlace node rp s.blocks.fblks (before t) (suc (length rp)) k head p last q start
                o in
            let same : d ≡ e = ground (arith, v, w) in
            let after_t : less e.tv t ≡ false = subst (λ x. less x.tv t ≡ false) same late in
            elim (Bool-cases (equal e.tv t)) [
              | inl taken ↦ elim (Bool-cases (ltb k s.queue.level)) [
                | inl low ↦ IsPlaced-later s head t r (
                    place-IsPlaced f s head s.queue.level (last_of p update)
                      (increment_microsecond t) [] r
                      (IsEarlier-increment s t head (last_of p update)
                        (last_of-IsEarlier s t head (suc k) p update start gaps))
                      (omega arith) tt (ground (arith, h, o, w, taken, low)))
                | inr high ↦
                    let none_left : update ≡ [] = ground (arith, high, count) in
                    IsPlaced-later s head t r (
                      place-IsPlaced f s head k last (increment_microsecond t) update r
                        (IsEarlier-increment s t head last first) count
                        (subst (AreGaps s (increment_microsecond t) head (suc k)) (sym none_left)
                          tt)
                        (ground (arith, h, o, w, taken, high)))
              ]
              | inr free ↦
                  let gap : IsGap s t head k last = (first, (q, e, linked, w, after_t, free)) in
                  elim (ℕ_discrete k 0) [
                    | yes lowest ↦
                        let done : (t, last ∷ update) ≡ r = ground (arith, h, o, w, free, lowest) in
                        subst (IsPlaced s head t) done (
                          (0, refl),
                          omega (arith, count, lowest),
                          subst (λ x. AreGaps s t head x (last ∷ update)) lowest (gap, gaps),
                        )
                    | no above ↦
                        let level : k ≡ suc (k - 1) = omega (arith, above) in
                        place-IsPlaced f s head (k - 1) last t (last ∷ update) r first
                          (omega (arith, count, above))
                          (subst (λ x. AreGaps s t head x (last ∷ update)) level (gap, gaps))
                          (ground (arith, h, o, w, free, above))
                  ]
            ]
      ]
    ]

-- Where the search of Add returns a time: it is the time of day after some microseconds, there is
-- an element for each level of the queue, which is the head or earlier than that time, and the one
-- that is linked behind it on the level is later and not of the same time.
pub add-IsPlaced :
    (f : ℕ) (s : Times) (head : ℕ) (now : Timestamp) (r : Timestamp × List ℕ)
    → place s f s.queue.level head now [] ≡ ok r
    → IsPlaced s head now r
add-IsPlaced f s head now r h =
    place-IsPlaced f s head s.queue.level head now [] r (inl refl) (omega arith) tt h

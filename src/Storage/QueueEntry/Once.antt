-- ===== src/Storage/QueueEntry/Once.antt =====
-- storage/pq/QueueEntry.cpp: the region of a lease goes to one callback at most, wherever the lease
-- is moved.
use rdm.Prelude.{
  ℕ, zero, suc, ◌+◌, ◌≡◌, ◌≢◌, refl, ◌∙◌, subst, ◌⊎◌, inl, inr, Option-cases, List, [], ◌∷◌, none,
  some, arith, get_elem?, set, ◌==◌, Bool-cases, if◌then◌else◌, false, get_elem?-set_ne,
}
use rdm.Storage.QueueEntry.{
  Callback, QueueEntry, new_entry, commit, commit_with, rollback, rollback_with, move, assign,
}

-- `calls` counts how often a callback ran.
module _ (World Region Index : Type 0) (calls : World → ℕ)
    (on_commit on_rollback : Callback World Region Index)
    (commit_counts : (w : World) (i : Index) (r : Region) → calls (on_commit w i r).1 ≡ calls w + 1)
    (rollback_counts : (w : World) (i : Index) (r : Region)
      → calls (on_rollback w i r).1 ≡ calls w + 1) where
  abbrev Entry : Type 0
  Entry = QueueEntry World Region Index

  -- A call on the entry of a number; the destructor does what `rollback` does. A move makes a new
  -- entry from one, and an assignment moves the second one into the first.
  pub data Call : Type 0 where
    to_commit to_rollback to_move : ℕ → Call
    to_assign : ℕ → ℕ → Call

  -- All entries that there are, and the world.
  abbrev pub State : Type 0
  State = List Entry × World

  unfoldable pub call_commit : ℕ → State → State
  unfolding commit
  call_commit i (es, w) = elim (get_elem? es i) [
    | none ↦ (es, w)
    | some e ↦ let r = commit World Region Index e w in (set es i r.1, r.2)
  ]

  unfoldable pub call_rollback : ℕ → State → State
  unfolding rollback
  call_rollback i (es, w) = elim (get_elem? es i) [
    | none ↦ (es, w)
    | some e ↦ let r = rollback World Region Index e w in (set es i r.1, r.2)
  ]

  unfoldable pub call_move : ℕ → State → State
  unfolding move
  call_move i (es, w) = elim (get_elem? es i) [
    | none ↦ (es, w)
    | some e ↦ let r = move World Region Index e in (r.0 ∷ set es i r.1, w)
  ]

  -- An assignment of an entry to itself does nothing.
  unfoldable pub call_assign : ℕ → ℕ → State → State
  unfolding assign
  call_assign i j (es, w) = elim (get_elem? es i) [
    | none ↦ (es, w)
    | some e ↦ elim (get_elem? es j) [
      | none ↦ (es, w)
      | some other ↦
          let r = assign World Region Index e other w in
          if i == j then (es, w) else (set (set es i r.0) j r.1, r.2)
    ]
  ]

  unfoldable pub run : List Call → State → State
  unfolding call_commit call_rollback call_move call_assign
  run [] s = s
  run (to_commit i ∷ cs) s = run cs (call_commit i s)
  run (to_rollback i ∷ cs) s = run cs (call_rollback i s)
  run (to_move i ∷ cs) s = run cs (call_move i s)
  run (to_assign i j ∷ cs) s = run cs (call_assign i j s)

  -- One for a region that the entry has.
  abbrev pub owed : Entry → ℕ
  owed e = elim e.region [ none ↦ 0 | some r ↦ 1 ]

  unfoldable pub owed_all : List Entry → ℕ
  owed_all [] = 0
  owed_all (e ∷ es) = owed e + owed_all es

  -- An entry with a region has its two callbacks and is not committed.
  abbrev IsOurs : Entry → Type 0
  IsOurs e =
      (e.region ≡ none)
      ⊎ ((e.commit_cb ≡ some on_commit)
          × (e.rollback_cb ≡ some on_rollback)
          × (e.is_committed ≡ false))

  abbrev AllOurs : List Entry → Type 0
  AllOurs es = (i : ℕ) (e : Entry) → get_elem? es i ≡ some e → IsOurs e

  module _ (e : Entry) (w : World) (ours : IsOurs e) where
    commit-owed :
        (calls (commit World Region Index e w).2 + owed (commit World Region Index e w).1
          ≡ calls w + owed e)
        × IsOurs (commit World Region Index e w).1
    unfolding commit commit_with
    commit-owed = elim (Option-cases e.region) [
      | inl o ↦ ground (arith, o)
      | inr (r, o) ↦ ground (arith, ours, o, commit_counts w e.index r)
    ]

    -- After a rollback the entry has no region.
    rollback-owed :
        (calls (rollback World Region Index e w).2 ≡ calls w + owed e)
        × ((rollback World Region Index e w).1.region ≡ none)
    unfolding rollback rollback_with
    rollback-owed = elim (Option-cases e.region) [
      | inl o ↦ ground (arith, o)
      | inr (r, o) ↦ ground (arith, ours, o, rollback_counts w e.index r)
    ]

  owed_all-set :
      (es : List Entry) (i : ℕ) (e d : Entry)
      → get_elem? es i ≡ some e
      → owed_all (set es i d) + owed e ≡ owed_all es + owed d
  unfolding owed_all
  owed_all-set [] i e d h = ground (arith, h)
  owed_all-set (x ∷ xs) zero e d h =
      let same : x ≡ e = ground (arith, h) in
      subst (λ y. owed d + owed_all xs + owed y ≡ owed x + owed_all xs + owed d) same (omega arith)
  owed_all-set (x ∷ xs) (suc i) e d h = omega (arith, owed_all-set xs i e d h)

  AllOurs-set : (es : List Entry) (i : ℕ) (d : Entry) → AllOurs es → IsOurs d → AllOurs (set es i d)
  AllOurs-set [] i d all o j e h = ground (arith, h)
  AllOurs-set (x ∷ xs) zero d all o zero e h =
      let same : d ≡ e = ground (arith, h) in subst IsOurs same o
  AllOurs-set (x ∷ xs) zero d all o (suc j) e h = all (suc j) e h
  AllOurs-set (x ∷ xs) (suc i) d all o zero e h = all zero e h
  AllOurs-set (x ∷ xs) (suc i) d all o (suc j) e h =
      AllOurs-set xs i d (λ k c. all (suc k) c) o j e h

  AllOurs-cons : (d : Entry) (es : List Entry) → IsOurs d → AllOurs es → AllOurs (d ∷ es)
  AllOurs-cons d es o all zero e h = let same : d ≡ e = ground (arith, h) in subst IsOurs same o
  AllOurs-cons d es o all (suc i) e h = all i e h

  -- The calls made and the regions still held: none is lost and none is doubled.
  abbrev IsKept : State → State → Type 0
  IsKept s t = AllOurs t.0 × (calls t.1 + owed_all t.0 ≡ calls s.1 + owed_all s.0)

  module _ (es : List Entry) (w : World) (all : AllOurs es) where
    call_commit-IsKept : (i : ℕ) → IsKept (es, w) (call_commit i (es, w))
    unfolding call_commit
    call_commit-IsKept i = elim (Option-cases (get_elem? es i)) [
      | inl a ↦ rw (a, call_commit) (all, refl)
      | inr (e, a) ↦
          let (counts, ours) = commit-owed e w (all i e a) in
          let d = (commit World Region Index e w).1 in
          let total = owed_all-set es i e d a in
          rw (a, call_commit) (AllOurs-set es i d all ours, omega (arith, counts, total))
    ]

    call_rollback-IsKept : (i : ℕ) → IsKept (es, w) (call_rollback i (es, w))
    unfolding call_rollback
    call_rollback-IsKept i = elim (Option-cases (get_elem? es i)) [
      | inl a ↦ rw (a, call_rollback) (all, refl)
      | inr (e, a) ↦
          let (counts, gone) = rollback-owed e w (all i e a) in
          let d = (rollback World Region Index e w).1 in
          let total = owed_all-set es i e d a in
          let nothing : owed d ≡ 0 = ground (arith, gone) in
          rw (a, call_rollback)
            (AllOurs-set es i d all (inl gone), omega (arith, counts, total, nothing))
    ]

    call_move-IsKept : (i : ℕ) → IsKept (es, w) (call_move i (es, w))
    unfolding call_move move owed_all
    call_move-IsKept i = elim (Option-cases (get_elem? es i)) [
      | inl a ↦ rw (a, call_move) (all, refl)
      | inr (e, a) ↦
          let d = (move World Region Index e).1 in
          let total = owed_all-set es i e d a in
          rw (a, call_move)
            (
              AllOurs-cons e (set es i d) (all i e a) (AllOurs-set es i d all (inl refl)),
              omega (arith, total),
            )
    ]

    call_assign-IsKept : (i j : ℕ) → IsKept (es, w) (call_assign i j (es, w))
    unfolding call_assign assign move
    call_assign-IsKept i j = elim (Option-cases (get_elem? es i)) [
      | inl a ↦ rw (a, call_assign) (all, refl)
      | inr (e, a) ↦ elim (Option-cases (get_elem? es j)) [
        | inl b ↦ rw (a, b, call_assign) (all, refl)
        | inr (other, b) ↦ elim (Bool-cases (i == j)) [
          | inl s ↦ rw (a, b, s, call_assign) (all, refl)
          | inr s ↦
              let (counts, gone) = rollback-owed e w (all i e a) in
              let apart : i ≢ j = λ x. ground (arith, s, x) in
              let there : get_elem? (set es i other) j ≡ some other =
                get_elem?-set_ne es other apart ∙ b in
              let left = (move World Region Index other).1 in
              let first = owed_all-set es i e other a in
              let second = owed_all-set (set es i other) j other left there in
              rw (a, b, s, call_assign)
                (
                  AllOurs-set (set es i other) j left (AllOurs-set es i other all (all j other b))
                      (inl refl),
                  omega (arith, counts, first, second),
                )
        ]
      ]
    ]

  run-IsKept : (cs : List Call) (s : State) → AllOurs s.0 → IsKept s (run cs s)
  unfolding run
  run-IsKept [] s all = (all, refl)
  run-IsKept (to_commit i ∷ cs) s all =
      let (ours, one) = call_commit-IsKept s.0 s.1 all i in
      let (end, rest) = run-IsKept cs (call_commit i s) ours in (end, rest ∙ one)
  run-IsKept (to_rollback i ∷ cs) s all =
      let (ours, one) = call_rollback-IsKept s.0 s.1 all i in
      let (end, rest) = run-IsKept cs (call_rollback i s) ours in (end, rest ∙ one)
  run-IsKept (to_move i ∷ cs) s all =
      let (ours, one) = call_move-IsKept s.0 s.1 all i in
      let (end, rest) = run-IsKept cs (call_move i s) ours in (end, rest ∙ one)
  run-IsKept (to_assign i j ∷ cs) s all =
      let (ours, one) = call_assign-IsKept s.0 s.1 all i j in
      let (end, rest) = run-IsKept cs (call_assign i j s) ours in (end, rest ∙ one)

  -- Whatever calls of commit and rollback, moves and move assignments are made on a new entry and
  -- on all those that it is moved to, in whatever order and whatever the callbacks answer: either
  -- exactly one of all these entries has the region and no callback ran, or none of them has it and
  -- exactly one callback ran, once.
  pub run-once :
      (cs : List Call) (region : Region) (index : Index) (w : World)
      → calls (run cs (new_entry World Region Index region index on_commit on_rollback ∷ [], w)).1
          + owed_all
              (run cs (new_entry World Region Index region index on_commit on_rollback ∷ [], w)).0
        ≡ calls w + 1
  unfolding owed_all
  run-once cs region index w =
      let e = new_entry World Region Index region index on_commit on_rollback in
      (run-IsKept cs (e ∷ [], w)
        (AllOurs-cons e [] (inr (refl, refl, refl)) (λ i x h. ground (arith, h)))).1

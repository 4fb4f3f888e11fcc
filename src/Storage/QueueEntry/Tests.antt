-- ===== src/Storage/QueueEntry/Tests.antt =====
-- A lease whose commit fails: the region is gone, and rollback finds nothing to give back.
use rdm.Prelude.{ℕ, ◌+◌, ◌≡◌, refl, List, [], ◌∷◌, none}
use rdm.Storage.QueueEntry.{Callback, QueueEntry, new_entry, commit, rollback}
use rdm.Storage.QueueEntry.Once.{
  Call, to_commit, to_rollback, to_move, to_assign, State, run, owed_all, run-once,
}

-- The world counts the callbacks; regions and indexes are numbers.
abbrev fails : Callback ℕ ℕ ℕ
fails w index region = (12, w + 1)

abbrev succeeds : Callback ℕ ℕ ℕ
succeeds w index region = (0, w + 1)

abbrev count : ℕ → ℕ
count w = w

abbrev leased : QueueEntry ℕ ℕ ℕ
leased = new_entry ℕ ℕ ℕ 512 3 fails succeeds

abbrev lost : QueueEntry ℕ ℕ ℕ
lost = record leased { region = none }

commit_fails : commit ℕ ℕ ℕ leased 0 ≡ (12, lost, 1)
unfolding commit
commit_fails = refl

rollback_late : rollback ℕ ℕ ℕ lost 1 ≡ (0, lost, 1)
unfolding rollback
rollback_late = refl

abbrev calls : List (Call ℕ ℕ ℕ count fails succeeds (λ w i r. refl) (λ w i r. refl))
calls = to_move 0 ∷ to_assign 1 0 ∷ to_commit 1 ∷ to_rollback 1 ∷ to_rollback 0 ∷ []

abbrev end : State ℕ ℕ ℕ count fails succeeds (λ w i r. refl) (λ w i r. refl)
end = run ℕ ℕ ℕ count fails succeeds (λ w i r. refl) (λ w i r. refl) calls (leased ∷ [], 0)

-- The lease goes to a second entry and back, and its commit is the one callback.
one_call : count end.1 ≡ 1
unfolding run commit rollback
one_call = refl

run-once_example :
    count end.1 + owed_all ℕ ℕ ℕ count fails succeeds (λ w i r. refl) (λ w i r. refl) end.0 ≡ 0 + 1
run-once_example = run-once ℕ ℕ ℕ count fails succeeds (λ w i r. refl) (λ w i r. refl) calls 512 3 0

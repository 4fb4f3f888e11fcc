-- ===== src/Core/Uldb/Tests.antt =====
-- The table of upstream processes on concrete input; addresses are numbers.
use rdm.Prelude.{ℕ, ◌≡◌, refl, ◌⊎◌, Bool, true, false, not, ◌||◌, [], ◌∷◌, some, ◌==◌, arith}
use rdm.Prelude.Int.{ℤ, pos, eqb_ℤ}
use rdm.Prelude.Text.{bytes}
use rdm.Core.ProdClass.{ProdClass}
use rdm.Core.Uldb.{success, exist, ShmEntry, Table, create, add_process, remove, active, new_entry}
use rdm.Core.Uldb.Counted.{IsCounted, count, add_process-IsCounted}
use rdm.Core.Uldb.Registered.{IsInsertion, lacks, searched, add_process-registers, remove-deletes}

abbrev same : ℕ → ℕ → Bool
same a b = a == b

abbrev wants : ProdClass
wants = record {
  from_sec = pos 0;
  from_usec = pos 0;
  to_sec = pos 1000;
  to_usec = pos 0;
  specs = record { feedtype = 15; pattern = bytes ".*" } ∷ [];
}

abbrev entry_of : ℤ → ShmEntry same
entry_of pid = new_entry same pid (pos 6) 77 wants (pos 0) (pos 1)

abbrev blank : ShmEntry same
blank = record {
  is_active = false;
  pid = pos 0;
  proto_vers = pos 0;
  is_notifier = pos 0;
  is_primary = pos 0;
  sock_addr = 0;
  prod_class = wants;
}

abbrev empty_table : Table same
empty_table = record { max_entries = 2; active_entries = 0; entries = blank ∷ blank ∷ [] }

abbrev one_process : Table same
one_process = record {
  max_entries = 2;
  active_entries = 1;
  entries = entry_of (pos 100) ∷ blank ∷ [];
}

abbrev replaced : Table same
replaced = record { max_entries = 2; active_entries = 1; entries = entry_of (pos 200) ∷ blank ∷ [] }

created : create same 60000 30000 blank ≡ empty_table
unfolding create
created = refl

-- The same client connects again: the older process is ended.
add_again :
    add_process same true true (some one_process) (pos 200) (pos 6) 77 wants (pos 0) (pos 1)
    ≡ (success, some replaced)
unfolding add_process
add_again = refl

one_process-IsCounted : IsCounted same one_process
unfolding count
one_process-IsCounted = (refl, refl, omega arith)

add_process-IsCounted_example : IsCounted same replaced
add_process-IsCounted_example =
    add_process-IsCounted same true true one_process replaced (pos 200) (pos 6) 77 wants (pos 0)
      (pos 1) success one_process-IsCounted add_again

add_process-registers_example :
    IsInsertion same
      (new_entry same (pos 200) (pos 6) 77 wants (pos 0) (pos 1))
      (active same (searched same true one_process (pos 200) (pos 6) 77 (pos 0)))
      (active same replaced.entries)
    × ((not true
          || lacks same
              (pos 200)
              (active same (searched same true one_process (pos 200) (pos 6) 77 (pos 0))))
        ≡ true)
add_process-registers_example =
    add_process-registers same true true one_process replaced (pos 200) (pos 6) 77 wants (pos 0)
      (pos 1) refl add_again

abbrev after_removal : Table same
after_removal = record {
  max_entries = 2;
  active_entries = 0;
  entries = record (entry_of (pos 100)) { is_active = false } ∷ blank ∷ [];
}

removed : remove same true (some one_process) (pos 100) ≡ (success, some after_removal)
unfolding remove
removed = refl

remove-deletes_example :
    ((success ≡ success)
      × ((e : ShmEntry same) × (eqb_ℤ e.pid (pos 100) ≡ true)
          × IsInsertion same e
              (active same after_removal.entries)
              (active same one_process.entries)))
    ⊎ ((success ≡ exist)
        × (after_removal ≡ one_process)
        × (lacks same (pos 100) (active same one_process.entries) ≡ true))
remove-deletes_example =
    remove-deletes same one_process after_removal (pos 100) success refl removed

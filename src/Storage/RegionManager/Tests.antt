-- ===== src/Storage/RegionManager/Tests.antt =====
-- The regions of a process on concrete input.
use rdm.Prelude.{ℕ, ◌+◌, ◌≡◌, refl, List, [], ◌∷◌, Option, true, length, arith}
use rdm.Prelude.Int.{ℤ, pos}
use rdm.Prelude.Errno.{eio, eagain}
use rdm.Storage.RegionManager.{
  ActiveRegion, RegionManager, MappedRegion, Call, lock, fetch, Answers, get_region, release_region,
  f_is_set,
}
use rdm.Storage.RegionManager.Tracked.{
  Event, get, release, run, IsSorted, grants, unlocks, run-balanced,
}

abbrev manager : RegionManager
manager = record { pflags = 0; active_regions = [] }

abbrev answers : ℕ → ℕ → Answers
answers lock_status fetch_status = record {
  lock_status = lock_status;
  fetch_status = fetch_status;
  pointer = 7000;
}

-- Two regions for writing, a third one that fails to map, and the first one is released.
abbrev calls : List Event
calls =
    get (pos 4096) 100 4 (answers 0 0)
    ∷ get (pos 512) 64 4 (answers 0 0)
    ∷ get (pos 9000) 64 4 (answers 0 eio)
    ∷ release (pos 4096) 100 4
    ∷ []

abbrev offsets : List ActiveRegion → List ℤ
offsets [] = []
offsets (r ∷ rs) = r.offset ∷ offsets rs

tracked : offsets (run manager calls).0.active_regions ≡ pos 512 ∷ []
unfolding get_region release_region f_is_set
tracked = refl

run-balanced_example :
    IsSorted (run manager calls).0.active_regions
    × (grants (run manager calls).1
        ≡ unlocks (run manager calls).1 + length (run manager calls).0.active_regions)
unfolding get_region f_is_set
run-balanced_example = run-balanced 0 calls (
  (refl, (λ e. absurd (omega arith)), (λ e. absurd (omega arith))),
  (
    (refl, (λ e. absurd (omega arith)), (λ e. absurd (omega arith))),
    ((refl, (λ e. absurd (omega arith)), (λ e. absurd (omega arith))), (refl, tt)),
  ),
)

abbrev outcome : Option MappedRegion × RegionManager × List Call → List ℤ × List Call
outcome r = (offsets r.1.active_regions, r.2)

-- A lock that someone else holds is not granted, and the region is handed out all the same.
mapped_without_lock :
    outcome (get_region manager (pos 4096) 100 4 (answers eagain 0))
    ≡ (pos 4096 ∷ [], lock true true (pos 4096) 100 eagain ∷ fetch (pos 4096) 100 4 0 ∷ [])
unfolding get_region f_is_set
mapped_without_lock = refl

-- ===== src/Storage/QueueEntry.antt =====
-- storage/pq/QueueEntry.h and .cpp: the lease of a region between its reservation and its commit or
-- rollback. The payload pointer, which callers set and read back, is left out.
pub mod Once
mod Tests
use rdm.Prelude.{ℕ, Bool, true, false, Option, none, some, ◌==◌, if◌then◌else◌}

abbrev pub einval : ℕ
einval = 22

-- The state that the callbacks change, the regions and the indexes.
module _ (World Region Index : Type 0) where
  -- A callback takes the region over; it answers with a status.
  abbrev pub Callback : Type 0
  Callback = World → Index → Region → ℕ × World

  -- `none` stands for a null pointer, and for an empty `std::function`.
  pub record QueueEntry : Type 0 where
    pub region : Option Region
    pub index : Index
    pub is_committed : Bool
    pub commit_cb : Option Callback
    pub rollback_cb : Option Callback

  abbrev pub new_entry : Region → Index → Callback → Callback → QueueEntry
  new_entry region index on_commit on_rollback = record {
    region = some region;
    index = index;
    is_committed = false;
    commit_cb = some on_commit;
    rollback_cb = some on_rollback;
  }

  -- The status, the entry and the world after the call.
  abbrev pub Outcome : Type 0
  Outcome = ℕ × QueueEntry × World

  -- `std::move(region_)` leaves the pointer null, whatever the callback answers.
  unfoldable pub commit_with : Callback → Region → QueueEntry → World → Outcome
  commit_with cb region e w =
      let answer = cb w e.index region in
      (answer.0, record e { region = none; is_committed = answer.0 == 0 }, answer.1)

  unfoldable pub commit : QueueEntry → World → Outcome
  unfolding commit_with
  commit e w =
      let called : Outcome = elim e.commit_cb [
        | none ↦ (einval, e, w)
        | some cb ↦ elim e.region [
          | none ↦ (einval, e, w)
          | some region ↦ commit_with cb region e w
        ]
      ] in
      if e.is_committed then (0, e, w) else called

  unfoldable pub rollback_with : Callback → Region → QueueEntry → World → Outcome
  rollback_with cb region e w =
      let answer = cb w e.index region in
      let moved : QueueEntry = record e { region = none } in
      (
        answer.0,
        if answer.0 == 0 then record moved { commit_cb = none; rollback_cb = none } else moved,
        answer.1,
      )

  unfoldable pub rollback : QueueEntry → World → Outcome
  unfolding rollback_with
  rollback e w =
      let called : Outcome = elim e.rollback_cb [
        | none ↦ (0, e, w)
        | some cb ↦ elim e.region [ none ↦ (0, e, w) | some region ↦ rollback_with cb region e w ]
      ] in
      if e.is_committed then (0, e, w) else called

  -- The move constructor: the new entry, and what is left of the other one.
  unfoldable pub move : QueueEntry → QueueEntry × QueueEntry
  move other = (
    other,
    record other { region = none; is_committed = false; commit_cb = none; rollback_cb = none },
  )

  -- The move assignment between two entries: the old lease is rolled back first.
  unfoldable pub assign : QueueEntry → QueueEntry → World → QueueEntry × QueueEntry × World
  unfolding rollback move
  assign e other w = let rolled = rollback e w in ((move other).0, (move other).1, rolled.2)

  unfoldable pub is_valid : QueueEntry → Bool
  is_valid e = elim e.region [ none ↦ false | some region ↦ true ]

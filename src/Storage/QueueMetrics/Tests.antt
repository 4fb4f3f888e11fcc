-- ===== src/Storage/QueueMetrics/Tests.antt =====
-- The metrics on concrete input.
use rdm.Prelude.{ℕ, ◌≤◌, ◌≡◌, refl, some, List, [], ◌∷◌}
use rdm.Prelude.Int.{pos, ◌+ℤ◌, ◌-ℤ◌, ◌≤ℤ◌}
use rdm.Core.Timestamp.{Timestamp, none_time, less, greater, equal, minus}
use rdm.Storage.Control.{Pqctl, initialize_control_header}
use rdm.Storage.RegionList.{RegionList}
use rdm.Storage.QueueMetrics.{Metrics, get_mvrt, track_mvrt, mark_most_recent}
use rdm.Storage.QueueMetrics.Marks.{
  Event, allocation, residence, most_recent, run, high, products, IsBounded, IsRise, marks-bound,
}

abbrev regions : RegionList
regions = record {
  nalloc = 9;
  nchains = 2;
  empty = 4;
  nelems = 3;
  maxelems = 3;
  nfree = 1;
  maxfree = 1;
  maxfextent = 100;
  nempty = 5;
  minempty = 5;
  nbytes = 200;
  maxbytes = 250;
  level_foff = 0;
  foff = 0;
  level_fext = 0;
  fext = 2;
  rp = [];
  magic = 0;
  chains = [];
}

abbrev control : Pqctl
control = initialize_control_header (pos 4096) (pos 100000) 5000 9 8

abbrev metrics : Metrics
metrics = record { control = some control; regions = some regions }

abbrev at_second : ℕ → Timestamp
at_second n = record { tv_sec = pos n; tv_usec = pos 0 }

abbrev later : List Event
later = residence (at_second 100) (at_second 90) (at_second 95) ∷ most_recent (at_second 101) ∷ []

-- A product of 10 seconds, in a queue of 200 bytes and 3 products.
stay : get_mvrt (run metrics later) (none_time, pos 0, 0) ≡ (at_second 10, pos 200, 3)
unfolding initialize_control_header get_mvrt track_mvrt mark_most_recent ◌-ℤ◌ less greater equal
    minus
stay = refl

marks-bound_example :
    let n = run metrics (allocation (pos 5000) 64 ∷ later) in
    ((pos 5000 +ℤ pos 64) -ℤ pos 4096 ≤ℤ high n) × (3 ≤ products n) × IsBounded n × IsRise metrics n
unfolding initialize_control_header
marks-bound_example = marks-bound later metrics (pos 5000) 64 control regions refl refl

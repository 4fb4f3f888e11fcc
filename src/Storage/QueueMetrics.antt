-- ===== src/Storage/QueueMetrics.antt =====
-- storage/pq/QueueMetrics.h: the high-water marks of the queue and the shortest time that a product
-- has stayed in it. The pointers of the index manager are options; the time of day is an argument.
pub mod Marks
mod Tests
use rdm.Prelude.{
  ℕ, ◌+◌, ◌%◌, ◌^◌, Bool, true, false, ◌||◌, Option, none, some, ltb, ◌==◌, if◌then◌else◌,
}
use rdm.Prelude.Int.{ℤ, pos, negsuc, ◌+ℤ◌, ◌-ℤ◌, ltb_ℤ}
use rdm.Core.Timestamp.{Timestamp, none_time, less, greater, equal, minus}
use rdm.Storage.Control.{Pqctl, metrics_magic, metrics_magic_2}
use rdm.Storage.RegionList.{RegionList}

-- What `GetControl` and `GetRegionList` answer.
pub record Metrics : Type 0 where
  pub control : Option Pqctl
  pub regions : Option RegionList

abbrev pub size_max : ℕ → ℕ → ℕ
size_max old new = if ltb old new then new else old

abbrev pub mark_bytes : RegionList → ℕ → RegionList
mark_bytes rl extent =
    let nbytes = (rl.nbytes + extent) % 2 ^ 64 in
    record rl { nbytes = nbytes; maxbytes = size_max rl.maxbytes nbytes }

abbrev pub mark_control : Pqctl → RegionList → ℤ → ℕ → Pqctl
mark_control ctl rl offset extent =
    let highwater = (offset +ℤ pos extent) -ℤ ctl.datao in
    record ctl {
      highwater = if ltb_ℤ ctl.highwater highwater then highwater else ctl.highwater;
      maxproducts = size_max ctl.maxproducts rl.nelems;
    }

unfoldable pub track_allocation : Metrics → ℤ → ℕ → Metrics
track_allocation m offset extent = elim m.control [
  | none ↦ m
  | some ctl ↦ elim m.regions [
    | none ↦ m
    | some rl ↦ record {
      control = some (mark_control ctl rl offset extent);
      regions = some (mark_bytes rl extent);
    }
  ]
]

-- The earlier of the two times, as a product may be received before it is created.
abbrev pub start_of : Timestamp → Timestamp → Timestamp
start_of creation reception = if less reception creation then reception else creation

-- A shorter stay is recorded with the size and the number of products at that time.
unfoldable pub record_stay : Pqctl → RegionList → Timestamp → Pqctl
record_stay ctl rl virt_res_time =
    if equal ctl.min_virt_res_time none_time || less virt_res_time ctl.min_virt_res_time
    then record ctl {
      min_virt_res_time = virt_res_time;
      mvrt_size = pos rl.nbytes;
      mvrt_slots = rl.nelems;
    }
    else ctl

unfoldable pub track_mvrt : Metrics → Timestamp → Timestamp → Timestamp → Metrics
unfolding record_stay
track_mvrt m now creation reception = elim m.control [
  | none ↦ m
  | some ctl ↦ elim m.regions [
    | none ↦ m
    | some rl ↦
        let start = start_of creation reception in
        if greater now start
        then record m { control = some (record_stay ctl rl (minus now start)) }
        else m
  ]
]

unfoldable pub mark_most_recent : Metrics → Timestamp → Metrics
mark_most_recent m now = elim m.control [
  | none ↦ m
  | some ctl ↦ record m { control = some (record ctl { most_recent = now }) }
]

unfoldable pub clear_mvrt : Metrics → Metrics
clear_mvrt m = elim m.control [
  | none ↦ m
  | some ctl ↦ record m {
    control =
        some (record ctl { min_virt_res_time = none_time; mvrt_size = negsuc 0; mvrt_slots = 0 });
  }
]

-- The three out parameters, which keep their values without a control header.
unfoldable pub get_mvrt : Metrics → Timestamp × ℤ × ℕ → Timestamp × ℤ × ℕ
get_mvrt m out = elim m.control [
  | none ↦ out
  | some ctl ↦ (
    if ctl.metrics_check == metrics_magic then ctl.min_virt_res_time else none_time,
    if ctl.metrics_check_2 == metrics_magic_2 then ctl.mvrt_size else negsuc 0,
    if ctl.metrics_check_2 == metrics_magic_2 then ctl.mvrt_slots else 0,
  )
]

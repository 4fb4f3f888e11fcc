-- ===== src/Storage/RegionManager.antt =====
-- storage/pq/RegionManager.h and .cpp, MappedRegion.h: the regions of the file that a process has
-- mapped. A call of the kernel or of the mapper is recorded with its answer; the answers are
-- arguments.
pub mod Tracked
mod Tests
use rdm.Prelude.{
  ℕ, zero, suc, ◌+◌, Bool, true, false, not, ◌&&◌, ◌||◌, List, [], ◌∷◌, ◌++◌, Option, none, some,
  ◌==◌, bit_and, bit_or, if◌then◌else◌,
}
use rdm.Prelude.Int.{ℤ, ltb_ℤ, eqb_ℤ}
use rdm.Prelude.Errno.{eagain, eacces}

-- `RegionFlags`
abbrev pub no_lock : ℕ
no_lock = 0x1

abbrev pub no_wait : ℕ
no_wait = 0x2

abbrev pub write : ℕ
write = 0x4

abbrev pub modified : ℕ
modified = write

-- `PqFlags::NoLock`
abbrev pub queue_no_lock : ℕ
queue_no_lock = 0x04

unfoldable pub f_is_set : ℕ → ℕ → Bool
f_is_set t f = not (bit_and t f == 0)

abbrev pub f_set : ℕ → ℕ → ℕ
f_set t f = bit_or t f

pub record ActiveRegion : Type 0 where
  pub offset : ℤ
  pub extent : ℕ
  pub vp : ℕ
  pub rflags : ℕ

-- The file descriptor and the page size are those of the kernel and of the mapper.
pub record RegionManager : Type 0 where
  pub pflags : ℕ
  pub active_regions : List ActiveRegion

-- The manager of a mapped region is the one at hand, or none after a move.
pub record MappedRegion : Type 0 where
  pub is_managed : Bool
  pub offset : ℤ
  pub extent : ℕ
  pub rflags : ℕ
  pub ptr : Option ℕ

-- A lock is asked for with or without waiting, for writing or for reading.
pub data Call : Type 0 where
  lock : Bool → Bool → ℤ → ℕ → ℕ → Call
  unlock : ℤ → ℕ → Call
  fetch : ℤ → ℕ → ℕ → ℕ → Call
  commit : ℤ → ℕ → ℕ → Call

pub record Answers : Type 0 where
  pub lock_status : ℕ
  pub fetch_status : ℕ
  pub pointer : ℕ

unfoldable pub is_unlocked : RegionManager → ℕ → Bool
unfolding f_is_set
is_unlocked m rflags = f_is_set rflags no_lock || f_is_set m.pflags queue_no_lock

unfoldable pub lock_kernel_region : RegionManager → ℤ → ℕ → ℕ → ℕ → ℕ × List Call
unfolding is_unlocked
lock_kernel_region m offset extent rflags answer = if is_unlocked m rflags then (0, []) else (
  answer,
  lock (not (f_is_set rflags no_wait)) (f_is_set rflags write) offset extent answer ∷ [],
)

unfoldable pub unlock_kernel_region : RegionManager → ℤ → ℕ → ℕ → List Call
unfolding is_unlocked
unlock_kernel_region m offset extent rflags =
    if is_unlocked m rflags then [] else unlock offset extent ∷ []

-- `std::lower_bound`, as what lies before the place that it finds and what lies from it on.
unfoldable pub lower_bound : ℤ → List ActiveRegion → List ActiveRegion × List ActiveRegion
lower_bound offset [] = ([], [])
lower_bound offset (r ∷ rs) =
    let (low, high) = lower_bound offset rs in
    if ltb_ℤ r.offset offset then (r ∷ low, high) else ([], r ∷ rs)

-- The place is that of the offset itself.
abbrev pub is_at : ℤ → List ActiveRegion → Bool
is_at offset [] = false
is_at offset (r ∷ rs) = eqb_ℤ r.offset offset

-- The steps behind the check: lock, map and track.
unfoldable pub map_region :
    RegionManager
    → List ActiveRegion
    → List ActiveRegion
    → ℤ
    → ℕ
    → ℕ
    → Answers
    → Option MappedRegion × RegionManager × List Call
unfolding lock_kernel_region unlock_kernel_region
map_region m low high offset extent rflags a =
    let (status, locks) = lock_kernel_region m offset extent rflags a.lock_status in
    let fetched = locks ++ (fetch offset extent rflags a.fetch_status ∷ []) in
    let new : ActiveRegion = record {
      offset = offset;
      extent = extent;
      vp = a.pointer;
      rflags = rflags;
    } in
    let region : MappedRegion = record {
      is_managed = true;
      offset = offset;
      extent = extent;
      rflags = rflags;
      ptr = some a.pointer;
    } in
    if not (status == 0) && (not (status == eagain) && not (status == eacces))
    then (none, m, locks)
    else if a.fetch_status == 0
    then (some region, record m { active_regions = low ++ (new ∷ high) }, fetched)
    else (none, m, fetched ++ unlock_kernel_region m offset extent rflags)

unfoldable pub get_region :
    RegionManager → ℤ → ℕ → ℕ → Answers → Option MappedRegion × RegionManager × List Call
unfolding lower_bound map_region
get_region m offset extent rflags a =
    let (low, high) = lower_bound offset m.active_regions in
    if is_at offset high then (none, m, []) else map_region m low high offset extent rflags a

abbrev pub tail : List ActiveRegion → List ActiveRegion
tail [] = []
tail (r ∷ rs) = rs

unfoldable pub release_region : RegionManager → ℤ → ℕ → ℕ → RegionManager × List Call
unfolding lower_bound unlock_kernel_region
release_region m offset extent rflags =
    let (low, high) = lower_bound offset m.active_regions in
    if is_at offset high
    then (
      record m { active_regions = low ++ tail high },
      commit offset extent rflags ∷ unlock_kernel_region m offset extent rflags,
    )
    else (m, [])

-- `~MappedRegion`
unfoldable pub destroy : RegionManager → MappedRegion → RegionManager × List Call
unfolding release_region
destroy m r = elim r.ptr [
  | none ↦ (m, [])
  | some ptr ↦ if r.is_managed then release_region m r.offset r.extent r.rflags else (m, [])
]

-- The region that is moved from, by the constructor or the assignment.
abbrev pub moved_from : MappedRegion → MappedRegion
moved_from r = record r { is_managed = false; ptr = none }

-- The assignment of another region: the old one is released. The result is the new region, and
-- what is left of the other one.
unfoldable pub move_assign :
    RegionManager
    → MappedRegion
    → MappedRegion
    → MappedRegion × MappedRegion × RegionManager × List Call
unfolding destroy
move_assign m own other = let (n, calls) = destroy m own in (other, moved_from other, n, calls)

abbrev pub mark_modified : MappedRegion → MappedRegion
mark_modified r = record r { rflags = f_set r.rflags modified }

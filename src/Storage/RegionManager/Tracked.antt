-- ===== src/Storage/RegionManager/Tracked.antt =====
-- storage/pq/RegionManager.cpp: what is tracked stays sorted, and every lock is given back.
use rdm.Prelude.{
  ℕ, suc, ◌+◌, ◌≡◌, ◌≢◌, refl, ◌∙◌, inl, inr, Bool-cases, true, false, List, [], ◌∷◌, ◌++◌, ◌==◌,
  length, arith, if◌then◌else◌,
}
use rdm.Prelude.Int.{ℤ, ltb_ℤ}
use rdm.Prelude.Errno.{eagain, eacces}
use rdm.Storage.RegionManager.{
  ActiveRegion, RegionManager, Call, lock, unlock, fetch, commit, Answers, is_unlocked, lower_bound,
  is_at, tail, lock_kernel_region, unlock_kernel_region, map_region, get_region, release_region,
}

-- The offsets rise, each above the bound.
unfoldable pub IsAbove : ℤ → List ActiveRegion → Type 0
IsAbove bound [] = Unit
IsAbove bound (r ∷ rs) = (ltb_ℤ bound r.offset ≡ true) × IsAbove r.offset rs

unfoldable pub IsSorted : List ActiveRegion → Type 0
unfolding IsAbove
IsSorted [] = Unit
IsSorted (r ∷ rs) = IsAbove r.offset rs

insert : ℤ → ActiveRegion → List ActiveRegion → List ActiveRegion
insert offset new rs = (lower_bound offset rs).0 ++ (new ∷ (lower_bound offset rs).1)

erase : ℤ → List ActiveRegion → List ActiveRegion
erase offset rs = (lower_bound offset rs).0 ++ tail (lower_bound offset rs).1

insert-IsAbove :
    (bound : ℤ) (new : ActiveRegion) (rs : List ActiveRegion)
    → ltb_ℤ bound new.offset ≡ true
    → is_at new.offset (lower_bound new.offset rs).1 ≡ false
    → IsAbove bound rs
    → IsAbove bound (insert new.offset new rs)
unfolding IsAbove insert lower_bound
insert-IsAbove bound new [] b n h = ground (arith, b)
insert-IsAbove bound new (r ∷ rs) b n h = elim (Bool-cases (ltb_ℤ r.offset new.offset)) [
  | inl t ↦ ground (arith, t, b, h, n, insert-IsAbove r.offset new rs t)
  | inr t ↦ ground (arith, t, b, h, n)
]

IsAbove-lower :
    (low high : ℤ) (rs : List ActiveRegion)
    → ltb_ℤ low high ≡ true
    → IsAbove high rs
    → IsAbove low rs
unfolding IsAbove
IsAbove-lower low high [] b h = tt
IsAbove-lower low high (r ∷ rs) b h = ground (arith, b, h)

erase-IsAbove :
    (bound offset : ℤ) (rs : List ActiveRegion) → IsAbove bound rs → IsAbove bound (erase offset rs)
unfolding IsAbove erase lower_bound
erase-IsAbove bound offset [] h = tt
erase-IsAbove bound offset (r ∷ rs) h = elim (Bool-cases (ltb_ℤ r.offset offset)) [
  | inl t ↦ ground (arith, t, h, erase-IsAbove r.offset offset rs)
  | inr t ↦ ground (arith, t, h, IsAbove-lower bound r.offset rs)
]

insert-IsSorted :
    (new : ActiveRegion) (rs : List ActiveRegion)
    → is_at new.offset (lower_bound new.offset rs).1 ≡ false
    → IsSorted rs
    → IsSorted (insert new.offset new rs)
unfolding IsSorted insert lower_bound
insert-IsSorted new [] n h = tt
insert-IsSorted new (r ∷ rs) n h = elim (Bool-cases (ltb_ℤ r.offset new.offset)) [
  | inl t ↦ ground (arith, t, h, n, insert-IsAbove r.offset new rs t)
  | inr t ↦ ground (arith, t, h, n)
]

IsSorted-tail : (bound : ℤ) (rs : List ActiveRegion) → IsAbove bound rs → IsSorted rs
unfolding IsSorted
IsSorted-tail bound [] h = tt
IsSorted-tail bound (r ∷ rs) h = h.1

erase-IsSorted : (offset : ℤ) (rs : List ActiveRegion) → IsSorted rs → IsSorted (erase offset rs)
unfolding IsSorted erase lower_bound
erase-IsSorted offset [] h = tt
erase-IsSorted offset (r ∷ rs) h = elim (Bool-cases (ltb_ℤ r.offset offset)) [
  | inl t ↦ ground (arith, t, h, erase-IsAbove r.offset offset rs)
  | inr t ↦ ground (arith, t, h, IsSorted-tail r.offset rs)
]

length-insert :
    (offset : ℤ) (new : ActiveRegion) (rs : List ActiveRegion)
    → length (insert offset new rs) ≡ suc (length rs)
unfolding insert lower_bound
length-insert offset new [] = refl
length-insert offset new (r ∷ rs) = ground (arith, length-insert offset new rs)

length-erase :
    (offset : ℤ) (rs : List ActiveRegion)
    → is_at offset (lower_bound offset rs).1 ≡ true
    → suc (length (erase offset rs)) ≡ length rs
unfolding erase lower_bound
length-erase offset [] h = ground (arith, h)
length-erase offset (r ∷ rs) h = ground (arith, h, length-erase offset rs)

-- The locks that the kernel granted, and those that were given back.
abbrev pub grants : List Call → ℕ
grants [] = 0
grants (lock wait write offset extent answer ∷ calls) =
    (if answer == 0 then 1 else 0) + grants calls
grants (unlock offset extent ∷ calls) = grants calls
grants (fetch offset extent rflags answer ∷ calls) = grants calls
grants (commit offset extent rflags ∷ calls) = grants calls

abbrev pub unlocks : List Call → ℕ
unlocks [] = 0
unlocks (lock wait write offset extent answer ∷ calls) = unlocks calls
unlocks (unlock offset extent ∷ calls) = 1 + unlocks calls
unlocks (fetch offset extent rflags answer ∷ calls) = unlocks calls
unlocks (commit offset extent rflags ∷ calls) = unlocks calls

grants-append : (xs ys : List Call) → grants (xs ++ ys) ≡ grants xs + grants ys
grants-append [] ys = omega arith
grants-append (lock w t o e a ∷ xs) ys = omega (arith, grants-append xs ys)
grants-append (unlock o e ∷ xs) ys = grants-append xs ys
grants-append (fetch o e r a ∷ xs) ys = grants-append xs ys
grants-append (commit o e r ∷ xs) ys = grants-append xs ys

unlocks-append : (xs ys : List Call) → unlocks (xs ++ ys) ≡ unlocks xs + unlocks ys
unlocks-append [] ys = omega arith
unlocks-append (lock w t o e a ∷ xs) ys = unlocks-append xs ys
unlocks-append (unlock o e ∷ xs) ys = omega (arith, unlocks-append xs ys)
unlocks-append (fetch o e r a ∷ xs) ys = unlocks-append xs ys
unlocks-append (commit o e r ∷ xs) ys = unlocks-append xs ys

pub data Event : Type 0 where
  get : ℤ → ℕ → ℕ → Answers → Event
  release : ℤ → ℕ → ℕ → Event

abbrev pub handle : RegionManager → Event → RegionManager × List Call
handle m (get offset extent rflags answers) =
    let (region, n, calls) = get_region m offset extent rflags answers in (n, calls)
handle m (release offset extent rflags) = release_region m offset extent rflags

abbrev pub run : RegionManager → List Event → RegionManager × List Call
run m [] = (m, [])
run m (e ∷ es) =
    let (n, calls) = handle m e in let (end, others) = run n es in (end, calls ++ others)

-- The event asks for a lock, and the kernel grants it or fails for another reason than the lock of
-- someone else.
abbrev pub IsLocking : RegionManager → Event → Type 0
IsLocking m (get offset extent rflags answers) =
    (is_unlocked m rflags ≡ false) × (answers.lock_status ≢ eagain) × (answers.lock_status ≢ eacces)
IsLocking m (release offset extent rflags) = is_unlocked m rflags ≡ false

abbrev pub AreLocking : RegionManager → List Event → Type 0
AreLocking m [] = Unit
AreLocking m (e ∷ es) = IsLocking m e × AreLocking (handle m e).0 es

-- From one state to another by these calls: the regions stay sorted, and what is locked is tracked.
abbrev pub IsSound : RegionManager → RegionManager × List Call → Type 0
IsSound m r =
    (r.0.pflags ≡ m.pflags)
    × (IsSorted m.active_regions → IsSorted r.0.active_regions)
    × (grants r.1 + length m.active_regions ≡ unlocks r.1 + length r.0.active_regions)

map_region-IsSound :
    (m : RegionManager) (low high : List ActiveRegion) (offset : ℤ) (extent rflags : ℕ)
    (a : Answers)
    → IsLocking m (get offset extent rflags a)
    → (IsSorted m.active_regions
        → IsSorted (
            low
            ++ (record { offset = offset; extent = extent; vp = a.pointer; rflags = rflags }
                ∷ high)))
    → length (
        low
        ++ (record { offset = offset; extent = extent; vp = a.pointer; rflags = rflags } ∷ high))
      ≡ suc (length m.active_regions)
    → let (region, n, calls) = map_region m low high offset extent rflags a in IsSound m (n, calls)
unfolding map_region lock_kernel_region unlock_kernel_region
map_region-IsSound m low high offset extent rflags a (locking, again, denied) sorted longer =
    elim (Bool-cases (a.lock_status == 0)) [
      | inr t ↦ ground (arith, t, locking, again, denied)
      | inl t ↦ ground (arith, t, locking, sorted, longer)
    ]

handle-IsSound : (m : RegionManager) (e : Event) → IsLocking m e → IsSound m (handle m e)
unfolding get_region release_region unlock_kernel_region insert erase
handle-IsSound m (get offset extent rflags a) locking =
    let new : ActiveRegion = record {
      offset = offset;
      extent = extent;
      vp = a.pointer;
      rflags = rflags;
    } in
    let (low, high) = lower_bound offset m.active_regions in
    elim (Bool-cases (is_at offset high)) [
      | inl t ↦ ground (arith, t)
      | inr t ↦
          let sound =
            map_region-IsSound m low high offset extent rflags a locking
              (insert-IsSorted new m.active_regions t)
              (length-insert offset new m.active_regions) in
          ground (arith, t, sound)
    ]
handle-IsSound m (release offset extent rflags) locking =
    elim (Bool-cases (is_at offset (lower_bound offset m.active_regions).1)) [
      | inl t ↦
          let sorted = erase-IsSorted offset m.active_regions in
          let shorter = length-erase offset m.active_regions t in
          ground (arith, t, locking, sorted, shorter)
      | inr t ↦ ground (arith, t)
    ]

run-IsSound : (es : List Event) (m : RegionManager) → AreLocking m es → IsSound m (run m es)
run-IsSound [] m locking = (refl, (λ h. h), refl)
run-IsSound (e ∷ es) m (first, others) =
    let (n, calls) = handle m e in
    let (end, more) = run n es in
    let (flags, sorted, count) = handle-IsSound m e first in
    let (flags_on, sorted_on, count_on) = run-IsSound es n others in
    (
      flags_on ∙ flags,
      (λ h. sorted_on (sorted h)),
      omega (arith, count, count_on, grants-append calls more, unlocks-append calls more),
    )

-- From a manager that tracks nothing on, by whatever calls of getRegion and releaseRegion that ask
-- for a lock and are not told that someone else holds it: the tracked regions are sorted by their
-- offsets, none of which stands twice, and the locks that the kernel granted are those that were
-- given back and one for each tracked region; so none is held for a region that failed to map.
pub run-balanced :
    (pflags : ℕ) (es : List Event)
    → let m : RegionManager = record { pflags = pflags; active_regions = [] } in
      AreLocking m es
      → let (n, calls) = run m es in
        IsSorted n.active_regions × (grants calls ≡ unlocks calls + length n.active_regions)
unfolding IsSorted
run-balanced pflags es locking =
    let m : RegionManager = record { pflags = pflags; active_regions = [] } in
    let (flags, sorted, count) = run-IsSound es m locking in (sorted tt, omega (arith, count))

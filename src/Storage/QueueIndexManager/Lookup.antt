-- ===== src/Storage/QueueIndexManager/Lookup.antt =====
-- storage/pq/QueueIndexManager.cpp: `FreeByOffset` and `FindTimeEntryBySignature`.
use rdm.Prelude.{ℕ, zero, suc, ◌+◌, Option, none, some, ◌==◌, if◌then◌else◌, length}
use rdm.Prelude.Errno.{einval}
use rdm.Prelude.Int.{ℤ, pos, eqb_ℤ, ◌-ℤ◌}
use rdm.Prelude.Run.{Run, ok, fault, out_of_fuel, ◌>>=◌, at}
use rdm.Core.Timestamp.{Timestamp}
use rdm.Storage.RegionList
use rdm.Storage.RegionList.{
  Region, RegionList, rl_none, is_alloc, get_extent, set_alloc, clear_alloc, has_space, add_to_hash,
  remove_from_hash,
}
use rdm.Storage.RegionList.Space
use rdm.Storage.RegionList.Space.{split, put}
use rdm.Storage.SignatureIndex
use rdm.Storage.SignatureIndex.{Signature, SignatureIndex, off_none}
use rdm.Storage.TimeQueue
use rdm.Storage.TimeQueue.{TimeQueue, Times, less_than, equal_to, greater_than}
use rdm.Storage.QueueIndexManager.{corrupt, not_found, Index, store_of, with_store, times_of, Info}

-- `FreeByOffset`: 0 or `EINVAL`.
unfoldable pub free_by_offset : (ℕ → ℕ) → Index → ℤ → Signature → Run (ℕ × Index)
unfolding RegionList.find SignatureIndex.remove Space.free
free_by_offset random ix offset sig = RegionList.find ix.regions offset >>= λ rlix.
    let freed : Run (ℕ × Index) = at ix.regions.rp rlix >>= λ rp.
    let removed : Run (ℕ × Index) =
      SignatureIndex.remove ix.signatures sig >>= λ (done, signatures).
      let ix1 : Index = record ix { signatures = signatures } in
      let free_it : Run (ℕ × Index) =
        Space.free random (store_of ix1) rlix >>= λ s. ok (0, with_store ix1 s) in
      if done then free_it else ok (einval, ix1) in
    if is_alloc rp then removed else ok (einval, ix) in
    if rlix == rl_none then ok (einval, ix) else freed

-- The loop of `FindTimeEntryBySignature`: the status and the element. What follows the loop in the
-- code is never reached.
unfoldable pub scan_times : ℕ → Index → ℤ → ℕ → Run (ℤ × Option ℕ)
unfolding TimeQueue.next
scan_times zero ix offset i = fault out_of_fuel
scan_times (suc f) ix offset i = at ix.times.tqep i >>= λ e.
    let further : Run (ℤ × Option ℕ) =
      TimeQueue.next (times_of ix) i >>= λ next. scan_times f ix offset next in
    if eqb_ℤ e.offset off_none
    then ok (not_found, none)
    else if eqb_ℤ e.offset offset
    then ok (pos 0, some i)
    else further

-- The first of the three matches that has an element.
unfoldable pub time_near : Index → Timestamp → Run (Option ℕ)
unfolding TimeQueue.find
time_near ix key = TimeQueue.find (times_of ix) key less_than >>= λ earlier. elim earlier [
  | some i ↦ ok (some i)
  | none ↦ TimeQueue.find (times_of ix) key equal_to >>= λ equal. elim equal [
    | some i ↦ ok (some i)
    | none ↦ TimeQueue.find (times_of ix) key greater_than
  ]
]

unfoldable pub find_time_entry : (ℤ → ℕ → ℤ × Info) → ℤ → Index → Signature → Run (ℤ × Option ℕ)
unfolding SignatureIndex.find RegionList.find time_near scan_times
find_time_entry decode interval ix sig = do
  found ← SignatureIndex.find ix.signatures sig
  let stored : ℕ → Run (ℤ × Option ℕ) = λ element. do
    entry ← at ix.signatures.sxep element
    rlix ← RegionList.find ix.regions entry.offset
    let scanned : Run (ℤ × Option ℕ) = do
      rp ← at ix.regions.rp rlix
      let (status, info) = decode rp.offset (get_extent rp)
      let key : Timestamp = record info.arrival { tv_sec = info.arrival.tv_sec -ℤ interval }
      let listed : Run (ℤ × Option ℕ) = time_near ix key >>= λ near. elim near [
        | none ↦ ok (corrupt, none)
        | some i ↦ scan_times (length ix.times.tqep + 1) ix entry.offset i
      ]
      if eqb_ℤ status (pos 0) then listed else ok (corrupt, none)
    if rlix == rl_none then ok (corrupt, none) else scanned
  elim found [ none ↦ ok (not_found, none) | some element ↦ stored element ]

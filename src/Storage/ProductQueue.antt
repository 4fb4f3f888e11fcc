-- ===== src/Storage/ProductQueue.antt =====
-- storage/pq/ProductQueue.h and .cpp: the life of an entry of the queue, from its reservation to its
-- commit or rollback, over the index manager. What the file lock, the mapping and the serializer
-- answer are arguments.
pub mod Reserved
mod Tests
use rdm.Prelude.{
  ℕ, ◌+◌, ◌-◌, Bool, true, false, List, [], Option, none, some, ◌==◌, ltb, if◌then◌else◌,
}
use rdm.Prelude.Errno.{eacces, einval, enomem, eio}
use rdm.Prelude.Int.{ℤ, pos, negsuc, ◌+ℤ◌, ◌-ℤ◌, eqb_ℤ}
use rdm.Prelude.Run.{Run, ok, ◌>>=◌}
use rdm.Core.Timestamp.{Timestamp, none_time}
use rdm.Storage.Control.{Pqctl}
use rdm.Storage.QueueMetrics.{Metrics, track_allocation, track_mvrt, mark_most_recent}
use rdm.Storage.RegionList.{RegionList}
use rdm.Storage.SignatureIndex.{Signature}
use rdm.Storage.TimeQueue
use rdm.Storage.QueueIndexManager.{Index, Info, times_of, with_times, corrupt}
use rdm.Storage.QueueIndexManager.Allocating.{
  Allocation, allocated, refused, allocate_product_space,
}
use rdm.Storage.QueueIndexManager.Lookup.{free_by_offset}

-- `PqStatus`
abbrev pub big : ℤ
big = negsuc 2

abbrev pub system : ℤ
system = negsuc 3

abbrev pub invalid : ℤ
invalid = negsuc 7

pub record ProductQueue : Type 0 where
  pub is_open : Bool
  pub is_read_only : Bool
  pub data_size : ℕ
  pub index : Index
  pub pqe_count : ℤ

-- `QueueMetrics(indexManager_)`
abbrev pub metrics_of : Index → Metrics
metrics_of ix = record { control = some ix.control; regions = some ix.regions }

abbrev pub with_metrics : Index → Metrics → Index
with_metrics ix m = record ix {
  control = elim m.control [ none ↦ ix.control | some ctl ↦ ctl ];
  regions = elim m.regions [ none ↦ ix.regions | some rl ↦ rl ];
}

-- `mvrtFunc`, at a time of day.
unfoldable pub mvrt_func : Timestamp → Timestamp → Info → Index → Index
unfolding track_mvrt
mvrt_func now reception info ix =
    with_metrics ix (track_mvrt (metrics_of ix) now info.arrival reception)

-- `decodeFunc`: whether the region could be mapped, and what the serializer reads there.
unfoldable pub decode_func : (ℤ → ℕ → Bool) → (ℤ → ℕ → Option Info) → ℤ → ℕ → ℤ × Info
decode_func is_mapped stored offset extent =
    let blank : Info = record { signature = []; arrival = none_time } in
    let decoded : ℤ × Info = elim (stored offset extent) [
      | none ↦ (corrupt, blank)
      | some info ↦ (pos 0, info)
    ] in
    if is_mapped offset extent then decoded else (pos eacces, blank)

-- A status, or the offset and the extent of the region of a new entry.
pub data Reservation : Type 0 where
  failed : ℤ → Reservation
  reserved : ℤ → ℕ → Reservation

-- What the environment answers to the calls of one operation: the status of the control lock,
-- whether the region was mapped and the description encoded, the time of day, the decoding of the
-- stored products and the levels of new list elements.
pub record Answers : Type 0 where
  pub lock_status : ℤ
  pub is_mapped : Bool
  pub is_encoded : Bool
  pub now : Timestamp
  pub decode : ℤ → ℕ → ℤ × Info
  pub levels : ℕ → ℕ → ℕ

abbrev pub tracked : Index → ℤ → ℕ → Index
tracked ix offset extent = with_metrics ix (track_allocation (metrics_of ix) offset extent)

-- The steps of `newElement` behind the allocation.
unfoldable pub finish_element :
    ProductQueue → Answers → Allocation → Index → Reservation × ProductQueue
finish_element q a (refused status) ix = (failed status, record q { index = ix })
finish_element q a (allocated offset extent) ix =
    let marked : ProductQueue = record q { index = tracked ix offset extent } in
    if a.is_mapped
    then if a.is_encoded
      then (reserved offset extent, record marked { pqe_count = q.pqe_count +ℤ pos 1 })
      else (failed (pos eio), marked)
    else (failed (pos enomem), marked)

-- `newElement`: `size` is that of the data, `extent` that of the encoded product.
unfoldable pub new_element :
    ProductQueue → Answers → ℕ → ℕ → Signature → Run (Reservation × ProductQueue)
unfolding mvrt_func allocate_product_space finish_element
new_element q a size extent sig =
    let allocation : Run (Reservation × ProductQueue) =
      allocate_product_space a.decode (mvrt_func a.now) a.levels q.index extent sig >>= λ (r, ix).
      ok (finish_element q a r ix) in
    if q.is_open
    then if size == 0
      then ok (failed (pos einval), q)
      else if ltb q.data_size size
      then ok (failed big, q)
      else if q.is_read_only
      then ok (failed (pos eacces), q)
      else if eqb_ℤ a.lock_status (pos 0)
      then allocation
      else ok (failed a.lock_status, q)
    else ok (failed (pos einval), q)

-- `rollbackEntry`: the region has been released.
unfoldable pub rollback_entry : ProductQueue → Answers → ℤ → Signature → Run (ℤ × ProductQueue)
unfolding free_by_offset
rollback_entry q a offset sig =
    let freed : Run (ℤ × ProductQueue) =
      free_by_offset (a.levels 0) q.index offset sig >>= λ (status, ix).
      let rest : ProductQueue = record q { index = ix } in
      ok (
        pos status,
        if status == 0 then record rest { pqe_count = q.pqe_count -ℤ pos 1 } else rest,
      ) in
    if q.is_open
    then if eqb_ℤ a.lock_status (pos 0) then freed else ok (a.lock_status, q)
    else ok (invalid, q)

-- The description in the region, as the serializer decodes it: none, or the size of its encoding.
unfoldable pub enter_time : ProductQueue → Answers → ℤ → ℕ → Option ℕ → Run (ℤ × ProductQueue)
unfolding TimeQueue.add
enter_time q a offset extent none = ok (corrupt, q)
enter_time q a offset extent (some info_size) =
    let added : Run (ℤ × ProductQueue) =
      TimeQueue.add (times_of q.index) a.now (a.levels 0 0) offset >>= λ (status, t).
      let ix : Index = with_times q.index t in
      let done : Index = with_metrics ix (mark_most_recent (metrics_of ix) a.now) in
      ok (
        if status == 0 then pos 0 else system,
        if status == 0
            then record q { index = done; pqe_count = q.pqe_count -ℤ pos 1 }
            else record q { index = ix },
      ) in
    if ltb extent info_size
    then ok (big, q)
    else if eqb_ℤ a.lock_status (pos 0)
    then added
    else ok (system, q)

-- `commitEntry`: the rollback of a commit that fails has answers of its own.
unfoldable pub commit_entry :
    ProductQueue → Answers → Answers → ℤ → ℕ → Signature → Option ℕ → Run (ℤ × ProductQueue)
unfolding enter_time rollback_entry
commit_entry q a b offset extent sig info_size =
    let entered : Run (ℤ × ProductQueue) =
      enter_time q a offset extent info_size >>= λ (status, q1).
      let undone : Run (ℤ × ProductQueue) =
        rollback_entry q1 b offset sig >>= λ (ignored, q2). ok (status, q2) in
      if eqb_ℤ status (pos 0) then ok (status, q1) else undone in
    if q.is_open then entered else ok (invalid, q)

-- The steps of `newElementDirect` behind the allocation: a region that is not mapped is freed.
unfoldable pub finish_direct :
    ProductQueue → Answers → Signature → Allocation → Index → Run (Reservation × ProductQueue)
unfolding free_by_offset
finish_direct q a sig (refused status) ix = ok (failed status, record q { index = ix })
finish_direct q a sig (allocated offset extent) ix =
    let marked : Index = tracked ix offset extent in
    let freed : Run (Reservation × ProductQueue) =
      free_by_offset (a.levels 0) marked offset sig >>= λ (status, ix2).
      ok (failed (pos enomem), record q { index = ix2 }) in
    if a.is_mapped
    then ok (reserved offset extent, record q { index = marked; pqe_count = q.pqe_count +ℤ pos 1 })
    else freed

unfoldable pub new_element_direct :
    ProductQueue → Answers → ℕ → Signature → Run (Reservation × ProductQueue)
unfolding mvrt_func allocate_product_space finish_direct
new_element_direct q a size sig =
    let allocation : Run (Reservation × ProductQueue) =
      allocate_product_space a.decode (mvrt_func a.now) a.levels q.index size sig >>= λ (r, ix).
      finish_direct q a sig r ix in
    if q.is_open
    then if ltb q.data_size size
      then ok (failed big, q)
      else if q.is_read_only
      then ok (failed (pos eacces), q)
      else if eqb_ℤ a.lock_status (pos 0)
      then allocation
      else ok (failed a.lock_status, q)
    else ok (failed invalid, q)

-- What `insert` does with its entry: it encodes the product and commits, or rolls back.
unfoldable pub fill_entry :
    Answers
    → Answers
    → Bool
    → Option ℕ
    → Signature
    → Reservation
    → ProductQueue
    → Run (ℤ × ProductQueue)
unfolding commit_entry rollback_entry
fill_entry a b is_encoded info_size sig (failed status) q = ok (status, q)
fill_entry a b is_encoded info_size sig (reserved offset extent) q =
    let undone : Run (ℤ × ProductQueue) =
      rollback_entry q a offset sig >>= λ (ignored, q1). ok (pos eio, q1) in
    let committed = commit_entry q a b offset extent sig info_size in
    if is_encoded then committed else undone

-- `insert`, with the answers to the reservation, to the commit or rollback, and to the rollback of a
-- commit that fails.
unfoldable pub insert :
    ProductQueue
    → Answers
    → Answers
    → Answers
    → ℕ
    → ℕ
    → Signature
    → Bool
    → Option ℕ
    → Run (ℤ × ProductQueue)
unfolding new_element fill_entry
insert q a b c size extent sig is_encoded info_size =
    let filled : Run (ℤ × ProductQueue) =
      new_element q a size extent sig >>= λ (r, q1). fill_entry b c is_encoded info_size sig r q1 in
    if q.is_read_only then ok (pos eacces, q) else filled

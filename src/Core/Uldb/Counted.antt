-- ===== src/Core/Uldb/Counted.antt =====
-- core/ULDB.cpp: `activeEntries` is the number of active entries of the array.
use rdm.Prelude.{
  ℕ, zero, suc, ◌+◌, ◌/◌, ◌^◌, ◌≤◌, ◌<◌, ◌≡◌, refl, inl, inr, Bool, Option-cases, true, false, List,
  [], ◌∷◌, some, if◌then◌else◌, length, replicate, arith,
}
use rdm.Prelude.Int.{ℤ}
use rdm.Core.ProdClass.{ProdClass}
use rdm.Core.Uldb.{
  UldbStatus, ShmEntry, Table, create, one_less, sweep, fill, add_entry, add_process, after_sweep,
  new_entry, release, remove,
}

module _ {Address : Type 0} (same : Address → Address → Bool) where
  unfoldable pub count : List (ShmEntry same) → ℕ
  count [] = 0
  count (e ∷ es) = (if e.is_active then 1 else 0) + count es

  abbrev pub IsCounted : Table same → Type 0
  IsCounted t =
      (t.active_entries ≡ count t.entries)
      × (length t.entries ≡ t.max_entries)
      × (t.max_entries < 2 ^ 64)

  count-le : (es : List (ShmEntry same)) → count es ≤ length es
  unfolding count
  count-le [] = omega arith
  count-le (e ∷ es) = ground (arith, count-le es)

  -- The loop takes one off the counter for each entry that it makes inactive.
  sweep-counts :
      (pid vers : ℤ) (addr : Address) (notifier : ℤ) (es : List (ShmEntry same)) (n : ℕ)
      → count es ≤ n
      → n < 2 ^ 64
      → ((sweep same pid vers addr notifier es n).counter + count es
          ≡ n + count (sweep same pid vers addr notifier es n).kept)
        × (length (sweep same pid vers addr notifier es n).kept ≡ length es)
  unfolding sweep count
  sweep-counts pid vers addr notifier [] n h k = ground arith
  sweep-counts pid vers addr notifier (e ∷ es) n h k = ground (
    arith,
    sweep-counts pid vers addr notifier es n,
    sweep-counts pid vers addr notifier es (one_less n),
  )

  fill-counts :
      (new : ShmEntry same) (es filled : List (ShmEntry same))
      → new.is_active ≡ true
      → fill same new es ≡ some filled
      → (count filled ≡ count es + 1) × (length filled ≡ length es)
  unfolding fill count
  fill-counts new [] filled a h = ground (arith, h)
  fill-counts new (e ∷ es) filled a h = elim (Option-cases (fill same new es)) [
    | inl o ↦ ground (arith, h, o, a)
    | inr (rest, o) ↦ ground (arith, h, o, a, fill-counts new es rest a o)
  ]

  release-counts :
      (pid : ℤ) (es released : List (ShmEntry same))
      → release same pid es ≡ some released
      → (count released + 1 ≡ count es) × (length released ≡ length es)
  unfolding release count
  release-counts pid [] released h = ground (arith, h)
  release-counts pid (e ∷ es) released h = elim (Option-cases (release same pid es)) [
    | inl o ↦ ground (arith, h, o)
    | inr (rest, o) ↦ ground (arith, h, o, release-counts pid es rest o)
  ]

  count-blank :
      (n : ℕ) (blank : ShmEntry same)
      → (count (replicate n (record blank { is_active = false })) ≡ 0)
        × (length (replicate n (record blank { is_active = false })) ≡ n)
  unfolding count
  count-blank zero blank = (refl, refl)
  count-blank (suc n) blank = ground (arith, count-blank n blank)

  -- The table that Create lays out has no active entry and as many entries as its header says, for
  -- a number of entries below 2^64.
  pub create-IsCounted :
      (capacity entry_size : ℕ) (blank : ShmEntry same)
      → capacity / entry_size < 2 ^ 64
      → IsCounted (create same capacity entry_size blank)
  unfolding create
  create-IsCounted capacity entry_size blank h =
      ground (arith, count-blank 100 blank, count-blank (capacity / entry_size) blank)

  add_entry-IsCounted :
      (t : Table same) (new : ShmEntry same)
      → new.is_active ≡ true
      → IsCounted t
      → IsCounted (add_entry same t new).1
  unfolding add_entry
  add_entry-IsCounted t new a h = elim (Option-cases (fill same new t.entries)) [
    | inl o ↦ ground (arith, h, o)
    | inr (filled, o) ↦ ground (arith, h, o, fill-counts new t.entries filled a o, count-le filled)
  ]

  after_sweep-IsCounted :
      (t : Table same) (pid vers : ℤ) (addr : Address) (notifier : ℤ)
      → IsCounted t
      → IsCounted (after_sweep same t pid vers addr notifier)
  after_sweep-IsCounted t pid vers addr notifier h =
      let n = t.active_entries in
      let le = count-le t.entries in
      let swept =
        sweep-counts pid vers addr notifier t.entries n (ground (arith, h))
          (ground (arith, h, le)) in
      ground (arith, h, swept)

  -- Whatever AddProcess answers, `activeEntries` stays the number of active entries, and the array
  -- keeps its length.
  pub add_process-IsCounted :
      (anti_dos locked : Bool) (t u : Table same) (pid vers : ℤ) (addr : Address)
      (desired : ProdClass) (notifier primary : ℤ) (status : UldbStatus)
      → IsCounted t
      → add_process same anti_dos locked (some t) pid vers addr desired notifier primary
        ≡ (status, some u)
      → IsCounted u
  unfolding add_process
  add_process-IsCounted anti_dos locked t u pid vers addr desired notifier primary status h e =
      let new = new_entry same pid vers addr desired notifier primary in
      let swept = after_sweep same t pid vers addr notifier in
      ground (
        arith,
        h,
        e,
        after_sweep-IsCounted t pid vers addr notifier h,
        add_entry-IsCounted t new refl h,
        add_entry-IsCounted swept new refl (after_sweep-IsCounted t pid vers addr notifier h),
      )

  -- Whatever Remove answers, `activeEntries` stays the number of active entries, and the array keeps
  -- its length.
  pub remove-IsCounted :
      (locked : Bool) (t u : Table same) (pid : ℤ) (status : UldbStatus)
      → IsCounted t
      → remove same locked (some t) pid ≡ (status, some u)
      → IsCounted u
  unfolding remove
  remove-IsCounted locked t u pid status h e = elim (Option-cases (release same pid t.entries)) [
    | inl o ↦ ground (arith, h, e, o)
    | inr (es, o) ↦ ground (arith, h, e, o, release-counts pid t.entries es o, count-le t.entries)
  ]

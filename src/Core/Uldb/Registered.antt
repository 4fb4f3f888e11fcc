-- ===== src/Core/Uldb/Registered.antt =====
-- core/ULDB.cpp: which entries `GetEntries` hands out after `AddProcess` and `Remove`.
use rdm.Prelude.{
  ℕ, ◌≡◌, refl, ap, ◌∙◌, ◌⊎◌, inl, inr, Bool, Bool-cases, Option-cases, true, false, not, ◌&&◌,
  ◌||◌, List, [], ◌∷◌, ◌++◌, none, some, if◌then◌else◌, arith,
}
use rdm.Prelude.Int.{ℤ, pos, ltb_ℤ, eqb_ℤ}
use rdm.Core.ProdClass.{ProdClass, is_empty}
use rdm.Core.Uldb.{
  UldbStatus, success, exist, ShmEntry, Table, one_less, sweep, fill, add_entry, add_process,
  after_sweep, new_entry, release, remove, active,
}

module _ {Address : Type 0} (same : Address → Address → Bool) where
  -- The second list is the first one with `e` put in somewhere.
  abbrev pub IsInsertion : ShmEntry same → List (ShmEntry same) → List (ShmEntry same) → Type 0
  IsInsertion e before after =
      (xs : List (ShmEntry same)) × (ys : List (ShmEntry same)) × (before ≡ xs ++ ys)
      × (after ≡ xs ++ (e ∷ ys))

  fill-inserts :
      (new : ShmEntry same) (es filled : List (ShmEntry same))
      → new.is_active ≡ true
      → fill same new es ≡ some filled
      → IsInsertion new (active same es) (active same filled)
  unfolding fill active
  fill-inserts new [] filled a h = ground (arith, h)
  fill-inserts new (e ∷ es) filled a h = elim (Bool-cases e.is_active) [
    | inl on ↦ elim (Option-cases (fill same new es)) [
      | inl o ↦ ground (arith, h, o, on)
      | inr (rest, o) ↦
          let i = fill-inserts new es rest a o in
          let is : filled ≡ e ∷ rest = ground (arith, h, o, on) in
          (e ∷ i.0, i.1, ground (arith, on, i.2), ground (arith, is, on, i.3))
    ]
    | inr off ↦
        let is : filled ≡ new ∷ es = ground (arith, h, off) in
        ([], active same es, ground (arith, off), ground (arith, is, a))
  ]

  -- No entry is the process's.
  unfoldable pub lacks : ℤ → List (ShmEntry same) → Bool
  lacks pid [] = true
  lacks pid (e ∷ es) = not (eqb_ℤ pid e.pid) && lacks pid es

  sweep-lacks :
      (pid vers : ℤ) (addr : Address) (notifier : ℤ) (es : List (ShmEntry same)) (n : ℕ)
      → (sweep same pid vers addr notifier es n).met ≡ false
      → lacks pid (active same (sweep same pid vers addr notifier es n).kept) ≡ true
  unfolding sweep active lacks
  sweep-lacks pid vers addr notifier [] n h = refl
  sweep-lacks pid vers addr notifier (e ∷ es) n h = ground (
    arith,
    h,
    sweep-lacks pid vers addr notifier es n,
    sweep-lacks pid vers addr notifier es (one_less n),
  )

  -- The entries that AddProcess looks for a free one in.
  abbrev pub searched : Bool → Table same → ℤ → ℤ → Address → ℤ → List (ShmEntry same)
  searched anti_dos t pid vers addr notifier =
      (if anti_dos then after_sweep same t pid vers addr notifier else t).entries

  add_entry-inserts :
      (t : Table same) (new : ShmEntry same)
      → new.is_active ≡ true
      → (add_entry same t new).0 ≡ success
      → IsInsertion new (active same t.entries) (active same (add_entry same t new).1.entries)
  unfolding add_entry
  add_entry-inserts t new a h = elim (Option-cases (fill same new t.entries)) [
    | inl o ↦ ground (arith, h, o)
    | inr (filled, o) ↦
        let i = fill-inserts new t.entries filled a o in (i.0, i.1, i.2, ground (arith, o, i.3))
  ]

  -- Where AddProcess succeeds for a class with specs, GetEntries hands out one entry more than were
  -- left: the new one, with the class as it is stored. With the protection against denial of
  -- service, none of those left is of the same process.
  pub add_process-registers :
      (anti_dos locked : Bool) (t u : Table same) (pid vers : ℤ) (addr : Address)
      (desired : ProdClass) (notifier primary : ℤ)
      → is_empty desired.specs ≡ false
      → add_process same anti_dos locked (some t) pid vers addr desired notifier primary
        ≡ (success, some u)
      → IsInsertion
          (new_entry same pid vers addr desired notifier primary)
          (active same (searched anti_dos t pid vers addr notifier))
          (active same u.entries)
        × ((not anti_dos || lacks pid (active same (searched anti_dos t pid vers addr notifier)))
            ≡ true)
  unfolding add_process
  add_process-registers anti_dos locked t u pid vers addr desired notifier primary n h =
      let new = new_entry same pid vers addr desired notifier primary in
      let swept = if anti_dos then after_sweep same t pid vers addr notifier else t in
      let added : (add_entry same swept new).0 ≡ success = ground (arith, h, n) in
      let is : u ≡ (add_entry same swept new).1 = ground (arith, h, n) in
      let i = add_entry-inserts swept new refl added in
      (
        (i.0, i.1, i.2, ap (λ v. active same v.entries) is ∙ i.3),
        ground (arith, h, n, sweep-lacks pid vers addr notifier t.entries t.active_entries),
      )

  release-deletes :
      (pid : ℤ) (es released : List (ShmEntry same))
      → release same pid es ≡ some released
      → (e : ShmEntry same) × (eqb_ℤ e.pid pid ≡ true)
        × IsInsertion e (active same released) (active same es)
  unfolding release active
  release-deletes pid [] released h = ground (arith, h)
  release-deletes pid (e ∷ es) released h = elim (Bool-cases (e.is_active && eqb_ℤ e.pid pid)) [
    | inl hit ↦
        let is : released ≡ record e { is_active = false } ∷ es = ground (arith, h, hit) in
        (e, ground (arith, hit), ([], active same es, ground (arith, is), ground (arith, hit)))
    | inr miss ↦ elim (Option-cases (release same pid es)) [
      | inl o ↦ ground (arith, h, o, miss)
      | inr (rest, o) ↦
          let d = release-deletes pid es rest o in
          let is : released ≡ e ∷ rest = ground (arith, h, o, miss) in
          elim (Bool-cases e.is_active) [
            | inl on ↦ (
              d.0,
              d.1,
              (e ∷ d.2.0, d.2.1, ground (arith, is, on, d.2.2), ground (arith, on, d.2.3)),
            )
            | inr off ↦ (
              d.0,
              d.1,
              (d.2.0, d.2.1, ground (arith, is, off, d.2.2), ground (arith, off, d.2.3)),
            )
          ]
    ]
  ]

  release-lacks :
      (pid : ℤ) (es : List (ShmEntry same))
      → release same pid es ≡ none
      → lacks pid (active same es) ≡ true
  unfolding release active lacks
  release-lacks pid [] h = refl
  release-lacks pid (e ∷ es) h = elim (Option-cases (release same pid es)) [
    | inl o ↦ ground (arith, h, o, release-lacks pid es o)
    | inr (rest, o) ↦ ground (arith, h, o)
  ]

  -- Remove of a process that has entries takes exactly one of them from what GetEntries hands out;
  -- where it answers that there is none, no entry is of the process and nothing changes.
  pub remove-deletes :
      (t u : Table same) (pid : ℤ) (status : UldbStatus)
      → ltb_ℤ (pos 0) pid ≡ true
      → remove same true (some t) pid ≡ (status, some u)
      → ((status ≡ success)
          × ((e : ShmEntry same) × (eqb_ℤ e.pid pid ≡ true)
              × IsInsertion e (active same u.entries) (active same t.entries)))
        ⊎ ((status ≡ exist) × (u ≡ t) × (lacks pid (active same t.entries) ≡ true))
  unfolding remove
  remove-deletes t u pid status p h = elim (Option-cases (release same pid t.entries)) [
    | inl o ↦ inr (ground (arith, h, o, p), ground (arith, h, o, p), release-lacks pid t.entries o)
    | inr (es, o) ↦
        let d = release-deletes pid t.entries es o in
        let is : u.entries ≡ es = ground (arith, h, o, p) in
        inl
          (ground (arith, h, o, p), (d.0, d.1, (d.2.0, d.2.1, ap (active same) is ∙ d.2.2, d.2.3)))
  ]

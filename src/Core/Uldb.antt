-- ===== src/Core/Uldb.antt =====
-- core/ULDB.h and .cpp: the table of upstream processes in shared memory. The calls that map the
-- memory and take the lock are outside; `table` is what `mappedRegion_` points to, if anything.
pub mod Counted
pub mod Registered
mod Tests
use rdm.Prelude.{
  ℕ, zero, suc, ◌+◌, ◌-◌, ◌/◌, ◌%◌, ◌^◌, Bool, true, false, not, ◌&&◌, List, [], ◌∷◌, ◌++◌, Option,
  none, some, ◌==◌, leb, if◌then◌else◌, take, replicate, map,
}
use rdm.Prelude.Int.{ℤ, pos, ltb_ℤ, eqb_ℤ}
use rdm.Core.ProdClass.{ProdSpec, ProdClass, is_empty}

pub data UldbStatus : Type 0 where
  success arg init exist system : UldbStatus

-- `MAX_SPECS_PER_ENTRY` and `MAX_PATTERN_LEN`
abbrev pub max_specs_per_entry : ℕ
max_specs_per_entry = 32

abbrev pub max_pattern_len : ℕ
max_pattern_len = 256

-- The characters of `c_str()`.
unfoldable pub c_text : List ℕ → List ℕ
c_text [] = []
c_text (c ∷ cs) = let rest = c_text cs in if c == 0 then [] else c ∷ rest

-- `strncpy` cuts the pattern.
unfoldable pub stored_spec : ProdSpec → ProdSpec
unfolding c_text
stored_spec spec = record spec { pattern = take (max_pattern_len - 1) (c_text spec.pattern) }

-- A class as the table keeps it: the array of specs has an end.
unfoldable pub stored : ProdClass → ProdClass
unfolding stored_spec
stored c = record c { specs = map stored_spec (take max_specs_per_entry c.specs) }

-- `header->activeEntries--` and `++`, on a `size_t`.
abbrev pub one_less : ℕ → ℕ
one_less n = (n + (2 ^ 64 - 1)) % 2 ^ 64

abbrev pub one_more : ℕ → ℕ
one_more n = (n + 1) % 2 ^ 64

-- `struct sockaddr_storage`, and `network::IpAddressesAreEqual`.
module _ {Address : Type 0} (ip_addresses_are_equal : Address → Address → Bool) where
  pub record ShmEntry : Type 0 where
    pub is_active : Bool
    pub pid : ℤ
    pub proto_vers : ℤ
    pub is_notifier : ℤ
    pub is_primary : ℤ
    pub sock_addr : Address
    pub prod_class : ProdClass

  pub record Table : Type 0 where
    pub max_entries : ℕ
    pub active_entries : ℕ
    pub entries : List ShmEntry

  -- The table that `Create` lays out in fresh memory, which holds `blank` entries.
  unfoldable pub create : ℕ → ℕ → ShmEntry → Table
  create capacity entry_size blank =
      let fit = capacity / entry_size in
      let max = if fit == 0 then 100 else fit in
      record {
        max_entries = max;
        active_entries = 0;
        entries = replicate max (record blank { is_active = false });
      }

  abbrev is_zero : ℤ → Bool
  is_zero x = eqb_ℤ x (pos 0)

  -- What the loop against redundant upstream processes does: whether it met the pid, the entries,
  -- the counter, and the processes that it signals.
  pub record Sweep : Type 0 where
    pub met : Bool
    pub kept : List ShmEntry
    pub counter : ℕ
    pub signalled : List ℤ

  unfoldable pub sweep : ℤ → ℤ → Address → ℤ → List ShmEntry → ℕ → Sweep
  sweep pid vers addr notifier [] n = record { met = false; kept = []; counter = n; signalled = [] }
  sweep pid vers addr notifier (e ∷ es) n =
      let rest = sweep pid vers addr notifier es n in
      let swept = sweep pid vers addr notifier es (one_less n) in
      let redundant =
        eqb_ℤ vers e.proto_vers
        && ip_addresses_are_equal addr e.sock_addr
        && is_zero notifier
        && is_zero e.is_notifier in
      if not e.is_active
      then record rest { kept = e ∷ rest.kept }
      else if eqb_ℤ pid e.pid
      then record { met = true; kept = e ∷ es; counter = n; signalled = [] }
      else if redundant
      then record swept {
        kept = record e { is_active = false } ∷ swept.kept;
        signalled = e.pid ∷ swept.signalled;
      }
      else record rest { kept = e ∷ rest.kept }

  -- The first inactive entry is filled in; none where all are active.
  unfoldable pub fill : ShmEntry → List ShmEntry → Option (List ShmEntry)
  fill new [] = none
  fill new (e ∷ es) =
      let rest : Option (List ShmEntry) = elim (fill new es) [
        | none ↦ none
        | some filled ↦ some (e ∷ filled)
      ] in
      if e.is_active then rest else some (new ∷ es)

  -- `AddProcess` behind the guard, on the mapped table.
  unfoldable pub add_entry : Table → ShmEntry → UldbStatus × Table
  unfolding fill
  add_entry t new = elim (fill new t.entries) [
    | none ↦ (system, t)
    | some filled ↦
        (success, record t { entries = filled; active_entries = one_more t.active_entries })
  ]

  abbrev pub after_sweep : Table → ℤ → ℤ → Address → ℤ → Table
  after_sweep t pid vers addr notifier = record t {
    entries = (sweep pid vers addr notifier t.entries t.active_entries).kept;
    active_entries = (sweep pid vers addr notifier t.entries t.active_entries).counter;
  }

  abbrev pub new_entry : ℤ → ℤ → Address → ProdClass → ℤ → ℤ → ShmEntry
  new_entry pid vers addr desired notifier primary = record {
    is_active = true;
    pid = pid;
    proto_vers = vers;
    is_notifier = notifier;
    is_primary = primary;
    sock_addr = addr;
    prod_class = stored desired;
  }

  unfoldable pub add_process :
      Bool → Bool → Option Table → ℤ → ℤ → Address → ProdClass → ℤ → ℤ → UldbStatus × Option Table
  unfolding add_entry sweep stored
  add_process anti_dos locked none pid vers addr desired notifier primary =
      if ltb_ℤ (pos 0) pid then (system, none) else (arg, none)
  add_process anti_dos locked (some t) pid vers addr desired notifier primary =
      let seen = sweep pid vers addr notifier t.entries t.active_entries in
      let swept = if anti_dos then after_sweep t pid vers addr notifier else t in
      let new = new_entry pid vers addr desired notifier primary in
      let added = add_entry swept new in
      if not (ltb_ℤ (pos 0) pid)
      then (arg, some t)
      else if not locked
      then (system, some t)
      else if anti_dos && seen.met
      then (exist, some swept)
      else if is_empty desired.specs
      then (success, some swept)
      else (added.0, some added.1)

  -- The first active entry of the process is made inactive; none where there is no such entry.
  unfoldable pub release : ℤ → List ShmEntry → Option (List ShmEntry)
  release pid [] = none
  release pid (e ∷ es) =
      let rest : Option (List ShmEntry) = elim (release pid es) [
        | none ↦ none
        | some released ↦ some (e ∷ released)
      ] in
      if e.is_active && eqb_ℤ e.pid pid then some (record e { is_active = false } ∷ es) else rest

  unfoldable pub remove : Bool → Option Table → ℤ → UldbStatus × Option Table
  unfolding release
  remove locked none pid = if ltb_ℤ (pos 0) pid then (system, none) else (arg, none)
  remove locked (some t) pid =
      let released : UldbStatus × Option Table = elim (release pid t.entries) [
        | none ↦ (exist, some t)
        | some es ↦
            (success, some (record t { entries = es; active_entries = one_less t.active_entries }))
      ] in
      if not (ltb_ℤ (pos 0) pid)
      then (arg, some t)
      else if not locked
      then (system, some t)
      else released

  unfoldable pub active : List ShmEntry → List ShmEntry
  active [] = []
  active (e ∷ es) = let rest = active es in if e.is_active then e ∷ rest else rest

  -- `GetEntries` and `GetSize`: what is handed out, with the status.
  unfoldable pub get_entries : Bool → Option Table → UldbStatus × List ShmEntry
  unfolding active
  get_entries locked none = (system, [])
  get_entries locked (some t) = if locked then (success, active t.entries) else (system, [])

  unfoldable pub get_size : Bool → Option Table → ℕ → UldbStatus × ℕ
  get_size locked none size = (system, size)
  get_size locked (some t) size =
      if locked then (success, t.active_entries % 2 ^ 32) else (system, size)

-- ===== src/Storage/Control.antt =====
-- storage/pq/QueueIndexManager.h and .cpp: the control header at the start of the queue file, which
-- InitializeControlHeader writes and ValidateControlHeader reads.
pub mod Header
mod Tests
use rdm.Prelude.{ℕ, ◌+◌, ◌-◌, ◌%◌, ◌^◌, Bool, true, false, ◌==◌, if◌then◌else◌}
use rdm.Prelude.Int.{ℤ, pos, negsuc}
use rdm.Core.Timestamp.{Timestamp, none_time}

abbrev pub pq_magic : ℕ
pq_magic = 0x50515545

abbrev pub pq_version : ℕ
pq_version = 100

abbrev pub write_count_magic : ℕ
write_count_magic = 0x50515545

abbrev pub metrics_magic : ℕ
metrics_magic = 0x50515546

abbrev pub metrics_magic_2 : ℕ
metrics_magic_2 = 0x50515547

-- All but the state of the process notifier.
pub record Pqctl : Type 0 where
  pub magic : ℕ
  pub version : ℕ
  pub datao : ℤ
  pub ixo : ℤ
  pub ixsz : ℕ
  pub nalloc : ℕ
  pub align : ℕ
  pub highwater : ℤ
  pub maxproducts : ℕ
  pub write_count_check : ℕ
  pub write_count : ℕ
  pub metrics_check : ℕ
  pub most_recent : Timestamp
  pub min_virt_res_time : Timestamp
  pub is_full : Bool
  pub metrics_check_2 : ℕ
  pub mvrt_size : ℤ
  pub mvrt_slots : ℕ

unfoldable pub initialize_control_header : ℤ → ℤ → ℕ → ℕ → ℕ → Pqctl
initialize_control_header data_offset index_offset index_size max_slots align = record {
  magic = pq_magic;
  version = pq_version;
  datao = data_offset;
  ixo = index_offset;
  ixsz = index_size;
  nalloc = max_slots;
  align = align;
  highwater = pos 0;
  maxproducts = 0;
  write_count_check = write_count_magic;
  write_count = 1;
  metrics_check = metrics_magic;
  most_recent = none_time;
  min_virt_res_time = none_time;
  is_full = false;
  metrics_check_2 = metrics_magic_2;
  mvrt_size = negsuc 0;
  mvrt_slots = 0;
}

-- The layout of the file, as the header gives it.
pub record Layout : Type 0 where
  pub data_offset : ℤ
  pub index_offset : ℤ
  pub index_size : ℕ
  pub max_slots : ℕ
  pub align : ℕ

-- The answers of the validation: `EINVAL`, `EAGAIN` with the size that the header needs, or 0.
pub data Validity : Type 0 where
  invalid : Validity
  again : ℤ → Validity
  valid : Layout → Validity

-- An `off_t` in an expression of type `size_t`.
abbrev pub to_size : ℤ → ℕ
to_size (pos n) = n % 2 ^ 64
to_size (negsuc n) = 2 ^ 64 - 1 - n % 2 ^ 64

unfoldable pub validate_control_header : Pqctl → ℕ → ℕ → Validity
validate_control_header ctl region_size page_size =
    let layout : Layout = record {
      data_offset = ctl.datao;
      index_offset = ctl.ixo;
      index_size = ctl.ixsz;
      max_slots = ctl.nalloc;
      align = ctl.align;
    } in
    if ctl.magic == pq_magic
    then if ctl.version == pq_version
      then if to_size ctl.datao % page_size == 0
        then if to_size ctl.datao == region_size
          then valid layout
          else if region_size == page_size
          then again ctl.datao
          else invalid
        else invalid
      else invalid
    else invalid

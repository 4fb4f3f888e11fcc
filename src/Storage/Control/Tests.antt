-- ===== src/Storage/Control/Tests.antt =====
-- The control header on concrete input.
use rdm.Prelude.{ℕ, ◌≡◌, ◌≢◌, refl, arith}
use rdm.Prelude.Int.{pos}
use rdm.Storage.Control.{
  Pqctl, invalid, again, valid, initialize_control_header, validate_control_header,
}
use rdm.Storage.Control.Header.{validate-initialize}

abbrev header : Pqctl
header = initialize_control_header (pos 8192) (pos 1000000) 5000 100 8

wrong_version : validate_control_header (record header { version = 7 }) 8192 4096 ≡ invalid
unfolding initialize_control_header validate_control_header
wrong_version = refl

abbrev page : ℕ
page = 4096

abbrev other : ℕ
other = 12288

validate-initialize_example :
    (validate_control_header header 8192 4096
      ≡ valid (record {
        data_offset = pos 8192;
        index_offset = pos 1000000;
        index_size = 5000;
        max_slots = 100;
        align = 8;
      }))
    × (page ≢ 8192 → validate_control_header header 4096 4096 ≡ again (pos 8192))
    × (other ≢ 8192 → other ≢ 4096 → validate_control_header header 12288 4096 ≡ invalid)
validate-initialize_example =
    validate-initialize 8192 5000 100 8 4096 12288 (pos 1000000) (omega arith) (omega arith)

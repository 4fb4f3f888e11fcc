-- ===== src/Storage/Control/Header.antt =====
-- storage/pq/QueueIndexManager.cpp: a header that was written is read back.
use rdm.Prelude.{ℕ, ◌%◌, ◌^◌, ◌<◌, ◌≡◌, ◌≢◌, arith}
use rdm.Prelude.Int.{ℤ, pos}
use rdm.Storage.Control.{invalid, again, valid, initialize_control_header, validate_control_header}

-- A header that InitializeControlHeader wrote for a data section at a multiple of the page size
-- below 2^64 is found valid, with the layout that was given, by a process that has mapped exactly
-- what lies before the data; one that has mapped a page only is told to map as much as that; and
-- with any other size of the mapping the header is refused.
pub validate-initialize :
    (data_offset index_size max_slots align page_size region_size : ℕ) (index_offset : ℤ)
    → data_offset < 2 ^ 64
    → data_offset % page_size ≡ 0
    → let ctl =
        initialize_control_header (pos data_offset) index_offset index_size max_slots align in
      (validate_control_header ctl data_offset page_size
        ≡ valid (record {
          data_offset = pos data_offset;
          index_offset = index_offset;
          index_size = index_size;
          max_slots = max_slots;
          align = align;
        }))
      × (page_size ≢ data_offset
          → validate_control_header ctl page_size page_size ≡ again (pos data_offset))
      × (region_size ≢ data_offset
          → region_size ≢ page_size
          → validate_control_header ctl region_size page_size ≡ invalid)
unfolding initialize_control_header validate_control_header
validate-initialize data_offset index_size max_slots align page_size region_size index_offset b e =
    (ground (arith, b, e), (λ n. ground (arith, b, e, n)), (λ n k. ground (arith, b, e, n, k)))

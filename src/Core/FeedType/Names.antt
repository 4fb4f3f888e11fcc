-- ===== src/Core/FeedType/Names.antt =====
-- core/FeedType.cpp: the table of feed names, and the text of a mask.
use rdm.Prelude.{
  ℕ, zero, suc, ◌+◌, ◌-◌, ◌/◌, ◌%◌, not, ◌&&◌, List, [], ◌∷◌, ◌++◌, Option, none, some, ◌==◌, ltb,
  leb, if◌then◌else◌, map, bit_and,
}
use Prim.Native.String.{String}
use rdm.Prelude.Bits.{flip}
use rdm.Prelude.Text.{bytes, text_eq}
use rdm.Core.FeedType.Masks.{
  Mask, none_feed, ft0, ft1, ddplus, ft2, ft3, ft4, wmo, ft5, unidata, ft6, ft7, ft8, ft9, ft10,
  fsl, ft11, ft12, ft13, nmc, ft14, ft15, ft16, ft17, ft18, ft19, ft20, ft21, ft22, ft23, ft24,
  ft25, ft26, nport, ft27, ft28, ft29, ft30, any_feed,
}

pub record FeedDef : Type 0 where
  pub name : List ℕ
  pub type : Mask

abbrev feed_def : String → Mask → FeedDef
feed_def name type = record { name = bytes name; type = type }

-- In the source's order, which the text of a mask depends on.
abbrev pub feed_defs : List FeedDef
feed_defs =
    feed_def "none" none_feed
    ∷ feed_def "pps" ft0
    ∷ feed_def "dds" ft1
    ∷ feed_def "ddplus" ddplus
    ∷ feed_def "hds" ft2
    ∷ feed_def "ids" ft3
    ∷ feed_def "spare" ft4
    ∷ feed_def "wmo" wmo
    ∷ feed_def "uniwisc" ft5
    ∷ feed_def "unidata" unidata
    ∷ feed_def "pcws" ft6
    ∷ feed_def "fsl2" ft7
    ∷ feed_def "fsl3" ft8
    ∷ feed_def "fsl4" ft9
    ∷ feed_def "fsl5" ft10
    ∷ feed_def "fsl" fsl
    ∷ feed_def "gpssrc" ft11
    ∷ feed_def "conduit" ft12
    ∷ feed_def "fnexrad" ft13
    ∷ feed_def "nmc" nmc
    ∷ feed_def "lightning" ft14
    ∷ feed_def "wsi" ft15
    ∷ feed_def "satellite" ft16
    ∷ feed_def "faa604" ft17
    ∷ feed_def "gps" ft18
    ∷ feed_def "fnmoc" ft19
    ∷ feed_def "gem" ft20
    ∷ feed_def "nimage" ft21
    ∷ feed_def "ntext" ft22
    ∷ feed_def "ngrid" ft23
    ∷ feed_def "npoint" ft24
    ∷ feed_def "ngraph" ft25
    ∷ feed_def "nother" ft26
    ∷ feed_def "nport" nport
    ∷ feed_def "nexrad3" ft27
    ∷ feed_def "nexrad2" ft28
    ∷ feed_def "nxrdsrc" ft29
    ∷ feed_def "exp" ft30
    ∷ feed_def "any" any_feed
    ∷ feed_def "ft0" ft0
    ∷ feed_def "domestic" ft1
    ∷ feed_def "ft1" ft1
    ∷ feed_def "hrs" ft2
    ∷ feed_def "ft2" ft2
    ∷ feed_def "intnl" ft3
    ∷ feed_def "ft3" ft3
    ∷ feed_def "nps" ft4
    ∷ feed_def "ft4" ft4
    ∷ feed_def "ft5" ft5
    ∷ feed_def "mcidas" ft5
    ∷ feed_def "acars" ft6
    ∷ feed_def "ft6" ft6
    ∷ feed_def "profiler" ft7
    ∷ feed_def "ft7" ft7
    ∷ feed_def "ft8" ft8
    ∷ feed_def "ft9" ft9
    ∷ feed_def "ft10" ft10
    ∷ feed_def "profs" fsl
    ∷ feed_def "afos" ft11
    ∷ feed_def "nmc1" ft11
    ∷ feed_def "ft11" ft11
    ∷ feed_def "nmc2" ft12
    ∷ feed_def "nceph" ft12
    ∷ feed_def "ft12" ft12
    ∷ feed_def "nmc3" ft13
    ∷ feed_def "ft13" ft13
    ∷ feed_def "ft14" ft14
    ∷ feed_def "nldn" ft14
    ∷ feed_def "ft15" ft15
    ∷ feed_def "difax" ft16
    ∷ feed_def "ft16" ft16
    ∷ feed_def "faa" ft17
    ∷ feed_def "604" ft17
    ∷ feed_def "ft17" ft17
    ∷ feed_def "ft18" ft18
    ∷ feed_def "nogaps" ft19
    ∷ feed_def "seismic" ft19
    ∷ feed_def "ft19" ft19
    ∷ feed_def "cmc" ft20
    ∷ feed_def "ft20" ft20
    ∷ feed_def "image" ft21
    ∷ feed_def "ft21" ft21
    ∷ feed_def "text" ft22
    ∷ feed_def "ft22" ft22
    ∷ feed_def "grid" ft23
    ∷ feed_def "ft23" ft23
    ∷ feed_def "point" ft24
    ∷ feed_def "nbufr" ft24
    ∷ feed_def "bufr" ft24
    ∷ feed_def "ft24" ft24
    ∷ feed_def "graph" ft25
    ∷ feed_def "ft25" ft25
    ∷ feed_def "other" ft26
    ∷ feed_def "ft26" ft26
    ∷ feed_def "nnexrad" ft27
    ∷ feed_def "nexrad" ft27
    ∷ feed_def "ft27" ft27
    ∷ feed_def "nexrd2" ft28
    ∷ feed_def "craft" ft28
    ∷ feed_def "ft28" ft28
    ∷ feed_def "ft29" ft29
    ∷ feed_def "ft30" ft30
    ∷ []

-- `map[def.name] = def.type` for each entry: a later entry under the same name wins.
unfoldable pub find_type : List FeedDef → List ℕ → Option Mask
unfolding text_eq
find_type [] name = none
find_type (def ∷ defs) name = elim (find_type defs name) [
  | some type ↦ some type
  | none ↦ if text_eq def.name name then some def.type else none
]

-- `std::toupper` in the C locale.
abbrev pub to_upper : ℕ → ℕ
to_upper c = if leb 97 c && leb c 122 then c - 32 else c

abbrev hex_digit : ℕ → ℕ
hex_digit d = if ltb d 10 then 48 + d else 87 + d

-- The digits of `%0nx`, for a number of at most `n` digits.
unfoldable hex_digits : ℕ → ℕ → List ℕ
hex_digits zero v = []
hex_digits (suc n) v = hex_digits n (v / 16) ++ (hex_digit (v % 16) ∷ [])

-- The entries up to the one of `ANY`, the last one first: the way `idx` goes.
unfoldable pub up_to_any : List FeedDef → List FeedDef → List FeedDef
up_to_any [] seen = seen
up_to_any (def ∷ defs) seen =
    if def.type == any_feed then def ∷ seen else up_to_any defs (def ∷ seen)

-- The second loop of `ToString`: the entries it prints, and what remains.
unfoldable pub decompose : List FeedDef → Mask → List FeedDef × Mask
unfolding flip
decompose [] remaining = ([], remaining)
decompose (def ∷ defs) remaining =
    let rest = decompose defs (bit_and remaining (flip 32 def.type)) in
    let skipped = decompose defs remaining in
    if ltb 0 remaining && not (def.type == none_feed)
    then if bit_and def.type remaining == def.type then (def ∷ rest.0, rest.1) else skipped
    else ([], remaining)

-- `s` with a `|` before the next part, unless it is empty.
abbrev separated : List ℕ → List ℕ
separated [] = []
separated (c ∷ s) = (c ∷ s) ++ (124 ∷ [])

unfoldable join_names : List ℕ → List FeedDef → List ℕ
join_names s [] = s
join_names s (def ∷ defs) = join_names (separated s ++ map to_upper def.name) defs

unfoldable pub to_string : Mask → List ℕ
unfolding decompose join_names hex_digits up_to_any
to_string value =
    let parts = decompose (up_to_any feed_defs []) value in
    let s = join_names [] parts.0 in
    if value == none_feed
    then bytes "NONE"
    else if ltb 0 parts.1
    then separated s ++ (bytes "0x" ++ hex_digits 8 parts.1)
    else s

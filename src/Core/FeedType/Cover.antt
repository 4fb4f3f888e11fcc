-- ===== src/Core/FeedType/Cover.antt =====
-- core/FeedType.cpp: what the text of a mask says of it.
use rdm.Prelude.{
  ℕ, ◌<◌, ◌^◌, ◌≡◌, refl, sym, ap, ◌∙◌, Bool, true, not, ◌&&◌, ◌||◌, List, [], ◌∷◌, arith, bit_and,
  bit_or, ltb,
}
use rdm.Prelude.Bits.{bit, flip, bit-and, bit-or, bit-flip, eq_of_bits, bit_and-lt, bit_or-lt}
use rdm.Core.FeedType.Masks.{Mask}
use rdm.Core.FeedType.Names.{FeedDef, decompose, feed_defs, up_to_any}

-- The union of the types of the entries and of a mask.
unfoldable pub union_with : List FeedDef → Mask → Mask
union_with [] m = m
union_with (def ∷ defs) m = bit_or def.type (union_with defs m)

-- All types have 32 bits.
unfoldable pub all_words : List FeedDef → Bool
all_words [] = true
all_words (def ∷ defs) = ltb def.type (2 ^ 32) && all_words defs

pub flip-lt : (a : ℕ) → flip 32 a < 2 ^ 32
unfolding flip
flip-lt a = omega arith

or-and_not : (x y : Bool) → x ≡ (x && y) → (x || y && not x) ≡ y
or-and_not x y h = ground arith

-- What is left once `t` is printed, and `t` itself, are together the mask.
or-and_flip :
    (t r : ℕ) → t < 2 ^ 32 → r < 2 ^ 32 → bit_and t r ≡ t → bit_or t (bit_and r (flip 32 t)) ≡ r
or-and_flip t r ht hr e =
    eq_of_bits 32 (bit_or t (bit_and r (flip 32 t))) r
      (bit_or-lt 32 t (bit_and r (flip 32 t)) ht (bit_and-lt 32 r (flip 32 t) hr (flip-lt t))) hr
      (λ i h.
        let bits : bit i t ≡ (bit i t && bit i r) = ap (bit i) (sym e) ∙ bit-and i t r in
        rw (bit-or, bit-and, bit-flip 32 i t h ht) (or-and_not (bit i t) (bit i r) bits))

pub decompose-covers :
    (defs : List FeedDef) (r : Mask)
    → all_words defs ≡ true
    → r < 2 ^ 32
    → union_with (decompose defs r).0 (decompose defs r).1 ≡ r
unfolding decompose union_with all_words
decompose-covers [] r hd hr = refl
decompose-covers (def ∷ defs) r hd hr = ground (
  arith,
  decompose-covers defs r,
  decompose-covers defs (bit_and r (flip 32 def.type)),
  bit_and-lt 32 r (flip 32 def.type) hr (flip-lt def.type),
  or-and_flip def.type r,
)

-- The names that ToString prints and the digits behind them lose no bit of the mask and add none:
-- the union of the types of the printed names and the remaining mask is the mask.
pub to_string-covers :
    (value : Mask)
    → value < 2 ^ 32
    → union_with
        (decompose (up_to_any feed_defs []) value).0
        (decompose (up_to_any feed_defs []) value).1
      ≡ value
unfolding all_words up_to_any
to_string-covers value h = decompose-covers (up_to_any feed_defs []) value refl h

-- ===== src/Core/ProdClass/Meet.antt =====
-- core/ProdClass.cpp: `Intersect` selects nothing that one of the two classes does not.
use rdm.Prelude.{
  ℕ, ◌<◌, ◌^◌, ◌≡◌, ◌≢◌, refl, sym, ap, subst, ◌∙◌, Bool, true, false, not, ◌&&◌, ◌||◌, List, [],
  ◌∷◌, ◌++◌, Option, arith, bit_and, if◌then◌else◌,
}
use rdm.Prelude.Bits.{bit_and_assoc, bit_and_comm, bit_and-zero, bit_and-ones}
use rdm.Prelude.Int.{ℤ}
use rdm.Prelude.Text.{bytes, text_eq, eq_of_text_eq}
use rdm.Core.ProdClass.{
  ProdSpec, ProdInfo, ProdClass, earlier, meet_spec, meet_specs, meet_times, is_any, is_empty,
  intersect, matches_all,
}
use rdm.Core.ProdClass.Selection.{in_time, text_matches, spec_selects, some_selects, selects}

-- A product that meets a common part of two feed types meets both.
pub and-parts : (i f w : ℕ) → bit_and i (bit_and f w) ≢ 0 → (bit_and i f ≢ 0) × (bit_and i w ≢ 0)
and-parts i f w h = (
  (λ e. h (sym (bit_and_assoc i f w) ∙ (ap (λ x. bit_and x w) e ∙ bit_and-zero w))),
  (λ e. h (
      ap (bit_and i) (bit_and_comm f w)
      ∙ (sym (bit_and_assoc i w f) ∙ (ap (λ x. bit_and x f) e ∙ bit_and-zero f)))),
)

nots : (x y : Bool) → (not x && not y) ≡ true → (x ≡ false) × (y ≡ false)
nots x y h = ground arith

both_not : (x y : Bool) → x ≡ false → y ≡ false → (not x && not y) ≡ true
both_not x y h k = ground arith

-- `≥` on times, written out as the negation of `earlier`.
not_earlier_trans :
    (a b c d e f : ℤ) → earlier a b c d ≡ false → earlier c d e f ≡ false → earlier a b e f ≡ false
not_earlier_trans a b c d e f h k = ground arith

later_first :
    (a b c d : ℤ)
    → (earlier (if earlier c d a b then a else c) (if earlier c d a b then b else d) a b ≡ false)
      × (earlier (if earlier c d a b then a else c) (if earlier c d a b then b else d) c d ≡ false)
later_first a b c d = ground arith

earlier_last :
    (a b c d : ℤ)
    → (earlier a b (if earlier a b c d then a else c) (if earlier a b c d then b else d) ≡ false)
      × (earlier c d (if earlier a b c d then a else c) (if earlier a b c d then b else d) ≡ false)
earlier_last a b c d = ground arith

in_time-meet :
    (filt want result : ProdClass) (ws : List ProdSpec) (info : ProdInfo)
    → in_time (record (meet_times filt want result) { specs = ws }) info ≡ true
    → (in_time filt info ≡ true) × (in_time want info ≡ true)
unfolding in_time meet_times
in_time-meet filt want result ws info h =
    let times = meet_times filt want result in
    let sec = info.arrival.tv_sec in
    let usec = info.arrival.tv_usec in
    let bounds =
      nots (earlier sec usec times.from_sec times.from_usec)
        (earlier times.to_sec times.to_usec sec usec) h in
    let start = later_first filt.from_sec filt.from_usec want.from_sec want.from_usec in
    let end = earlier_last filt.to_sec filt.to_usec want.to_sec want.to_usec in
    let from = λ (c d : ℤ) (e : earlier times.from_sec times.from_usec c d ≡ false).
      not_earlier_trans sec usec times.from_sec times.from_usec c d bounds.0 e in
    let to = λ (c d : ℤ) (e : earlier c d times.to_sec times.to_usec ≡ false).
      not_earlier_trans c d times.to_sec times.to_usec sec usec e bounds.1 in
    (
      both_not (earlier sec usec filt.from_sec filt.from_usec)
          (earlier filt.to_sec filt.to_usec sec usec) (from filt.from_sec filt.from_usec start.0)
          (to filt.to_sec filt.to_usec end.0),
      both_not (earlier sec usec want.from_sec want.from_usec)
          (earlier want.to_sec want.to_usec sec usec) (from want.from_sec want.from_usec start.1)
          (to want.to_sec want.to_usec end.1),
    )

module _ (regex : List ℕ → Bool → Option (List ℕ → Bool)) where
  all-matches :
      (p ident : List ℕ) → text_eq p (bytes ".*") ≡ true → text_matches regex p ident ≡ true
  unfolding text_matches matches_all
  all-matches p ident h =
      subst (λ q. text_matches regex q ident ≡ true) (sym (eq_of_text_eq p (bytes ".*") h)) refl

  same-matches :
      (p q ident : List ℕ)
      → text_eq p q ≡ true
      → text_matches regex p ident ≡ text_matches regex q ident
  same-matches p q ident h = ap (λ r. text_matches regex r ident) (eq_of_text_eq p q h)

  some_selects-append :
      (ps qs : List ProdSpec) (info : ProdInfo)
      → some_selects regex (ps ++ qs) info
        ≡ (some_selects regex ps info || some_selects regex qs info)
  unfolding some_selects
  some_selects-append [] qs info = refl
  some_selects-append (p ∷ ps) qs info = ground (arith, some_selects-append ps qs info)

  meet_spec-selects :
      (w : ProdSpec) (fs : List ProdSpec) (info : ProdInfo)
      → some_selects regex (meet_spec w fs) info ≡ true
      → (spec_selects regex w info ≡ true) × (some_selects regex fs info ≡ true)
  unfolding meet_spec some_selects spec_selects
  meet_spec-selects w [] info h = ground arith
  meet_spec-selects w (f ∷ fs) info h = ground (
    arith,
    meet_spec-selects w fs info,
    and-parts info.feedtype f.feedtype w.feedtype,
    all-matches f.pattern info.ident,
    same-matches f.pattern w.pattern info.ident,
  )

  meet_specs-selects :
      (ws fs : List ProdSpec) (info : ProdInfo)
      → some_selects regex (meet_specs ws fs) info ≡ true
      → (some_selects regex ws info ≡ true) × (some_selects regex fs info ≡ true)
  unfolding meet_specs some_selects
  meet_specs-selects [] fs info h = ground arith
  meet_specs-selects (w ∷ ws) fs info h = ground (
    arith,
    h,
    some_selects-append (meet_spec w fs) (meet_specs ws fs) info,
    meet_spec-selects w fs info,
    meet_specs-selects ws fs info,
  )

  any-selects :
      (fs : List ProdSpec) (info : ProdInfo)
      → info.feedtype ≢ 0
      → info.feedtype < 2 ^ 32
      → is_any fs ≡ true
      → (is_empty fs || some_selects regex fs info) ≡ true
  unfolding is_any some_selects spec_selects
  any-selects [] info h k e = refl
  any-selects (f ∷ []) info h k e =
      ground (arith, all-matches f.pattern info.ident, bit_and-ones info.feedtype k)
  any-selects (f ∷ g ∷ fs) info h k e = ground arith

  -- A list of specs that is not empty selects by its specs.
  empty-selects :
      (specs : List ProdSpec) (info : ProdInfo)
      → (is_empty specs || some_selects regex specs info) ≡ true
      → not (is_empty specs) ≡ true
      → some_selects regex specs info ≡ true
  empty-selects specs info h n = ground arith

  -- Unless both classes have no spec: where Intersect answers with true, each product of some feed
  -- type that the class it fills in selects is selected by both classes.
  pub intersect-selects :
      (filt want result : ProdClass) (info : ProdInfo)
      → (is_empty filt.specs && is_empty want.specs) ≡ false
      → info.feedtype ≢ 0
      → info.feedtype < 2 ^ 32
      → (intersect filt want result).0 ≡ true
      → selects regex (intersect filt want result).1 info ≡ true
      → (selects regex filt info ≡ true) × (selects regex want info ≡ true)
  unfolding intersect selects
  intersect-selects filt want result info n h k e s = ground (
    arith,
    s,
    e,
    n,
    in_time-meet filt want result want.specs info,
    in_time-meet filt want result (meet_specs want.specs filt.specs) info,
    any-selects filt.specs info h k,
    meet_specs-selects want.specs filt.specs info,
    empty-selects (meet_specs want.specs filt.specs) info,
  )

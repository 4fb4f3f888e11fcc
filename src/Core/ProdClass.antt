-- ===== src/Core/ProdClass.antt =====
-- core/ProdClass.h and .cpp, core/ProdSpec.h, core/ProdInfo.h: classes of products, by an interval
-- of time and a list of feed types with patterns.
pub mod Selection
pub mod Meet
mod Tests
use rdm.Prelude.{
  ℕ, Bool, true, false, not, ◌&&◌, ◌||◌, List, [], ◌∷◌, ◌++◌, Option, none, some, ◌==◌, ltb,
  if◌then◌else◌, bit_and, bit_or,
}
use rdm.Prelude.Int.{ℤ, pos, ltb_ℤ, eqb_ℤ}
use rdm.Prelude.Text.{bytes, text_eq}
use rdm.Core.FeedType.Masks.{Mask, none_feed, any_feed}
use rdm.Core.Timestamp.{Timestamp}
use rdm.Core.Pattern.{new_pattern, is_match}

pub record ProdSpec : Type 0 where
  pub feedtype : Mask
  pub pattern : List ℕ

-- The fields that the filters read.
pub record ProdInfo : Type 0 where
  pub arrival : Timestamp
  pub feedtype : Mask
  pub ident : List ℕ

pub record ProdClass : Type 0 where
  pub from_sec : ℤ
  pub from_usec : ℤ
  pub to_sec : ℤ
  pub to_usec : ℤ
  pub specs : List ProdSpec

-- `a < c || (a == c && b < d)`, the comparison that the source writes out for times.
abbrev pub earlier : ℤ → ℤ → ℤ → ℤ → Bool
earlier a b c d = ltb_ℤ a c || (eqb_ℤ a c && ltb_ℤ b d)

unfoldable pub same_specs : List ProdSpec → List ProdSpec → Bool
unfolding text_eq
same_specs [] [] = true
same_specs [] (q ∷ qs) = false
same_specs (p ∷ ps) [] = false
same_specs (p ∷ ps) (q ∷ qs) =
    (p.feedtype == q.feedtype) && text_eq p.pattern q.pattern && same_specs ps qs

-- `operator==`
unfoldable pub same_class : ProdClass → ProdClass → Bool
unfolding same_specs
same_class a b =
    eqb_ℤ a.from_sec b.from_sec
    && eqb_ℤ a.from_usec b.from_usec
    && (eqb_ℤ a.to_sec b.to_sec && eqb_ℤ a.to_usec b.to_usec)
    && same_specs a.specs b.specs

-- `spec.pattern.empty() || spec.pattern == ".*"`
unfoldable pub matches_all : List ℕ → Bool
unfolding text_eq
matches_all [] = true
matches_all (c ∷ cs) = text_eq (c ∷ cs) (bytes ".*")

module _ (regex : List ℕ → Bool → Option (List ℕ → Bool)) where
  -- The loop of `Contains`; none where the constructor of a pattern throws.
  unfoldable pub any_spec : List ProdSpec → ProdInfo → Option Bool
  unfolding matches_all new_pattern is_match
  any_spec [] info = some false
  any_spec (spec ∷ specs) info =
      let rest = any_spec specs info in
      let tried : Option Bool = elim (new_pattern regex spec.pattern false) [
        | none ↦ none
        | some pat ↦ if is_match regex pat info.ident then some true else rest
      ] in
      if bit_and info.feedtype spec.feedtype == 0
      then rest
      else if matches_all spec.pattern
      then some true
      else tried

  unfoldable pub contains : ProdClass → ProdInfo → Option Bool
  unfolding any_spec
  contains c info =
      let sec = info.arrival.tv_sec in
      let usec = info.arrival.tv_usec in
      let searched : Option Bool = elim c.specs [
        | [] ↦ some true
        | spec ∷ specs ↦ any_spec (spec ∷ specs) info
      ] in
      if earlier sec usec c.from_sec c.from_usec
      then some false
      else if earlier c.to_sec c.to_usec sec usec
      then some false
      else searched

unfoldable pub valid_specs : List ProdSpec → List ProdSpec
valid_specs [] = []
valid_specs (sp ∷ specs) =
    let rest = valid_specs specs in if sp.feedtype == none_feed then rest else sp ∷ rest

unfoldable pub optimize : ProdClass → ProdClass
unfolding valid_specs
optimize c = record c { specs = valid_specs c.specs }

-- The inner loop of `Intersect`, for one spec wanted.
unfoldable pub meet_spec : ProdSpec → List ProdSpec → List ProdSpec
unfolding text_eq
meet_spec w [] = []
meet_spec w (f ∷ fs) =
    let both = bit_and f.feedtype w.feedtype in
    let rest = meet_spec w fs in
    if not (both == none_feed) && (text_eq f.pattern (bytes ".*") || text_eq f.pattern w.pattern)
    then record { feedtype = both; pattern = w.pattern } ∷ rest
    else rest

unfoldable pub meet_specs : List ProdSpec → List ProdSpec → List ProdSpec
unfolding meet_spec
meet_specs [] fs = []
meet_specs (w ∷ ws) fs = meet_spec w fs ++ meet_specs ws fs

-- `filt_is_any`
unfoldable pub is_any : List ProdSpec → Bool
unfolding text_eq
is_any [] = true
is_any (f ∷ []) = (f.feedtype == any_feed) && text_eq f.pattern (bytes ".*")
is_any (f ∷ g ∷ fs) = false

abbrev pub is_empty : List ProdSpec → Bool
is_empty [] = true
is_empty (p ∷ ps) = false

-- The two intervals of time do not meet.
abbrev pub apart : ProdClass → ProdClass → Bool
apart filt want =
    earlier want.to_sec want.to_usec filt.from_sec filt.from_usec
    || earlier filt.to_sec filt.to_usec want.from_sec want.from_usec

-- The later of the two starts and the earlier of the two ends.
unfoldable pub meet_times : ProdClass → ProdClass → ProdClass → ProdClass
meet_times filt want result =
    let late = earlier want.from_sec want.from_usec filt.from_sec filt.from_usec in
    let early = earlier filt.to_sec filt.to_usec want.to_sec want.to_usec in
    record result {
      from_sec = if late then filt.from_sec else want.from_sec;
      from_usec = if late then filt.from_usec else want.from_usec;
      to_sec = if early then filt.to_sec else want.to_sec;
      to_usec = if early then filt.to_usec else want.to_usec;
    }

-- `result` is the object that the caller hands over, and what is in it after.
unfoldable pub intersect : ProdClass → ProdClass → ProdClass → Bool × ProdClass
unfolding meet_times meet_specs is_any
intersect filt want result =
    let times = meet_times filt want result in
    let met = meet_specs want.specs filt.specs in
    if is_empty filt.specs && is_empty want.specs
    then (true, want)
    else if apart filt want
    then (false, result)
    else if is_any filt.specs
    then (true, record times { specs = want.specs })
    else (not (is_empty met), record times { specs = met })

unfoldable pub get_union_feedtype : List ProdSpec → Mask → Mask
get_union_feedtype [] ft = ft
get_union_feedtype (sp ∷ specs) ft = get_union_feedtype specs (bit_or ft sp.feedtype)

-- ===== src/Core/Pattern.antt =====
-- core/Pattern.h and .cpp: a regular expression behind a check for the pattern that matches all.
pub mod Sanitized
use rdm.Prelude.{
  ℕ, zero, suc, ◌≡◌, Bool, true, false, ◌&&◌, List, [], ◌∷◌, Option, none, some, ◌==◌, ltb,
  if◌then◌else◌, length,
}
use rdm.Prelude.Text.{bytes, text_eq}

-- `.*` is 46 and 42. The loop trims one `.*` for each round.
unfoldable pub sanitize_expression : List ℕ → List ℕ
sanitize_expression [] = []
sanitize_expression (a ∷ []) = a ∷ []
sanitize_expression (a ∷ b ∷ []) = a ∷ b ∷ []
sanitize_expression (a ∷ b ∷ c ∷ rest) =
    let trimmed = sanitize_expression (c ∷ rest) in
    if (a == 46) && (b == 42) then trimmed else a ∷ b ∷ c ∷ rest

pub record Pattern : Type 0 where
  pub ere : List ℕ
  pub ignore_case : Bool
  pub is_match_all : Bool

-- `std::regex`: the texts in which an expression is found, or none where the constructor throws.
module _ (regex : List ℕ → Bool → Option (List ℕ → Bool)) where
  -- The constructor, or none where it throws.
  unfoldable pub new_pattern : List ℕ → Bool → Option Pattern
  unfolding sanitize_expression text_eq
  new_pattern expr ignore_case =
      let ere = sanitize_expression expr in
      if text_eq expr (bytes ".*")
      then some (record { ere = bytes ".*"; ignore_case = ignore_case; is_match_all = true })
      else elim (regex ere ignore_case) [
        | none ↦ none
        | some found ↦ some (record { ere = ere; ignore_case = ignore_case; is_match_all = false })
      ]

  -- An expression that does not compile matches nothing.
  unfoldable pub is_match : Pattern → List ℕ → Bool
  is_match p target =
      let searched : Bool = elim (regex p.ere p.ignore_case) [
        | none ↦ false
        | some found ↦ found target
      ] in
      if p.is_match_all then true else searched

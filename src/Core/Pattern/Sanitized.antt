-- ===== src/Core/Pattern/Sanitized.antt =====
-- core/Pattern.cpp: what the constructor leaves of an expression.
use rdm.Prelude.{
  ℕ, zero, suc, ◌≡◌, refl, inl, inr, Bool-cases, ◌&&◌, List, [], ◌∷◌, ◌++◌, arith, ◌==◌, Bool, true,
  false,
}
use rdm.Core.Pattern.{sanitize_expression}

-- `n` times `.*`
unfoldable pub stars : ℕ → List ℕ
stars zero = []
stars (suc n) = 46 ∷ 42 ∷ stars n

-- A `.*` with something behind it.
unfoldable pub has_prefix : List ℕ → Bool
has_prefix [] = false
has_prefix (a ∷ []) = false
has_prefix (a ∷ b ∷ []) = false
has_prefix (a ∷ b ∷ c ∷ rest) = (a == 46) && (b == 42)

abbrev pub is_empty : List ℕ → Bool
is_empty [] = true
is_empty (a ∷ rest) = false

-- The constructor takes some number of `.*` from the front of the expression and nothing else.
-- What it leaves does not start with a `.*` that has something behind it, and is empty for the
-- empty expression only.
pub sanitize-trims :
    (e : List ℕ)
    → ((n : ℕ) × (e ≡ stars n ++ sanitize_expression e))
      × (has_prefix (sanitize_expression e) ≡ false)
      × (is_empty (sanitize_expression e) ≡ is_empty e)
unfolding sanitize_expression stars has_prefix
sanitize-trims [] = ((0, refl), refl, refl)
sanitize-trims (a ∷ []) = ((0, refl), refl, refl)
sanitize-trims (a ∷ b ∷ []) = ((0, refl), refl, refl)
sanitize-trims (a ∷ b ∷ c ∷ rest) = elim (Bool-cases ((a == 46) && (b == 42))) [
  | inl h ↦
      let trimmed = sanitize-trims (c ∷ rest) in
      let both : (a ≡ 46) × (b ≡ 42) = ground arith in
      rw (h) ((suc trimmed.0.0, λ i. both.0 i ∷ both.1 i ∷ trimmed.0.1 i), trimmed.1, trimmed.2)
  | inr h ↦ rw (h, h) ((0, refl), refl, refl)
]

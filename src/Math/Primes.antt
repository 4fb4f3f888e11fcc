-- ===== src/Math/Primes.antt =====
-- What `prevPrime` returns: a number that passes `isPrime`, which is at least 2, so that no hash
-- table has zero chains.
use rdm.Prelude.{
  ℕ, zero, suc, ◌-◌, ◌+◌, ◌%◌, ◌≤◌, ◌<◌, ◌≡◌, refl, ◌⊎◌, true, false, arith, Bool-cases, inl, inr,
  ◌==◌, if◌then◌else◌, leb, leb→le,
}
use native.Mathlib.Nat.{le_refl}
use rdm.Math.{is_prime, prev_prime_from, prev_prime}

-- No number below 2 passes.
pub is_prime_two-le : (n : ℕ) → is_prime n ≡ true → 2 ≤ n
unfolding is_prime
is_prime_two-le n h = elim (Bool-cases (leb n 1)) [
  | inl small ↦ absurd (no (rw small at h))
  | inr large ↦ ground arith
]
  where
    no : false ≡ true → ⊥
    no e = cc

three_passes : is_prime 3 ≡ true
unfolding is_prime
three_passes = refl

-- The loop stops at the largest number of the same parity that passes.
pub record Largest (n r : ℕ) : Type 0 where
  pub passes : is_prime r ≡ true
  pub below : r ≤ n
  pub skipped : (m : ℕ) → r < m → m ≤ n → m % 2 ≡ n % 2 → is_prime m ≡ false

prev_prime_from-Largest : (f n : ℕ) → n ≤ f → 3 ≤ n → n % 2 ≡ 1 → Largest n (prev_prime_from f n)
unfolding prev_prime_from
prev_prime_from-Largest zero n hf h3 odd = absurd (omega arith)
prev_prime_from-Largest (suc f) n hf h3 odd = elim (Bool-cases (is_prime n)) [
  | inl pass ↦
      rw (pass, positive)
        (record {
          passes = pass;
          below = omega arith;
          skipped = λ m lo hi par. absurd (omega arith);
        })
  | inr fail ↦
      rw (fail, positive)
        (longer fail
          (prev_prime_from-Largest f (n - 2) (omega arith) (at_least_five fail) (omega arith)))
]
  where
    positive : (n == 0) ≡ false
    positive = ground arith

    at_least_five : is_prime n ≡ false → 3 ≤ n - 2
    at_least_five fail = ground (arith, three_passes)

    longer : {r : ℕ} → is_prime n ≡ false → Largest (n - 2) r → Largest n r
    longer {r} fail l = record {
      passes = l.passes;
      below = omega (arith, l.below);
      skipped = λ m lo hi par. ground (arith, l.skipped m);
    }

-- `prevPrime(n)` passes `isPrime`, is at least 2, and from 3 on is the last number up to `n` that
-- passes.
pub record IsPrevPrime (n r : ℕ) : Type 0 where
  pub passes : is_prime r ≡ true
  pub two_le : 2 ≤ r
  pub below : 2 ≤ n → r ≤ n
  pub skipped : (m : ℕ) → 2 < m → r < m → m ≤ n → is_prime m ≡ false

even_fails : (m : ℕ) → 2 < m → m % 2 ≡ 0 → is_prime m ≡ false
unfolding is_prime
even_fails m h even = ground arith

-- From the odd number `m` that the loop starts at to `n`.
finish :
    (n m : ℕ) {r : ℕ}
    → 2 < n
    → m ≤ n
    → ((n ≡ m) ⊎ ((n ≡ m + 1) × (n % 2 ≡ 0))) × (m % 2 ≡ 1)
    → Largest m r
    → IsPrevPrime n r
finish n m {r} h le start l = record {
  passes = l.passes;
  two_le = is_prime_two-le r l.passes;
  below = λ _. omega (arith, l.below);
  skipped = λ k two lo hi. ground (arith, even_fails k, even_fails n, l.skipped k);
}

pub prev_prime-IsPrevPrime : (n : ℕ) → IsPrevPrime n (prev_prime n)
unfolding prev_prime
prev_prime-IsPrevPrime n = elim (Bool-cases (leb n 2)) [
  | inl small ↦ rw small (record {
    passes = unfold is_prime in refl;
    two_le = omega arith;
    below = λ h. h;
    skipped = λ m lo hi le. absurd (omega (arith, leb→le n 2 small));
  })
  | inr large ↦ rw large (
      finish n (if n % 2 == 0 then n - 1 else n) (ground arith) (ground arith) (ground arith)
        (prev_prime_from-Largest _ _ (le_refl _) (ground arith) (ground arith)))
]

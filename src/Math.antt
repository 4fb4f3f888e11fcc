-- ===== src/Math.antt =====
-- core/MathUtil.h: trial division, and the prime below a number that sizes the hash tables.
pub mod Primes
use rdm.Prelude.{
  ℕ, zero, suc, ◌-◌, ◌+◌, ◌*◌, ◌%◌, Bool, true, false, ◌&&◌, ◌||◌, not, leb, ◌==◌, if◌then◌else◌,
}

-- `for (unsigned long d = 23; d*d <= n; d += 2) if (n % d == 0) return false;`
unfoldable pub trial : ℕ → ℕ → ℕ → Bool
trial zero d n = true
trial (suc f) d n =
    let rest = trial f (d + 2) n in
    if leb (d * d) n then (if n % d == 0 then false else rest) else true

unfoldable pub is_prime : ℕ → Bool
is_prime n =
    if leb n 1
    then false
    else if leb n 19
    then n == 2 || n == 3 || n == 5 || n == 7 || n == 11 || n == 13 || n == 17 || n == 19
    else if n % 2 == 0
        || n % 3 == 0
        || n % 5 == 0
        || n % 7 == 0
        || n % 11 == 0
        || n % 13 == 0
        || n % 17 == 0
        || n % 19 == 0
    then false
    else trial n 23 n

-- `while (n > 0) { if (isPrime(n)) return n; n -= 2; } return 0;` at an odd `n`: 1 - 2 wraps, but
-- the loop returns before, at 3 at the latest. The fuel is more than the rounds.
unfoldable pub prev_prime_from : ℕ → ℕ → ℕ
prev_prime_from zero n = 0
prev_prime_from (suc f) n =
    let rest = prev_prime_from f (n - 2) in if n == 0 then 0 else if is_prime n then n else rest

unfoldable pub prev_prime : ℕ → ℕ
unfolding prev_prime_from
prev_prime n = if leb n 2 then 2 else let m = if n % 2 == 0 then n - 1 else n in prev_prime_from m m

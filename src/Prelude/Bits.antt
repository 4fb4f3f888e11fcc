-- ===== src/Prelude/Bits.antt =====
-- The laws of `&` and `|` on words that the feed-type masks need, from their binary digits.
use Prim.Native.Nat.{
  ℕ, zero, suc, ◌+◌, ◌-◌, ◌^◌, ◌*◌, ◌/◌, ◌%◌, ◌≤◌, ◌<◌, min, max, bit_and, bit_or, digits,
  bit_and-bitwise, bit_or-bitwise,
}
use mathlib.Core.Path.{◌≡◌, refl, ap, ◌∙◌}
use mathlib.Core.Bool.{Bool, true, false, ◌&&◌, ◌||◌, not}
use native.Mathlib.Nat.{le_refl, pow-suc}
use native.Mathlib.Omega.{arith}
use rdm.Prelude.{◌==◌}

-- Digit `i` of a number, from the lowest.
unfoldable pub bit : ℕ → ℕ → Bool
bit zero a = a % 2 == 1
bit (suc i) a = bit i (a / 2)

pub bit-zero : (i : ℕ) → bit i 0 ≡ false
unfolding bit
bit-zero zero = refl
bit-zero (suc i) = bit-zero i

-- An operation on binary digits: `f` on the digits, and `z` where the first number has run out.
module _ (z : ℕ → ℕ) (f : ℕ → ℕ → ℕ) (g : Bool → Bool → Bool)
    (on_rest : (i b : ℕ) → bit i (z b) ≡ g false (bit i b))
    (on_digit : (x y : ℕ) → x < 2 → y < 2 → (f x y < 2) × ((f x y == 1) ≡ g (x == 1) (y == 1)))
    (on_size : (b : ℕ) → z b ≤ b) where
  bit-zero_left : (i b : ℕ) → bit i (z b) ≡ g (bit i 0) (bit i b)
  bit-zero_left i b = rw (bit-zero i) (on_rest i b)

  bit-digits : (i fuel a b : ℕ) → a ≤ fuel → bit i (digits z f fuel a b) ≡ g (bit i a) (bit i b)
  unfolding bit
  bit-digits i zero zero b h = bit-zero_left i b
  bit-digits i zero (suc a) b h = elim h [ ]
  bit-digits i (suc fuel) zero b h = bit-zero_left i b
  bit-digits zero (suc fuel) (suc a) b h = ground (arith, on_digit (suc a % 2) (b % 2))
  bit-digits (suc i) (suc fuel) (suc a) b h =
      let rest = digits z f fuel (suc a / 2) (b / 2) in
      let halved : (rest * 2 + f (suc a % 2) (b % 2)) / 2 ≡ rest =
        omega (arith, (on_digit (suc a % 2) (b % 2) (omega arith) (omega arith)).0) in
      rw halved (bit-digits i fuel (suc a / 2) (b / 2) (omega arith))

  digits-lt : (w fuel a b : ℕ) → a < 2 ^ w → b < 2 ^ w → digits z f fuel a b < 2 ^ w
  digits-lt w zero zero b ha hb = omega (arith, on_size b)
  digits-lt w zero (suc a) b ha hb = omega (arith, on_size b)
  digits-lt w (suc fuel) zero b ha hb = omega (arith, on_size b)
  digits-lt zero (suc fuel) (suc a) b ha hb = absurd (omega arith)
  digits-lt (suc w) (suc fuel) (suc a) b ha hb = omega (
    arith,
    pow-suc 2 w,
    (on_digit (suc a % 2) (b % 2) (omega arith) (omega arith)).0,
    digits-lt w fuel (suc a / 2) (b / 2) (omega (arith, pow-suc 2 w)) (omega (arith, pow-suc 2 w)),
  )

and_rest : (i b : ℕ) → bit i 0 ≡ (false && bit i b)
and_rest i b = bit-zero i

and_digit : (x y : ℕ) → x < 2 → y < 2 → (min x y < 2) × ((min x y == 1) ≡ ((x == 1) && (y == 1)))
and_digit x y hx hy = ground arith

or_rest : (i b : ℕ) → bit i b ≡ (false || bit i b)
or_rest i b = refl

or_digit : (x y : ℕ) → x < 2 → y < 2 → (max x y < 2) × ((max x y == 1) ≡ ((x == 1) || (y == 1)))
or_digit x y hx hy = ground arith

pub bit-and : (i a b : ℕ) → bit i (bit_and a b) ≡ (bit i a && bit i b)
bit-and i a b =
    rw bit_and-bitwise
      (bit-digits (λ _. 0) min ◌&&◌ and_rest and_digit (λ b. omega arith) i a a b (le_refl a))

pub bit-or : (i a b : ℕ) → bit i (bit_or a b) ≡ (bit i a || bit i b)
bit-or i a b =
    rw bit_or-bitwise
      (bit-digits (λ y. y) max ◌||◌ or_rest or_digit (λ b. le_refl b) i a a b (le_refl a))

pub bit_and-lt : (w a b : ℕ) → a < 2 ^ w → b < 2 ^ w → bit_and a b < 2 ^ w
bit_and-lt w a b ha hb =
    rw bit_and-bitwise
      (digits-lt (λ _. 0) min ◌&&◌ and_rest and_digit (λ b. omega arith) w a a b ha hb)

pub bit_or-lt : (w a b : ℕ) → a < 2 ^ w → b < 2 ^ w → bit_or a b < 2 ^ w
bit_or-lt w a b ha hb =
    rw bit_or-bitwise (digits-lt (λ y. y) max ◌||◌ or_rest or_digit (λ b. le_refl b) w a a b ha hb)

-- The complement of a word of `w` bits.
unfoldable pub flip : ℕ → ℕ → ℕ
flip w a = 2 ^ w - 1 - a

pub bit-flip : (w i a : ℕ) → i < w → a < 2 ^ w → bit i (flip w a) ≡ not (bit i a)
unfolding bit flip
bit-flip zero i a h f = absurd (omega arith)
bit-flip (suc w) zero a h f = ground (arith, pow-suc 2 w)
bit-flip (suc w) (suc i) a h f =
    let halves : (2 ^ suc w - 1 - a) / 2 ≡ 2 ^ w - 1 - a / 2 = omega (arith, pow-suc 2 w) in
    rw halves (bit-flip w i (a / 2) (omega arith) (omega (arith, pow-suc 2 w)))

-- A number is its digits.
pub eq_of_bits : (w a b : ℕ) → a < 2 ^ w → b < 2 ^ w → ((i : ℕ) → i < w → bit i a ≡ bit i b) → a ≡ b
unfolding bit
eq_of_bits zero a b ha hb h = omega arith
eq_of_bits (suc w) a b ha hb h =
    let rest : a / 2 ≡ b / 2 =
      eq_of_bits w (a / 2) (b / 2) (omega (arith, pow-suc 2 w)) (omega (arith, pow-suc 2 w))
        (λ i p. h (suc i) (omega arith)) in
    ground (arith, rest, h 0 (omega arith))

lt-pow : (n : ℕ) → n < 2 ^ n
lt-pow zero = omega arith
lt-pow (suc n) = omega (arith, pow-suc 2 n, lt-pow n)

pow-le : (a b c : ℕ) → c ≡ a + b → 2 ^ a ≤ 2 ^ c
pow-le zero b c e = omega (arith, lt-pow c)
pow-le (suc a) b zero e = absurd (omega arith)
pow-le (suc a) b (suc c) e = omega (arith, pow-suc 2 a, pow-suc 2 c, pow-le a b c (omega arith))

pub eq_of_all_bits : (a b : ℕ) → ((i : ℕ) → bit i a ≡ bit i b) → a ≡ b
eq_of_all_bits a b h =
    eq_of_bits (a + b) a b (omega (arith, lt-pow a, pow-le a b (a + b) refl))
      (omega (arith, lt-pow b, pow-le b a (a + b) (omega arith))) (λ i p. h i)

and_assoc : (x y z : Bool) → ((x && y) && z) ≡ (x && (y && z))
and_assoc x y z = ground arith

and_comm : (x y : Bool) → (x && y) ≡ (y && x)
and_comm x y = ground arith

and_true : (x : Bool) → (x && true) ≡ x
and_true x = ground arith

pub bit_and_assoc : (a b c : ℕ) → bit_and (bit_and a b) c ≡ bit_and a (bit_and b c)
bit_and_assoc a b c =
    eq_of_all_bits (bit_and (bit_and a b) c) (bit_and a (bit_and b c))
      (λ i. simp bit-and (and_assoc (bit i a) (bit i b) (bit i c)))

pub bit_and_comm : (a b : ℕ) → bit_and a b ≡ bit_and b a
bit_and_comm a b =
    eq_of_all_bits (bit_and a b) (bit_and b a) (λ i. simp bit-and (and_comm (bit i a) (bit i b)))

pub bit_and-zero : (a : ℕ) → bit_and 0 a ≡ 0
bit_and-zero a = eq_of_all_bits (bit_and 0 a) 0 (λ i. rw (bit-and, bit-zero) refl)

-- All bits of a word of 32 bits.
pub bit_and-ones : (a : ℕ) → a < 2 ^ 32 → bit_and a 0xffffffff ≡ a
unfolding flip
bit_and-ones a h =
    let ones : (i : ℕ) → i < 32 → bit i 0xffffffff ≡ true =
      λ i p. bit-flip 32 i 0 p (omega arith) ∙ ap not (bit-zero i) in
    eq_of_bits 32 (bit_and a 0xffffffff) a (bit_and-lt 32 a 0xffffffff h (omega arith)) h
      (λ i p. rw (bit-and, ones i p) (and_true (bit i a)))

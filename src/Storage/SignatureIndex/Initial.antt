-- ===== src/Storage/SignatureIndex/Initial.antt =====
-- A freshly initialised signature table.
use rdm.Prelude.{
  ℕ, zero, suc, ◌+◌, ◌/◌, ◌<◌, ◌≡◌, refl, subst, true, false, List, [], ◌∷◌, arith, ◌==◌,
  if◌then◌else◌, length, get_or, replicate, length-replicate, get_or-replicate, total-replicate,
}
use rdm.Prelude.Links.{has, Linked}
use rdm.Math.Primes.{prev_prime-IsPrevPrime}
use rdm.Storage.SignatureIndex.{hash, sx_none, init_elements, initialize, calc_nchains}
use rdm.Storage.SignatureIndex.Chains.{next_of, offsets}
use rdm.Storage.SignatureIndex.Valid.{chain}
use rdm.Storage.SignatureIndex.Contents.{Models}

length-init_elements : (n isx : ℕ) → length (init_elements n isx) ≡ n
unfolding init_elements
length-init_elements zero isx = refl
length-init_elements (suc zero) isx = refl
length-init_elements (suc (suc n)) isx = omega (arith, length-init_elements (suc n) (isx + 1))

-- Each element is linked to the one behind it.
next-init_elements :
    (n isx j : ℕ)
    → j < n
    → next_of (init_elements n isx) j ≡ (if j + 1 == n then sx_none else isx + j)
unfolding init_elements
next-init_elements zero isx j h = absurd (omega arith)
next-init_elements (suc zero) isx zero h = refl
next-init_elements (suc zero) isx (suc j) h = absurd (omega arith)
next-init_elements (suc (suc n)) isx zero h = ground arith
next-init_elements (suc (suc n)) isx (suc j) h =
    ground (arith, next-init_elements (suc n) (isx + 1) j)

up_from : ℕ → ℕ → List ℕ
up_from k zero = []
up_from k (suc m) = k ∷ up_from (k + 1) m

length-up_from : (k m : ℕ) → length (up_from k m) ≡ m
unfolding up_from
length-up_from k zero = refl
length-up_from k (suc m) = omega (arith, length-up_from (k + 1) m)

has-up_from : (j k m : ℕ) → j < k → has j (up_from k m) ≡ false
unfolding up_from
has-up_from j k zero h = refl
has-up_from j k (suc m) h = ground (arith, has-up_from j (k + 1) m)

module _ (n : ℕ) (next : ℕ → ℕ)
    (links : (j : ℕ) → j < n → next j ≡ (if j + 1 == n then sx_none else 1 + j)) where
  up_from-Linked : (m k : ℕ) → k + suc m ≡ n → Linked next n sx_none k (up_from k (suc m))
  unfolding up_from
  up_from-Linked zero k e = (refl, omega arith, refl, ground (arith, links k))
  up_from-Linked (suc m) k e = (
    refl,
    omega arith,
    has-up_from k (k + 1) (suc m) (omega arith),
    subst (λ p. Linked next n sx_none p (up_from (k + 1) (suc m))) (ground (arith, links k))
        (up_from-Linked m (k + 1) (omega arith)),
  )

chains_positive : (n : ℕ) → 0 < calc_nchains n
unfolding calc_nchains
chains_positive n = omega (arith, (prev_prime-IsPrevPrime (n / 4)).two_le)

abbrev no_cells : List ℕ
no_cells = []

empty_chain :
    (k n : ℕ) (next : ℕ → ℕ) (h : ℕ)
    → Linked next n sx_none (get_or (replicate k sx_none) h sx_none) (chain (replicate k []) h)
empty_chain k n next h = rw (get_or-replicate k h no_cells) (get_or-replicate k h sx_none)

none_in : (k h i : ℕ) → has i (chain (replicate k []) h) ≡ true → ⊥
none_in k h i e = cc (get_or-replicate k h no_cells)

-- `Initialize` builds an empty table, for any number of elements but zero.
pub initialize-Models : (n : ℕ) → 0 < n → n < sx_none → Models (λ _. []) (initialize n)
initialize-Models zero pos fits = elim pos [ ]
initialize-Models (suc n) pos fits = record {
  free = up_from 0 (suc n);
  cs = replicate (calc_nchains (suc n)) [];
  layout =
      unfold initialize in
      (record {
        magic = refl;
        nonempty = pos;
        fits = fits;
        elements = length-init_elements (suc n) 1;
        slots = length-replicate (calc_nchains (suc n)) sx_none;
        some_chain = chains_positive (suc n);
        widths = length-replicate (calc_nchains (suc n)) [];
        free_linked =
            up_from-Linked (suc n) (next_of (init_elements (suc n) 1))
              (next-init_elements (suc n) 1) n 0 (omega arith);
        free_count = length-up_from 0 (suc n);
        linked = λ h hh.
            empty_chain (calc_nchains (suc n)) (suc n) (next_of (init_elements (suc n) 1)) h;
        counted = total-replicate ℕ (calc_nchains (suc n));
        all = omega arith;
        homes = λ h i e. absurd (none_in (calc_nchains (suc n)) h i e);
        apart = λ h i e. rw (get_or-replicate (calc_nchains (suc n)) h (no_cells));
      });
  reads = λ q.
      rw (get_or-replicate (calc_nchains (suc n)) (hash (initialize (suc n)) q) no_cells)
        (unfold offsets in refl);
}

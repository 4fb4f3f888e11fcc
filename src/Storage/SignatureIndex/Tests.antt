-- ===== src/Storage/SignatureIndex/Tests.antt =====
-- Runs of the signature table, and its theorems at concrete tables.
use rdm.Prelude.{ℕ, ◌≡◌, refl, Bool, true, [], ◌∷◌, Option, none, some, arith}
use rdm.Prelude.Int.{pos}
use rdm.Prelude.Run.{Run, ok, ◌>>=◌}
use rdm.Math.{prev_prime, is_prime}
use rdm.Math.Primes.{IsPrevPrime, prev_prime-IsPrevPrime}
use rdm.Storage.SignatureIndex.{
  Signature, SignatureIndex, initialize, hash_bytes, find, add, remove, same, hash, find_from,
}
use rdm.Storage.SignatureIndex.Contents.{
  Models, Answers, find-Answers, add-full, Adds, add-Adds, push,
}
use rdm.Storage.SignatureIndex.Initial.{initialize-Models}
use rdm.Storage.SignatureIndex.Removal.{Removes, remove-Removes}

abbrev first_sig : Signature
first_sig = 1 ∷ 2 ∷ 3 ∷ 4 ∷ 5 ∷ 6 ∷ 7 ∷ 8 ∷ 9 ∷ 10 ∷ 11 ∷ 12 ∷ 13 ∷ 14 ∷ 15 ∷ 16 ∷ []

-- The same first four bytes, so the same chain.
abbrev second_sig : Signature
second_sig = 1 ∷ 2 ∷ 3 ∷ 4 ∷ 0 ∷ 0 ∷ 0 ∷ 0 ∷ 0 ∷ 0 ∷ 0 ∷ 0 ∷ 0 ∷ 0 ∷ 0 ∷ 0 ∷ []

hash_of_first : hash_bytes first_sig ≡ 0x01020304
unfolding hash_bytes
hash_of_first = refl

-- Two signatures of one chain, then the deeper one removed.
abbrev session : Run (Bool × Option ℕ × Option ℕ × ℕ)
session = do
  (_, s₁) ← add (initialize 8) first_sig (pos 100)
  (_, s₂) ← add s₁ second_sig (pos 200)
  (gone, s₃) ← remove s₂ first_sig
  a ← find s₃ first_sig
  b ← find s₃ second_sig
  ok (gone, a, b, s₃.nelems)

session_ends : session ≡ ok (true, none, some 1, 1)
unfolding initialize find_from find add remove hash_bytes hash same prev_prime is_prime
session_ends = refl

initialize-Models_example : Models (λ _. []) (initialize 8)
initialize-Models_example = initialize-Models 8 (omega arith) (omega arith)

abbrev fresh : SignatureIndex
fresh = initialize 8

add-Adds_example :
    (i : ℕ) × (t : SignatureIndex) × (add fresh first_sig (pos 100) ≡ ok (some i, t))
    × Adds initialize-Models_example first_sig (pos 100) i t
add-Adds_example =
    add-Adds initialize-Models_example first_sig (pos 100) (unfold initialize in (omega arith))

abbrev filled : SignatureIndex
filled = add-Adds_example.1

filled-Models : Models (push (λ _. []) first_sig (pos 100)) filled
filled-Models = add-Adds_example.3.models

find-Answers_example :
    (r : Option ℕ) × (find filled first_sig ≡ ok r) × Answers filled first_sig (pos 100 ∷ []) r
unfolding same
find-Answers_example = find-Answers filled-Models first_sig

remove-Removes_example :
    (b : Bool) × (t : SignatureIndex) × (remove filled first_sig ≡ ok (b, t))
    × Removes filled-Models first_sig b t
remove-Removes_example = remove-Removes filled-Models first_sig

prev_prime-IsPrevPrime_example : IsPrevPrime 25 (prev_prime 25)
prev_prime-IsPrevPrime_example = prev_prime-IsPrevPrime 25

single-Models : Models (λ _. []) (initialize 1)
single-Models = initialize-Models 1 (omega arith) (omega arith)

last_add :
    (i : ℕ) × (t : SignatureIndex) × (add (initialize 1) first_sig (pos 100) ≡ ok (some i, t))
    × Adds single-Models first_sig (pos 100) i t
last_add = add-Adds single-Models first_sig (pos 100) (unfold initialize in (omega arith))

abbrev full_table : SignatureIndex
full_table = last_add.1

full_nfree : full_table.nfree ≡ 0
unfolding initialize
full_nfree = omega (arith, last_add.3.models.layout.all, last_add.3.counted, last_add.3.sized)

add-full_example : add full_table second_sig (pos 200) ≡ ok (none, full_table)
add-full_example = add-full last_add.3.models second_sig (pos 200) full_nfree

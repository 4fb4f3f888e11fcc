-- ===== src/Storage/SignatureIndex/Chains.antt =====
-- One chain of the signature table: what `Find` and `Remove` do along it.
use Prim.Native.Nat.{◌<◌}
use rdm.Prelude.{
  ℕ, zero, suc, ◌+◌, ◌≡◌, refl, true, false, List, [], ◌∷◌, Option, none, some, arith, ◌==◌,
  if◌then◌else◌, length, get_or,
}
use rdm.Prelude.Int.{ℤ}
use rdm.Prelude.Links.{has, Linked}
use rdm.Prelude.Run.{ok, at-get_or}
use rdm.Storage.SignatureIndex.{Signature, SignatureElement, same, sx_none, off_none, find_from}

abbrev pub blank : SignatureElement
blank = record { sxi = []; offset = off_none; next = sx_none }

abbrev pub elem_of : List SignatureElement → ℕ → SignatureElement
elem_of e i = get_or e i blank

abbrev pub next_of : List SignatureElement → ℕ → ℕ
next_of e i = (elem_of e i).next

-- The first element of a chain that holds the signature.
unfoldable pub find_in : List SignatureElement → Signature → List ℕ → Option ℕ
find_in e sig [] = none
find_in e sig (i ∷ is) = if same sig (elem_of e i).sxi then some i else find_in e sig is

-- The offsets that a chain holds under a signature, the latest first.
unfoldable pub offsets : List SignatureElement → Signature → List ℕ → List ℤ
offsets e q [] = []
offsets e q (i ∷ is) =
    if same q (elem_of e i).sxi then (elem_of e i).offset ∷ offsets e q is else offsets e q is

abbrev pub erase : ℕ → List ℕ → List ℕ
erase m [] = []
erase m (i ∷ is) = if i == m then is else i ∷ erase m is

pub same_iff : (a b : Signature) → same a b ≡ true → a ≡ b
unfolding same
same_iff [] [] h = refl
same_iff [] (b ∷ bs) h = cc
same_iff (a ∷ r) [] h = cc
same_iff (a ∷ r) (b ∷ bs) h = ground (arith, same_iff r bs)

pub same_refl : (a : Signature) → same a a ≡ true
unfolding same
same_refl [] = refl
same_refl (a ∷ r) = ground (arith, same_refl r)

pub find_from-find_in :
    (f : ℕ) (e : List SignatureElement) (sig : Signature) (n p : ℕ) (is : List ℕ)
    → length e ≡ n
    → n < sx_none
    → length is < f
    → Linked (next_of e) n sx_none p is
    → find_from f e sig p ≡ ok (find_in e sig is)
unfolding find_from find_in
find_from-find_in zero e sig n p is len fits fuel h = absurd (omega arith)
find_from-find_in (suc f) e sig n p [] len fits fuel h = ground arith
find_from-find_in (suc f) e sig n p (i ∷ is) len fits fuel h = ground (
  arith,
  at-get_or e i blank,
  find_from-find_in f e sig n (next_of e i) is len fits (omega arith) h.3,
)

pub find_in-has :
    (e : List SignatureElement) (sig : Signature) (m : ℕ) (is : List ℕ)
    → find_in e sig is ≡ some m
    → has m is ≡ true
unfolding find_in
find_in-has e sig m [] h = cc
find_in-has e sig m (i ∷ is) h = ground (arith, find_in-has e sig m is)

pub has-erase : (j m : ℕ) (is : List ℕ) → has j is ≡ false → has j (erase m is) ≡ false
has-erase j m [] h = refl
has-erase j m (i ∷ is) h = ground (arith, has-erase j m is)

pub length-erase : (m : ℕ) (is : List ℕ) → has m is ≡ true → length (erase m is) + 1 ≡ length is
length-erase m [] h = cc
length-erase m (i ∷ is) h = ground (arith, length-erase m is)

-- In a list of different cells the erased one is gone.
pub has-erase_self :
    (next : ℕ → ℕ) (n stop p m : ℕ) (is : List ℕ)
    → Linked next n stop p is
    → has m (erase m is) ≡ false
has-erase_self next n stop p m [] h = refl
has-erase_self next n stop p m (i ∷ is) h =
    ground (arith, has-erase_self next n stop (next i) m is h.3)

-- The offsets without the first element that holds the signature.
abbrev pub tail : List ℤ → List ℤ
tail [] = []
tail (x ∷ xs) = xs

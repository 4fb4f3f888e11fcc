-- ===== src/Storage/SignatureIndex/Behead.antt =====
-- `SignatureIndex::Remove` where the head of the chain holds the signature.
use rdm.Prelude.{
  ℕ, ◌+◌, ◌-◌, ◌<◌, ◌≡◌, refl, true, List, ◌∷◌, arith, ◌==◌, if◌then◌else◌, length, set, get_or-set,
  length-set,
}
use rdm.Prelude.Run.{ok, at-get_or}
use rdm.Storage.SignatureIndex.{SignatureIndex, off_none, unlink_head, free_element}
use rdm.Storage.SignatureIndex.Chains.{elem_of, next_of, blank}
use rdm.Storage.SignatureIndex.Unlink.{Freed}

module _ (s : SignatureIndex) (h i : ℕ) where
  -- The state that `unlink_head` leaves.
  unfoldable pub beheaded : SignatureIndex
  beheaded = record s {
    chains = set s.chains h (next_of s.sxep i);
    sxep = set s.sxep i (record (elem_of s.sxep i) { offset = off_none; next = s.free_head });
    free_head = i;
    nfree = s.nfree + 1;
    nelems = s.nelems - 1;
  }

  pub elem-beheaded :
      (j : ℕ)
      → i < length s.sxep
      → elem_of beheaded.sxep j ≡ (
          if i == j
          then record (elem_of s.sxep i) { offset = off_none; next = s.free_head }
          else elem_of s.sxep j)
  unfolding beheaded
  elem-beheaded j hi =
      get_or-set s.sxep i j (record (elem_of s.sxep i) { offset = off_none; next = s.free_head })
        blank hi

  pub unlink_head-eq :
      i < length s.sxep → unlink_head s h (elem_of s.sxep i) i ≡ ok (true, beheaded)
  unfolding unlink_head beheaded free_element
  unlink_head-eq hi = ground (arith, at-get_or s.sxep i blank)

  pub beheaded-Freed : (is : List ℕ) → i < length s.sxep → Freed s i (i ∷ is) beheaded
  beheaded-Freed is hi = record {
    magic = unfold beheaded in refl;
    nalloc = unfold beheaded in refl;
    nchains = unfold beheaded in refl;
    free_head = unfold beheaded in refl;
    nfree = unfold beheaded in refl;
    nelems = unfold beheaded in refl;
    elements = unfold beheaded in (simp length-set);
    sigs = λ j. ground (arith, elem-beheaded j);
    offs = λ j e. ground (arith, elem-beheaded j);
    nexts = λ j e. ground (arith, elem-beheaded j);
    next_freed = ground (arith, elem-beheaded i);
  }

-- ===== src/Storage/SignatureIndex/Valid.antt =====
-- The invariant of the signature table: every chain and the free list are linked lists without
-- end other than `SX_NONE`, they share no element, and the counters agree with them.
use rdm.Prelude.{
  ℕ, ◌+◌, ◌%◌, ◌<◌, ◌≡◌, inl, inr, Bool-cases, ==_iff, true, false, List, [], ◌∷◌, arith, ◌==◌,
  length, get_or, set, get_or-set, length-set, total, total-set, length-le-total,
}
use rdm.Prelude.Links.{has, Linked, Linked-frame, Linked-cast, has-lt}
use rdm.Storage.SignatureIndex.{Signature, SignatureIndex, hash_bytes, hash, sx_none, sx_magic}
use rdm.Storage.SignatureIndex.Chains.{
  elem_of, next_of, erase, has-erase, length-erase, has-erase_self,
}
use rdm.Storage.SignatureIndex.Unlink.{Freed}

abbrev pub heads : SignatureIndex → ℕ → ℕ
heads s h = get_or s.chains h sx_none

abbrev pub chain : List (List ℕ) → ℕ → List ℕ
chain cs h = get_or cs h []

-- `free` are the cells of the free list, and the list `h` of `cs` those of chain `h`.
pub record Layout (s : SignatureIndex) (free : List ℕ) (cs : List (List ℕ)) : Type 0 where
  pub magic : s.magic ≡ sx_magic
  pub nonempty : 0 < s.nalloc
  pub fits : s.nalloc < sx_none
  pub elements : length s.sxep ≡ s.nalloc
  pub slots : length s.chains ≡ s.nchains
  pub some_chain : 0 < s.nchains
  pub widths : length cs ≡ s.nchains
  pub free_linked : Linked (next_of s.sxep) s.nalloc sx_none s.free_head free
  pub free_count : length free ≡ s.nfree
  pub linked :
      (h : ℕ) → h < s.nchains → Linked (next_of s.sxep) s.nalloc sx_none (heads s h) (chain cs h)
  pub counted : total cs ≡ s.nelems
  pub all : s.nfree + s.nelems ≡ s.nalloc
  pub homes :
      (h i : ℕ) → has i (chain cs h) ≡ true → hash_bytes (elem_of s.sxep i).sxi % s.nchains ≡ h
  pub apart : (h i : ℕ) → has i free ≡ true → has i (chain cs h) ≡ false

-- Element `m` leaves chain `h` for the free list.
pub Freed-Layout :
    (s t : SignatureIndex) (free : List ℕ) (cs : List (List ℕ)) (h m : ℕ)
    → Layout s free cs
    → h < s.nchains
    → has m (chain cs h) ≡ true
    → Freed s m (chain cs h) t
    → length t.chains ≡ s.nchains
    → ((k : ℕ) → (h == k) ≡ false → heads t k ≡ heads s k)
    → Linked (next_of t.sxep) s.nalloc sx_none (heads t h) (erase m (chain cs h))
    → Layout t (m ∷ free) (set cs h (erase m (chain cs h)))
Freed-Layout s t free cs h m v hh hm u slots same_heads here = record {
  magic = ground arith;
  nonempty = ground arith;
  fits = ground arith;
  elements = ground arith;
  slots = ground arith;
  some_chain = ground arith;
  widths = ground (arith, length-set cs h (erase m (chain cs h)));
  free_linked =
      Linked-cast (next_of t.sxep) s.nalloc t.nalloc sx_none t.free_head (m ∷ free) u.nalloc (
        u.free_head,
        has-lt (next_of s.sxep) s.nalloc sx_none (heads s h) m (chain cs h) (v.linked h hh) hm,
        ground (arith, v.apart h m),
        rw u.next_freed (
            Linked-frame (next_of s.sxep) (next_of t.sxep) s.nalloc sx_none s.free_head free
              (λ i e. u.nexts i (v.apart h i e)) v.free_linked),
      );
  free_count = ground arith;
  linked = λ k hk. Linked-cast (next_of t.sxep) s.nalloc t.nalloc sx_none (heads t k) _ u.nalloc (
      rw (get_or-set cs h k (erase m (chain cs h)) [] (rw v.widths hh)) elim (Bool-cases (h == k)) [
        | inl e ↦ rw (e, ← (==_iff h k).0 e) here
        | inr e ↦
            rw (e, same_heads k e)
              (Linked-frame (next_of s.sxep) (next_of t.sxep) s.nalloc sx_none (heads s k)
                (chain cs k) (λ i q. u.nexts i (ground (arith, v.homes k i q, v.homes h i)))
                (v.linked k (rw (← u.nchains) hk)))
      ]);
  counted = omega (
    arith,
    total-set cs h (erase m (chain cs h)),
    length-erase m (chain cs h) hm,
    u.nelems,
    v.counted,
    length-le-total cs h,
    v.widths,
  );
  all = omega (
    arith,
    u.nfree,
    u.nelems,
    u.nalloc,
    v.all,
    v.counted,
    length-le-total cs h,
    length-erase m (chain cs h) hm,
  );
  homes = λ k i e. ground (
    arith,
    u.sigs i,
    u.nchains,
    get_or-set cs h k (erase m (chain cs h)) [],
    has-erase i m (chain cs h),
    v.homes k i,
  );
  apart = λ k i e. ground (
    arith,
    get_or-set cs h k (erase m (chain cs h)) [],
    has-erase i m (chain cs h),
    has-erase_self (next_of s.sxep) s.nalloc sx_none (heads s h) m (chain cs h) (v.linked h hh),
    v.apart k i,
    v.homes k m,
    v.homes h m,
  );
}

pub hash-lt : (s : SignatureIndex) (sig : Signature) → 0 < s.nchains → hash s sig < s.nchains
unfolding hash
hash-lt s sig h = omega arith

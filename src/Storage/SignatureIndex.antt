-- ===== src/Storage/SignatureIndex.antt =====
-- storage/pq/SignatureIndex.h and .cpp: the hash table from signatures to product offsets. The
-- elements and the heads of the chains are arrays that follow one another in the mapped file; the
-- free elements form one more list through the same `next` fields.
pub mod Chains
pub mod Unlink
pub mod Valid
pub mod Insert
pub mod Contents
pub mod Behead
pub mod Removal
pub mod Initial
mod Tests
use rdm.Prelude.{
  ℕ, zero, suc, ◌+◌, ◌-◌, ◌*◌, ◌/◌, ◌%◌, ◌^◌, Bool, true, false, ◌&&◌, List, [], ◌∷◌, Option, none,
  some, ◌==◌, ltb, if◌then◌else◌, get_or, set, replicate,
}
use rdm.Prelude.Int.{ℤ, negsuc}
use rdm.Prelude.Run.{Run, ok, fault, out_of_fuel, ◌>>=◌, ◌>>◌, log_assert, at}
use rdm.Math.{prev_prime}

-- The 16 bytes of `std::array<uint8_t, 16>`.
abbrev pub Signature : Type 0
Signature = List ℕ

-- `Signature::operator ==`
unfoldable pub same : Signature → Signature → Bool
same [] [] = true
same [] (b ∷ bs) = false
same (a ∷ as') [] = false
same (a ∷ as') (b ∷ bs) = a == b && same as' bs

-- `static_cast<size_t>(-1)`
abbrev pub sx_none : ℕ
sx_none = 2 ^ 64 - 1

abbrev pub sx_magic : ℕ
sx_magic = 0x53584841

-- `static_cast<off_t>(-1)`
abbrev pub off_none : ℤ
off_none = negsuc 0

pub record SignatureElement : Type 0 where
  pub sxi : Signature
  pub offset : ℤ
  pub next : ℕ

pub record SignatureIndex : Type 0 where
  pub nalloc : ℕ
  pub nelems : ℕ
  pub nchains : ℕ
  pub free_head : ℕ
  pub nfree : ℕ
  pub sxep : List SignatureElement
  pub magic : ℕ
  pub chains : List ℕ

-- `n = 256 * n + sig[i]` over the first four bytes, in an `unsigned int`.
unfoldable pub hash_bytes : Signature → ℕ
hash_bytes sig =
    let add = λ (n b : ℕ). (256 * n + b) % 2 ^ 32 in
    add (add (add (add 0 (get_or sig 0 0)) (get_or sig 1 0)) (get_or sig 2 0)) (get_or sig 3 0)

unfoldable pub hash : SignatureIndex → Signature → ℕ
hash s sig = hash_bytes sig % s.nchains

-- The elements from index `isx - 1` on, each linked to the next one, the last to none.
unfoldable pub init_elements : ℕ → ℕ → List SignatureElement
init_elements zero isx = []
init_elements (suc zero) isx =
    record { sxi = replicate 16 0; offset = off_none; next = sx_none } ∷ []
init_elements (suc (suc n)) isx =
    record { sxi = replicate 16 0; offset = off_none; next = isx } ∷ init_elements (suc n) (isx + 1)

unfoldable pub calc_nchains : ℕ → ℕ
calc_nchains nelems = prev_prime (nelems / 4)

unfoldable pub initialize : ℕ → SignatureIndex
unfolding init_elements calc_nchains
initialize alloc_size = record {
  nalloc = alloc_size;
  nelems = 0;
  nchains = calc_nchains alloc_size;
  free_head = 0;
  nfree = alloc_size;
  sxep = init_elements alloc_size 1;
  magic = sx_magic;
  chains = replicate (calc_nchains alloc_size) sx_none;
}

-- The element taken, or `sx_none`.
unfoldable pub allocate_element : SignatureIndex → Run (ℕ × SignatureIndex)
allocate_element s = if s.nfree == 0 then ok (sx_none, s) else do
  elem ← at s.sxep s.free_head
  ok (s.free_head, record s { free_head = elem.next; nfree = s.nfree - 1 })

unfoldable pub free_element : SignatureIndex → ℕ → Run SignatureIndex
free_element s index = do
  elem ← at s.sxep index
  ok (record s {
    sxep = set s.sxep index (record elem { offset = off_none; next = s.free_head });
    free_head = index;
    nfree = s.nfree + 1;
  })

-- The loop of `Find`, from element `next`.
unfoldable pub find_from : ℕ → List SignatureElement → Signature → ℕ → Run (Option ℕ)
find_from zero e sig next = fault out_of_fuel
find_from (suc f) e sig next =
    let step = at e next >>= λ elem.
    let rest = find_from f e sig elem.next in if same sig elem.sxi then ok (some next) else rest in
    if next == sx_none then ok none else step

-- A chain holds at most `nalloc` elements, hence the fuel.
unfoldable pub find : SignatureIndex → Signature → Run (Option ℕ)
find s sig = do
  log_assert (s.magic == sx_magic)
  next ← at s.chains (hash s sig)
  find_from (suc s.nalloc) s.sxep sig next

-- The assertions of `Add` and `Remove`.
unfoldable pub check_counts : SignatureIndex → Run (Unit {0})
check_counts s = do log_assert (s.magic == sx_magic); log_assert (s.nfree + s.nelems == s.nalloc)

-- `none` stands for the null pointer.
unfoldable pub add : SignatureIndex → Signature → ℤ → Run (Option ℕ × SignatureIndex)
unfolding check_counts allocate_element hash
add s sig offset = do
  check_counts s
  log_assert (ltb 0 s.nalloc)
  (sxix, t) ← allocate_element s
  if sxix == sx_none then ok (none, t) else do
    next ← at t.chains (hash s sig)
    _ ← at t.sxep sxix
    ok (
      some sxix,
      record t {
        sxep = set t.sxep sxix (record { sxi = sig; offset = offset; next = next });
        chains = set t.chains (hash s sig) sxix;
        nelems = t.nelems + 1;
      },
    )

-- The element `next` is taken from its chain by a new link in the element `prev`, and freed.
unfoldable pub unlink_at : SignatureIndex → ℕ → SignatureElement → ℕ → Run (Bool × SignatureIndex)
unfolding free_element
unlink_at s prev elem next = do
  p ← at s.sxep prev
  t ← free_element (record s { sxep = set s.sxep prev (record p { next = elem.next }) }) next
  ok (true, record t { nelems = t.nelems - 1 })

-- The same at the head of a chain.
unfoldable pub unlink_head : SignatureIndex → ℕ → SignatureElement → ℕ → Run (Bool × SignatureIndex)
unfolding free_element
unlink_head s chain elem next = do
  t ← free_element (record s { chains = set s.chains chain elem.next }) next
  ok (true, record t { nelems = t.nelems - 1 })

-- The loop of `Remove`, behind the element `prev`.
unfoldable pub unlink_from : ℕ → SignatureIndex → Signature → ℕ → ℕ → Run (Bool × SignatureIndex)
unfolding unlink_at
unlink_from zero s sig prev next = fault out_of_fuel
unlink_from (suc f) s sig prev next =
    let step = at s.sxep next >>= λ elem.
    let rest = unlink_from f s sig next elem.next in
    if same sig elem.sxi then unlink_at s prev elem next else rest in
    if next == sx_none then ok (false, s) else step

unfoldable pub remove : SignatureIndex → Signature → Run (Bool × SignatureIndex)
unfolding check_counts unlink_from hash unlink_head
remove s sig = do
  check_counts s
  next ← at s.chains (hash s sig)
  if next == sx_none then ok (false, s) else do
    elem ← at s.sxep next
    if same sig elem.sxi
        then unlink_head s (hash s sig) elem next
        else unlink_from (suc s.nalloc) s sig next elem.next

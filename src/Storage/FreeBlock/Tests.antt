-- ===== src/Storage/FreeBlock/Tests.antt =====
-- The arena on concrete input: two sizes, and the largest ones once more.
use rdm.Prelude.{ℕ, ◌≤◌, ◌≡◌, refl, List, [], ◌∷◌, some, get_elem?, zero, suc, length, arith, inl}
use rdm.Prelude.Run.{ok, ◌>>=◌}
use rdm.Storage.FreeBlock.{FreeBlock, init_level, release, get, fblk_none}
use rdm.Storage.FreeBlock.Lists.{Lists, has, Chain, IsListed, IsDisjoint, IsApart, HasRoom, added}
use rdm.Storage.FreeBlock.Releases.{release-IsListed}
use rdm.Storage.FreeBlock.Refines.{IsHandedOut, get-IsHandedOut}

-- One block of size 1 and one of size 2, and no more.
abbrev arena : FreeBlock
arena = record {
  maxsize = 2;
  arena_sz = 3;
  avail = 2;
  allocated = 0;
  nfree = 1 ∷ 1 ∷ 0 ∷ [];
  free = 0 ∷ 1 ∷ fblk_none ∷ [];
  fblks = fblk_none ∷ fblk_none ∷ fblk_none ∷ [];
}

abbrev one_taken : FreeBlock
one_taken = record arena {
  avail = 1;
  allocated = 1;
  nfree = 0 ∷ 1 ∷ 0 ∷ [];
  free = fblk_none ∷ 1 ∷ fblk_none ∷ [];
}

abbrev all_taken : FreeBlock
all_taken = record arena {
  avail = 0;
  allocated = 2;
  nfree = 0 ∷ 0 ∷ 0 ∷ [];
  free = fblk_none ∷ fblk_none ∷ fblk_none ∷ [];
}

take_one : get arena 0 ≡ ok (0, one_taken)
unfolding get
take_one = refl

abbrev counters : ℕ × FreeBlock → ℕ × ℕ × List ℕ
counters r = (r.1.avail, r.1.allocated, r.1.nfree)

abbrev links : ℕ × FreeBlock → ℕ × ℕ × List ℕ
links r = (r.0, r.1.avail, r.1.fblks)

-- A block of size 2 is split for a node of size 1, and the rest is free.
split_two : (get one_taken 0 >>= λ r. ok (counters r)) ≡ ok (1, 2, 1 ∷ 0 ∷ 0 ∷ [])
unfolding get
split_two = refl

initialised :
    (init_level (record arena { avail = 0 }) 0 0 1 3 >>= λ r. ok (links r))
    ≡ ok (3, 3, 1 ∷ 2 ∷ fblk_none ∷ [])
unfolding init_level
initialised = refl

-- Where `one_taken` has its one block.
abbrev lists : Lists
lists zero = []
lists (suc zero) = 1 ∷ []
lists (suc (suc i)) = []

lists-IsListed : IsListed one_taken lists
unfolding Chain has
lists-IsListed = (omega arith, lists-each, lists-apart)
  where
    lists-each :
        (i n : ℕ)
        → i ≤ 2
        → get_elem? one_taken.nfree i ≡ some n
        → ((head : ℕ) × (get_elem? one_taken.free i ≡ some head)
            × Chain one_taken.fblks head (lists i))
          × (n ≡ length (lists i))
    lists-each zero n le h = ((fblk_none, refl, refl), ground (arith, h))
    lists-each (suc zero) n le h = (
      (1, refl, (refl, (λ e. ground (arith, e)), refl, (fblk_none, refl, refl))),
      ground (arith, h),
    )
    lists-each (suc (suc zero)) n le h = ((fblk_none, refl, refl), ground (arith, h))
    lists-each (suc (suc (suc i))) n le h = absurd (omega arith)

    lists-apart : IsDisjoint 2 lists
    lists-apart zero j x y h k = ground (arith, h)
    lists-apart (suc (suc i)) j x y h k = ground (arith, h)
    lists-apart (suc zero) zero x y h k = ground (arith, k)
    lists-apart (suc zero) (suc (suc j)) x y h k = ground (arith, k)
    lists-apart (suc zero) (suc zero) x y h k = inl (ground (arith, h, k), refl)

lists-HasRoom : HasRoom lists
lists-HasRoom zero = omega arith
lists-HasRoom (suc zero) = omega arith
lists-HasRoom (suc (suc i)) = omega arith

abbrev split_end : FreeBlock
split_end = record one_taken {
  allocated = 2;
  nfree = 1 ∷ 0 ∷ 0 ∷ [];
  free = 2 ∷ fblk_none ∷ fblk_none ∷ [];
}

split_run : get one_taken 0 ≡ ok (1, split_end)
unfolding get
split_run = refl

get-IsHandedOut_example : IsHandedOut one_taken lists 0 1 (1, split_end)
get-IsHandedOut_example =
    get-IsHandedOut one_taken lists 0 (1, split_end) lists-IsListed lists-HasRoom split_run

give_back : release one_taken 1 0 ≡ ok arena
unfolding release
give_back = refl

outside : IsApart 2 lists 0 1
unfolding has
outside zero y h = ground (arith, h)
outside (suc zero) y h = ground (arith, h)
outside (suc (suc i)) y h = ground (arith, h)

release-IsListed_example : IsListed arena (added lists 0 0)
release-IsListed_example =
    release-IsListed one_taken arena lists 1 0 lists-IsListed (omega arith) outside give_back

none_left : get all_taken 1 ≡ ok (fblk_none, all_taken)
unfolding get
none_left = refl

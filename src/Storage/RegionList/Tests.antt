-- ===== src/Storage/RegionList/Tests.antt =====
-- The regions on concrete input.
use rdm.Prelude.{ℕ, ◌≡◌, refl, [], ◌∷◌, arith}
use rdm.Prelude.Int.{pos, negsuc}
use rdm.Prelude.Run.{ok, ◌>>=◌}
use rdm.Storage.RegionList.{
  Region, RegionList, rl_none, rl_magic, init_array, add_to_hash, remove_from_hash, find,
  release_empty_region,
}
use rdm.Storage.RegionList.Chained.{find-add_to_hash}

-- Two regions in the same chain, the second one in it.
abbrev region : ℕ → ℕ → Region
region o extent = record { offset = pos o; extent = extent; next = rl_none; prev = rl_none }

abbrev regions : RegionList
regions = record {
  nalloc = 3;
  nchains = 2;
  empty = 2;
  nelems = 1;
  maxelems = 1;
  nfree = 1;
  maxfree = 1;
  maxfextent = 100;
  nempty = 1;
  minempty = 1;
  nbytes = 200;
  maxbytes = 200;
  level_foff = 0;
  foff = 0;
  level_fext = 0;
  fext = 2;
  rp = region 512 101 ∷ region 1024 201 ∷ region 0 0 ∷ [];
  magic = rl_magic;
  chains = 1 ∷ rl_none ∷ [];
}

abbrev chained : RegionList
chained = record regions {
  rp =
      record (region 512 101) { next = 1 }
      ∷ record (region 1024 201) { prev = 0 }
      ∷ region 0 0
      ∷ [];
  chains = 0 ∷ rl_none ∷ [];
}

last_of_array :
    init_array 2 5
    ≡ record { offset = negsuc 0; extent = 0; next = 5; prev = 0 }
      ∷ record { offset = negsuc 0; extent = 0; next = rl_none; prev = 0 }
      ∷ []
unfolding init_array
last_of_array = refl

added : add_to_hash regions 0 ≡ ok chained
unfolding add_to_hash
added = refl

find_behind : find chained (pos 1024) ≡ ok 1
unfolding find
find_behind = refl

find_missing : find chained (pos 4) ≡ ok rl_none
unfolding find
find_missing = refl

-- The head of the chain is taken out again.
taken_out : (remove_from_hash chained 0 >>= λ m. ok m.chains) ≡ ok (1 ∷ rl_none ∷ [])
unfolding remove_from_hash
taken_out = refl

find-add_to_hash_example : find chained (pos 512) ≡ ok 0
find-add_to_hash_example =
    find-add_to_hash regions chained 0 (region 512 101) refl (λ e. absurd (omega arith)) added

abbrev one_back : RegionList
one_back = record regions {
  empty = 1;
  nempty = 2;
  rp =
      region 512 101
      ∷ record { offset = negsuc 0; extent = 0; next = 2; prev = rl_none }
      ∷ region 0 0
      ∷ [];
}

given_back : release_empty_region regions 1 ≡ ok one_back
unfolding release_empty_region
given_back = refl

-- ===== src/Storage/FreeBlock/Refines.antt =====
-- storage/pq/FreeBlock.cpp: what Get hands out, and what it leaves on the lists.
use rdm.Prelude.{
  ℕ, zero, suc, ◌+◌, ◌-◌, ◌%◌, ◌^◌, ◌<◌, ◌≤◌, ◌≡◌, refl, sym, ap, subst, ◌∙◌, ℕ_discrete, ◌⊎◌, inl,
  inr, ◌&&◌, ltb, if◌then◌else◌, List, [], ◌∷◌, get_elem?, arith, length, Bool-cases, Option-cases,
}
use rdm.Prelude.Run.{Run-cases, ok}
use rdm.Storage.FreeBlock.{FreeBlock, release, take_block, split_block, get_from, get, fblk_none}
use rdm.Storage.FreeBlock.Lists.{Lists, replaced, added, size_of, IsApart, IsListed, HasRoom}
use rdm.Storage.FreeBlock.Releases.{replaced_self, replaced_other, has-added, release-IsListed}
use rdm.Storage.FreeBlock.Gets.{take_block-IsListed}

-- What is too much of a block of a level goes to the front of the list of its size.
abbrev pub split_lists : ℕ → Lists → ℕ → ℕ → ℕ → Lists
split_lists maxsize lists level want x =
    if ltb level maxsize && ltb want (level + 1)
    then added lists (level + 1 - want - 1) (x + want)
    else lists

-- Either no list from the level on has a block and nothing changes, or the first block of the first
-- one that has is handed out, with what is too much of it put back, and none of the listed blocks
-- overlaps what was handed out.
abbrev pub IsHandedOut : FreeBlock → Lists → ℕ → ℕ → ℕ × FreeBlock → Type 0
IsHandedOut b lists level want r =
    ((r.0 ≡ fblk_none) × (r.1 ≡ b) × ((i : ℕ) → level ≤ i → i ≤ b.maxsize → lists i ≡ []))
    ⊎ ((first : ℕ) × (rest : List ℕ) × (level ≤ first)
        × (first ≤ b.maxsize)
        × ((i : ℕ) → level ≤ i → i < first → lists i ≡ [])
        × (lists first ≡ r.0 ∷ rest)
        × IsListed r.1 (split_lists b.maxsize (replaced lists first rest) first want r.0)
        × IsApart b.maxsize (split_lists b.maxsize (replaced lists first rest) first want r.0) r.0
            want)

empty_of_length : (xs : List ℕ) → length xs ≡ 0 → xs ≡ []
empty_of_length [] h = refl
empty_of_length (x ∷ xs) h = absurd (omega (arith, h))

IsApart-less :
    (m x size want : ℕ) (lists : Lists)
    → want ≤ size
    → IsApart m lists x size
    → IsApart m lists x want
IsApart-less m x size want lists le apart i y h = omega (arith, le, apart i y h)

HasRoom-replaced :
    (lists : Lists) (level x : ℕ) (rest : List ℕ)
    → lists level ≡ x ∷ rest
    → HasRoom lists
    → HasRoom (replaced lists level rest)
HasRoom-replaced lists level x rest e room i = elim (ℕ_discrete level i) [
  | yes s ↦
      let whole : length (lists level) ≡ suc (length rest) = ap (λ z. length z) e in
      subst (λ z. length z + 1 < 2 ^ 64) (sym (replaced_self lists level i rest s))
        (omega (arith, whole, room level))
  | no n ↦ subst (λ z. length z + 1 < 2 ^ 64) (sym (replaced_other lists level i rest n)) (room i)
]

split_block-IsListed :
    (b : FreeBlock) (lists : Lists) (level want x : ℕ) (r : ℕ × FreeBlock)
    → IsListed b lists
    → HasRoom lists
    → level ≤ b.maxsize
    → 0 < want
    → want ≤ level + 1
    → want ≤ b.maxsize
    → IsApart b.maxsize lists x (size_of b.maxsize level)
    → split_block b level want x ≡ ok r
    → (r.0 ≡ x)
      × IsListed r.1 (split_lists b.maxsize lists level want x)
      × IsApart b.maxsize (split_lists b.maxsize lists level want x) x want
unfolding split_block
split_block-IsListed b lists level want x r listed room le p q top apart h =
    elim (Bool-cases (ltb level b.maxsize && ltb want (level + 1))) [
      | inr whole ↦
          let fits : want ≤ size_of b.maxsize level = ground (arith, q, top) in
          let same : r.1 ≡ b = ground (arith, h, whole) in
          rw (whole) (
            ground (arith, h, whole),
            subst (λ z. IsListed z lists) (sym same) listed,
            IsApart-less b.maxsize x (size_of b.maxsize level) want lists fits apart,
          )
      | inl part ↦
          let is_size : size_of b.maxsize level ≡ level + 1 = ground (arith, part) in
          let clear : IsApart b.maxsize lists x (level + 1) =
            subst (λ z. IsApart b.maxsize lists x z) is_size apart in
          let behind : IsApart b.maxsize lists (x + want) (level + 1 - want) =
            λ i y k. omega (arith, q, clear i y k) in
          elim (Run-cases (release b (level + 1 - want) (x + want))) [
            | inr (e, o) ↦ ground (arith, h, part, o)
            | inl (c, o) ↦
                let kept =
                  release-IsListed b c lists (level + 1 - want) (x + want) listed
                    (room (level + 1 - want - 1)) behind o in
                let split : r.1 ≡ record c { allocated = (c.allocated + 1) % 2 ^ 64 } =
                  ground (arith, h, part, o) in
                rw (part) (
                  ground (arith, h, part, o),
                  subst (λ z. IsListed z (added lists (level + 1 - want - 1) (x + want)))
                      (sym split) kept,
                  (λ i y k. elim (has-added lists (level + 1 - want - 1) (x + want) i y k) [
                    | inl (s, t) ↦ inl (omega (arith, s))
                    | inr old ↦ omega (arith, q, clear i y old)
                  ]),
                )
          ]
    ]

get_from-IsHandedOut :
    (m : ℕ) (b : FreeBlock) (lists : Lists) (level want : ℕ) (r : ℕ × FreeBlock)
    → IsListed b lists
    → HasRoom lists
    → level + m ≡ b.maxsize + 1
    → 0 < want
    → want ≤ level + 1
    → want ≤ b.maxsize
    → get_from m b level want ≡ ok r
    → IsHandedOut b lists level want r
unfolding get_from
get_from-IsHandedOut zero b lists level want r listed room e p q top h =
    inl (ground (arith, h), ground (arith, h), (λ i x y. absurd (omega arith)))
get_from-IsHandedOut (suc m) b lists level want r listed room e p q top h =
    elim (Option-cases (get_elem? b.nfree level)) [
      | inl o ↦ ground (arith, h, o)
      | inr (zero, o) ↦
          let (_, count) = listed.1 level 0 (omega (arith, e)) o in
          let empty : lists level ≡ [] = empty_of_length (lists level) (sym count) in
          elim (get_from-IsHandedOut m b lists (level + 1) want r listed room (omega (arith, e)) p
            (omega (arith, q)) top (ground (arith, h, o))) [
              | inl (none, same, below) ↦ inl (
                none,
                same,
                (λ i x y. elim (ℕ_discrete i level) [
                  | yes s ↦ subst (λ z. lists z ≡ []) (sym s) empty
                  | no d ↦ below i (omega (arith, x, d)) y
                ]),
              )
              | inr (first, rest, low, high, below, e2, kept, apart) ↦ inr (
                first,
                rest,
                omega (arith, low),
                high,
                (λ i x y. elim (ℕ_discrete i level) [
                  | yes s ↦ subst (λ z. lists z ≡ []) (sym s) empty
                  | no d ↦ below i (omega (arith, x, d)) y
                ]),
                e2,
                kept,
                apart,
              )
            ]
      | inr (suc n, o) ↦ elim (Run-cases (take_block b level (suc n))) [
        | inr (x, t) ↦ ground (arith, h, o, t)
        | inl ((x, c), t) ↦
            let le : level ≤ b.maxsize = omega (arith, e) in
            let (rest, e2, maxsize, kept, apart) =
              take_block-IsListed b c lists level (suc n) x listed le o (omega arith) t in
            let split : split_block c level want x ≡ ok r = ground (arith, h, o, t) in
            let (same, all, clear) =
              split_block-IsListed c (replaced lists level rest) level want x r kept
                (HasRoom-replaced lists level x rest e2 room)
                (subst (λ z. level ≤ z) (sym maxsize) le) p q
                (subst (λ z. want ≤ z) (sym maxsize) top)
                (subst (λ z. IsApart z (replaced lists level rest) x (size_of z level))
                  (sym maxsize) apart)
                split in
            inr (
              level,
              rest,
              omega arith,
              le,
              (λ i y z. absurd (omega (arith, y, z))),
              e2 ∙ (λ i. sym same i ∷ rest),
              subst (λ z. IsListed r.1 (split_lists z (replaced lists level rest) level want r.0))
                  maxsize
                  (subst
                    (λ z.
                      IsListed r.1 (split_lists c.maxsize (replaced lists level rest) level want z))
                    (sym same) all),
              subst
                  (λ z.
                    IsApart z (split_lists z (replaced lists level rest) level want r.0) r.0 want)
                  maxsize
                  (subst
                    (λ z.
                      IsApart c.maxsize
                        (split_lists c.maxsize (replaced lists level rest) level want z) z want)
                    (sym same) clear),
            )
      ]
    ]

-- Where Get returns, on free lists that the links lead through, whose lengths `nfree_` has, that do
-- not overlap and whose counters have room: it answers with FBLK_NONE only if the lists from the
-- level on are all empty, and then changes nothing. Otherwise it hands out the first block of the
-- first list that has one; what is too much of it is put on the list of its size, the lists are
-- otherwise as they were and still well-formed, and no block on them overlaps what was handed out.
pub get-IsHandedOut :
    (b : FreeBlock) (lists : Lists) (level : ℕ) (r : ℕ × FreeBlock)
    → IsListed b lists
    → HasRoom lists
    → get b level ≡ ok r
    → IsHandedOut b lists level (level + 1) r
unfolding get
get-IsHandedOut b lists level r listed room h =
    let low : level < b.maxsize = ground (arith, h) in
    let run : get_from (b.maxsize + 1 - level) b level (level + 1) ≡ ok r = ground (arith, h) in
    get_from-IsHandedOut (b.maxsize + 1 - level) b lists level (level + 1) r listed room
      (omega (arith, low)) (omega arith) (omega arith) (omega (arith, low)) run

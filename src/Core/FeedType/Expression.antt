-- ===== src/Core/FeedType/Expression.antt =====
-- core/FeedType.cpp: the tokens and the recursive-descent parser of feed-type expressions.
use rdm.Prelude.{
  ℕ, zero, suc, ◌%◌, ◌^◌, Bool, true, false, ◌&&◌, ◌||◌, List, [], ◌∷◌, Option, none, some, ◌==◌,
  leb, if◌then◌else◌, map, length, bit_and, bit_or, ◌+◌,
}
use rdm.Prelude.Bits.{flip}
use rdm.Prelude.Run.{Run, ok, fault, out_of_fuel, ◌>>=◌}
use rdm.Core.FeedType.Masks.{Mask}
use rdm.Core.FeedType.Names.{feed_defs, find_type}

pub data ParseError : Type 0 where
  parse_ok err_rp err_prim err_garb err_ukft : ParseError

pub data TokenType : Type 0 where
  name_token end_token union_token diff_token complement_token lp_token rp_token : TokenType

pub record ParseState : Type 0 where
  pub err : ParseError
  pub tok : TokenType
  pub name : List ℕ
  pub cp : List ℕ

-- `if (ps.err)`
abbrev pub failed : ParseState → Bool
failed ps = elim ps.err [ parse_ok ↦ false | _ ↦ true ]

-- `std::isspace` and `std::isalnum` in the C locale.
abbrev is_space : ℕ → Bool
is_space c = c == 32 || (leb 9 c && leb c 13)

abbrev is_alnum : ℕ → Bool
is_alnum c = (leb 48 c && leb c 57) || (leb 65 c && leb c 90) || (leb 97 c && leb c 122)

abbrev to_lower : ℕ → ℕ
to_lower c = if leb 65 c && leb c 90 then c + 32 else c

unfoldable skip_spaces : List ℕ → List ℕ
skip_spaces [] = []
skip_spaces (c ∷ cs) = if is_space c then skip_spaces cs else c ∷ cs

-- The characters of a name, and what is behind them.
unfoldable take_name : List ℕ → List ℕ × List ℕ
take_name [] = ([], [])
take_name (c ∷ cs) =
    let rest = take_name cs in if is_alnum c then (c ∷ rest.0, rest.1) else ([], c ∷ cs)

-- The state behind one token; the characters are those behind the spaces.
unfoldable token_at : ParseState → List ℕ → ParseState
unfolding take_name
token_at ps [] = record ps { tok = end_token; cp = [] }
token_at ps (c ∷ cs) =
    let single = λ (t : TokenType). record ps { tok = t; cp = cs } in
    let word = take_name (c ∷ cs) in
    if c == 0
    then record ps { tok = end_token; cp = c ∷ cs }
    else if (c == 124) || (c == 43)
    then single union_token
    else if c == 45
    then single diff_token
    else if c == 40
    then single lp_token
    else if c == 41
    then single rp_token
    else if c == 126
    then single complement_token
    else record ps { tok = name_token; name = word.0; cp = word.1 }

-- A state with an error keeps its token.
unfoldable pub advance_token : ParseState → ParseState
unfolding skip_spaces token_at
advance_token ps = if failed ps then ps else token_at ps (skip_spaces ps.cp)

abbrev pub fail_with : ParseState → ParseError → ParseState
fail_with ps e = record ps { err = e }

-- `std::stoul(str, &pos, 0)`: the number and the length of its text, or none where it throws.
module _ (stoul : List ℕ → Option (ℕ × ℕ)) where
  -- The value of a name: from the table, or a whole number, cut to 32 bits.
  unfoldable pub name_value : List ℕ → Option Mask
  unfolding find_type
  name_value word = elim (find_type feed_defs word) [
    | some type ↦ some type
    | none ↦ elim (stoul word) [
      | none ↦ none
      | some (value, pos) ↦ if pos == length word then some (value % 2 ^ 32) else none
    ]
  ]

  unfoldable pub parse_name : ParseState → Mask × ParseState
  unfolding name_value advance_token
  parse_name ps =
      let next = advance_token ps in
      elim (name_value (map to_lower ps.name)) [
        | some type ↦ (type, next)
        | none ↦ (0, fail_with next err_ukft)
      ]

  -- Each call of a function of the parser takes one unit of fuel, and each round of a loop.
  -- `parse_primary_at` is the switch; `diff_loop` asks for the token only, not for an error.
  unfoldable mutual
    unfolding parse_name advance_token flip

    pub parse_primary : ℕ → ParseState → Run (Mask × ParseState)
    parse_primary zero ps = fault out_of_fuel
    parse_primary (suc f) ps =
        let found = parse_primary_at f ps.tok ps in if failed ps then ok (0, ps) else found

    pub parse_primary_at : ℕ → TokenType → ParseState → Run (Mask × ParseState)
    parse_primary_at zero tok ps = fault out_of_fuel
    parse_primary_at (suc f) name_token ps = ok (parse_name ps)
    parse_primary_at (suc f) complement_token ps =
        parse_primary f (advance_token ps) >>= λ (value, qs). ok (flip 32 value, qs)
    parse_primary_at (suc f) lp_token ps = parse_expr f (advance_token ps) >>= λ (value, qs).
        ok (elim qs.tok [ rp_token ↦ (value, advance_token qs) | _ ↦ (0, fail_with qs err_rp) ])
    parse_primary_at (suc f) end_token ps = ok (0, fail_with ps err_prim)
    parse_primary_at (suc f) union_token ps = ok (0, fail_with ps err_prim)
    parse_primary_at (suc f) diff_token ps = ok (0, fail_with ps err_prim)
    parse_primary_at (suc f) rp_token ps = ok (0, fail_with ps err_prim)

    pub parse_term : ℕ → ParseState → Run (Mask × ParseState)
    parse_term zero ps = fault out_of_fuel
    parse_term (suc f) ps = parse_primary f ps >>= λ (left, qs).
        let rest = diff_loop f left qs.tok qs in if failed qs then ok (0, qs) else rest

    pub diff_loop : ℕ → Mask → TokenType → ParseState → Run (Mask × ParseState)
    diff_loop zero left tok ps = fault out_of_fuel
    diff_loop (suc f) left diff_token ps = parse_primary f (advance_token ps) >>= λ (value, qs).
        diff_loop f (bit_and left (flip 32 value)) qs.tok qs
    diff_loop (suc f) left tok ps = ok (left, ps)

    pub parse_expr : ℕ → ParseState → Run (Mask × ParseState)
    parse_expr zero ps = fault out_of_fuel
    parse_expr (suc f) ps = parse_term f ps >>= λ (left, qs).
        let rest = union_loop f left qs.tok qs in if failed qs then ok (0, qs) else rest

    pub union_loop : ℕ → Mask → TokenType → ParseState → Run (Mask × ParseState)
    union_loop zero left tok ps = fault out_of_fuel
    union_loop (suc f) left union_token ps =
        let qs = advance_token ps in
        let rest = parse_term f qs >>= λ (value, rs). union_loop f (bit_or left value) rs.tok rs in
        if failed qs then ok (0, qs) else rest
    union_loop (suc f) left tok ps = ok (left, ps)

  -- The error code, and the value where there is none.
  unfoldable pub parse : ℕ → List ℕ → Run (ParseError × Option Mask)
  unfolding parse_expr advance_token
  parse fuel [] = ok (err_prim, none)
  parse fuel (c ∷ str) =
      let start : ParseState = record {
        err = parse_ok;
        tok = end_token;
        name = [];
        cp = c ∷ str;
      } in
      parse_expr fuel (advance_token start) >>= λ (value, ps).
      let at_end : Bool = elim ps.tok [ end_token ↦ true | _ ↦ false ] in
      ok (
        if failed ps
        then (ps.err, none)
        else if at_end
        then (parse_ok, some value)
        else (err_garb, none))

-- ===== src/Trace/Load.antt =====
-- load_st.c: `load_st`, which reads the supertraces, byte for byte as `fscanf` takes them; the numbers of
-- the file are taken to fit an `int`, since C leaves open what `%d` makes of others.
mod Numbers
mod Text
mod Whole
mod Tests
use csbu_flo.Base.Int.{ℤ, pos, negated, negsuc, pos_part, leb_ℤ, ltb_ℤ}
use mathlib.Core.Option
use csbu_flo.Trace.{StPair, St}
use csbu_flo.Base.{
  ℕ, Bool, List, Option, Outcome, leb, none, some, ◌==◌, ◌∷◌, [], if◌then◌else◌, ok, ◌%◌, ◌&&◌, ◌*◌,
  ◌||◌, not, replicate, suc, ◌+◌, ◌^◌, ◌-◌, ◌>>=◌, length, stop, set, zero,
}

-- The characters that `isspace` accepts.
unfoldable pub is_space : ℕ → Bool
is_space c = c == 32 || leb 9 c && leb c 13

pub is_digit : ℕ → Bool
is_digit c = leb 48 c && leb c 57

pub skip_space : List ℕ → List ℕ
skip_space [] = []
skip_space (c ∷ cs) = if is_space c then skip_space cs else c ∷ cs

-- The digits behind those whose value is `acc`.
pub scan_digits : ℕ → List ℕ → ℕ × List ℕ
scan_digits acc [] = (acc, [])
scan_digits acc (c ∷ cs) =
    let rest = scan_digits (acc * 10 + (c - 48)) cs in if is_digit c then rest else (acc, c ∷ cs)

pub scan_natural : List ℕ → Option (ℕ × List ℕ)
scan_natural [] = none
scan_natural (c ∷ cs) = if is_digit c then some (scan_digits 0 (c ∷ cs)) else none

pub with_sign : (ℕ → ℤ) → Option (ℕ × List ℕ) → Option (ℤ × List ℕ)
with_sign sign none = none
with_sign sign (some r) = some (sign r.0, r.1)

pub scan_signed : List ℕ → Option (ℤ × List ℕ)
scan_signed [] = none
scan_signed (c ∷ cs) =
    if c == b'-'
    then with_sign negated (scan_natural cs)
    else if c == b'+'
    then with_sign pos (scan_natural cs)
    else with_sign pos (scan_natural (c ∷ cs))

-- `%d`
pub scan_int : List ℕ → Option (ℤ × List ℕ)
scan_int s = scan_signed (skip_space s)

-- `,`, which need not match: nothing is asked of what follows the last number.
pub pass_comma : List ℕ → List ℕ
pass_comma [] = []
pass_comma (c ∷ cs) = if c == b',' then cs else c ∷ cs

-- `%c`, whose result is not looked at.
pub skip_char : List ℕ → List ℕ
skip_char [] = []
skip_char (c ∷ cs) = cs

-- The loop with `%d,`: `n` numbers.
pub read_items : ℕ → List ℕ → Option (List ℤ × List ℕ)
read_items zero s = some ([], s)
read_items (suc n) s =
    Option.bind (scan_int s)
      λ r. Option.bind (read_items n (pass_comma r.1)) λ q. some (r.0 ∷ q.0, q.1)

-- `,\n` at the end of a header: blanks are skipped if there is a comma.
pub end_of_header : List ℕ → List ℕ
end_of_header [] = []
end_of_header (c ∷ cs) = if c == b',' then skip_space cs else c ∷ cs

-- `%d,%d,\n`: behind the first number there has to be a comma.
pub second_number : ℤ → List ℕ → Option ((ℤ × ℤ) × List ℕ)
second_number a [] = none
second_number a (c ∷ cs) =
    if c == b',' then Option.bind (scan_int cs) (λ r. some ((a, r.0), end_of_header r.1)) else none

pub scan_header : List ℕ → Option ((ℤ × ℤ) × List ℕ)
scan_header s = Option.bind (scan_int s) λ r. second_number r.0 r.1

-- `prob` is an `unsigned int`.
abbrev pub to_u32 : ℤ → ℕ
to_u32 (pos n) = n % 2 ^ 32
to_u32 (negsuc n) = 2 ^ 32 - 1 - n % 2 ^ 32

pub pairs_from : List ℤ → List ℤ → List ℤ → List StPair
pairs_from (size ∷ sizes) (time ∷ times) (prob ∷ probs) =
    record { size = size; time = time; sprob = to_u32 prob; expected = 0 }
    ∷ pairs_from sizes times probs
pairs_from _ _ _ = []

-- The three lines of a trace of `n` packets.
pub read_pairs : ℕ → List ℕ → Option (List StPair × List ℕ)
read_pairs n s = Option.bind (read_items n s) λ sizes.
    Option.bind (read_items n (skip_char sizes.1)) λ times.
      Option.bind (read_items n (skip_char times.1))
        λ probs. some (pairs_from sizes.0 times.0 probs.0, skip_char probs.1)

-- `straces`, of which `none` is an entry that has not been filled, or not wholly.
abbrev pub Array : Type 0
Array = List (Option St)

-- A write past the end of the array.
pub data PastEnd : Type 0 where
  past_end : PastEnd

-- The rounds left. The array is returned as it is, too, when the file does not go on as it should.
pub load_rounds : ℕ → List ℕ → Array → Outcome PastEnd Array
load_rounds zero s straces = ok straces
load_rounds (suc n) s straces = elim (scan_header s) [
  | none ↦ ok straces
  | some ((clusterid, stsize), rest) ↦
      let id = pos_part clusterid in
      let others : Outcome PastEnd Array = elim (read_pairs (pos_part stsize) rest) [
        | none ↦ ok (set straces id none)
        | some (pairs, rest') ↦
            load_rounds n rest'
              (set straces id (some (record { clusterid = clusterid; pairs = pairs })))
      ] in
      if leb_ℤ clusterid (pos 0) || ltb_ℤ stsize (pos 0)
      then ok straces
      else if leb (length straces) id
      then stop past_end
      else others
]

-- `none` for the file is one that cannot be opened, for the result NULL.
pub load_st : Option (List ℕ) → ℕ → Outcome PastEnd (Option Array)
load_st none ccnt = ok none
load_st (some st) ccnt =
    load_rounds ccnt st (replicate (suc ccnt) none) >>= λ straces. ok (some straces)

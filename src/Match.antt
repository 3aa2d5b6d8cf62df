-- ===== src/Match.antt =====
-- match.c: patterns with wildcards and lists of them, by which hosts and users are named, and the
-- choice of an algorithm from two lists of proposals. Strings are lists of bytes before the NUL.
mod Glob
mod Meaning
mod Proposals
mod Subpatterns
mod Tests
use csbu_flo.Base.{
  zero, suc, ℕ, List, Bool, false, length, ◌==◌, ◌∷◌, if◌then◌else◌, ◌&&◌, ◌||◌, [], not, true,
  Option, Outcome, leb, none, ok, take, ◌+◌, some, spin, ◌>>=◌,
}

abbrev pub question : ℕ
question = b'?'

abbrev pub asterisk : ℕ
asterisk = b'*'

abbrev pub comma : ℕ
comma = b','

-- `for (; *s; s++) if (f(s)) return 1; return 0;`
pub at_any : (List ℕ → Bool) → List ℕ → Bool
at_any f [] = false
at_any f (c ∷ s) = f (c ∷ s) || at_any f s

-- `for (; *s; s++) if (*s == first && f(s + 1)) return 1; return 0;`
pub after_any : ℕ → (List ℕ → Bool) → List ℕ → Bool
after_any first f [] = false
after_any first f (c ∷ s) = c == first && f s || after_any first f s

-- The character of the pattern and that of the string, and the rest of both.
pub one_char : ℕ → (List ℕ → Bool) → List ℕ → Bool
one_char p f [] = false
one_char p f (c ∷ s) = if not (p == question) && not (p == c) then false else f s

-- The pattern comes first; the loop over the pattern is the recursion.
pub match_pattern : List ℕ → List ℕ → Bool
match_pattern [] s = length s == 0
match_pattern (p ∷ []) s =
    let rest = match_pattern [] in if p == asterisk then true else one_char p rest s
match_pattern (p ∷ q ∷ ps) s =
    let rest = match_pattern (q ∷ ps) in
    let later = match_pattern ps in
    if p == asterisk
    then (if not (q == question) && not (q == asterisk) then after_any q later s else at_any rest s)
    else one_char p rest s

-- The subpattern up to a comma, the end, or `room` characters, in lower case if `dolower`, and the rest.
unfoldable pub lower : ℕ → ℕ
lower c = if leb b'A' c && leb c b'Z' then c + 32 else c

pub take_sub : ℕ → Bool → List ℕ → List ℕ × List ℕ
take_sub zero dolower s = ([], s)
take_sub (suc room) dolower [] = ([], [])
take_sub (suc room) dolower (c ∷ s) =
    let (sub, rest) = take_sub room dolower s in
    if c == comma then ([], c ∷ s) else ((if dolower then lower c else c) ∷ sub, rest)

abbrev pub skip_comma : List ℕ → List ℕ
skip_comma [] = []
skip_comma (c ∷ s) = if c == comma then s else c ∷ s

abbrev pub skip_negation : List ℕ → Bool × List ℕ
skip_negation [] = (false, [])
skip_negation (c ∷ s) = if c == b'!' then (true, s) else (false, c ∷ s)

-- `sizeof(sub) - 1`
abbrev pub sub_room : ℕ
sub_room = 1023

-- The loop of `match_pattern_list`; -1, 0 and 1 are `excluded`, `unmatched` and `matched`. Every round
-- takes a character at least, so that as many rounds as characters are enough.
pub data Verdict : Type 0 where
  excluded unmatched matched : Verdict

-- `none` is fuel used up.
pub match_rounds : ℕ → List ℕ → Bool → Bool → List ℕ → Option Verdict
match_rounds fuel string dolower got_positive [] =
    some (if got_positive then matched else unmatched)
match_rounds zero string dolower got_positive (c ∷ pattern) = none
match_rounds (suc fuel) string dolower got_positive (c ∷ pattern) =
    let (negated, body) = skip_negation (c ∷ pattern) in
    let (sub, rest) = take_sub sub_room dolower body in
    let hit = match_pattern sub string in
    let next = match_rounds fuel string dolower (hit || got_positive) (skip_comma rest) in
    if leb sub_room (length sub)
    then some unmatched
    else if hit && negated
    then some excluded
    else next

pub match_pattern_list : List ℕ → List ℕ → ℕ → Bool → Option Verdict
match_pattern_list string pattern len dolower =
    match_rounds (length pattern) string dolower false (take len pattern)

pub match_hostname : List ℕ → List ℕ → ℕ → Option Verdict
match_hostname host pattern len = match_pattern_list host pattern len true

-- What `addr_match_list` (addrmatch.c) returns for an address and patterns: -2 is an error in a pattern.
pub data AddrVerdict : Type 0 where
  malformed addr_excluded addr_unmatched addr_matched : AddrVerdict

-- -1, 0 and 1.
pub data HostVerdict : Type 0 where
  failed refused allowed : HostVerdict

pub by_name : AddrVerdict → Option Verdict → Option HostVerdict
by_name malformed mhost = some failed
by_name addr_excluded mhost = some refused
by_name mip none = none
by_name mip (some excluded) = some refused
by_name addr_unmatched (some unmatched) = some refused
by_name mip (some mhost) = some allowed

-- What stands before the first `@` and behind it.
pub cut_at : List ℕ → Option (List ℕ × List ℕ)
cut_at [] = none
cut_at (c ∷ s) = let rest = cut_at s in if c == b'@' then some ([], s) else grown c rest
  where
    grown : ℕ → Option (List ℕ × List ℕ) → Option (List ℕ × List ℕ)
    grown c none = none
    grown c (some (before, behind)) = some (c ∷ before, behind)

module _ (addr_match_list : List ℕ → List ℕ → AddrVerdict) where
  -- The names are looked at only when the address is neither malformed nor excluded.
  pub match_host_and_ip : List ℕ → List ℕ → List ℕ → Option HostVerdict
  match_host_and_ip host ipaddr patterns =
      by_name (addr_match_list ipaddr patterns) (match_hostname host patterns (length patterns))

  pub match_user : List ℕ → List ℕ → List ℕ → List ℕ → Option HostVerdict
  match_user user host ipaddr pattern = parted (cut_at pattern)
    where
      parted : Option (List ℕ × List ℕ) → Option HostVerdict
      parted none = some (if match_pattern pattern user then allowed else refused)
      parted (some (pat, p)) =
          if match_pattern pat user then match_host_and_ip host ipaddr p else some refused

-- The proposals of a list, which are separated by commas; an empty one ends the list, for `strsep`.
pub split_commas : List ℕ → List (List ℕ)
split_commas [] = [] ∷ []
split_commas (c ∷ s) =
    let rest = split_commas s in if c == comma then [] ∷ rest else add_front c rest
  where
    add_front : ℕ → List (List ℕ) → List (List ℕ)
    add_front c [] = (c ∷ []) ∷ []
    add_front c (x ∷ xs) = (c ∷ x) ∷ xs

pub until_empty : List (List ℕ) → List (List ℕ)
until_empty [] = []
until_empty ([] ∷ xs) = []
until_empty ((c ∷ x) ∷ xs) = (c ∷ x) ∷ until_empty xs

abbrev pub max_prop : ℕ
max_prop = 40

pub same_string : List ℕ → List ℕ → Bool
same_string [] [] = true
same_string (a ∷ s) (b ∷ t) = a == b && same_string s t
same_string _ _ = false

pub is_listed : List ℕ → List (List ℕ) → Bool
is_listed p [] = false
is_listed p (x ∷ xs) = same_string p x || is_listed p xs

-- The first of the client's proposals that is one of the server's. `next` is left out.
pub first_listed : List (List ℕ) → List (List ℕ) → Option (List ℕ)
first_listed [] sproposals = none
first_listed (p ∷ ps) sproposals =
    let later = first_listed ps sproposals in if is_listed p sproposals then some p else later

pub match_list : List ℕ → List ℕ → Option (List ℕ)
match_list client server =
    first_listed (until_empty (split_commas client))
      (take max_prop (until_empty (split_commas server)))

-- ===== src/Match/Meaning.antt =====
-- What a list of patterns means, by the entries that it is written from.
use csbu_flo.Match.{
  Verdict, comma, match_pattern, excluded, lower, matched, sub_room, unmatched, skip_negation,
}
use csbu_flo.Base.{
  Bool, List, ◌≡◌, true, ℕ, ◌∷◌, [], false, if◌then◌else◌, length, not, ◌++◌, ◌||◌, ◌&&◌, ◌<◌, ◌==◌,
}

-- A pattern of the list, with its characters as they are written.
pub record Entry : Type 0 where
  pub negated : Bool
  pub sub : List ℕ

unfoldable pub text : Entry → List ℕ
text e = if e.negated then b'!' ∷ e.sub else e.sub

-- The entries, with commas between them.
unfoldable pub written_list : List Entry → List ℕ
written_list [] = []
written_list (e ∷ []) = text e
written_list (e ∷ f ∷ es) = text e ++ comma ∷ written_list (f ∷ es)

pub in_case : Bool → List ℕ → List ℕ
in_case dolower [] = []
in_case dolower (c ∷ s) = (if dolower then lower c else c) ∷ in_case dolower s

unfoldable pub no_comma : List ℕ → Bool
no_comma [] = true
no_comma (c ∷ s) = not (c == comma) && no_comma s

-- There is something to match, which is not too long, and what is not negated does not look as if.
unfoldable pub starts_plain : Bool → List ℕ → Bool
starts_plain negated [] = negated
starts_plain negated (c ∷ s) = negated || not (c == b'!')

pub record IsEntry (e : Entry) : Type 0 where
  pub commas : no_comma e.sub ≡ true
  pub room : length e.sub < sub_room
  pub plain : starts_plain e.negated e.sub ≡ true

-- The entry is negated, or not, and matches.
pub hits : Bool → Bool → List ℕ → Entry → Bool
hits negated dolower string e =
    match_pattern (in_case dolower e.sub) string && (if negated then e.negated else not e.negated)

pub any_hits : Bool → Bool → List ℕ → List Entry → Bool
any_hits negated dolower string [] = false
any_hits negated dolower string (e ∷ es) =
    hits negated dolower string e || any_hits negated dolower string es

verdict : Bool → Bool → Bool → Verdict
verdict excludes matches got =
    if excludes then excluded else if matches || got then matched else unmatched

-- Excluded by a negated entry wherever it stands, else matched by another.
pub meaning : Bool → List ℕ → Bool → List Entry → Verdict
meaning dolower string got es =
    verdict (any_hits true dolower string es) (any_hits false dolower string es) got

-- The comma and the entries behind it.
behind : List Entry → List ℕ
behind [] = []
behind (e ∷ es) = comma ∷ written_list (e ∷ es)

-- The first character and what is behind it, where a round begins.
record Begins (t : List ℕ) (negated : Bool) (body : List ℕ) : Type 0 where
  char : ℕ
  later : List ℕ
  shape : t ≡ char ∷ later
  read : skip_negation (char ∷ later) ≡ (negated, body)

-- ===== src/Match/Tests.antt =====
-- Patterns, lists of them and lists of algorithms.
use csbu_flo.Match.Meaning.{Entry, written_list, text}
use csbu_flo.Match.Proposals.{Choice, match_list-Choice}
use csbu_flo.Match.Subpatterns.{Answers, match_pattern_list-Answers}
use csbu_flo.Match.Glob.{Globs, single_stars, match_pattern_iff, one, leave, empty}
use csbu_flo.Match.{
  match_list, match_pattern, match_pattern_list, first_listed, match_rounds, one_char, until_empty,
  after_any, asterisk, at_any, comma, is_listed, question, split_commas, same_string, take_sub,
  lower, max_prop, excluded, matched,
}
use csbu_flo.Base.{List, true, ℕ, ◌∷◌, ◌≡◌, [], false, refl, take, arith, some, inr, ◌↔◌}

-- A pattern, and a string that ends where its last `*` begins.
abbrev two_stars : List ℕ
two_stars = b'a' ∷ asterisk ∷ asterisk ∷ []

two_stars_long : match_pattern two_stars (b'a' ∷ b'b' ∷ []) ≡ true
unfolding match_pattern one_char at_any
two_stars_long = refl

-- The second `*` is looked for in the string that is left, which is empty.
two_stars_short : match_pattern two_stars (b'a' ∷ []) ≡ false
unfolding match_pattern one_char at_any
two_stars_short = refl

two_stars_Globs : Globs two_stars (b'a' ∷ [])
two_stars_Globs = one (ground arith) (inr refl) (leave refl (leave refl empty))

-- `h*t?`
abbrev host_pattern : List ℕ
host_pattern = b'h' ∷ asterisk ∷ b't' ∷ question ∷ []

abbrev host : List ℕ
host = b'h' ∷ b'o' ∷ b's' ∷ b't' ∷ b'1' ∷ []

host_matches : match_pattern host_pattern host ≡ true
unfolding match_pattern one_char after_any
host_matches = refl

match_pattern_iff_example : (match_pattern host_pattern host ≡ true) ↔ Globs host_pattern host
unfolding single_stars
match_pattern_iff_example = match_pattern_iff host_pattern host refl

-- `!hos?,h*`
abbrev patterns : List ℕ
patterns = b'!' ∷ b'h' ∷ b'o' ∷ b's' ∷ question ∷ comma ∷ b'h' ∷ asterisk ∷ []

-- `host1` is matched by the second pattern only, `hose` is excluded by the first.
host_listed : match_pattern_list host patterns 8 true ≡ some matched
unfolding match_pattern_list match_rounds match_pattern one_char after_any at_any take_sub lower
host_listed = refl

hose_excluded : match_pattern_list (b'h' ∷ b'o' ∷ b's' ∷ b'e' ∷ []) patterns 8 true ≡ some excluded
unfolding match_pattern_list match_rounds match_pattern one_char after_any at_any take_sub lower
hose_excluded = refl

match_pattern_list-Answers_example : Answers (match_pattern_list host patterns 8 true)
match_pattern_list-Answers_example = match_pattern_list-Answers host patterns 8 true

-- `!hos?` and `h*`
abbrev entries : List Entry
entries =
    record { negated = true; sub = b'h' ∷ b'o' ∷ b's' ∷ question ∷ [] }
    ∷ record { negated = false; sub = b'h' ∷ asterisk ∷ [] }
    ∷ []

written_entries : written_list entries ≡ patterns
unfolding written_list text
written_entries = refl

-- `b,c,a` and `a,b`
abbrev client : List ℕ
client = b'b' ∷ comma ∷ b'c' ∷ comma ∷ b'a' ∷ []

abbrev server : List ℕ
server = b'a' ∷ comma ∷ b'b' ∷ []

client_chooses : match_list client server ≡ some (b'b' ∷ [])
unfolding match_list first_listed is_listed same_string split_commas until_empty
client_chooses = refl

match_list-Choice_example :
    Choice
      (until_empty (split_commas client))
      (take max_prop (until_empty (split_commas server)))
      (match_list client server)
match_list-Choice_example = match_list-Choice client server

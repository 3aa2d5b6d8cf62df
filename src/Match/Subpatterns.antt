-- ===== src/Match/Subpatterns.antt =====
-- `match_pattern_list` always answers: its rounds take a character each.
use csbu_flo.Match.{
  comma, match_pattern, match_pattern_list, match_rounds, skip_comma, skip_negation, sub_room,
  take_sub, excluded, unmatched,
}
use csbu_flo.Base.{
  arith, Bool, List, ℕ, length, ◌≤◌, suc, ◌∷◌, if_cases, ◌==◌, [], zero, ◌≡◌, true, Option,
  if◌then◌else◌, some, refl, leb, ◌&&◌, ◌||◌, false, take, length-take,
}

-- What is left behind a subpattern is no longer than what was there.
take_sub-length :
    (room : ℕ) (dolower : Bool) (s : List ℕ) → length (take_sub room dolower s).1 ≤ length s
unfolding take_sub
take_sub-length zero dolower s = omega arith
take_sub-length (suc room) dolower [] = omega arith
take_sub-length (suc room) dolower (c ∷ s) =
    if_cases (λ (r : List ℕ × List ℕ). length r.1 ≤ suc (length s)) (c == comma) _ _
      (λ _. omega arith) (λ _. omega (arith, take_sub-length room dolower s))

skip_comma-length : (s : List ℕ) → length (skip_comma s) ≤ length s
skip_comma-length [] = omega arith
skip_comma-length (c ∷ s) =
    if_cases (λ (r : List ℕ). length r ≤ suc (length s)) (c == comma) _ _ (λ _. omega arith)
      (λ _. omega arith)

skip_comma-shorter :
    (c : ℕ) (s : List ℕ) → c == comma ≡ true → length (skip_comma (c ∷ s)) ≤ length s
skip_comma-shorter c s h =
    if_cases (λ (r : List ℕ). length r ≤ length s) (c == comma) _ _ (λ _. omega arith)
      (λ other. ground (arith, h, other))

-- What is left behind a round's subpattern and the comma behind it.
round_rest : ℕ → Bool → List ℕ → List ℕ
round_rest room dolower body = skip_comma (take_sub room dolower body).1

round_rest-length :
    (room : ℕ) (dolower : Bool) (body : List ℕ)
    → length (round_rest room dolower body) ≤ length body
unfolding round_rest
round_rest-length room dolower body =
    omega
      (arith, skip_comma-length (take_sub room dolower body).1, take_sub-length room dolower body)

-- A round that has room takes a character of the subpattern, or the comma.
round_rest-shorter :
    (room : ℕ) (dolower : Bool) (c : ℕ) (s : List ℕ)
    → length (round_rest (suc room) dolower (c ∷ s)) ≤ length s
unfolding round_rest take_sub
round_rest-shorter room dolower c s =
    if_cases (λ (r : List ℕ × List ℕ). length (skip_comma r.1) ≤ length s) (c == comma) _ _
      (λ h. skip_comma-shorter c s h)
      (λ _.
        omega
          (arith, skip_comma-length (take_sub room dolower s).1, take_sub-length room dolower s))

behind_round :
    (room : ℕ) (dolower : Bool) (c : ℕ) (pattern : List ℕ)
    → length (round_rest (suc room) dolower (skip_negation (c ∷ pattern)).1) ≤ length pattern
behind_round room dolower c pattern =
    if_cases (λ (r : Bool × List ℕ). length (round_rest (suc room) dolower r.1) ≤ length pattern)
      (c == b'!') _ _ (λ _. round_rest-length (suc room) dolower pattern)
      (λ _. round_rest-shorter room dolower c pattern)

fits_rest :
    (fuel : ℕ) (dolower : Bool) (c : ℕ) (pattern : List ℕ)
    → suc (length pattern) ≤ suc fuel
    → length (round_rest sub_room dolower (skip_negation (c ∷ pattern)).1) ≤ fuel
fits_rest fuel dolower c pattern h = omega (arith, behind_round 1022 dolower c pattern)

pub Answers : {A : Type 0} → Option A → Type 0
Answers {A} r = (v : A) × (r ≡ some v)

if_Answers :
    {A : Type 0}
    → (b : Bool) (r r' : Option A) → Answers r
    → Answers r'
    → Answers (if b then r else r')
if_Answers b r r' h h' = if_cases Answers b r r' (λ _. h) (λ _. h')

some-Answers : {A : Type 0} → (v : A) → Answers (some v)
unfolding Answers
some-Answers v = (v, refl)

match_rounds-Answers :
    (fuel : ℕ) (string : List ℕ) (dolower got_positive : Bool) (pattern : List ℕ)
    → length pattern ≤ fuel
    → Answers (match_rounds fuel string dolower got_positive pattern)
unfolding match_rounds round_rest
match_rounds-Answers fuel string dolower got_positive [] h = some-Answers _
match_rounds-Answers zero string dolower got_positive (c ∷ pattern) h = absurd (omega arith)
match_rounds-Answers (suc fuel) string dolower got_positive (c ∷ pattern) h =
    let (negated, body) = skip_negation (c ∷ pattern) in
    let (sub, rest) = take_sub sub_room dolower body in
    let hit = match_pattern sub string in
    if_Answers (leb sub_room (length sub)) _ _ (some-Answers unmatched) (
      if_Answers (hit && negated) _ _ (some-Answers excluded) (
        match_rounds-Answers fuel string dolower (hit || got_positive) (skip_comma rest)
          (fits_rest fuel dolower c pattern h)))

-- The rounds of `match_pattern_list` end with one of its three answers, for every string and pattern.
pub match_pattern_list-Answers :
    (string pattern : List ℕ) (len : ℕ) (dolower : Bool)
    → Answers (match_pattern_list string pattern len dolower)
unfolding match_pattern_list
match_pattern_list-Answers string pattern len dolower =
    match_rounds-Answers (length pattern) string dolower false (take len pattern)
      (omega (arith, length-take len pattern))

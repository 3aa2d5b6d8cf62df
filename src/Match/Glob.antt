-- ===== src/Match/Glob.antt =====
-- `match_pattern` against what a pattern with wildcards means.
use csbu_flo.Match.{after_any, at_any, match_pattern, one_char, asterisk, question}
use csbu_flo.Base.{
  arith, List, ℕ, Bool, [], ◌≡◌, true, ◌∷◌, ◌≢◌, ==_iff, Bool-cases, if_cases, not, inl, length,
  ◌==◌, ◌⊎◌, inr, ◌&&◌, sym, and_left, ap, and_right, ◌||◌, ◌∙◌, if_at_false, refl, false, suc, ◌↔◌,
}

-- A `*` stands for any characters, a `?` for any one, another character for itself.
pub data Globs : List ℕ → List ℕ → Type 0 where
  empty : Globs [] []
  leave : {p : ℕ} {ps s : List ℕ} → p ≡ asterisk → Globs ps s → Globs (p ∷ ps) s
  eat : {p c : ℕ} {ps s : List ℕ} → p ≡ asterisk → Globs (p ∷ ps) s → Globs (p ∷ ps) (c ∷ s)
  one :
      {p c : ℕ} {ps s : List ℕ}
      → p ≢ asterisk
      → (p ≡ question) ⊎ (p ≡ c)
      → Globs ps s
      → Globs (p ∷ ps) (c ∷ s)

-- No two `*` in a row.
unfoldable pub single_stars : List ℕ → Bool
single_stars [] = true
single_stars (p ∷ []) = true
single_stars (p ∷ q ∷ ps) = not (p == asterisk && q == asterisk) && single_stars (q ∷ ps)

abbrev Finds : (List ℕ → Bool) → List ℕ → Type 0
Finds f ps = (s : List ℕ) → f s ≡ true → Globs ps s

one_char-Globs :
    (p : ℕ) (ps : List ℕ) (f : List ℕ → Bool)
    → p ≢ asterisk
    → Finds f ps
    → Finds (one_char p f) (p ∷ ps)
unfolding one_char
one_char-Globs p ps f n h [] e = cc
one_char-Globs p ps f n h (c ∷ s) e =
    if_cases (λ b. b ≡ true → Globs (p ∷ ps) (c ∷ s)) (not (p == question) && not (p == c)) _ _
      (λ _ e'. cc) (λ fits e'. one n (ground arith) (h s e')) e

at_any-Globs :
    (p : ℕ) (ps : List ℕ) (f : List ℕ → Bool)
    → p ≡ asterisk
    → Finds f ps
    → Finds (at_any f) (p ∷ ps)
unfolding at_any
at_any-Globs p ps f star h [] e = cc
at_any-Globs p ps f star h (c ∷ s) e = elim (Bool-cases (f (c ∷ s))) [
  | inl found ↦ leave star (h (c ∷ s) found)
  | inr missed ↦
      eat star (at_any-Globs p ps f star h s (sym (ap (λ b. b || at_any f s) missed) ∙ e))
]

after_any-Globs :
    (p q : ℕ) (ps : List ℕ) (f : List ℕ → Bool)
    → p ≡ asterisk
    → q ≢ asterisk
    → Finds f ps
    → Finds (after_any q f) (p ∷ q ∷ ps)
unfolding after_any
after_any-Globs p q ps f star n h [] e = cc
after_any-Globs p q ps f star n h (c ∷ s) e = elim (Bool-cases (c == q && f s)) [
  | inl found ↦ leave star (
      one n (inr (sym ((==_iff c q).0 (and_left (c == q) (f s) found))))
        (h s (and_right (c == q) (f s) found)))
  | inr missed ↦
      eat star
        (after_any-Globs p q ps f star n h s (sym (ap (λ b. b || after_any q f s) missed) ∙ e))
]

everything : (p : ℕ) (s : List ℕ) → p ≡ asterisk → Globs (p ∷ []) s
everything p [] star = leave star empty
everything p (c ∷ s) star = eat star (everything p s star)

-- What `match_pattern` accepts, the pattern stands for, also where it has two `*` in a row.
match_pattern-Globs : (ps : List ℕ) → Finds (match_pattern ps) ps
unfolding match_pattern
match_pattern-Globs [] [] e = empty
match_pattern-Globs [] (c ∷ s) e = absurd (omega (arith, (==_iff (suc (length s)) 0).0 e))
match_pattern-Globs (p ∷ []) s e =
    if_cases (λ b. b ≡ true → Globs (p ∷ []) s) (p == asterisk) _ _
      (λ star _. everything p s ((==_iff p asterisk).0 star))
      (λ other. one_char-Globs p [] (match_pattern []) (ground arith) (match_pattern-Globs []) s) e
match_pattern-Globs (p ∷ q ∷ ps) s e =
    if_cases (λ b. b ≡ true → Globs (p ∷ q ∷ ps) s) (p == asterisk) _ _
      (λ star.
        if_cases (λ b. b ≡ true → Globs (p ∷ q ∷ ps) s) (not (q == question) && not (q == asterisk))
          _ _
          (λ plain.
            after_any-Globs p q ps (match_pattern ps) ((==_iff p asterisk).0 star) (ground arith)
              (match_pattern-Globs ps) s)
          (λ _.
            at_any-Globs p (q ∷ ps) (match_pattern (q ∷ ps)) ((==_iff p asterisk).0 star)
              (match_pattern-Globs (q ∷ ps)) s))
      (λ other.
        one_char-Globs p (q ∷ ps) (match_pattern (q ∷ ps)) (ground arith)
          (match_pattern-Globs (q ∷ ps)) s)
      e

abbrev Completes : (List ℕ → Bool) → List ℕ → Type 0
Completes f ps = (s : List ℕ) → Globs ps s → f s ≡ true

one_char_complete :
    (p : ℕ) (ps : List ℕ) (f : List ℕ → Bool)
    → p ≢ asterisk
    → Completes f ps
    → Completes (one_char p f) (p ∷ ps)
unfolding one_char
one_char_complete p ps f n h s (leave star g) = absurd (n star)
one_char_complete p ps f n h (c ∷ s) (eat star g) = absurd (n star)
one_char_complete p ps f n h (c ∷ s) (one _ fits g) =
    if_at_false (λ b. b ≡ true) false (f s) (ground arith) (h s g)

-- Behind a `*`, a character of the pattern that is not special.
after_any_complete :
    (p q : ℕ) (ps : List ℕ) (f : List ℕ → Bool)
    → q ≢ asterisk
    → q ≢ question
    → p ≡ asterisk
    → Completes f ps
    → Completes (after_any q f) (p ∷ q ∷ ps)
unfolding after_any
after_any_complete p q ps f n m star h s (leave _ (leave star' g)) = absurd (n star')
after_any_complete p q ps f n m star h (c ∷ s) (leave _ (eat star' g)) = absurd (n star')
after_any_complete p q ps f n m star h (c ∷ s) (leave _ (one _ fits g)) = ground (arith, h s g)
after_any_complete p q ps f n m star h (c ∷ s) (eat _ g) =
    ground (arith, after_any_complete p q ps f n m star h s g)
after_any_complete p q ps f n m star h (c ∷ s) (one n' _ g) = absurd (n' star)

-- Behind a `*`, a `?`.
at_any_complete :
    (p q : ℕ) (ps : List ℕ) (f : List ℕ → Bool)
    → q ≢ asterisk
    → p ≡ asterisk
    → Completes f (q ∷ ps)
    → Completes (at_any f) (p ∷ q ∷ ps)
unfolding at_any
at_any_complete p q ps f n star h s (leave _ (leave star' g)) = absurd (n star')
at_any_complete p q ps f n star h (c ∷ s) (leave _ (eat star' g)) = absurd (n star')
at_any_complete p q ps f n star h (c ∷ s) (leave _ (one k fits g)) =
    ground (arith, h (c ∷ s) (one k fits g))
at_any_complete p q ps f n star h (c ∷ s) (eat _ g) =
    ground (arith, at_any_complete p q ps f n star h s g)
at_any_complete p q ps f n star h (c ∷ s) (one n' _ g) = absurd (n' star)

shorter : (q : ℕ) (ps : List ℕ) → single_stars (q ∷ ps) ≡ true → single_stars ps ≡ true
unfolding single_stars
shorter q [] h = refl
shorter q (r ∷ ps) h = and_right (not (q == asterisk && r == asterisk)) (single_stars (r ∷ ps)) h

-- Without two `*` in a row, what the pattern stands for is accepted.
Globs-match_pattern : (ps : List ℕ) → single_stars ps ≡ true → Completes (match_pattern ps) ps
unfolding match_pattern single_stars
Globs-match_pattern [] h s empty = refl
Globs-match_pattern (p ∷ []) h s g =
    if_cases (λ b. b ≡ true) (p == asterisk) _ _ (λ _. refl)
      (λ other.
        one_char_complete p [] (match_pattern []) (ground arith) (Globs-match_pattern [] refl) s g)
Globs-match_pattern (p ∷ q ∷ ps) h s g =
    let tail : single_stars (q ∷ ps) ≡ true =
      and_right (not (p == asterisk && q == asterisk)) _ h in
    if_cases (λ b. b ≡ true) (p == asterisk) _ _
      (λ star.
        let is_star = (==_iff p asterisk).0 star in
        let n : q ≢ asterisk = ground arith in
        if_cases (λ b. b ≡ true) (not (q == question) && not (q == asterisk)) _ _
          (λ plain.
            after_any_complete p q ps (match_pattern ps) n (ground arith) is_star
              (Globs-match_pattern ps (shorter q ps tail)) s g)
          (λ _.
            at_any_complete p q ps (match_pattern (q ∷ ps)) n is_star
              (Globs-match_pattern (q ∷ ps) tail) s g))
      (λ other.
        one_char_complete p (q ∷ ps) (match_pattern (q ∷ ps)) (ground arith)
          (Globs-match_pattern (q ∷ ps) tail) s g)

-- A pattern with no two `*` in a row is matched exactly by the strings that it stands for.
pub match_pattern_iff :
    (pattern s : List ℕ)
    → single_stars pattern ≡ true
    → (match_pattern pattern s ≡ true) ↔ Globs pattern s
match_pattern_iff pattern s h = (match_pattern-Globs pattern s, Globs-match_pattern pattern h s)

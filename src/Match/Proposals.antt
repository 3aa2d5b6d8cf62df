-- ===== src/Match/Proposals.antt =====
-- The choice of an algorithm: the client's first proposal that the server has.
use csbu_flo.Match.{
  first_listed, is_listed, same_string, match_list, until_empty, split_commas, max_prop,
}
use csbu_flo.Base.{
  arith, List, ℕ, Option, ◌∷◌, ◌≡◌, some, true, Bool-cases, [], none, ap₂, inl, refl, ==_iff, subst,
  and_left, inr, sym, ◌==◌, and_right, ap, ◌||◌, ◌∙◌, if_cases, take, All,
}

-- `x` is one of the list.
pub data Among (x : List ℕ) : List (List ℕ) → Type 0 where
  first : {xs : List (List ℕ)} → Among x (x ∷ xs)
  further : {y : List ℕ} {xs : List (List ℕ)} → Among x xs → Among x (y ∷ xs)

same_string-eq : (a b : List ℕ) → same_string a b ≡ true → a ≡ b
unfolding same_string
same_string-eq [] [] e = refl
same_string-eq [] (y ∷ b) e = cc
same_string-eq (x ∷ a) [] e = cc
same_string-eq (x ∷ a) (y ∷ b) e =
    ap₂ (λ c s. c ∷ s) ((==_iff x y).0 (and_left (x == y) (same_string a b) e))
      (same_string-eq a b (and_right (x == y) (same_string a b) e))

same_string_refl : (a : List ℕ) → same_string a a ≡ true
unfolding same_string
same_string_refl [] = refl
same_string_refl (x ∷ a) = ground (arith, same_string_refl a)

is_listed-Among : (x : List ℕ) (xs : List (List ℕ)) → is_listed x xs ≡ true → Among x xs
unfolding is_listed
is_listed-Among x [] e = cc
is_listed-Among x (y ∷ xs) e = elim (Bool-cases (same_string x y)) [
  | inl found ↦ subst (λ z. Among x (z ∷ xs)) (same_string-eq x y found) first
  | inr missed ↦ further (is_listed-Among x xs (sym (ap (λ b. b || is_listed x xs) missed) ∙ e))
]

Among-is_listed : (x : List ℕ) (xs : List (List ℕ)) → Among x xs → is_listed x xs ≡ true
unfolding is_listed
Among-is_listed x [] a = elim a [ ]
Among-is_listed x (_ ∷ xs) first = ground (arith, same_string_refl x)
Among-is_listed x (y ∷ xs) (further a) = ground (arith, Among-is_listed x xs a)

-- The choice: a proposal of the client's that the server has, with none before it that it has.
pub data Chosen (server : List (List ℕ)) (p : List ℕ) : List (List ℕ) → Type 0 where
  at_once : {ps : List (List ℕ)} → Among p server → Chosen server p (p ∷ ps)
  after :
      {q : List ℕ} {ps : List (List ℕ)}
      → ¬ Among q server
      → Chosen server p ps
      → Chosen server p (q ∷ ps)

pub Choice : List (List ℕ) → List (List ℕ) → Option (List ℕ) → Type 0
Choice client server (some p) = Chosen server p client
Choice client server none = All (λ p. ¬ Among p server) client

-- A proposal that the server does not have changes nothing.
Choice-after :
    (q : List ℕ) (client server : List (List ℕ)) (r : Option (List ℕ))
    → ¬ Among q server
    → Choice client server r
    → Choice (q ∷ client) server r
unfolding Choice
Choice-after q client server (some p) n h = after n h
Choice-after q client server none n h = (n, h)

first_listed-Choice :
    (client server : List (List ℕ)) → Choice client server (first_listed client server)
unfolding first_listed Choice
first_listed-Choice [] server = tt
first_listed-Choice (q ∷ client) server =
    if_cases (Choice (q ∷ client) server) (is_listed q server) _ _
      (λ found. chosen q client server (is_listed-Among q server found))
      (λ missed.
        Choice-after q client server _ (λ a. ground (arith, Among-is_listed q server a))
          (first_listed-Choice client server))
  where
    chosen :
        (q : List ℕ) (client server : List (List ℕ))
        → Among q server
        → Choice (q ∷ client) server (some q)
    chosen q client server a = at_once a

-- What `match_list` returns is a proposal of the client's that is one of the server's first 40, with none
-- of the client's before it that is; it returns none only when they share none. Each list of proposals
-- ends at its first empty one.
pub match_list-Choice :
    (client server : List ℕ)
    → Choice
        (until_empty (split_commas client))
        (take max_prop (until_empty (split_commas server)))
        (match_list client server)
unfolding match_list
match_list-Choice client server = first_listed-Choice _ _

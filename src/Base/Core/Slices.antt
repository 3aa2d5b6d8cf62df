-- ===== src/Base/Core/Slices.antt =====
-- Prefixes and suffixes of appended lists.
use Prim.Native.Nat.{ℕ, zero, suc, ◌+◌, ◌-◌, ◌≤◌, ◌<◌}
use mathlib.Core.Path.{◌≡◌, refl, ap, ap₂, sym, ◌∙◌}
use mathlib.Core.List.{List, [], ◌∷◌, ◌++◌}
use mathlib.Core.Option.{none, some}
use native.Mathlib.Omega.{arith}
use csbu_flo.Base.Core.Lists.{length, take, drop, set, get_or, get_elem?}

module _ {ℓ} {A : Type ℓ} where
  -- To rewrite the count alone.
  pub take_at : (xs : List A) (n m : ℕ) → n ≡ m → take n xs ≡ take m xs
  take_at xs n m e = ap (λ (k : ℕ). take k xs) e

  pub drop_at : (xs : List A) (n m : ℕ) → n ≡ m → drop n xs ≡ drop m xs
  drop_at xs n m e = ap (λ (k : ℕ). drop k xs) e

  pub take-nil : (n : ℕ) → take {A = A} n [] ≡ []
  take-nil zero = refl
  take-nil (suc n) = refl

  pub drop-nil : (n : ℕ) → drop {A = A} n [] ≡ []
  drop-nil zero = refl
  drop-nil (suc n) = refl

  pub take-append_le : (n : ℕ) (xs ys : List A) → n ≤ length xs → take n (xs ++ ys) ≡ take n xs
  take-append_le zero xs ys h = refl
  take-append_le (suc n) [] ys h = absurd (omega arith)
  take-append_le (suc n) (x ∷ xs) ys h = ap (λ r. x ∷ r) (take-append_le n xs ys (omega arith))

  pub take-append_add : (n : ℕ) (xs ys : List A) → take (length xs + n) (xs ++ ys) ≡ xs ++ take n ys
  take-append_add n [] ys = take_at ys _ _ (omega arith)
  take-append_add n (x ∷ xs) ys =
      take_at (x ∷ (xs ++ ys)) (suc (length xs) + n) (suc (length xs + n)) (omega arith)
      ∙ ap (λ r. x ∷ r) (take-append_add n xs ys)

  pub take_own : (xs ys : List A) → take (length xs) (xs ++ ys) ≡ xs
  take_own [] ys = refl
  take_own (x ∷ xs) ys = ap (λ r. x ∷ r) (take_own xs ys)

  pub drop_own : (xs ys : List A) → drop (length xs) (xs ++ ys) ≡ ys
  drop_own [] ys = refl
  drop_own (x ∷ xs) ys = drop_own xs ys

  pub take_all : (xs : List A) → take (length xs) xs ≡ xs
  take_all [] = refl
  take_all (x ∷ xs) = ap (λ r. x ∷ r) (take_all xs)

  pub drop-append_le :
      (n : ℕ) (xs ys : List A) → n ≤ length xs → drop n (xs ++ ys) ≡ drop n xs ++ ys
  drop-append_le zero xs ys h = refl
  drop-append_le (suc n) [] ys h = absurd (omega arith)
  drop-append_le (suc n) (x ∷ xs) ys h = drop-append_le n xs ys (omega arith)

  pub drop-take : (n m : ℕ) (xs : List A) → drop n (take m xs) ≡ take (m - n) (drop n xs)
  drop-take zero m xs = take_at xs m (m - 0) (omega arith)
  drop-take (suc n) zero xs = take_at (drop (suc n) xs) 0 (0 - suc n) (omega arith)
  drop-take (suc n) (suc m) [] = sym (take-nil (suc m - suc n))
  drop-take (suc n) (suc m) (x ∷ xs) =
      drop-take n m xs ∙ take_at (drop n xs) (m - n) (suc m - suc n) (omega arith)

  pub drop-drop : (n m : ℕ) (xs : List A) → drop n (drop m xs) ≡ drop (m + n) xs
  drop-drop n zero xs = drop_at xs n (0 + n) (omega arith)
  drop-drop n (suc m) [] = rw (drop-nil n, drop-nil (suc m + n))
  drop-drop n (suc m) (x ∷ xs) =
      drop-drop n m xs ∙ drop_at (x ∷ xs) (suc (m + n)) (suc m + n) (omega arith)

  pub take-take : (n m : ℕ) (xs : List A) → n ≤ m → take n (take m xs) ≡ take n xs
  take-take zero m xs h = refl
  take-take (suc n) zero xs h = absurd (omega arith)
  take-take (suc n) (suc m) [] h = refl
  take-take (suc n) (suc m) (x ∷ xs) h = ap (λ r. x ∷ r) (take-take n m xs (omega arith))

  -- Writing right behind a prefix makes it longer by one.
  pub take-set_next :
      (xs : List A) (n : ℕ) (v : A)
      → n < length xs
      → take (suc n) (set xs n v) ≡ take n xs ++ v ∷ []
  take-set_next [] n v h = absurd (omega arith)
  take-set_next (x ∷ xs) zero v h = refl
  take-set_next (x ∷ xs) (suc n) v h = ap (λ r. x ∷ r) (take-set_next xs n v (omega arith))

  pub drop-get_or :
      (xs : List A) (i : ℕ) (d : A) → i < length xs → drop i xs ≡ get_or xs i d ∷ drop (suc i) xs
  drop-get_or [] i d h = absurd (omega arith)
  drop-get_or (x ∷ xs) zero d h = refl
  drop-get_or (x ∷ xs) (suc i) d h = drop-get_or xs i d (omega arith)

  pub drop_all : (xs : List A) (n : ℕ) → length xs ≤ n → drop n xs ≡ []
  drop_all [] n h = drop-nil n
  drop_all (x ∷ xs) zero h = absurd (omega arith)
  drop_all (x ∷ xs) (suc n) h = drop_all xs n (omega arith)

  pub drop-cons :
      (i : ℕ) (xs : List A) (y : A) (ys : List A)
      → drop i xs ≡ y ∷ ys
      → (get_elem? xs i ≡ some y) × (drop (suc i) xs ≡ ys)
  drop-cons zero [] y ys e = cc
  drop-cons zero (x ∷ xs) y ys e = (cc, cc)
  drop-cons (suc i) [] y ys e = cc
  drop-cons (suc i) (x ∷ xs) y ys e = drop-cons i xs y ys e

  pub get_elem?-drop_nil : (i : ℕ) (xs : List A) → drop i xs ≡ [] → get_elem? xs i ≡ none
  get_elem?-drop_nil zero [] e = refl
  get_elem?-drop_nil zero (x ∷ xs) e = cc
  get_elem?-drop_nil (suc i) [] e = refl
  get_elem?-drop_nil (suc i) (x ∷ xs) e = get_elem?-drop_nil i xs e

-- The bytes of all reads.
abbrev pub joined {ℓ} : {A : Type ℓ} → List (List A) → List A
joined [] = []
joined (buf ∷ bufs) = buf ++ joined bufs

pub no_bytes {ℓ} : {A : Type ℓ} (c d : List A) → c ++ d ≡ [] → c ≡ []
no_bytes [] d e = refl
no_bytes (x ∷ c) d e = cc

-- Two ways to cut the same bytes, where the first cut is not longer.
pub split_prefix {ℓ} :
    {A : Type ℓ} (w t c d : List A)
    → c ++ d ≡ w ++ t
    → length w ≤ length c
    → (c ≡ w ++ drop (length w) c) × (drop (length w) c ++ d ≡ t)
split_prefix [] t c d e h = (refl, e)
split_prefix (x ∷ w) t [] d e h = absurd (omega arith)
split_prefix (x ∷ w) t (y ∷ c) d e h =
    let head : y ≡ x = cc in
    let tail : c ++ d ≡ w ++ t = cc in
    let r = split_prefix w t c d tail (omega arith) in (ap₂ (λ z zs. z ∷ zs) head r.0, r.1)

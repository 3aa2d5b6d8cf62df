-- ===== src/Base/Core/Every.antt =====
-- A property of every element of a list.
use Prim.Native.Nat.{ℕ, zero, suc, ◌≤◌, ◌<◌}
use mathlib.Core.List.{List, [], ◌∷◌, ◌++◌}
use native.Mathlib.Omega.{arith}
use csbu_flo.Base.Core.Lists.{length, take, get_or}

abbrev pub All {ℓ κ} : {A : Type ℓ} → (A → Type κ) → List A → Type κ
All P [] = Unit
All P (x ∷ xs) = P x × All P xs

module _ {ℓ κ} {A : Type ℓ} (P : A → Type κ) where
  pub All-append : (xs ys : List A) → All P xs → All P ys → All P (xs ++ ys)
  All-append [] ys hx hy = hy
  All-append (x ∷ xs) ys hx hy = (hx.0, All-append xs ys hx.1 hy)

  pub All-get_or : (xs : List A) (i : ℕ) (d : A) → All P xs → i < length xs → P (get_or xs i d)
  All-get_or [] i d h lt = absurd (omega arith)
  All-get_or (x ∷ xs) zero d h lt = h.0
  All-get_or (x ∷ xs) (suc i) d h lt = All-get_or xs i d h.1 (omega arith)

  pub All-take :
      (n : ℕ) (xs : List A) (d : A)
      → ((i : ℕ) → i < n → P (get_or xs i d))
      → n ≤ length xs
      → All P (take n xs)
  All-take zero xs d h le = tt
  All-take (suc n) [] d h le = absurd (omega arith)
  All-take (suc n) (x ∷ xs) d h le =
      (h 0 (omega arith), All-take n xs d (λ i lt. h (suc i) (omega arith)) (omega arith))

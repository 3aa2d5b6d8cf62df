-- ===== src/Tau/Median.antt =====
-- The new tau: a power of two from LOWER_TAU to UPPER_TAU, from the median of the candidates.
use native.Mathlib.Nat.{pow-suc, pow-le-pow_right, one-le-pow}
use mathlib.Core.List.{Perm}
use mathlib.Core.List.Perm
use csbu_flo.Base.{
  ℕ, zero, suc, ◌*◌, ◌/◌, ◌^◌, ◌≤◌, ◌<◌, ◌≡◌, refl, ap, ◌∙◌, inl, inr, false, List, [], ◌∷◌, ◌++◌,
  length, get_or, take, drop, ◌==◌, if◌then◌else◌, arith, Bool-cases, dec_le, ℕ_discrete, All,
  All-get_or, All-take, length-append, length-drop, get_or-append, length-take, ==_false, ==_true,
}
use csbu_flo.Base.Int.{ℤ, pos, negsuc, ◌≤ℤ◌, ltb_ℤ, leb_ℤ, ◌*ℤ◌, ◌-ℤ◌, pos_part}
use csbu_flo.Tau.{
  Taus, upper_tau, comp_long, insert_sorted, sort_taus, floor_power, update_tau_median,
}
use csbu_flo.Tau.Bounds.{IsValid, InRange}

-- Between candidates the cut to an `int` loses nothing.
comp_long-leb : (x y : ℤ) → InRange x → InRange y → leb_ℤ (comp_long x y) (pos 0) ≡ leb_ℤ x y
unfolding comp_long ◌-ℤ◌
comp_long-leb x y hx hy = ground arith

insert_sorted-perm : (x : ℤ) (xs : List ℤ) → Perm (insert_sorted x xs) (x ∷ xs)
unfolding insert_sorted
insert_sorted-perm x [] = Perm.refl (x ∷ [])
insert_sorted-perm x (y ∷ ys) = elim (Bool-cases (leb_ℤ (comp_long x y) (pos 0))) [
  | inl e ↦ rw e (Perm.refl (x ∷ y ∷ ys))
  | inr e ↦ rw e (Perm.trans (Perm.cons y (insert_sorted-perm x ys)) (Perm.swap x y ys))
]

pub sort_taus-perm : (xs : List ℤ) → Perm (sort_taus xs) xs
unfolding sort_taus
sort_taus-perm [] = Perm.refl []
sort_taus-perm (x ∷ xs) =
    Perm.trans (insert_sorted-perm x (sort_taus xs)) (Perm.cons x (sort_taus-perm xs))

abbrev pub IsSorted : List ℤ → Type 0
IsSorted [] = Unit
IsSorted (x ∷ xs) = All (λ y. x ≤ℤ y) xs × IsSorted xs

insert_sorted-length : (x : ℤ) (xs : List ℤ) → length (insert_sorted x xs) ≡ suc (length xs)
unfolding insert_sorted
insert_sorted-length x [] = refl
insert_sorted-length x (y ∷ ys) = ground (arith, insert_sorted-length x ys)

pub length-sort_taus : (xs : List ℤ) → length (sort_taus xs) ≡ length xs
unfolding sort_taus
length-sort_taus [] = refl
length-sort_taus (x ∷ xs) = insert_sorted-length x (sort_taus xs) ∙ ap suc (length-sort_taus xs)

insert_sorted-All {ℓ} :
    (P : ℤ → Type ℓ) (x : ℤ) (xs : List ℤ) → P x → All P xs → All P (insert_sorted x xs)
unfolding insert_sorted
insert_sorted-All P x [] p h = (p, tt)
insert_sorted-All P x (y ∷ ys) p h = elim (Bool-cases (leb_ℤ (comp_long x y) (pos 0))) [
  | inl e ↦ rw e (p, h)
  | inr e ↦ rw e (h.0, insert_sorted-All P x ys p h.1)
]

sort_taus-All {ℓ} : (P : ℤ → Type ℓ) (xs : List ℤ) → All P xs → All P (sort_taus xs)
unfolding sort_taus
sort_taus-All P [] h = tt
sort_taus-All P (x ∷ xs) h = insert_sorted-All P x (sort_taus xs) h.0 (sort_taus-All P xs h.1)

All-weaken : (x y : ℤ) (ys : List ℤ) → x ≤ℤ y → All (λ z. y ≤ℤ z) ys → All (λ z. x ≤ℤ z) ys
All-weaken x y [] le h = tt
All-weaken x y (z ∷ zs) le h = (omega (arith, h.0), All-weaken x y zs le h.1)

insert_sorted-IsSorted :
    (x : ℤ) (xs : List ℤ) → InRange x → All InRange xs → IsSorted xs → IsSorted (insert_sorted x xs)
unfolding insert_sorted
insert_sorted-IsSorted x [] hx h s = (tt, tt)
insert_sorted-IsSorted x (y ∷ ys) hx h s = elim (Bool-cases (leb_ℤ (comp_long x y) (pos 0))) [
  | inl e ↦
      let le : x ≤ℤ y = ground (arith, comp_long-leb x y hx h.0) in
      rw e ((le, All-weaken x y ys le s.0), s)
  | inr e ↦
      let le : y ≤ℤ x = ground (arith, comp_long-leb x y hx h.0) in
      rw e (insert_sorted-All (λ z. y ≤ℤ z) x ys le s.0, insert_sorted-IsSorted x ys hx h.1 s.1)
]

pub sort_taus-IsSorted : (xs : List ℤ) → All InRange xs → IsSorted (sort_taus xs)
unfolding sort_taus
sort_taus-IsSorted [] h = tt
sort_taus-IsSorted (x ∷ xs) h =
    insert_sorted-IsSorted x (sort_taus xs) h.0 (sort_taus-All InRange xs h.1)
      (sort_taus-IsSorted xs h.1)

-- The largest power of two that is not above `n`.
abbrev pub IsFloorPower : ℕ → ℕ → Type 0
IsFloorPower n p = (k : ℕ) × (p ≡ 2 ^ k) × (p ≤ n) × (n < 2 * p)

pub floor_power_lem : (fuel n : ℕ) → 0 < n → n < 2 ^ fuel → IsFloorPower n (floor_power fuel n)
unfolding floor_power
floor_power_lem zero n h lt = absurd (omega arith)
floor_power_lem (suc fuel) n h lt = elim (ℕ_discrete n 1) [
  | yes one ↦ rw (==_false n 0 (omega arith), ==_true n 1 one) (0, refl, omega arith, omega arith)
  | no more ↦
      let (k, e, le, below) =
        floor_power_lem fuel (n / 2) (omega arith) (omega (arith, pow-suc 2 fuel)) in
      rw (==_false n 0 (omega arith), ==_false n 1 more)
        (suc k, omega (arith, pow-suc 2 k), omega arith, omega arith)
]

-- Between powers of two the exponent is between theirs.
exponent_ge : (k i : ℕ) → 2 ^ i < 2 * 2 ^ k → i ≤ k
exponent_ge k i lt = elim (dec_le i k) [
  | yes le ↦ le
  | no gt ↦ absurd (
      omega (
        arith,
        pow-le-pow_right {n = 2} (omega arith) {i = suc k} {j = i} (omega arith),
        pow-suc 2 k,
      ))
]

exponent_le : (k i : ℕ) → 2 ^ k ≤ 2 ^ i → k ≤ i
exponent_le k i le = exponent_ge i k (omega (arith, one-le-pow i 2 (omega arith)))

-- A power of two from LOWER_TAU to UPPER_TAU.
abbrev pub IsTau : ℤ → Type 0
IsTau t = (k : ℕ) × (t ≡ pos (2 ^ k)) × (12 ≤ k) × (k ≤ 15)

IsFloorPower-IsTau : (n p : ℕ) → InRange (pos n) → IsFloorPower n p → IsTau (pos p)
IsFloorPower-IsTau n p h (k, e, le, below) =
    (k, ap pos e, exponent_ge k 12 (omega (arith, e)), exponent_le k 15 (omega (arith, e)))

InRange-parts :
    (t : ℤ) → InRange t → (t ≡ pos (pos_part t)) × (4096 ≤ pos_part t) × (pos_part t ≤ 32768)
InRange-parts (pos n) h = (refl, omega arith, omega arith)
InRange-parts (negsuc n) h = absurd (omega arith)

module _ (s : Taus) (v : IsValid s) where
  recorded_InRange : All InRange (take s.tau_size s.tau_arr)
  recorded_InRange =
      All-take InRange s.tau_size s.tau_arr (pos 0) v.entries (omega (arith, v.memory, v.counted))

  abbrev sorted : List ℤ
  sorted = sort_taus (take s.tau_size s.tau_arr)

  length-sorted : length sorted ≡ s.tau_size
  length-sorted = omega (
    arith,
    length-sort_taus (take s.tau_size s.tau_arr),
    length-take s.tau_size s.tau_arr,
    v.memory,
    v.counted,
  )

  abbrev median : ℤ
  median = get_or sorted (s.tau_size / 2) (pos 0)

  -- Reading the array in the sorted part.
  get_or-median :
      0 < s.tau_size
      → get_or (sorted ++ drop s.tau_size s.tau_arr) (s.tau_size / 2) (pos 0) ≡ median
  get_or-median some_tau =
      get_or-append sorted _ (s.tau_size / 2) (pos 0) (omega (arith, length-sorted))

  median-InRange : 0 < s.tau_size → InRange median
  median-InRange some_tau =
      All-get_or InRange sorted (s.tau_size / 2) (pos 0) (sort_taus-All InRange _ recorded_InRange)
        (omega (arith, length-sorted))

  median-power : 0 < s.tau_size → IsFloorPower (pos_part median) (floor_power 64 (pos_part median))
  median-power some_tau =
      let (e, lower, upper) = InRange-parts median (median-InRange some_tau) in
      floor_power_lem 64 (pos_part median) (omega arith) (omega arith)

  -- Where the record of candidates is well formed (as updates keep it), the total has reached the
  -- boundary and there is a candidate, the boundary doubles, the
  -- candidates are forgotten, and the new tau is the largest power of two that is not above the
  -- middle element of the sorted candidates.
  pub update_tau_median-median :
      (tau boundary total : ℤ)
      → ltb_ℤ total boundary ≡ false
      → 0 < s.tau_size
      → let (t, boundary', s') = update_tau_median tau boundary total s in
        (xs : List ℤ) × (p : ℕ) × Perm xs (take s.tau_size s.tau_arr)
        × IsSorted xs
        × IsFloorPower (pos_part (get_or xs (s.tau_size / 2) (pos 0))) p
        × (t ≡ pos p)
        × (boundary' ≡ boundary *ℤ pos 2)
        × (s'.tau_size ≡ 0)
  unfolding update_tau_median
  update_tau_median-median tau boundary total reached some_tau = rw reached (
    sorted,
    floor_power 64 (pos_part median),
    sort_taus-perm (take s.tau_size s.tau_arr),
    sort_taus-IsSorted _ recorded_InRange,
    median-power some_tau,
    rw (==_false s.tau_size 0 (omega arith), get_or-median some_tau) refl,
    refl,
    refl,
  )

  renewed-IsTau : IsTau (
      if s.tau_size == 0
      then upper_tau
      else pos (
          floor_power 64
            (pos_part (get_or (sorted ++ drop s.tau_size s.tau_arr) (s.tau_size / 2) (pos 0)))))
  renewed-IsTau = elim (ℕ_discrete s.tau_size 0) [
    | yes none_yet ↦ rw (==_true s.tau_size 0 none_yet) (15, refl, omega arith, omega arith)
    | no some_tau ↦
        let pos_size : 0 < s.tau_size = omega arith in
        let (e, lower, upper) = InRange-parts median (median-InRange pos_size) in
        rw (==_false s.tau_size 0 some_tau, get_or-median pos_size)
          (IsFloorPower-IsTau (pos_part median) _ (omega arith) (median-power pos_size))
  ]

  empty-IsValid :
      IsValid
        (record { tau_arr = sorted ++ drop s.tau_size s.tau_arr; tau_index = 0; tau_size = 0 })
  empty-IsValid = record {
    memory = omega (
      arith,
      length-append sorted (drop s.tau_size s.tau_arr),
      length-sorted,
      length-drop s.tau_size s.tau_arr,
      v.memory,
      v.counted,
    );
    counted = omega arith;
    index_in = omega arith;
    filling = λ few. refl;
    entries = λ i lt. absurd (omega arith);
  }

  -- Where the record of candidates is well formed, a tau that is a power of two from LOWER_TAU to
  -- UPPER_TAU stays one, whether or not it is renewed, and the
  -- record of candidates stays well formed.
  pub update_tau_median-IsTau :
      (tau boundary total : ℤ)
      → IsTau tau
      → let (t, boundary', s') = update_tau_median tau boundary total s in IsTau t × IsValid s'
  unfolding update_tau_median
  update_tau_median-IsTau tau boundary total h = elim (Bool-cases (ltb_ℤ total boundary)) [
    | inl early ↦ rw early (h, v)
    | inr reached ↦ rw reached (renewed-IsTau, empty-IsValid)
  ]

-- ===== src/Trace/Load/Numbers.antt =====
-- Numbers in decimal, and that `%d` reads them.
use csbu_flo.Trace.Load.{
  is_digit, scan_digits, scan_int, scan_natural, scan_signed, skip_space, is_space, with_sign,
}
use csbu_flo.Base.Int.{ℤ, pos, negsuc, negated}
use mathlib.Core.List.{append_assoc}
use csbu_flo.Base.{
  arith, ℕ, List, [], suc, ◌++◌, ◌<◌, ◌≡◌, if_cases, some, ◌+◌, ◌/◌, ◌∷◌, ap, if◌then◌else◌, ltb,
  true, ◌*◌, leb, ◌%◌, ◌∙◌, if_at_true, zero, ◌&&◌, refl, sym,
}

-- The decimal digits of a number below `fuel`.
digits : ℕ → ℕ → List ℕ
digits zero n = []
digits (suc fuel) n =
    let front = digits fuel (n / 10) in
    if ltb n 10 then (48 + n) ∷ [] else front ++ (48 + n % 10) ∷ []

pub decimal : ℕ → List ℕ
decimal n = digits (suc n) n

unfoldable pub int_text : ℤ → List ℕ
int_text (pos n) = decimal n
int_text (negsuc n) = b'-' ∷ decimal (suc n)

-- What stands behind a number: no digit.
abbrev pub Ends : List ℕ → Type 0
Ends rest = (acc : ℕ) → scan_digits acc rest ≡ (acc, rest)

scan_one :
    (acc d : ℕ) (rest : List ℕ)
    → d < 10
    → scan_digits acc ((48 + d) ∷ rest) ≡ scan_digits (acc * 10 + d) rest
unfolding scan_digits is_digit
scan_one acc d rest h =
    let digit : (leb 48 (48 + d) && leb (48 + d) 57) ≡ true = ground arith in
    if_at_true _ _ digit ∙ ap (λ n. scan_digits n rest) (omega arith)

-- Reading the digits of `n` leaves it where the digits end.
scan-digits :
    (fuel n : ℕ) (rest : List ℕ)
    → n < fuel
    → scan_digits 0 (digits fuel n ++ rest) ≡ scan_digits n rest
unfolding digits
scan-digits zero n rest h = absurd (omega arith)
scan-digits (suc fuel) n rest h =
    if_cases (λ (t : List ℕ). scan_digits 0 (t ++ rest) ≡ scan_digits n rest) (ltb n 10) _ _
      (λ small. scan_one 0 n rest (ground arith) ∙ ap (λ m. scan_digits m rest) (omega arith))
      (λ large.
        ap (scan_digits 0) (append_assoc (digits fuel (n / 10)) ((48 + n % 10) ∷ []) rest)
        ∙ scan-digits fuel (n / 10) ((48 + n % 10) ∷ rest) (ground arith)
        ∙ scan_one (n / 10) (n % 10) rest (omega arith)
        ∙ ap (λ m. scan_digits m rest) (omega arith))

-- The digits begin with one.
record Leading (s : List ℕ) : Type 0 where
  first : ℕ
  others : List ℕ
  same : s ≡ first ∷ others
  is_one : is_digit first ≡ true

digits-Leading : (fuel n : ℕ) → n < fuel → Leading (digits fuel n)
unfolding digits is_digit
digits-Leading zero n h = absurd (omega arith)
digits-Leading (suc fuel) n h =
    if_cases Leading (ltb n 10) _ _
      (λ small. record { first = 48 + n; others = []; same = refl; is_one = ground arith })
      (λ large.
        let front = digits-Leading fuel (n / 10) (ground arith) in
        record {
          first = front.first;
          others = front.others ++ (48 + n % 10) ∷ [];
          same = ap (λ s. s ++ (48 + n % 10) ∷ []) front.same;
          is_one = front.is_one;
        })

scan_natural-decimal :
    (n : ℕ) (rest : List ℕ) → Ends rest → scan_natural (decimal n ++ rest) ≡ some (n, rest)
unfolding scan_natural decimal
scan_natural-decimal n rest e =
    let lead = digits-Leading (suc n) n (omega arith) in
    ap (λ s. scan_natural (s ++ rest)) lead.same
    ∙ if_at_true _ _ lead.is_one
    ∙ ap some (
        ap (λ s. scan_digits 0 (s ++ rest)) (sym lead.same)
        ∙ scan-digits (suc n) n rest (omega arith)
        ∙ e n)

unsigned :
    (c : ℕ) (cs : List ℕ)
    → is_digit c ≡ true
    → scan_int (c ∷ cs) ≡ with_sign pos (scan_natural (c ∷ cs))
unfolding scan_int scan_signed skip_space is_space is_digit
unsigned c cs h = ground arith

-- A number is read as it was written, after blanks or not, up to what is no digit.
pub scan_int-int_text :
    (v : ℤ) (rest : List ℕ) → Ends rest → scan_int (int_text v ++ rest) ≡ some (v, rest)
unfolding scan_int scan_signed skip_space is_space int_text with_sign decimal
scan_int-int_text (negsuc n) rest e =
    ap (with_sign negated) (scan_natural-decimal (suc n) rest e)
    ∙ ap (λ v. some (v, rest)) (ground arith)
scan_int-int_text (pos n) rest e =
    let lead = digits-Leading (suc n) n (omega arith) in
    ap (λ s. scan_int (s ++ rest)) lead.same
    ∙ unsigned lead.first (lead.others ++ rest) lead.is_one
    ∙ ap (λ s. with_sign pos (scan_natural (s ++ rest))) (sym lead.same)
    ∙ ap (with_sign pos) (scan_natural-decimal n rest e)

unspaced : (c : ℕ) (cs : List ℕ) → is_digit c ≡ true → skip_space (c ∷ cs) ≡ c ∷ cs
unfolding skip_space is_space is_digit
unspaced c cs h = ground arith

-- No blank stands before a number.
pub skip_space-int_text :
    (v : ℤ) (rest : List ℕ) → skip_space (int_text v ++ rest) ≡ int_text v ++ rest
unfolding skip_space is_space int_text decimal
skip_space-int_text (negsuc n) rest = refl
skip_space-int_text (pos n) rest =
    let lead = digits-Leading (suc n) n (omega arith) in
    ap (λ s. skip_space (s ++ rest)) lead.same
    ∙ unspaced lead.first (lead.others ++ rest) lead.is_one
    ∙ ap (λ s. s ++ rest) (sym lead.same)

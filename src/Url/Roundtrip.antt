-- ===== src/Url/Roundtrip.antt =====
-- A URL that is sent is the URL that is received, and it fits the buffers.
use mathlib.Core.Option
use mathlib.Core.List.{append_assoc}
use csbu_flo.Base.{
  ℕ, zero, suc, ◌≤◌, ◌≡◌, refl, sym, ap, subst, ◌∙◌, inl, inr, false, Option, none, some, List, [],
  ◌∷◌, ◌++◌, take, drop, length, ◌==◌, arith, All, All-append, Bool-cases,
}
use csbu_flo.Hashmap.{url_part}
use csbu_flo.Url.{scan_url, default_url, set_url, c_string}

abbrev pub NoSpace : List ℕ → Type 0
NoSpace w = All (λ c. (c == b' ') ≡ false) w

-- A word of at most 255 bytes, none of them a space, and then a space.
pub record IsUrlText (u : List ℕ) : Type 0 where
  pub word : List ℕ
  pub spelled : u ≡ word ++ b' ' ∷ []
  pub no_space : NoSpace word
  pub short : length word ≤ 255

abbrev Fits : ℕ → List ℕ → Type 0
Fits n w = NoSpace w × (length w ≤ n)

Fits-nil : (n : ℕ) (w : List ℕ) → some [] ≡ some w → Fits n w
Fits-nil n [] e = (tt, omega arith)
Fits-nil n (c ∷ w) e = cc

Fits-cons :
    (n : ℕ) (c : ℕ) (o : Option (List ℕ))
    → (c == b' ') ≡ false
    → ((w : List ℕ) → o ≡ some w → Fits n w)
    → (w : List ℕ) → Option.map (λ v. c ∷ v) o ≡ some w
    → Fits (suc n) w
Fits-cons n c none other fits w e = cc
Fits-cons n c (some v) other fits w e =
    let whole : c ∷ v ≡ w = cc in
    subst (Fits (suc n)) whole ((other, (fits v refl).0), omega (arith, (fits v refl).1))

scan_url-Fits : (n : ℕ) (p w : List ℕ) → scan_url n p ≡ some w → Fits n w
unfolding scan_url
scan_url-Fits n [] w e = cc
scan_url-Fits zero (c ∷ p) w e = elim (Bool-cases (c == b' ')) [
  | inl space ↦ Fits-nil zero w (rw space at e)
  | inr other ↦ let bad : none ≡ some w = rw other at e in cc
]
scan_url-Fits (suc n) (c ∷ p) w e = elim (Bool-cases (c == b' ')) [
  | inl space ↦ Fits-nil (suc n) w (rw space at e)
  | inr other ↦ Fits-cons n c (scan_url n p) other (scan_url-Fits n p) w (rw other at e)
]

-- Reading stops at the space, whatever follows.
pub scan_url-append :
    (n : ℕ) (w rest : List ℕ) → NoSpace w → length w ≤ n → scan_url n (w ++ b' ' ∷ rest) ≡ some w
unfolding scan_url
scan_url-append zero [] rest h le = refl
scan_url-append (suc n) [] rest h le = refl
scan_url-append zero (c ∷ w) rest h le = absurd (omega arith)
scan_url-append (suc n) (c ∷ w) rest h le =
    rw (h.0, scan_url-append n w rest h.1 (omega arith)) refl

set_url_cases :
    (o : Option (List ℕ))
    → ((w : List ℕ) → o ≡ some w → Fits 255 w)
    → IsUrlText (elim o [ none ↦ default_url | some w ↦ w ++ b' ' ∷ [] ])
set_url_cases none fits = record {
  word = take 14 default_url;
  spelled = refl;
  no_space = ground arith;
  short = omega arith;
}
set_url_cases (some w) fits = record {
  word = w;
  spelled = refl;
  no_space = (fits w refl).0;
  short = (fits w refl).1;
}

-- Whatever the bytes are, what `set_url` stores is a word of at most 255 bytes with no space in it,
-- and a space: it fits the buffer of 257 bytes with its NUL.
pub set_url-IsUrlText : (p : List ℕ) (offset : ℕ) → IsUrlText (set_url p offset)
unfolding set_url
set_url-IsUrlText p offset =
    set_url_cases (scan_url 255 (drop offset p)) (scan_url-Fits 255 (drop offset p))

drop-append : (xs ys : List ℕ) → drop (length xs) (xs ++ ys) ≡ ys
drop-append [] ys = refl
drop-append (x ∷ xs) ys = drop-append xs ys

-- A URL that is read again behind a header, whatever bytes follow it, is the same URL.
pub set_url-roundtrip :
    (header u rest : List ℕ) (offset : ℕ)
    → IsUrlText u
    → length header ≡ offset
    → set_url (header ++ (u ++ rest)) offset ≡ u
unfolding set_url
set_url-roundtrip header u rest offset t size =
    let text : u ++ rest ≡ t.word ++ b' ' ∷ rest =
      ap (λ v. v ++ rest) t.spelled ∙ append_assoc t.word (b' ' ∷ []) rest in
    let reads : scan_url 255 (drop offset (header ++ (u ++ rest))) ≡ some t.word =
      ap (λ n. scan_url 255 (drop n (header ++ (u ++ rest)))) (sym size)
      ∙ ap (scan_url 255) (drop-append header (u ++ rest) ∙ text)
      ∙ scan_url-append 255 t.word rest t.no_space t.short in
    rw (set_url, reads) (sym t.spelled)

-- The key that the cluster table sees.
pub url_part_short :
    (w : List ℕ) → NoSpace w → length (url_part (c_string (w ++ b' ' ∷ []))) ≤ length w
unfolding c_string url_part
url_part_short [] h = omega arith
url_part_short (c ∷ w) h = elim (Bool-cases (c == 0)) [
  | inl nul ↦ rw nul (omega arith)
  | inr other ↦ rw (other, h.0) (omega (arith, url_part_short w h.1))
]

-- A property of all bytes that are read is one of the URL, if the fixed URL has it.
module _ (P : ℕ → Type 0) where
  All-drop : (n : ℕ) (p : List ℕ) → All P p → All P (drop n p)
  All-drop zero p h = h
  All-drop (suc n) [] h = tt
  All-drop (suc n) (c ∷ p) h = All-drop n p h.1

  AllSome : Option (List ℕ) → Type 0
  AllSome none = Unit
  AllSome (some w) = All P w

  AllSome-cons :
      (c : ℕ) (o : Option (List ℕ)) → P c → AllSome o → AllSome (Option.map (λ v. c ∷ v) o)
  unfolding AllSome
  AllSome-cons c none pc h = tt
  AllSome-cons c (some w) pc h = (pc, h)

  scan_url-AllSome : (n : ℕ) (p : List ℕ) → All P p → AllSome (scan_url n p)
  unfolding AllSome scan_url
  scan_url-AllSome n [] h = tt
  scan_url-AllSome zero (c ∷ p) h = elim (Bool-cases (c == b' ')) [
    | inl space ↦ rw space tt
    | inr other ↦ rw other tt
  ]
  scan_url-AllSome (suc n) (c ∷ p) h = elim (Bool-cases (c == b' ')) [
    | inl space ↦ rw space tt
    | inr other ↦ rw other (AllSome-cons c (scan_url n p) h.0 (scan_url-AllSome n p h.1))
  ]

  set_url-All :
      (o : Option (List ℕ))
      → P b' '
      → All P default_url
      → AllSome o
      → All P (elim o [ none ↦ default_url | some w ↦ w ++ b' ' ∷ [] ])
  unfolding AllSome
  set_url-All none space fixed h = fixed
  set_url-All (some w) space fixed h = All-append P w (b' ' ∷ []) h (space, tt)

  pub All-set_url :
      (p : List ℕ) (offset : ℕ) → P b' ' → All P default_url → All P p → All P (set_url p offset)
  unfolding set_url
  All-set_url p offset space fixed h =
      set_url-All (scan_url 255 (drop offset p)) space fixed
        (scan_url-AllSome 255 (drop offset p) (All-drop offset p h))

-- ===== src/Bufaux/Roundtrip.antt =====
-- What is put into a buffer is got from it.
use csbu_flo.Bufaux.{
  buffer_put_string, from_bytes, get_bytes, buffer_get_short, buffer_put_short, put_u16, put_u64,
  buffer_get_int, buffer_put_int, buffer_get_int64, buffer_put_int64, max_string, buffer_get_char,
  buffer_put_char, nul_at_end, buffer_get_string, buffer_get_cstring, buffer_get_int_ret,
  buffer_get_string_ret, number_of, string_of, required, buffer_get_short_ret, buffer_get_int64_ret,
  buffer_get_char_ret, buffer_get_cstring_ret, checked,
}
use csbu_flo.Packet.{put_u32}
use mathlib.Core.List.{append-nil, append_assoc}
use csbu_flo.Base.{
  arith, List, Option, ℕ, ◌<◌, length, some, ◌^◌, none, ◌≡◌, ◌≤◌, ◌++◌, if_at_false, ap₂, true, ltb,
  false, ◌∷◌, [], ap, ltb-false, length-append, refl, ◌∙◌, ◌%◌, Bool, if◌then◌else◌, All, sym,
  take_own, drop_own,
}

-- A value of a message.
pub data Field : Type 0 where
  short int int64 char : ℕ → Field
  string cstring : List ℕ → Field

pub put : List ℕ → Field → List ℕ
put buffer (short v) = buffer_put_short buffer v
put buffer (int v) = buffer_put_int buffer v
put buffer (int64 v) = buffer_put_int64 buffer v
put buffer (char v) = buffer_put_char buffer v
put buffer (string s) = buffer_put_string buffer s
put buffer (cstring s) = buffer_put_string buffer s

-- A value of the same kind as the field is read.
as_field : {A : Type 0} → (A → Field) → Option (A × List ℕ) → Option (Field × List ℕ)
as_field f none = none
as_field f (some (v, rest)) = some (f v, rest)

pub get : Field → List ℕ → Option (Field × List ℕ)
get (short _) buffer = as_field short (buffer_get_short buffer)
get (int _) buffer = as_field int (buffer_get_int buffer)
get (int64 _) buffer = as_field int64 (buffer_get_int64 buffer)
get (char _) buffer = as_field char (buffer_get_char buffer)
get (string _) buffer = as_field string (buffer_get_string buffer)
get (cstring _) buffer = as_field cstring (buffer_get_cstring buffer)

unfoldable pub IsField : Field → Type 0
IsField (short v) = v < 2 ^ 16
IsField (int v) = v < 2 ^ 32
IsField (int64 v) = v < 2 ^ 64
IsField (char v) = v < 256
IsField (string s) = length s ≤ max_string
IsField (cstring s) = (length s ≤ max_string) × (nul_at_end s ≡ true)

get_bytes-append : (xs ys : List ℕ) → get_bytes (length xs) (xs ++ ys) ≡ (some xs, ys)
unfolding get_bytes
get_bytes-append xs ys =
    let enough : ltb (length (xs ++ ys)) (length xs) ≡ false =
      ltb-false (length (xs ++ ys)) (length xs) (omega (arith, length-append xs ys)) in
    if_at_false (λ (r : Option (List ℕ) × List ℕ). r ≡ (some xs, ys)) (none, xs ++ ys) _ enough
      (ap₂ (λ a b. (some a, b)) (take_own xs ys) (drop_own xs ys))

pub u16_value : (v : ℕ) → v < 2 ^ 16 → from_bytes 0 (put_u16 v) ≡ v
unfolding from_bytes put_u16
u16_value v h = omega arith

pub u32_value : (v : ℕ) → v < 2 ^ 32 → from_bytes 0 (put_u32 v) ≡ v
unfolding from_bytes put_u32
u32_value v h = omega arith

u64_value : (v : ℕ) → v < 2 ^ 64 → from_bytes 0 (put_u64 v) ≡ v
unfolding from_bytes put_u64
u64_value v h = omega arith

get_int-append :
    (v : ℕ) (rest : List ℕ) → v < 2 ^ 32 → buffer_get_int_ret (put_u32 v ++ rest) ≡ (some v, rest)
unfolding buffer_get_int_ret put_u32 number_of
get_int-append v rest h =
    ap (λ (r : Option (List ℕ) × List ℕ). (number_of r.0, r.1)) (get_bytes-append (put_u32 v) rest)
    ∙ ap (λ n. (some n, rest)) (u32_value v h)

get_string-append :
    (s rest : List ℕ)
    → length s ≤ max_string
    → buffer_get_string_ret (put_u32 (length s) ++ (s ++ rest)) ≡ (some s, rest)
unfolding buffer_get_string_ret string_of
get_string-append s rest h =
    ap (λ (r : Option ℕ × List ℕ). string_of r.0 r.1)
      (get_int-append (length s) (s ++ rest) (omega (arith, h)))
    ∙ if_at_false (λ (r : Option (List ℕ) × List ℕ). r ≡ (some s, rest)) (none, s ++ rest) _
        (ltb-false max_string (length s) h) (get_bytes-append s rest)

text : Field → List ℕ
text (short v) = put_u16 v
text (int v) = put_u32 v
text (int64 v) = put_u64 v
text (char v) = v % 256 ∷ []
text (string s) = put_u32 (length s) ++ s
text (cstring s) = put_u32 (length s) ++ s

put-text : (buffer : List ℕ) (f : Field) → put buffer f ≡ buffer ++ text f
unfolding put text buffer_put_short buffer_put_int buffer_put_int64 buffer_put_char
    buffer_put_string
put-text buffer (short v) = refl
put-text buffer (int v) = refl
put-text buffer (int64 v) = refl
put-text buffer (char v) = refl
put-text buffer (string s) = append_assoc buffer (put_u32 (length s)) s
put-text buffer (cstring s) = append_assoc buffer (put_u32 (length s)) s

abbrev numbered : (ℕ → Field) → Option (List ℕ) × List ℕ → Option (Field × List ℕ)
numbered f r = as_field f (required (number_of r.0, r.1))

get-text : (f : Field) (rest : List ℕ) → IsField f → get f (text f ++ rest) ≡ some (f, rest)
unfolding get text IsField as_field required number_of buffer_get_short_ret buffer_get_int64_ret
    buffer_get_char_ret buffer_get_short buffer_get_int buffer_get_int64 buffer_get_char
    buffer_get_string buffer_get_cstring buffer_get_cstring_ret checked put_u16 put_u64 from_bytes
get-text (short v) rest h =
    ap (numbered short) (get_bytes-append (put_u16 v) rest)
    ∙ ap (λ n. some (short n, rest)) (u16_value v h)
get-text (int v) rest h = ap (λ r. as_field int (required r)) (get_int-append v rest h)
get-text (int64 v) rest h =
    ap (numbered int64) (get_bytes-append (put_u64 v) rest)
    ∙ ap (λ n. some (int64 n, rest)) (u64_value v h)
get-text (char v) rest h =
    ap (numbered char) (get_bytes-append (v % 256 ∷ []) rest)
    ∙ ap (λ n. some (char n, rest)) (omega (arith, h))
get-text (string s) rest h =
    ap (λ b. as_field string (required (buffer_get_string_ret b)))
      (append_assoc (put_u32 (length s)) s rest)
    ∙ ap (λ r. as_field string (required r)) (get_string-append s rest h)
get-text (cstring s) rest (h, nul) =
    ap (λ b. as_field cstring (buffer_get_cstring b)) (append_assoc (put_u32 (length s)) s rest)
    ∙ ap (λ (r : Option (List ℕ) × List ℕ). as_field cstring (required (checked r.0, r.1)))
        (get_string-append s rest h)
    ∙ ap (λ (b : Bool). as_field cstring (required (if b then some s else none, rest))) nul

pub put_all : List ℕ → List Field → List ℕ
put_all buffer [] = buffer
put_all buffer (f ∷ fs) = put_all (put buffer f) fs

front : Field → Option (List Field × List ℕ) → Option (List Field × List ℕ)
front v none = none
front v (some (vs, rest)) = some (v ∷ vs, rest)

then_rest :
    (List ℕ → Option (List Field × List ℕ)) → Option (Field × List ℕ) → Option (List Field × List ℕ)
then_rest others none = none
then_rest others (some (v, rest)) = front v (others rest)

-- One value after the other, until one is missing.
pub get_all : List Field → List ℕ → Option (List Field × List ℕ)
get_all [] buffer = some ([], buffer)
get_all (f ∷ fs) buffer = then_rest (λ b. get_all fs b) (get f buffer)

texts : List Field → List ℕ
texts [] = []
texts (f ∷ fs) = text f ++ texts fs

put_all-texts : (buffer : List ℕ) (fs : List Field) → put_all buffer fs ≡ buffer ++ texts fs
unfolding put_all texts
put_all-texts buffer [] = sym (append-nil buffer)
put_all-texts buffer (f ∷ fs) =
    ap (λ b. put_all b fs) (put-text buffer f)
    ∙ put_all-texts (buffer ++ text f) fs
    ∙ append_assoc buffer (text f) (texts fs)

get_all-texts :
    (fs : List Field) (rest : List ℕ)
    → All IsField fs
    → get_all fs (texts fs ++ rest) ≡ some (fs, rest)
unfolding get_all texts then_rest front
get_all-texts [] rest h = refl
get_all-texts (f ∷ fs) rest (h, hs) =
    ap (λ b. get_all (f ∷ fs) b) (append_assoc (text f) (texts fs) rest)
    ∙ ap (λ r. then_rest (λ b. get_all fs b) r) (get-text f (texts fs ++ rest) h)
    ∙ ap (λ r. front f r) (get_all-texts fs rest hs)

-- Values put one after the other into an empty buffer are got in the same order, and what was put behind
-- them stays. A number has to fit its width, a string may be 256 kB, and one that is got as a C string
-- may have a NUL at its end only.
pub put_all-roundtrip :
    (fs : List Field) (rest : List ℕ)
    → All IsField fs
    → get_all fs (put_all [] fs ++ rest) ≡ some (fs, rest)
put_all-roundtrip fs rest h =
    ap (λ b. get_all fs (b ++ rest)) (put_all-texts [] fs) ∙ get_all-texts fs rest h

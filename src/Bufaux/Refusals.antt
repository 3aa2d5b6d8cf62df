-- ===== src/Bufaux/Refusals.antt =====
-- What `buffer_get_string_ret` and `buffer_get_cstring_ret` give for any bytes, and what they leave.
use csbu_flo.Bufaux.{
  get_bytes, string_of, buffer_get_string_ret, buffer_get_int_ret, number_of, max_string,
  from_bytes,
}
use csbu_flo.Base.{
  arith, List, ℕ, Option, ◌≤◌, length, some, drop, if_cases, ltb, ◌≡◌, none, ◌+◌, inl, inr, ◌++◌,
  length-take, ◌⊎◌, length-drop, refl, sym, take-append-drop, ltb→lt, ◌<◌, take,
}

-- The length that the first four bytes give.
abbrev pub length_of : List ℕ → ℕ
length_of buffer = from_bytes 0 (take 4 buffer)

-- A string is what follows the length, as long as that says. Without one, the buffer is shorter than a
-- length and is as it was; or its length is off it, which is more than may be or than has come.
pub Got : List ℕ → Option (List ℕ) × List ℕ → Type 0
Got buffer (some s, rest) =
    (4 ≤ length buffer)
    × (length s ≡ length_of buffer)
    × (length s ≤ max_string)
    × (drop 4 buffer ≡ s ++ rest)
Got buffer (none, rest) =
    ((length buffer < 4) × (rest ≡ buffer))
    ⊎ ((4 ≤ length buffer)
        × ((max_string < length_of buffer) ⊎ (length buffer < 4 + length_of buffer))
        × (rest ≡ drop 4 buffer))

get_bytes-Got :
    (buffer : List ℕ)
    → 4 ≤ length buffer
    → length_of buffer ≤ max_string
    → Got buffer (get_bytes (length_of buffer) (drop 4 buffer))
unfolding Got get_bytes
get_bytes-Got buffer long fits =
    let len = length_of buffer in
    let left = length-drop 4 buffer in
    if_cases (Got buffer) (ltb (length (drop 4 buffer)) len) (none, drop 4 buffer) _
      (λ missing.
        inr (long, inr (omega (arith, left, ltb→lt (length (drop 4 buffer)) len missing)), refl))
      (λ enough.
        let size : length (take len (drop 4 buffer)) ≡ len =
          ground (arith, length-take len (drop 4 buffer), enough) in
        (long, size, omega (arith, size, fits), sym (take-append-drop len (drop 4 buffer))))

string_of-Got :
    (buffer : List ℕ)
    → 4 ≤ length buffer
    → Got buffer (string_of (some (length_of buffer)) (drop 4 buffer))
unfolding Got string_of
string_of-Got buffer long =
    if_cases (Got buffer) (ltb max_string (length_of buffer)) (none, drop 4 buffer) _
      (λ large. inr (long, inl (ltb→lt max_string (length_of buffer) large), refl))
      (λ fits. get_bytes-Got buffer long (ground arith))

-- A string that is got is what followed the length, exactly as long as the four bytes of the length say,
-- which is 256 kB at most. It is refused in three cases: with less than four bytes, which stay; and, the
-- length being taken off, where it says more than 256 kB or more than has come.
pub buffer_get_string_ret-Got : (buffer : List ℕ) → Got buffer (buffer_get_string_ret buffer)
unfolding Got string_of buffer_get_string_ret buffer_get_int_ret get_bytes number_of
buffer_get_string_ret-Got buffer =
    if_cases (λ (r : Option (List ℕ) × List ℕ). Got buffer (string_of (number_of r.0) r.1))
      (ltb (length buffer) 4) (none, buffer) _ (λ few. inl (ltb→lt (length buffer) 4 few, refl))
      (λ long. string_of-Got buffer (ground arith))

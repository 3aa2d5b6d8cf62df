-- ===== src/Bufaux/Lent.antt =====
-- `buffer_get_string_ptr`, which lends the string, beside `buffer_get_string`, which copies it.
use csbu_flo.Bufaux.{
  buffer_get_string_ptr, ptr_of, buffer_get_string_ptr_ret, string_of, buffer_get_string, get_bytes,
  buffer_get_string_ret, required_ptr, required, max_string,
}
use csbu_flo.Base.{Option, List, ℕ, ◌≡◌, some, Bool-cases, ltb, inl, inr, length, none, refl}

abbrev Same : Option (Option (List ℕ) × List ℕ) → Option (List ℕ) × List ℕ → Type 0
Same lent copied = required_ptr lent ≡ required copied

ptr_of-string_of : (len : Option ℕ) (rest : List ℕ) → Same (ptr_of len rest) (string_of len rest)
unfolding ptr_of string_of get_bytes required_ptr required
ptr_of-string_of none rest = refl
ptr_of-string_of (some len) rest = elim (Bool-cases (ltb max_string len)) [
  | inl long ↦ rw long refl
  | inr fits ↦ elim (Bool-cases (ltb (length rest) len)) [
    | inl short ↦ rw (fits, short) refl
    | inr enough ↦ rw (fits, enough) refl
  ]
]

-- The string that is lent is the string that is copied, with the same rest of the buffer, and one of the
-- two functions is fatal exactly when the other is.
pub buffer_get_string_ptr-buffer_get_string :
    (buffer : List ℕ) → buffer_get_string_ptr buffer ≡ buffer_get_string buffer
unfolding buffer_get_string_ptr buffer_get_string_ptr_ret buffer_get_string buffer_get_string_ret
buffer_get_string_ptr-buffer_get_string buffer = ptr_of-string_of _ _

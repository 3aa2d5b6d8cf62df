-- ===== src/Bufaux/Tests.antt =====
-- A message with a value of each kind, and lengths that are refused.
use csbu_flo.Bufaux.Refusals.{Got, buffer_get_string_ret-Got}
use csbu_flo.Bufaux.{
  buffer_get_string_ret, nul_at_end, string_of, buffer_get_int_ret, get_bytes, number_of,
  from_bytes,
}
use csbu_flo.Bufaux.Roundtrip.{
  IsField, Field, get_all, short, put_all, int, int64, char, string, cstring, put_all-roundtrip,
}
use csbu_flo.Base.{arith, List, ◌∷◌, [], ◌++◌, ◌≡◌, none, some, refl}

abbrev message : List Field
message =
    short 513
    ∷ int 4294967295
    ∷ int64 4294967296
    ∷ char 7
    ∷ string (0 ∷ 1 ∷ [])
    ∷ cstring (b'o' ∷ b'k' ∷ 0 ∷ [])
    ∷ []

put_all-roundtrip_example : get_all message (put_all [] message ++ 9 ∷ []) ≡ some (message, 9 ∷ [])
unfolding IsField nul_at_end
put_all-roundtrip_example = put_all-roundtrip message (9 ∷ []) (
  omega arith,
  (omega arith, (omega arith, (omega arith, (omega arith, ((omega arith, refl), tt))))),
)

-- A string of five bytes of which two are there: its length is gone, the two are left.
cut_off : buffer_get_string_ret (0 ∷ 0 ∷ 0 ∷ 5 ∷ 8 ∷ 9 ∷ []) ≡ (none, 8 ∷ 9 ∷ [])
unfolding buffer_get_string_ret string_of buffer_get_int_ret get_bytes number_of from_bytes
cut_off = refl

-- One byte more than may be.
too_long : buffer_get_string_ret (0 ∷ 4 ∷ 0 ∷ 1 ∷ 8 ∷ []) ≡ (none, 8 ∷ [])
unfolding buffer_get_string_ret string_of buffer_get_int_ret get_bytes number_of from_bytes
too_long = refl

buffer_get_string_ret-Got_example :
    Got (0 ∷ 0 ∷ 0 ∷ 5 ∷ 8 ∷ []) (buffer_get_string_ret (0 ∷ 0 ∷ 0 ∷ 5 ∷ 8 ∷ []))
buffer_get_string_ret-Got_example = buffer_get_string_ret-Got (0 ∷ 0 ∷ 0 ∷ 5 ∷ 8 ∷ [])

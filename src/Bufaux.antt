-- ===== src/Bufaux.antt =====
-- bufaux.c, with the numbers of misc.c: values in a buffer, which is a list of bytes. A function that
-- may fail returns what it returns, if anything, and what is then left in the buffer.
mod Lent
mod Refusals
pub mod Roundtrip
mod Tests
use csbu_flo.Packet.{put_u32}
use csbu_flo.Base.{
  arith, List, Option, ℕ, Bool, if◌then◌else◌, length, some, ◌++◌, ◌/◌, ◌∷◌, ltb, none, true, ◌%◌,
  ◌*◌, ◌^◌, [], not, take, ◌+◌, drop, ◌==◌, ◌&&◌,
}

unfoldable pub put_u16 : ℕ → List ℕ
put_u16 v = v / 2 ^ 8 % 256 ∷ v % 256 ∷ []

pub put_u64 : ℕ → List ℕ
put_u64 v =
    v / 2 ^ 56 % 256
    ∷ v / 2 ^ 48 % 256
    ∷ v / 2 ^ 40 % 256
    ∷ v / 2 ^ 32 % 256
    ∷ v / 2 ^ 24 % 256
    ∷ v / 2 ^ 16 % 256
    ∷ v / 2 ^ 8 % 256
    ∷ v % 256
    ∷ []

-- `get_u16`, `get_u32` and `get_u64`: the highest byte comes first. `acc` is what is read so far.
unfoldable pub from_bytes : ℕ → List ℕ → ℕ
from_bytes acc [] = acc
from_bytes acc (b ∷ bs) = from_bytes (acc * 256 + b) bs

-- `buffer_get_ret`
pub get_bytes : ℕ → List ℕ → Option (List ℕ) × List ℕ
get_bytes len buffer =
    if ltb (length buffer) len then (none, buffer) else (some (take len buffer), drop len buffer)

pub number_of : Option (List ℕ) → Option ℕ
number_of none = none
number_of (some bytes) = some (from_bytes 0 bytes)

pub buffer_get_short_ret : List ℕ → Option ℕ × List ℕ
buffer_get_short_ret buffer = let (bytes, rest) = get_bytes 2 buffer in (number_of bytes, rest)

pub buffer_get_int_ret : List ℕ → Option ℕ × List ℕ
buffer_get_int_ret buffer = let (bytes, rest) = get_bytes 4 buffer in (number_of bytes, rest)

pub buffer_get_int64_ret : List ℕ → Option ℕ × List ℕ
buffer_get_int64_ret buffer = let (bytes, rest) = get_bytes 8 buffer in (number_of bytes, rest)

pub buffer_get_char_ret : List ℕ → Option ℕ × List ℕ
buffer_get_char_ret buffer = let (bytes, rest) = get_bytes 1 buffer in (number_of bytes, rest)

pub buffer_put_short : List ℕ → ℕ → List ℕ
buffer_put_short buffer value = buffer ++ put_u16 value

pub buffer_put_int : List ℕ → ℕ → List ℕ
buffer_put_int buffer value = buffer ++ put_u32 value

pub buffer_put_int64 : List ℕ → ℕ → List ℕ
buffer_put_int64 buffer value = buffer ++ put_u64 value

pub buffer_put_char : List ℕ → ℕ → List ℕ
buffer_put_char buffer value = buffer ++ value % 256 ∷ []

-- `256 * 1024`
abbrev pub max_string : ℕ
max_string = 262144

-- The length is taken off the buffer also where the string is refused.
pub string_of : Option ℕ → List ℕ → Option (List ℕ) × List ℕ
string_of none rest = (none, rest)
string_of (some len) rest = if ltb max_string len then (none, rest) else get_bytes len rest

pub buffer_get_string_ret : List ℕ → Option (List ℕ) × List ℕ
buffer_get_string_ret buffer = let (len, rest) = buffer_get_int_ret buffer in string_of len rest

-- No NUL but at the end, where one is let pass.
pub nul_at_end : List ℕ → Bool
nul_at_end [] = true
nul_at_end (c ∷ []) = true
nul_at_end (c ∷ d ∷ s) = not (c == 0) && nul_at_end (d ∷ s)

pub checked : Option (List ℕ) → Option (List ℕ)
checked none = none
checked (some s) = if nul_at_end s then some s else none

pub buffer_get_cstring_ret : List ℕ → Option (List ℕ) × List ℕ
buffer_get_cstring_ret buffer =
    let (ret, rest) = buffer_get_string_ret buffer in (checked ret, rest)

pub buffer_put_string : List ℕ → List ℕ → List ℕ
buffer_put_string buffer bytes = buffer_put_int buffer (length bytes) ++ bytes

-- `required` is what the functions without `_ret` make of the others; `none` is their call of `fatal`.
pub required : {A : Type 0} → Option A × List ℕ → Option (A × List ℕ)
required (none, rest) = none
required (some v, rest) = some (v, rest)

pub buffer_get_short : List ℕ → Option (ℕ × List ℕ)
buffer_get_short buffer = required (buffer_get_short_ret buffer)

pub buffer_get_int : List ℕ → Option (ℕ × List ℕ)
buffer_get_int buffer = required (buffer_get_int_ret buffer)

pub buffer_get_int64 : List ℕ → Option (ℕ × List ℕ)
buffer_get_int64 buffer = required (buffer_get_int64_ret buffer)

pub buffer_get_char : List ℕ → Option (ℕ × List ℕ)
buffer_get_char buffer = required (buffer_get_char_ret buffer)

pub buffer_get_string : List ℕ → Option (List ℕ × List ℕ)
buffer_get_string buffer = required (buffer_get_string_ret buffer)

pub buffer_get_cstring : List ℕ → Option (List ℕ × List ℕ)
buffer_get_cstring buffer = required (buffer_get_cstring_ret buffer)

-- What is lent is the buffer's own memory. The outer `none` is the `fatal` of `buffer_consume`.
pub ptr_of : Option ℕ → List ℕ → Option (Option (List ℕ) × List ℕ)
ptr_of none rest = some (none, rest)
ptr_of (some len) rest =
    if ltb max_string len
    then some (none, rest)
    else if ltb (length rest) len
    then none
    else some (some (take len rest), drop len rest)

pub buffer_get_string_ptr_ret : List ℕ → Option (Option (List ℕ) × List ℕ)
buffer_get_string_ptr_ret buffer = let (len, rest) = buffer_get_int_ret buffer in ptr_of len rest

pub required_ptr : Option (Option (List ℕ) × List ℕ) → Option (List ℕ × List ℕ)
required_ptr none = none
required_ptr (some r) = required r

pub buffer_get_string_ptr : List ℕ → Option (List ℕ × List ℕ)
buffer_get_string_ptr buffer = required_ptr (buffer_get_string_ptr_ret buffer)

-- The string is what stands before its NUL; `none` is the null pointer, and in the result `fatal`.
pub buffer_put_cstring : List ℕ → Option (List ℕ) → Option (List ℕ)
buffer_put_cstring buffer none = none
buffer_put_cstring buffer (some s) = some (buffer_put_string buffer s)

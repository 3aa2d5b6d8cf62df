-- ===== src/Url.antt =====
-- misc.c: `set_url`, which takes the URL of a page out of a request or of a notification.
-- A URL ends with a space; `urllen` is its length.
pub mod Roundtrip
mod Tests
use mathlib.Core.Option
use csbu_flo.Base.{ℕ, zero, suc, Option, none, some, List, [], ◌∷◌, ◌++◌, drop, ◌==◌, if◌then◌else◌}

-- What comes before the first space, of at most `n` bytes. Past its end `p` is taken to hold no space.
unfoldable pub scan_url : ℕ → List ℕ → Option (List ℕ)
scan_url n [] = none
scan_url zero (c ∷ p) = if c == b' ' then some [] else none
scan_url (suc n) (c ∷ p) =
    let rest = Option.map (λ w. c ∷ w) (scan_url n p) in if c == b' ' then some [] else rest

-- "www.google.com "
abbrev pub default_url : List ℕ
default_url =
    b'w' ∷ b'w' ∷ b'w' ∷ b'.' ∷ b'g' ∷ b'o' ∷ b'o' ∷ b'g' ∷ b'l' ∷ b'e' ∷ b'.' ∷ b'c' ∷ b'o' ∷ b'm'
    ∷ b' ' ∷ []

unfoldable pub set_url : List ℕ → ℕ → List ℕ
set_url p offset = elim (scan_url 255 (drop offset p)) [
  | none ↦ default_url
  | some w ↦ w ++ b' ' ∷ []
]

-- The C string in a buffer.
unfoldable pub c_string : List ℕ → List ℕ
c_string [] = []
c_string (c ∷ cs) = if c == 0 then [] else c ∷ c_string cs

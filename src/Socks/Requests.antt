-- ===== src/Socks/Requests.antt =====
-- The requests of SOCKS 5, as RFC 1928 has them.
use csbu_flo.Bufaux.{put_u16}
use csbu_flo.Base.{List, ◌∷◌, ◌++◌, ℕ, length, ◌≡◌}

-- Where a connection is asked to.
pub data Target : Type 0 where
  ipv4 name ipv6 : List ℕ → Target

unfoldable pub type_of : Target → ℕ
type_of (ipv4 address) = 1
type_of (name address) = 3
type_of (ipv6 address) = 4

unfoldable pub address_of : Target → List ℕ
address_of (ipv4 address) = address
address_of (name address) = address
address_of (ipv6 address) = address

unfoldable pub IsTarget : Target → Type 0
IsTarget (ipv4 address) = length address ≡ 4
IsTarget (name address) = Unit
IsTarget (ipv6 address) = length address ≡ 16

unfoldable pub address_field : Target → List ℕ
address_field (ipv4 address) = address
address_field (name address) = length address ∷ address
address_field (ipv6 address) = address

-- The first message, with the methods that the browser knows.
unfoldable pub socks5_greeting : List ℕ → List ℕ
socks5_greeting methods = 5 ∷ length methods ∷ methods

-- The second, which asks for a connection.
unfoldable pub socks5_request : Target → ℕ → List ℕ
socks5_request target port = 5 ∷ 1 ∷ 0 ∷ type_of target ∷ (address_field target ++ put_u16 port)

-- ===== src/Url/Tests.antt =====
-- A request for "ab", and the notification for it.
use csbu_flo.Base.{ℕ, ◌≡◌, refl, List, [], ◌∷◌}
use csbu_flo.Url.{scan_url, set_url}

abbrev request : List ℕ
request = 5 ∷ 6 ∷ 0 ∷ b'a' ∷ b'b' ∷ b' ' ∷ 9 ∷ []

abbrev text : List ℕ
text = b'a' ∷ b'b' ∷ b' ' ∷ []

set_url_test : set_url request 3 ≡ text
unfolding set_url scan_url
set_url_test = refl

-- ===== src/Hashmap/Tests.antt =====
-- A cluster file with two sites.
use csbu_flo.Hashmap.Lookup.{NotSpace}
use csbu_flo.Base.{ℕ, ◌≡◌, refl, some, List, [], ◌∷◌, replicate, ok, stop, arith, All, suc, zero}
use csbu_flo.Base.Int.{pos}
use csbu_flo.Hashmap.{Hashmap, overrun, ClusterFile, str_eq, hm_build, hm_lookup}
use csbu_flo.Hashmap.Build.{accepted, first_match, all_fit, hm_build-first_match, hm_build-overrun}

abbrev sites : ClusterFile
sites = record {
  header = some (pos 3, pos 2);
  rows = some (b'a' ∷ [], pos 2) ∷ some (b'b' ∷ [], pos 1) ∷ some (b'a' ∷ [], pos 1) ∷ [];
}

abbrev long_url : List ℕ
long_url = replicate 257 97

abbrev long_site : ClusterFile
long_site = record { header = some (pos 1, pos 1); rows = some (long_url, pos 1) ∷ [] }

-- The key as `set_url` leaves it, with the space.
hm_build-first_match_example :
    (m : Hashmap) × (hm_build (some sites) ≡ ok (record { map = m; ccnt = some (pos 2) }))
    × (hm_lookup (some m) (some (b'a' ∷ [])) ≡ ok (pos 2))
    × (hm_lookup (some m) (some (b'a' ∷ b' ' ∷ [])) ≡ ok (pos 2))
unfolding accepted first_match str_eq
hm_build-first_match_example =
    hm_build-first_match sites 3 2 (b'a' ∷ []) [] refl
      (unfold accepted in ((omega arith, tt), ((omega arith, tt), ((omega arith, tt), tt))))
      (unfold all_fit accepted in refl) (omega arith, tt) (omega arith)

long_url-word : (n : ℕ) → All NotSpace (replicate n 97)
long_url-word zero = tt
long_url-word (suc n) = (omega arith, long_url-word n)

hm_build-overrun_example : hm_build (some long_site) ≡ stop overrun
hm_build-overrun_example =
    hm_build-overrun long_site 1 1 refl (unfold accepted in (long_url-word 257, tt))
      (unfold all_fit accepted in refl)

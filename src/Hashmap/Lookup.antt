-- ===== src/Hashmap/Lookup.antt =====
-- `hm_lookup` after `hm_insert`: the table is a map from URLs, the first value of a URL wins.
use csbu_flo.Base.{
  ℕ, ◌%◌, ◌<◌, ◌≡◌, refl, ◌∙◌, inl, inr, ◌≢◌, ◌↔◌, true, false, not, ◌&&◌, some, List, [], ◌∷◌,
  length, get_or, set, ltb, if◌then◌else◌, ok, stop, arith, Bool-cases, lt→ltb, length-set,
  get_or-set_self, get_or-set_ne, ℕ_discrete, All, ◌++◌, ◌==◌, ==_false,
}
use csbu_flo.Base.Int.{ℤ, pos, negsuc, ◌==ℤ◌}
use csbu_flo.Hashmap.{
  KvPair, Hashmap, overrun, hmsize, tmpkey_size, url_part, default_hash, str_eq, find_pair,
  hm_lookup, hm_insert,
}

pub str_eq_iff : (a b : List ℕ) → (str_eq a b ≡ true) ↔ (a ≡ b)
unfolding str_eq
str_eq_iff [] [] = (λ _. refl, λ _. refl)
str_eq_iff [] (y ∷ ys) = (λ e. cc, λ e. cc)
str_eq_iff (x ∷ xs) [] = (λ e. cc, λ e. cc)
str_eq_iff (x ∷ xs) (y ∷ ys) = let ih = str_eq_iff xs ys in (ground arith, ground arith)

pub str_eq_refl : (a : List ℕ) → str_eq a a ≡ true
str_eq_refl a = (str_eq_iff a a).1 refl

pub str_eq-false : (a b : List ℕ) → a ≢ b → str_eq a b ≡ false
str_eq-false a b ne = elim (Bool-cases (str_eq a b)) [
  | inl e ↦ absurd (ne ((str_eq_iff a b).0 e))
  | inr e ↦ e
]

abbrev pub NotSpace : ℕ → Type 0
NotSpace c = c ≢ b' '

-- The key ends at its first space, or at its end.
pub url_part-append :
    (j rest : List ℕ) → All NotSpace j → (url_part j ≡ j) × (url_part (j ++ b' ' ∷ rest) ≡ j)
unfolding url_part
url_part-append [] rest h = (refl, refl)
url_part-append (c ∷ j) rest h =
    let ih = url_part-append j rest h.1 in
    let other : (c == b' ') ≡ false = ==_false c 32 h.0 in
    (rw (other, ih.0) refl, rw (other, ih.1) refl)

-- A key that is all URL and that `tmpkey` has room for.
pub record IsUrl (key : List ℕ) : Type 0 where
  pub no_space : url_part key ≡ key
  pub fits : length key < tmpkey_size

-- The pair that the table holds for a key, where the lookup does not overrun.
abbrev pub value_of : Hashmap → List ℕ → ℤ
value_of hm key = find_pair key (get_or hm (default_hash (some key) % hmsize) [])

pub lookup-value_of :
    (hm : Hashmap) (key : List ℕ)
    → IsUrl key
    → hm_lookup (some hm) (some key) ≡ ok (value_of hm key)
unfolding hm_lookup
lookup-value_of hm key u = rw (u.no_space, lt→ltb _ _ u.fits) refl

-- The table after an insert of a URL.
pub inserted : Hashmap → List ℕ → ℤ → Hashmap
inserted hm key val =
    if not (value_of hm key ==ℤ negsuc 0)
    then hm
    else set hm (default_hash (some key) % hmsize)
        (record { key = key; value = val } ∷ get_or hm (default_hash (some key) % hmsize) [])

pub insert-inserted :
    (hm : Hashmap) (key : List ℕ) (val : ℤ)
    → IsUrl key
    → hm_insert (some hm) key val ≡ ok (pos 0, some (inserted hm key val))
unfolding hm_insert inserted
insert-inserted hm key val u = rw (lookup-value_of hm key u) (ground arith)

-- A URL with no room in `tmpkey`.
pub insert-overrun :
    (hm : Hashmap) (key : List ℕ) (val : ℤ)
    → url_part key ≡ key
    → ltb (length key) tmpkey_size ≡ false
    → hm_insert (some hm) key val ≡ stop overrun
unfolding hm_insert hm_lookup
insert-overrun hm key val word long = rw (word, long) refl

pub find_pair-nil : (key : List ℕ) → find_pair key [] ≡ negsuc 0
unfolding find_pair
find_pair-nil key = refl

pub length-inserted :
    (hm : Hashmap) (key : List ℕ) (val : ℤ) → length (inserted hm key val) ≡ length hm
unfolding inserted
length-inserted hm key val = elim (Bool-cases (not (value_of hm key ==ℤ negsuc 0))) [
  | inl e ↦ rw e refl
  | inr e ↦ rw e (length-set hm _ _)
]

-- In its bucket a new pair hides no other key.
find_pair-set :
    (hm : Hashmap) (key j : List ℕ) (val : ℤ)
    → length hm ≡ hmsize
    → let b = default_hash (some key) % hmsize in
      find_pair j (
        get_or
          (set hm b (record { key = key; value = val } ∷ get_or hm b []))
          (default_hash (some j) % hmsize)
          [])
      ≡ (if str_eq j key then val else value_of hm j)
unfolding find_pair
find_pair-set hm key j val size = elim (ℕ_discrete (slot key) (slot j)) [
  | yes same ↦
      rw (← same, get_or-set_self hm (slot key) (new ∷ get_or hm (slot key) []) [] (omega arith))
        (ground arith)
  | no other ↦
      rw
        (
          get_or-set_ne hm (slot key) (slot j) (new ∷ get_or hm (slot key) []) [] other,
          str_eq-false j key (λ e. other (rw e refl)),
        )
        refl
]
  where
    slot : List ℕ → ℕ
    slot k = default_hash (some k) % hmsize

    new : KvPair
    new = record { key = key; value = val }

pub value_of-inserted :
    (hm : Hashmap) (key j : List ℕ) (val : ℤ)
    → length hm ≡ hmsize
    → value_of (inserted hm key val) j
      ≡ (if str_eq j key && (value_of hm key ==ℤ negsuc 0) then val else value_of hm j)
unfolding inserted
value_of-inserted hm key j val size = elim (Bool-cases (value_of hm key ==ℤ negsuc 0)) [
  | inl absent ↦ rw absent (find_pair-set hm key j val size ∙ ground arith)
  | inr present ↦ rw present (ground arith)
]

-- A lookup by any key, the URL of which has room in `tmpkey`.
pub hm_lookup_fits :
    (hm : Hashmap) (key : List ℕ)
    → length (url_part key) < tmpkey_size
    → hm_lookup (some hm) (some key)
      ≡ ok (find_pair (url_part key) (get_or hm (default_hash (some (url_part key)) % hmsize) []))
unfolding hm_lookup
hm_lookup_fits hm key fits = rw (lt→ltb _ _ fits) refl

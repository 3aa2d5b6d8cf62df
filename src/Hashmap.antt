-- ===== src/Hashmap.antt =====
-- hashmap.c: the table from a URL to the cluster that its supertrace is for.
-- A C string is the list of its bytes before the NUL, a pointer that may be NULL an `Option`, a
-- bucket the list of its pairs from the head on. The `int` values are integers.
pub mod Lookup
mod Tests
mod Build
use Prim.Native.Nat.{bit_xor}
use csbu_flo.Base.{
  ℕ, zero, suc, ◌+◌, ◌-◌, ◌*◌, ◌/◌, ◌%◌, ◌^◌, Bool, true, false, not, ◌&&◌, ◌||◌, Option, none,
  some, List, [], ◌∷◌, length, get_or, set, replicate, ltb, leb, ◌==◌, if◌then◌else◌, Outcome, ok,
  stop, ◌>>=◌, add32,
}
use csbu_flo.Base.Int.{ℤ, pos, negsuc, ◌==ℤ◌, ltb_ℤ, leb_ℤ}

pub record KvPair : Type 0 where
  pub key : List ℕ
  pub value : ℤ

abbrev pub Hashmap : Type 0
Hashmap = List (List KvPair)

-- A write past the end of an array, which C leaves undefined.
pub data Overrun : Type 0 where
  overrun : Overrun

abbrev pub hmsize : ℕ
hmsize = 5000

-- `sizeof(tmpkey)`
abbrev pub tmpkey_size : ℕ
tmpkey_size = 257

-- `char` is signed: a byte from 128 on is added as a negative number.
abbrev pub widen_char : ℕ → ℕ
widen_char c = if ltb c 128 then c else c + (2 ^ 32 - 256)

-- Both loops stop at the first space.
unfoldable pub url_part : List ℕ → List ℕ
url_part [] = []
url_part (c ∷ cs) = if c == b' ' then [] else c ∷ url_part cs

pub mix_char : ℕ → ℕ → ℕ
mix_char hash c =
    let added = add32 hash (widen_char c) in
    let spread = add32 added (added * 2 ^ 10) in bit_xor spread (spread / 2 ^ 6)

pub hash_from : ℕ → List ℕ → ℕ
hash_from hash [] = hash
hash_from hash (c ∷ cs) = hash_from (mix_char hash c) cs

pub finish_hash : ℕ → ℕ
finish_hash hash =
    let a = add32 hash (hash * 2 ^ 3) in let b = bit_xor a (a / 2 ^ 11) in add32 b (b * 2 ^ 15)

pub default_hash : Option (List ℕ) → ℕ
default_hash none = 0
default_hash (some key) = finish_hash (hash_from 0 (url_part key))

-- `strcmp(a, b) == 0`
unfoldable pub str_eq : List ℕ → List ℕ → Bool
str_eq [] [] = true
str_eq [] (y ∷ ys) = false
str_eq (x ∷ xs) [] = false
str_eq (x ∷ xs) (y ∷ ys) = x == y && str_eq xs ys

unfoldable pub find_pair : List ℕ → List KvPair → ℤ
find_pair key [] = negsuc 0
find_pair key (p ∷ ps) = if str_eq key p.key then p.value else find_pair key ps

pub hm_lookup : Option Hashmap → Option (List ℕ) → Outcome Overrun ℤ
hm_lookup none key = ok (negsuc 0)
hm_lookup (some hm) none = ok (negsuc 0)
hm_lookup (some hm) (some key) =
    let tmpkey = url_part key in
    if ltb (length tmpkey) tmpkey_size
    then ok (find_pair tmpkey (get_or hm (default_hash (some tmpkey) % hmsize) []))
    else stop overrun

-- `strncpy` copies the whole key, which is shorter than MAXSTRLEN wherever the lookup returns and no
-- space follows the URL.
pub hm_insert : Option Hashmap → List ℕ → ℤ → Outcome Overrun (ℤ × Option Hashmap)
hm_insert none key val = ok (negsuc 0, none)
hm_insert (some hm) key val = hm_lookup (some hm) (some key) >>= λ old.
    if not (old ==ℤ negsuc 0)
    then ok (pos 0, some hm)
    else let bucket = default_hash (some key) % hmsize in
      ok (pos 0, some (set hm bucket (record { key = key; value = val } ∷ get_or hm bucket [])))

-- What `fscanf` reads of the cluster file: the header, and the row of each round. `none` is a read
-- that does not match.
pub record ClusterFile : Type 0 where
  pub header : Option (ℤ × ℤ)
  pub rows : List (Option (List ℕ × ℤ))

-- `ccnt` is written before the counts are tested.
pub record Built : Type 0 where
  pub map : Hashmap
  pub ccnt : Option ℤ

-- The rounds left; a file that has ended reads as a row that does not match.
pub build_rows : ℕ → List (Option (List ℕ × ℤ)) → Hashmap → Outcome Overrun Hashmap
build_rows zero rows hm = ok hm
build_rows (suc n) [] hm = ok hm
build_rows (suc n) (none ∷ rows) hm = ok hm
build_rows (suc n) (some (url, clusterid) ∷ rows) hm =
    if leb_ℤ clusterid (pos 0)
    then ok hm
    else hm_insert (some hm) url clusterid >>= λ r. elim r.1 [
      | none ↦ ok hm
      | some hm' ↦ let rest = build_rows n rows hm' in if ltb_ℤ r.0 (pos 0) then ok hm' else rest
    ]

abbrev count_of : ℤ → ℕ
count_of (pos n) = n
count_of (negsuc n) = 0

-- `none` is a file that cannot be opened.
pub hm_build : Option ClusterFile → Outcome Overrun Built
hm_build none = ok (record { map = replicate hmsize []; ccnt = none })
hm_build (some f) = elim f.header [
  | none ↦ ok (record { map = replicate hmsize []; ccnt = none })
  | some (webcnt, ccnt) ↦
      if ltb_ℤ webcnt (pos 0) || ltb_ℤ ccnt (pos 0)
      then ok (record { map = replicate hmsize []; ccnt = some ccnt })
      else build_rows (count_of webcnt) f.rows (replicate hmsize []) >>= λ hm.
          ok (record { map = hm; ccnt = some ccnt })
]

-- ===== src/Hashmap/Build.antt =====
-- `hm_build`: the table of a whole cluster file.
use csbu_flo.Base.{
  ℕ, zero, suc, ◌%◌, ◌≡◌, refl, sym, ap, ◌∙◌, inl, inr, Bool, true, false, ◌&&◌, Option, none, some,
  List, [], ◌∷◌, length, replicate, ltb, if◌then◌else◌, ok, stop, arith, Bool-cases, subst,
  and_left, and_right, ltb→lt, length-replicate, get_or-replicate, All, ◌≢◌, ◌<◌, ◌++◌,
}
use csbu_flo.Base.Int.{ltb_ℤ, ℤ, pos, negsuc, ◌==ℤ◌, leb_ℤ}
use csbu_flo.Hashmap.{
  KvPair, Hashmap, overrun, ClusterFile, hmsize, tmpkey_size, default_hash, str_eq, hm_lookup,
  build_rows, hm_build,
}
use csbu_flo.Hashmap.Lookup.{
  IsUrl, value_of, lookup-value_of, inserted, insert-inserted, length-inserted, value_of-inserted,
  str_eq_iff, insert-overrun, find_pair-nil, url_part-append, NotSpace, hm_lookup_fits,
}

abbrev pub Rows : Type 0
Rows = List (List ℕ × ℤ)

-- The rows that are taken: at most `n`, up to the first that is malformed or names no cluster.
unfoldable pub accepted : ℕ → List (Option (List ℕ × ℤ)) → Rows
accepted zero rows = []
accepted (suc n) [] = []
accepted (suc n) (none ∷ rows) = []
accepted (suc n) (some (url, clusterid) ∷ rows) =
    if leb_ℤ clusterid (pos 0) then [] else (url, clusterid) ∷ accepted n rows

-- The cluster of the first row for a URL, or -1.
unfoldable pub first_match : List ℕ → Rows → ℤ
first_match j [] = negsuc 0
first_match j ((url, clusterid) ∷ rows) = if str_eq j url then clusterid else first_match j rows

unfoldable pub all_fit : Rows → Bool
all_fit [] = true
all_fit ((url, clusterid) ∷ rows) = ltb (length url) tmpkey_size && all_fit rows

-- What `fscanf` promises of `%s`: the text that it reads holds no space.
abbrev pub NoSpaces : Rows → Type 0
NoSpaces [] = Unit
NoSpaces ((url, clusterid) ∷ rows) = All NotSpace url × NoSpaces rows

abbrev Fills : Hashmap → Rows → Hashmap → Type 0
Fills hm rows m =
    (length m ≡ hmsize)
    × ((j : List ℕ)
        → value_of m j ≡ (if value_of hm j ==ℤ negsuc 0 then first_match j rows else value_of hm j))

Fills-nothing : (hm : Hashmap) → length hm ≡ hmsize → Fills hm [] hm
unfolding first_match
Fills-nothing hm size = (size, λ j. ground arith)

Fills-more :
    (hm m : Hashmap) (url : List ℕ) (id : ℤ) (rows : Rows)
    → length hm ≡ hmsize
    → leb_ℤ id (pos 0) ≡ false
    → Fills (inserted hm url id) rows m
    → Fills hm ((url, id) ∷ rows) m
unfolding first_match
Fills-more hm m url id rows size positive f = (
  f.0,
  λ j.
      f.1 j
      ∙ rw (value_of-inserted hm url j id size) (elim (Bool-cases (str_eq j url)) [
        | inl e ↦ rw e (ground (arith, positive, ap (value_of hm) ((str_eq_iff j url).0 e)))
        | inr e ↦ rw e (ground arith)
      ]),
)

-- One more row that is taken, in the loop and in its descriptions.
module _ (n : ℕ) (url : List ℕ) (id : ℤ) (rows : List (Option (List ℕ × ℤ)))
    (good : leb_ℤ id (pos 0) ≡ false) where
  accepted_more : accepted (suc n) (some (url, id) ∷ rows) ≡ (url, id) ∷ accepted n rows
  unfolding accepted
  accepted_more = rw good

  build_more :
      (hm : Hashmap)
      → IsUrl url
      → build_rows (suc n) (some (url, id) ∷ rows) hm ≡ build_rows n rows (inserted hm url id)
  unfolding build_rows
  build_more hm u = rw (good, insert-inserted hm url id u)

build_rows-Fills :
    (n : ℕ) (rows : List (Option (List ℕ × ℤ))) (hm : Hashmap)
    → length hm ≡ hmsize
    → NoSpaces (accepted n rows)
    → all_fit (accepted n rows) ≡ true
    → (m : Hashmap) × (build_rows n rows hm ≡ ok m) × Fills hm (accepted n rows) m
unfolding build_rows accepted all_fit
build_rows-Fills zero rows hm size words fit = (hm, refl, Fills-nothing hm size)
build_rows-Fills (suc n) [] hm size words fit = (hm, refl, Fills-nothing hm size)
build_rows-Fills (suc n) (none ∷ rows) hm size words fit = (hm, refl, Fills-nothing hm size)
build_rows-Fills (suc n) (some (url, id) ∷ rows) hm size words fit =
    elim (Bool-cases (leb_ℤ id (pos 0))) [
      | inl bad ↦ (hm, rw bad refl, rw bad (Fills-nothing hm size))
      | inr good ↦
          let more : accepted (suc n) (some (url, id) ∷ rows) ≡ (url, id) ∷ accepted n rows =
            accepted_more n url id rows good in
          let words' : NoSpaces ((url, id) ∷ accepted n rows) = subst NoSpaces more words in
          let fit' : all_fit ((url, id) ∷ accepted n rows) ≡ true =
            subst (λ r. all_fit r ≡ true) more fit in
          let u : IsUrl url = record {
            no_space = (url_part-append url [] words'.0).0;
            fits = ltb→lt _ _ (and_left _ _ fit');
          } in
          let (m, e, f) =
            build_rows-Fills n rows (inserted hm url id) (length-inserted hm url id ∙ size) words'.1
              (and_right _ _ fit') in
          (
            m,
            build_more n url id rows good hm u ∙ e,
            subst (λ r. Fills hm r m) (sym more)
                (Fills-more hm m url id (accepted n rows) size good f),
          )
    ]

-- With a URL too long for `tmpkey` among the rows that are taken, the build overruns.
build_rows-overrun :
    (n : ℕ) (rows : List (Option (List ℕ × ℤ))) (hm : Hashmap)
    → NoSpaces (accepted n rows)
    → all_fit (accepted n rows) ≡ false
    → build_rows n rows hm ≡ stop overrun
unfolding build_rows accepted all_fit
build_rows-overrun zero rows hm words fit = cc
build_rows-overrun (suc n) [] hm words fit = cc
build_rows-overrun (suc n) (none ∷ rows) hm words fit = cc
build_rows-overrun (suc n) (some (url, id) ∷ rows) hm words fit =
    elim (Bool-cases (leb_ℤ id (pos 0))) [
      | inl bad ↦
          let none_left : accepted (suc n) (some (url, id) ∷ rows) ≡ [] = rw bad in
          let fit' : all_fit [] ≡ false = subst (λ r. all_fit r ≡ false) none_left fit in cc
      | inr good ↦
          let more : accepted (suc n) (some (url, id) ∷ rows) ≡ (url, id) ∷ accepted n rows =
            accepted_more n url id rows good in
          let words' : NoSpaces ((url, id) ∷ accepted n rows) = subst NoSpaces more words in
          let fit' : all_fit ((url, id) ∷ accepted n rows) ≡ false =
            subst (λ r. all_fit r ≡ false) more fit in
          elim (Bool-cases (ltb (length url) tmpkey_size)) [
            | inl short ↦
                build_more n url id rows good hm (record {
                  no_space = (url_part-append url [] words'.0).0;
                  fits = ltb→lt _ _ short;
                })
                ∙ build_rows-overrun n rows (inserted hm url id) words'.1 (rw short at fit')
            | inr long ↦
                rw (good, insert-overrun hm url id (url_part-append url [] words'.0).0 long)
          ]
    ]

empty : Hashmap
empty = replicate hmsize []

length-empty : length empty ≡ hmsize
unfolding empty
length-empty = length-replicate {A = List KvPair} hmsize []

nonneg : (n : ℕ) → ltb_ℤ (pos n) (pos 0) ≡ false
nonneg n = ground arith

value_of-empty : (j : List ℕ) → value_of empty j ≡ negsuc 0
unfolding empty
value_of-empty j =
    rw (get_or-replicate {A = List KvPair} hmsize (default_hash (some j) % hmsize) [])
      (find_pair-nil j)

-- From a cluster file whose URLs hold no space, and each URL that is taken with room in the lookup's
-- copy of the key, the build makes a table that answers for every URL without a space and shorter than
-- this copy: with the cluster of the URL's first row, or -1, whether the key is the URL alone or goes on
-- behind a space.
pub hm_build-first_match :
    (f : ClusterFile) (webcnt ccnt : ℕ) (j rest : List ℕ)
    → f.header ≡ some (pos webcnt, pos ccnt)
    → NoSpaces (accepted webcnt f.rows)
    → all_fit (accepted webcnt f.rows) ≡ true
    → All (λ c. c ≢ 32) j
    → length j < 257
    → (m : Hashmap) × (hm_build (some f) ≡ ok (record { map = m; ccnt = some (pos ccnt) }))
      × (hm_lookup (some m) (some j) ≡ ok (first_match j (accepted webcnt f.rows)))
      × (hm_lookup (some m) (some (j ++ 32 ∷ rest)) ≡ ok (first_match j (accepted webcnt f.rows)))
unfolding hm_build empty
hm_build-first_match f webcnt ccnt j rest head words fit word short =
    let (m, e, fills) = build_rows-Fills webcnt f.rows empty length-empty words fit in
    let (whole, cut) = url_part-append j rest word in
    let found : value_of m j ≡ first_match j (accepted webcnt f.rows) =
      fills.1 j ∙ rw (value_of-empty j) refl in
    (
      m,
      rw (head, nonneg webcnt, nonneg ccnt, e) refl,
      lookup-value_of m j (record { no_space = whole; fits = short }) ∙ ap ok found,
      hm_lookup_fits m (j ++ 32 ∷ rest) (rw cut short) ∙ rw cut (ap ok found),
    )

-- From a cluster file whose URLs hold no space, one of those that are taken having no room in the
-- lookup's copy of the key, the build writes past the end of that copy.
pub hm_build-overrun :
    (f : ClusterFile) (webcnt ccnt : ℕ)
    → f.header ≡ some (pos webcnt, pos ccnt)
    → NoSpaces (accepted webcnt f.rows)
    → all_fit (accepted webcnt f.rows) ≡ false
    → hm_build (some f) ≡ stop overrun
unfolding hm_build empty
hm_build-overrun f webcnt ccnt head words long =
    rw (head, nonneg webcnt, nonneg ccnt, build_rows-overrun webcnt f.rows empty words long) refl

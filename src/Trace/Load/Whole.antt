-- ===== src/Trace/Load/Whole.antt =====
-- The whole file: every trace is found under its cluster; one whose cluster is too large is written past
-- the end of the array.
use csbu_flo.Base.Int.{pos_part, leb_ℤ, pos, ltb_ℤ}
use csbu_flo.Trace.Load.Text.{
  file_text, header_text, IsWritable, lines_text, scan_header-header_text, read_pairs-lines_text,
}
use csbu_flo.Trace.Load.{load_rounds, Array, past_end, load_st}
use csbu_flo.Trace.{St}
use csbu_flo.Base.{
  arith, ℕ, List, ◌≤◌, All, suc, ◌<◌, ◌∷◌, length, set, some, ◌+◌, [], ◌≡◌, if◌then◌else◌, refl,
  leb, stop, false, ap, length-set, ◌∙◌, if_at_false, leb-false, subst, sym, get_elem?, ◌≢◌, get_or,
  ok, replicate, none, get_or-set_ne, get_or-set_self, length-replicate, zero, ◌-◌, ◌>>=◌,
  if_at_true, le→leb,
}

-- A trace that the file can hold. One of no packets it cannot: see the test empty_shifts.
pub record IsTrace (t : St) : Type 0 where
  pub positive : 1 ≤ pos_part t.clusterid
  pub has_packets : 0 < length t.pairs
  pub writable : All IsWritable t.pairs

-- The array after the traces have been put into it in turn.
pub placed : List St → Array → Array
placed [] a = a
placed (t ∷ ts) a = placed ts (set a (pos_part t.clusterid) (some t))

abbrev pub Fits : ℕ → St → Type 0
Fits size t = IsTrace t × (pos_part t.clusterid < size)

-- One round, for a trace that has its place in the array or not.
load_round :
    (n : ℕ) (t : St) (rest : List ℕ) (a : Array)
    → IsTrace t
    → load_rounds (suc n) (header_text t (lines_text t.pairs rest)) a ≡ (
        if leb (length a) (pos_part t.clusterid)
        then stop past_end
        else load_rounds n rest (set a (pos_part t.clusterid) (some t)))
unfolding load_rounds
load_round n t rest a v =
    let id_ok : leb_ℤ t.clusterid (pos 0) ≡ false = ground (arith, v.positive) in
    let size_ok : ltb_ℤ (pos (length t.pairs)) (pos 0) ≡ false = ground arith in
    rw
      (
        load_rounds,
        scan_header-header_text t rest v.has_packets,
        read_pairs-lines_text t.pairs rest v.writable,
        id_ok,
        size_ok,
      )
      refl

load_rounds-placed :
    (ts : List St) (n : ℕ) (rest : List ℕ) (a : Array)
    → All (Fits (length a)) ts
    → load_rounds (length ts + n) (file_text ts rest) a ≡ load_rounds n rest (placed ts a)
unfolding file_text placed
load_rounds-placed [] n rest a h = ap (λ k. load_rounds k rest a) (omega arith)
load_rounds-placed (t ∷ ts) n rest a ((v, room), h) =
    let a' = set a (pos_part t.clusterid) (some t) in
    let kept : length a' ≡ length a = length-set a (pos_part t.clusterid) (some t) in
    ap (λ k. load_rounds k (file_text (t ∷ ts) rest) a) (omega arith)
    ∙ load_round (length ts + n) t (file_text ts rest) a v
    ∙ if_at_false (λ x. x ≡ load_rounds (length ts + n) (file_text ts rest) a') _ _
        (leb-false (length a) (pos_part t.clusterid) room) refl
    ∙ load_rounds-placed ts n rest a' (subst (λ k. All (Fits k) ts) (sym kept) h)

-- The clusters differ.
abbrev pub Distinct : List St → Type 0
Distinct [] = Unit
Distinct (t ∷ ts) = All (λ (u : St). pos_part u.clusterid ≢ pos_part t.clusterid) ts × Distinct ts

length-placed : (ts : List St) (a : Array) → length (placed ts a) ≡ length a
unfolding placed
length-placed [] a = refl
length-placed (t ∷ ts) a =
    length-placed ts (set a (pos_part t.clusterid) (some t))
    ∙ length-set a (pos_part t.clusterid) (some t)

placed-kept :
    (ts : List St) (a : Array) (i : ℕ)
    → All (λ (u : St). pos_part u.clusterid ≢ i) ts
    → get_or (placed ts a) i none ≡ get_or a i none
unfolding placed
placed-kept [] a i h = refl
placed-kept (t ∷ ts) a i (other, h) =
    placed-kept ts (set a (pos_part t.clusterid) (some t)) i h
    ∙ get_or-set_ne a (pos_part t.clusterid) i (some t) none other

placed-found :
    (ts : List St) (a : Array) (i : ℕ) (t : St)
    → All (Fits (length a)) ts
    → Distinct ts
    → get_elem? ts i ≡ some t
    → get_or (placed ts a) (pos_part t.clusterid) none ≡ some t
unfolding placed
placed-found [] a i t h d e = cc
placed-found (u ∷ us) a zero t ((v, room), h) (differ, d) e =
    let same : u ≡ t = cc in
    subst
      (λ (x : St).
        get_or (placed us (set a (pos_part u.clusterid) (some u))) (pos_part x.clusterid) none
        ≡ some x)
      same
      (placed-kept us (set a (pos_part u.clusterid) (some u)) (pos_part u.clusterid) differ
        ∙ get_or-set_self a (pos_part u.clusterid) (some u) none room)
placed-found (u ∷ us) a (suc i) t ((v, room), h) (differ, d) e =
    placed-found us (set a (pos_part u.clusterid) (some u)) i t
      (subst (λ k. All (Fits k) us) (sym (length-set a (pos_part u.clusterid) (some u))) h) d e

no_more : (s : List ℕ) (a : Array) → load_rounds 0 s a ≡ ok a
unfolding load_rounds
no_more s a = refl

-- A file of as many traces as there are clusters, in any order of the clusters, which differ and are from
-- 1 to their number, is read without a write past the array, and each trace is found under its cluster,
-- with the sizes, times and probabilities that were written. Each trace has packets, with probabilities
-- below 2 ^ 31 and nothing noted as expected, which the file does not hold.
pub load_st-file_text :
    (ts : List St) (i : ℕ) (t : St)
    → All (Fits (suc (length ts))) ts
    → Distinct ts
    → get_elem? ts i ≡ some t
    → (a : Array) × (load_st (some (file_text ts [])) (length ts) ≡ ok (some a))
      × (length a ≡ suc (length ts))
      × (get_or a (pos_part t.clusterid) none ≡ some t)
unfolding load_st
load_st-file_text ts i t h d e =
    let empty : Array = replicate (suc (length ts)) none in
    let size : length empty ≡ suc (length ts) = length-replicate (suc (length ts)) none in
    let h' = subst (λ k. All (Fits k) ts) (sym size) h in
    let loaded : load_rounds (length ts) (file_text ts []) empty ≡ ok (placed ts empty) =
      ap (λ k. load_rounds k (file_text ts []) empty) (omega arith)
      ∙ load_rounds-placed ts 0 [] empty h'
      ∙ no_more [] (placed ts empty) in
    (
      placed ts empty,
      ap (λ o. o >>= λ straces. ok (some straces)) loaded,
      length-placed ts empty ∙ size,
      placed-found ts empty i t h' d e,
    )

-- Behind fewer traces than there are clusters, each as above, a trace with packets whose cluster is larger
-- than the number of clusters is written past the end of the array, whatever follows it.
pub load_st-overrun :
    (ts : List St) (t : St) (ccnt : ℕ) (rest : List ℕ)
    → All (Fits (suc ccnt)) ts
    → IsTrace t
    → length ts < ccnt
    → ccnt < pos_part t.clusterid
    → load_st (some (file_text ts (header_text t (lines_text t.pairs rest)))) ccnt ≡ stop past_end
unfolding load_st
load_st-overrun ts t ccnt rest h v enough large =
    let empty : Array = replicate (suc ccnt) none in
    let size : length empty ≡ suc ccnt = length-replicate (suc ccnt) none in
    let h' = subst (λ k. All (Fits k) ts) (sym size) h in
    let bad = header_text t (lines_text t.pairs rest) in
    let past : load_rounds (suc (ccnt - length ts - 1)) bad (placed ts empty) ≡ stop past_end =
      load_round (ccnt - length ts - 1) t rest (placed ts empty) v
      ∙ if_at_true _ _ (
          le→leb (length (placed ts empty)) (pos_part t.clusterid)
            (omega (arith, length-placed ts empty, size, large))) in
    ap (λ o. o >>= λ straces. ok (some straces))
      (ap (λ k. load_rounds k (file_text ts bad) empty) (omega (arith, enough))
        ∙ load_rounds-placed ts (suc (ccnt - length ts - 1)) bad empty h'
        ∙ past)

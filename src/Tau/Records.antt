-- ===== src/Tau/Records.antt =====
-- The ring of send times holds the newest ones, and the gaps that are read from it are those between
-- neighbours, newest first.
use csbu_flo.Base.{
  ℕ, zero, suc, ◌+◌, ◌-◌, ◌%◌, ◌≤◌, ◌<◌, ◌≡◌, refl, sym, ap, ap₂, ==_true, ==_false, ◌∙◌, List, [],
  ◌∷◌, length, get_or, take, sub64, arith, length-set, get_or-set_self, get_or-set_ne, get_or-take,
  length-take, le→leb, leb-false, dec_le, min,
}
use csbu_flo.Base.Int.{ℤ, to_long}
use csbu_flo.Tau.{Times, arrsize, insert_time, gap, gaps_down, gaps_around, before, intervals}

-- The gaps between neighbours of a history, newest time first.
unfoldable pub gaps : List ℕ → List ℤ
gaps [] = []
gaps (t ∷ []) = []
gaps (t ∷ u ∷ ts) = to_long (sub64 t u) ∷ gaps (u ∷ ts)

-- Where entry `k` of the history stands, the newest being entry 0.
abbrev place : Times → ℕ → ℕ
place s k = (s.time_index + arrsize - 1 - k) % arrsize

-- The ring holds the newest entries of the history `ts`, which are all since the last reset.
pub record Records (s : Times) (ts : List ℕ) : Type 0 where
  pub memory : length s.time_arr ≡ arrsize
  pub counted : s.time_size ≡ length ts
  pub next : s.time_index ≡ length ts % arrsize
  pub entries :
      (k : ℕ) → k < length ts → k < arrsize → get_or s.time_arr (place s k) 0 ≡ get_or ts k 0

insert_time-entry :
    (t : ℕ) (s : Times) (ts : List ℕ)
    → Records s ts
    → (k : ℕ) → k < suc (length ts)
    → k < arrsize
    → get_or (insert_time t s).time_arr (place (insert_time t s) k) 0 ≡ get_or (t ∷ ts) k 0
unfolding insert_time
insert_time-entry t s ts r zero old small =
    let here : place (insert_time t s) 0 ≡ s.time_index = omega (arith, r.next) in
    rw here (get_or-set_self s.time_arr s.time_index t 0 (omega (arith, r.memory, r.next)))
insert_time-entry t s ts r (suc k) old small =
    let there : place (insert_time t s) (suc k) ≡ place s k = omega (arith, r.next) in
    rw there (get_or-set_ne s.time_arr s.time_index (place s k) t 0 (omega (arith, r.next)))
    ∙ r.entries k (omega arith) (omega arith)

pub insert_time-Records :
    (t : ℕ) (s : Times) (ts : List ℕ) → Records s ts → Records (insert_time t s) (t ∷ ts)
unfolding insert_time
insert_time-Records t s ts r = record {
  memory = omega (arith, r.memory, length-set s.time_arr s.time_index t);
  counted = omega (arith, r.counted);
  next = omega (arith, r.next);
  entries = insert_time-entry t s ts r;
}

-- The gaps by position, `n` of them from entry `k` of the history on.
gaps_from : List ℕ → ℕ → ℕ → List ℤ
gaps_from ts k zero = []
gaps_from ts k (suc n) = gap ts k (suc k) ∷ gaps_from ts (suc k) n

gaps_from-cons : (t : ℕ) (ts : List ℕ) (k n : ℕ) → gaps_from (t ∷ ts) (suc k) n ≡ gaps_from ts k n
unfolding gaps_from
gaps_from-cons t ts k zero = refl
gaps_from-cons t ts k (suc n) = ap (λ r. gap ts k (suc k) ∷ r) (gaps_from-cons t ts (suc k) n)

gaps-gaps_from : (t : ℕ) (ts : List ℕ) → gaps (t ∷ ts) ≡ gaps_from (t ∷ ts) 0 (length ts)
unfolding gaps gaps_from
gaps-gaps_from t [] = refl
gaps-gaps_from t (u ∷ ts) =
    ap (λ r. to_long (sub64 t u) ∷ r)
      (gaps-gaps_from u ts ∙ sym (gaps_from-cons t (u ∷ ts) 0 (length ts)))

module _ (s : Times) (ts : List ℕ) (r : Records s ts) where
  gap_entries :
      (k : ℕ)
      → suc k < length ts
      → suc k < arrsize
      → gap s.time_arr (place s k) (place s (suc k)) ≡ gap ts k (suc k)
  gap_entries k old small =
      rw (r.entries k (omega arith) (omega arith), r.entries (suc k) old small) refl

  before_place : (k : ℕ) → suc k < arrsize → before (place s k) ≡ place s (suc k)
  before_place k h = ground (arith, r.next)

  gaps_down-gaps_from :
      (k i : ℕ)
      → k + i + 1 ≡ length ts
      → length ts ≤ arrsize
      → gaps_down s.time_arr i ≡ gaps_from ts k i
  unfolding gaps_down gaps_from
  gaps_down-gaps_from k zero e le = refl
  gaps_down-gaps_from k (suc i) e le =
      let top : suc i ≡ place s k = omega (arith, r.next) in
      let below : i ≡ place s (suc k) = omega (arith, r.next) in
      ap₂ ◌∷◌ (ap₂ (gap s.time_arr) top below ∙ gap_entries k (omega arith) (omega arith))
        (gaps_down-gaps_from (suc k) i (omega arith) le)

  gaps_around-gaps_from :
      (fuel k n : ℕ)
      → arrsize < length ts
      → k + n + 1 ≡ arrsize
      → n < fuel
      → gaps_around fuel s.time_arr s.time_index (place s k) ≡ gaps_from ts k n
  unfolding gaps_around gaps_from
  gaps_around-gaps_from zero k n full e h = absurd (omega arith)
  gaps_around-gaps_from (suc fuel) k zero full e h =
      rw (==_true (place s k) s.time_index (omega (arith, r.next)))
  gaps_around-gaps_from (suc fuel) k (suc n) full e h =
      let step : before (place s k) ≡ place s (suc k) = before_place k (omega arith) in
      rw (==_false (place s k) s.time_index (omega (arith, r.next)), step)
        (ap₂ ◌∷◌ (gap_entries k (omega arith) (omega arith))
          (gaps_around-gaps_from fuel (suc k) n full (omega arith) (omega arith)))

gaps_from-take :
    (m : ℕ) (ts : List ℕ) (k n : ℕ) → k + n < m → gaps_from (take m ts) k n ≡ gaps_from ts k n
unfolding gaps_from
gaps_from-take m ts k zero h = refl
gaps_from-take m ts k (suc n) h =
    ap₂ ◌∷◌ (rw (get_or-take m ts k 0 (omega arith), get_or-take m ts (suc k) 0 (omega arith)) refl)
      (gaps_from-take m ts (suc k) n (omega arith))

gaps-by_place : (ts : List ℕ) → gaps ts ≡ gaps_from ts 0 (length ts - 1)
unfolding gaps gaps_from
gaps-by_place [] = refl
gaps-by_place (t ∷ ts) = gaps-gaps_from t ts ∙ ap (gaps_from (t ∷ ts) 0) (omega arith)

pub length-gaps : (ts : List ℕ) → length (gaps ts) ≡ length ts - 1
unfolding gaps
length-gaps [] = omega arith
length-gaps (t ∷ []) = omega arith
length-gaps (t ∷ u ∷ ts) = omega (arith, length-gaps (u ∷ ts))

newest_gaps : (ts : List ℕ) → gaps (take arrsize ts) ≡ gaps_from ts 0 (min arrsize (length ts) - 1)
newest_gaps ts =
    gaps-by_place (take arrsize ts)
    ∙ gaps_from-take arrsize ts 0 (length (take arrsize ts) - 1)
        (omega (arith, length-take arrsize ts))
    ∙ ap (gaps_from ts 0) (omega (arith, length-take arrsize ts))

down_all :
    (s : Times) (ts : List ℕ)
    → Records s ts
    → length ts ≤ arrsize
    → gaps_down s.time_arr (length ts - 1) ≡ gaps_from ts 0 (length ts - 1)
unfolding gaps_down gaps_from
down_all s [] r le = refl
down_all s (t ∷ ts) r le = gaps_down-gaps_from s (t ∷ ts) r 0 (suc (length ts) - 1) (omega arith) le

-- If the ring records a history of send times since the last reset, the update reads the gaps
-- between the newest ARRSIZE of them (all, if there are fewer), newest first, and counts them right.
pub intervals-gaps :
    (s : Times) (ts : List ℕ)
    → Records s ts
    → intervals s ≡ (gaps (take arrsize ts), length (gaps (take arrsize ts)))
unfolding intervals
intervals-gaps s ts r = elim (dec_le (length ts) arrsize) [
  | yes few ↦
      rw (r.counted, le→leb (length ts) arrsize few)
        (ap₂ (λ (a : List ℤ) (n : ℕ). (a, n))
          (down_all s ts r few ∙ ap (gaps_from ts 0) (omega arith) ∙ sym (newest_gaps ts))
          (omega (arith, length-gaps (take arrsize ts), length-take arrsize ts)))
  | no many ↦
      let newest : before s.time_index ≡ place s 0 = ground (arith, r.next) in
      rw (r.counted, leb-false (length ts) arrsize (omega arith), newest)
        (ap₂ (λ (a : List ℤ) (n : ℕ). (a, n))
          (gaps_around-gaps_from s ts r arrsize 0 999 (omega arith) (omega arith) (omega arith)
            ∙ ap (gaps_from ts 0) (omega arith)
            ∙ sym (newest_gaps ts))
          (omega (arith, length-gaps (take arrsize ts), length-take arrsize ts)))
]

-- ===== src/Tau/Candidates.antt =====
-- What one update adds to the candidates: each gap between the newest send times, or the fallback.
use csbu_flo.Base.{
  ℕ, zero, suc, ◌+◌, ◌≤◌, ◌<◌, ◌≡◌, refl, sym, ap, ◌∙◌, inl, inr, Bool, List, [], ◌∷◌, ◌++◌, length,
  get_or, map, set, take, drop, ◌==◌, if◌then◌else◌, arith, Bool-cases, leb-false, take-set_next,
  take_at, drop_at, drop_all, ==_false, drop-get_or, lt→ltb, length-map,
}
use mathlib.Core.List.{append_assoc, append-nil}
use csbu_flo.Base.Int.{ℤ, pos, ltb_ℤ, ◌==ℤ◌}
use csbu_flo.Tau.{
  Times, Taus, arrsize, clamp, push_tau, push_intervals, insert_time, reset_times, fallback,
  update_tau_interval,
}
use csbu_flo.Tau.Records.{Records, gaps, insert_time-Records, intervals-gaps}
use csbu_flo.Tau.Bounds.{IsValid, clamp-InRange, push_tau-IsValid}

-- The candidate for a gap; a gap of 0 counts as none.
unfoldable pub candidate : ℤ → ℤ → ℤ
candidate default g = clamp (if g ==ℤ pos 0 then default else g)

unfoldable pub candidates : ℤ → List ℤ → List ℤ
candidates default [] = clamp default ∷ []
candidates default (g ∷ gs) = map (candidate default) (g ∷ gs)

-- The candidates that are recorded, in the order in which they came, while the array has not gone
-- round.
abbrev pub recorded : Taus → List ℤ
recorded s = take s.tau_size s.tau_arr

push_tau-recorded :
    (tau : ℤ) (s : Taus)
    → IsValid s
    → s.tau_size < arrsize
    → (recorded (push_tau tau s) ≡ recorded s ++ tau ∷ [])
      × ((push_tau tau s).tau_size ≡ suc s.tau_size)
unfolding push_tau
push_tau-recorded tau s v few =
    rw (lt→ltb s.tau_size arrsize few, v.filling few)
      (
        take_at (set s.tau_arr s.tau_size tau) (s.tau_size + 1) (suc s.tau_size) (omega arith)
            ∙ take-set_next s.tau_arr s.tau_size tau (omega (arith, v.memory)),
        omega arith,
      )

push_intervals-recorded :
    (n i : ℕ) (arr : List ℤ) (default : ℤ) (s : Taus)
    → IsValid s
    → i + n ≡ length arr
    → s.tau_size + n ≤ arrsize
    → recorded (push_intervals n i arr default s)
      ≡ recorded s ++ map (candidate default) (drop i arr)
unfolding push_intervals candidate
push_intervals-recorded zero i arr default s v e few =
    sym (append-nil (recorded s))
    ∙ ap (λ r. recorded s ++ map (candidate default) r) (sym (drop_all arr i (omega arith)))
push_intervals-recorded (suc n) i arr default s v e few =
    let tau = get_or arr i (pos 0) in
    let pushed = push_tau (candidate default tau) s in
    let first = push_tau-recorded (candidate default tau) s v (omega arith) in
    push_intervals-recorded n (i + 1) arr default pushed (push_tau-IsValid _ s (clamp-InRange _) v)
      (omega arith) (omega (arith, first.1))
    ∙ ap (λ r. r ++ map (candidate default) (drop (i + 1) arr)) first.0
    ∙ append_assoc (recorded s) (candidate default tau ∷ []) _
    ∙ ap (λ r. recorded s ++ r)
        (ap (λ r. candidate default tau ∷ map (candidate default) r)
            (drop_at arr (i + 1) (suc i) (omega arith))
          ∙ ap (map (candidate default)) (sym (drop-get_or arr i (pos 0) (omega arith))))

-- The history with the end of the interval, which counts as a send time if real data went out.
abbrev pub closed : ℕ → ℤ → List ℕ → List ℕ
closed ts_end realsent ts = if ltb_ℤ (pos 0) realsent then ts_end ∷ ts else ts

closed-Records :
    (ts_end : ℕ) (realsent : ℤ) (times : Times) (ts : List ℕ)
    → Records times ts
    → Records
        (if ltb_ℤ (pos 0) realsent then insert_time ts_end times else times)
        (closed ts_end realsent ts)
closed-Records ts_end realsent times ts r = elim (Bool-cases (ltb_ℤ (pos 0) realsent)) [
  | inl e ↦ rw e (insert_time-Records ts_end times ts r)
  | inr e ↦ rw e r
]

reset-Records : (times : Times) (ts : List ℕ) → Records times ts → Records (reset_times times) []
unfolding reset_times
reset-Records times ts r = record {
  memory = r.memory;
  counted = refl;
  next = refl;
  entries = λ k old small. absurd (omega arith);
}

-- The candidates from the gaps, read back from the array.
push_all :
    (gs : List ℤ) (default : ℤ) (taus : Taus)
    → IsValid taus
    → taus.tau_size + length (candidates default gs) ≤ arrsize
    → recorded (
        push_intervals
          (length gs)
          0
          gs
          default
          (if length gs == 0 then push_tau (clamp default) taus else taus))
      ≡ recorded taus ++ candidates default gs
unfolding candidates push_intervals
push_all [] default taus v few = (push_tau-recorded (clamp default) taus v (omega arith)).0
push_all (g ∷ gs) default taus v few = rw (==_false (suc (length gs)) 0 (omega arith)) (
    push_intervals-recorded (length (g ∷ gs)) 0 (g ∷ gs) default taus v (omega arith)
      (omega (arith, length-map gs (candidate default))))

-- An update for an interval that ends after it starts, from a ring that records the send times and a
-- well-formed record of candidates with room left for the new ones: it adds,
-- in order, the clamped gap between each two neighbours of the newest ARRSIZE send times (the end of
-- the interval among them if real data went out), a gap of 0 giving the clamped fallback, or the
-- clamped fallback alone if there is no gap; and the record of send times starts again.
pub update_tau_interval-candidates :
    (ts_start ts_end : ℕ) (realsent : ℤ) (is_client : Bool) (times : Times) (taus : Taus)
    (ts : List ℕ)
    → Records times ts
    → IsValid taus
    → ts_start < ts_end
    → taus.tau_size
        + length (
            candidates
              (fallback ts_start ts_end is_client)
              (gaps (take arrsize (closed ts_end realsent ts))))
      ≤ arrsize
    → let (times', taus') = update_tau_interval ts_start ts_end realsent is_client (times, taus) in
      Records times' []
      × (recorded taus'
          ≡ recorded taus
            ++ candidates
                (fallback ts_start ts_end is_client)
                (gaps (take arrsize (closed ts_end realsent ts))))
unfolding update_tau_interval
update_tau_interval-candidates ts_start ts_end realsent is_client times taus ts r v lt few =
    let r' = closed-Records ts_end realsent times ts r in
    rw (leb-false ts_end ts_start lt, intervals-gaps _ _ r')
      (
        reset-Records _ _ r',
        push_all (gaps (take arrsize (closed ts_end realsent ts)))
            (fallback ts_start ts_end is_client) taus v few,
      )

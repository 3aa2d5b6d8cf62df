-- ===== src/Tau/Tests.antt =====
-- Two candidates, and two send times 6000 microseconds apart.
use csbu_flo.Base.{
  ℕ, ◌+◌, ◌/◌, ◌<◌, ◌≤◌, ◌≡◌, refl, false, List, [], ◌∷◌, ◌++◌, length, replicate, take, get_or,
  arith, length-replicate,
}
use csbu_flo.Base.Int.{ℤ, pos, ◌*ℤ◌, pos_part}
use mathlib.Core.List.{Perm}
use csbu_flo.Tau.{
  Times, Taus, arrsize, insert_time, intervals, push_tau, fallback, update_tau_interval,
  update_tau_median,
}
use csbu_flo.Tau.Records.{Records, gaps, insert_time-Records, intervals-gaps}
use csbu_flo.Tau.Bounds.{IsValid, push_tau-IsValid, update_tau_interval-IsValid}
use csbu_flo.Tau.Candidates.{candidates, recorded, update_tau_interval-candidates}
use csbu_flo.Tau.Median.{
  IsSorted, IsFloorPower, IsTau, update_tau_median-median, update_tau_median-IsTau,
}

abbrev no_taus : Taus
no_taus = record { tau_arr = replicate arrsize (pos 0); tau_index = 0; tau_size = 0 }

no_taus-IsValid : IsValid no_taus
no_taus-IsValid = record {
  memory = length-replicate arrsize (pos 0);
  counted = omega arith;
  index_in = omega arith;
  filling = λ few. refl;
  entries = λ i lt. absurd (omega arith);
}

abbrev two_taus : Taus
two_taus = push_tau (pos 20000) (push_tau (pos 9000) no_taus)

two_taus-IsValid : IsValid two_taus
two_taus-IsValid =
    push_tau-IsValid (pos 20000) (push_tau (pos 9000) no_taus) (omega arith, omega arith)
      (push_tau-IsValid (pos 9000) no_taus (omega arith, omega arith) no_taus-IsValid)

abbrev no_times : Times
no_times = record { time_arr = replicate arrsize 0; time_index = 0; time_size = 0 }

no_times-Records : Records no_times []
no_times-Records = record {
  memory = length-replicate {A = ℕ} arrsize 0;
  counted = refl;
  next = refl;
  entries = λ k lt small. absurd (omega arith);
}

abbrev times : Times
times = insert_time 51000 (insert_time 45000 no_times)

times-Records : Records times (51000 ∷ 45000 ∷ [])
times-Records =
    insert_time-Records 51000 (insert_time 45000 no_times) (45000 ∷ [])
      (insert_time-Records 45000 no_times [] no_times-Records)

intervals-gaps_example :
    intervals times
    ≡ (gaps (take arrsize (51000 ∷ 45000 ∷ [])), length (gaps (take arrsize (51000 ∷ 45000 ∷ []))))
intervals-gaps_example = intervals-gaps times (51000 ∷ 45000 ∷ []) times-Records

update_tau_interval-IsValid_example :
    IsValid (update_tau_interval 40000 60000 (pos 1) false (times, two_taus)).1
update_tau_interval-IsValid_example =
    update_tau_interval-IsValid 40000 60000 (pos 1) false times two_taus two_taus-IsValid

update_tau_median-IsTau_example :
    let (t, boundary, s) = update_tau_median (pos 8192) (pos 100) (pos 200) two_taus in
    IsTau t × IsValid s
update_tau_median-IsTau_example =
    update_tau_median-IsTau two_taus two_taus-IsValid (pos 8192) (pos 100) (pos 200)
      (13, refl, omega arith, omega arith)

few :
    two_taus.tau_size
      + length (
          candidates
            (fallback 40000 60000 false)
            (gaps (take arrsize (60000 ∷ 51000 ∷ 45000 ∷ []))))
    ≤ arrsize
unfolding push_tau candidates gaps
few = omega arith

two : 0 < two_taus.tau_size
unfolding push_tau
two = omega arith

update_tau_interval-candidates_example :
    let (times', taus') = update_tau_interval 40000 60000 (pos 1) false (times, two_taus) in
    Records times' []
    × (recorded taus'
        ≡ recorded two_taus
          ++ candidates
              (fallback 40000 60000 false)
              (gaps (take arrsize (60000 ∷ 51000 ∷ 45000 ∷ []))))
update_tau_interval-candidates_example =
    update_tau_interval-candidates 40000 60000 (pos 1) false times two_taus (51000 ∷ 45000 ∷ [])
      times-Records two_taus-IsValid (omega arith) few

update_tau_median-median_example :
    let (t, boundary, s) = update_tau_median (pos 8192) (pos 100) (pos 200) two_taus in
    (xs : List ℤ) × (p : ℕ) × Perm xs (take two_taus.tau_size two_taus.tau_arr)
    × IsSorted xs
    × IsFloorPower (pos_part (get_or xs (two_taus.tau_size / 2) (pos 0))) p
    × (t ≡ pos p)
    × (boundary ≡ pos 100 *ℤ pos 2)
    × (s.tau_size ≡ 0)
update_tau_median-median_example =
    update_tau_median-median two_taus two_taus-IsValid (pos 8192) (pos 100) (pos 200) refl two

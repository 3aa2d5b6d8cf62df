-- ===== src/Tau.antt =====
-- misc.c: how the time between two sends, tau, follows the traffic. `insert_time` records when a
-- full packet's worth of real data has left, `update_tau_interval` turns the gaps into candidates,
-- `update_tau_median` takes the median of the candidates, rounded down to a power of two.
mod Records
mod Tests
mod Bounds
mod Median
mod Candidates
use csbu_flo.Base.{
  ℕ, zero, suc, ◌+◌, ◌-◌, ◌*◌, ◌/◌, ◌%◌, ◌^◌, Bool, true, false, List, [], ◌∷◌, ◌++◌, length,
  get_or, set, take, drop, ltb, leb, ◌==◌, if◌then◌else◌, add64, sub64,
}
use csbu_flo.Base.Int.{
  ℤ, pos, negsuc, ◌+ℤ◌, ◌-ℤ◌, ◌*ℤ◌, ◌==ℤ◌, ltb_ℤ, leb_ℤ, pos_part, to_long, to_int, half,
}

abbrev pub arrsize : ℕ
arrsize = 1000

abbrev pub lower_tau : ℤ
lower_tau = pos 4096

abbrev pub upper_tau : ℤ
upper_tau = pos 32768

abbrev pub initial_tau : ℤ
initial_tau = pos 8192

-- The static arrays of misc.c, `unsigned long long` times and `long` candidates.
pub record Times : Type 0 where
  pub time_arr : List ℕ
  pub time_index : ℕ
  pub time_size : ℕ

pub record Taus : Type 0 where
  pub tau_arr : List ℤ
  pub tau_index : ℕ
  pub tau_size : ℕ

pub insert_time : ℕ → Times → Times
insert_time time s = record s {
  time_arr = set s.time_arr s.time_index time;
  time_index = (s.time_index + 1) % arrsize;
  time_size = s.time_size + 1;
}

-- `(long)(time_arr[i] - time_arr[j])`
abbrev pub gap : List ℕ → ℕ → ℕ → ℤ
gap arr i j = to_long (sub64 (get_or arr i 0) (get_or arr j 0))

-- The loop over an array that has not gone round; the argument is `time_index`.
pub gaps_down : List ℕ → ℕ → List ℤ
gaps_down arr zero = []
gaps_down arr (suc i) = gap arr (suc i) i ∷ gaps_down arr i

abbrev pub before : ℕ → ℕ
before i = if i == 0 then arrsize - 1 else i - 1

-- The loop over an array that has gone round, from the newest entry back to the oldest.
pub gaps_around : ℕ → List ℕ → ℕ → ℕ → List ℤ
gaps_around zero arr oldest i = []
gaps_around (suc fuel) arr oldest i =
    let rest = gap arr i (before i) ∷ gaps_around fuel arr oldest (before i) in
    if i == oldest then [] else rest

-- `interval_arr` and `size`. A position that no loop has written holds 0.
pub intervals : Times → List ℤ × ℕ
intervals s =
    if leb s.time_size arrsize
    then (gaps_down s.time_arr (s.time_size - 1), s.time_size - 1)
    else (gaps_around arrsize s.time_arr s.time_index (before s.time_index), arrsize - 1)

-- The candidate where there is no gap.
pub fallback : ℕ → ℕ → Bool → ℤ
fallback ts_start ts_end is_client =
    if is_client
    then half (to_long (sub64 ts_end ts_start) +ℤ upper_tau)
    else to_long (sub64 ts_end ts_start)

pub clamp : ℤ → ℤ
clamp tau =
    if ltb_ℤ tau lower_tau then lower_tau else if ltb_ℤ upper_tau tau then upper_tau else tau

pub push_tau : ℤ → Taus → Taus
push_tau tau s = record s {
  tau_arr = set s.tau_arr s.tau_index tau;
  tau_size = if ltb s.tau_size arrsize then s.tau_size + 1 else s.tau_size;
  tau_index = (s.tau_index + 1) % arrsize;
}

-- `for(i = 0; i < size; i++)`: `n` rounds from `i` on.
pub push_intervals : ℕ → ℕ → List ℤ → ℤ → Taus → Taus
push_intervals zero i arr default s = s
push_intervals (suc n) i arr default s =
    let tau = get_or arr i (pos 0) in
    push_intervals n (i + 1) arr default
      (push_tau (clamp (if tau ==ℤ pos 0 then default else tau)) s)

pub reset_times : Times → Times
reset_times s = record s { time_index = 0; time_size = 0 }

pub update_tau_interval : ℕ → ℕ → ℤ → Bool → Times × Taus → Times × Taus
update_tau_interval ts_start ts_end realsent is_client (times, taus) =
    if leb ts_end ts_start
    then (times, taus)
    else let times' = if ltb_ℤ (pos 0) realsent then insert_time ts_end times else times in
      let (arr, size) = intervals times' in
      let default = fallback ts_start ts_end is_client in
      let taus' = if size == 0 then push_tau (clamp default) taus else taus in
      (reset_times times', push_intervals size 0 arr default taus')

-- The difference is cut to an `int`.
pub comp_long : ℤ → ℤ → ℤ
comp_long a b = to_int (a -ℤ b)

-- `qsort` by `comp_long`.
pub insert_sorted : ℤ → List ℤ → List ℤ
insert_sorted x [] = x ∷ []
insert_sorted x (y ∷ ys) =
    if leb_ℤ (comp_long x y) (pos 0) then x ∷ y ∷ ys else y ∷ insert_sorted x ys

pub sort_taus : List ℤ → List ℤ
sort_taus [] = []
sort_taus (x ∷ xs) = insert_sorted x (sort_taus xs)

-- `(long)pow(2, floor(log2(n)))`, exact in double precision for the candidates; `log2(0)` is minus
-- infinity, whose power is 0. The first argument is fuel: the number of bits of `n`.
pub floor_power : ℕ → ℕ → ℕ
floor_power zero n = 0
floor_power (suc fuel) n =
    let larger = 2 * floor_power fuel (n / 2) in if n == 0 then 0 else if n == 1 then 1 else larger

-- The new tau, the new boundary and the candidates, sorted and forgotten.
pub update_tau_median : ℤ → ℤ → ℤ → Taus → ℤ × ℤ × Taus
update_tau_median tau boundary total_sent_bytes s =
    if ltb_ℤ total_sent_bytes boundary
    then (tau, boundary, s)
    else let sorted = sort_taus (take s.tau_size s.tau_arr) ++ drop s.tau_size s.tau_arr in
      let median = get_or sorted (s.tau_size / 2) (pos 0) in
      (
        if s.tau_size == 0 then upper_tau else pos (floor_power 64 (pos_part median)),
        boundary *ℤ pos 2,
        record { tau_arr = sorted; tau_index = 0; tau_size = 0 },
      )

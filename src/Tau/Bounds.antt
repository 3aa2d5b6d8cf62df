-- ===== src/Tau/Bounds.antt =====
-- Every candidate that is recorded lies between LOWER_TAU and UPPER_TAU, and every index in its array.
use csbu_flo.Base.{
  ℕ, zero, suc, ◌+◌, ◌≤◌, ◌<◌, ◌≡◌, sym, inl, inr, ◌≢◌, Bool, true, false, List, length, get_or,
  leb, if◌then◌else◌, arith, Bool-cases, length-set, get_or-set_self, get_or-set_ne, ℕ_discrete,
}
use csbu_flo.Base.Int.{ℤ, pos, ◌≤ℤ◌}
use csbu_flo.Tau.{
  Times, Taus, arrsize, lower_tau, upper_tau, clamp, push_tau, push_intervals, update_tau_interval,
}

abbrev pub InRange : ℤ → Type 0
InRange tau = (lower_tau ≤ℤ tau) × (tau ≤ℤ upper_tau)

pub record IsValid (s : Taus) : Type 0 where
  pub memory : length s.tau_arr ≡ arrsize
  pub counted : s.tau_size ≤ arrsize
  pub index_in : s.tau_index < arrsize
  pub filling : s.tau_size < arrsize → s.tau_index ≡ s.tau_size
  pub entries : (i : ℕ) → i < s.tau_size → InRange (get_or s.tau_arr i (pos 0))

pub clamp-InRange : (tau : ℤ) → InRange (clamp tau)
unfolding clamp
clamp-InRange tau = ground arith

-- Which a value in the range passes unchanged.
pub clamp_id : (tau : ℤ) → InRange tau → clamp tau ≡ tau
unfolding clamp
clamp_id tau h = ground arith

pub push_tau-IsValid : (tau : ℤ) (s : Taus) → InRange tau → IsValid s → IsValid (push_tau tau s)
unfolding push_tau
push_tau-IsValid tau s h v = record {
  memory = omega (arith, v.memory, length-set s.tau_arr s.tau_index tau);
  counted = ground (arith, v.counted);
  index_in = omega arith;
  filling = λ few. ground (arith, v.filling, v.counted);
  entries = entries;
}
  where
    old : (i : ℕ) → i < (push_tau tau s).tau_size → i ≢ s.tau_index → i < s.tau_size
    old i lt ne = ground (arith, v.filling, v.counted)

    entries :
        (i : ℕ)
        → i < (push_tau tau s).tau_size
        → InRange (get_or (push_tau tau s).tau_arr i (pos 0))
    entries i lt = elim (ℕ_discrete i s.tau_index) [
      | yes e ↦
          rw
            (
              e,
              get_or-set_self s.tau_arr s.tau_index tau (pos 0)
                  (omega (arith, v.memory, v.index_in)),
            )
            h
      | no ne ↦
          rw (get_or-set_ne s.tau_arr s.tau_index i tau (pos 0) (λ e. ne (sym e)))
            (v.entries i (old i lt ne))
    ]

if_IsValid : (b : Bool) (s t : Taus) → IsValid s → IsValid t → IsValid (if b then s else t)
if_IsValid true s t v w = v
if_IsValid false s t v w = w

push_intervals-IsValid :
    (n i : ℕ) (arr : List ℤ) (default : ℤ) (s : Taus)
    → IsValid s
    → IsValid (push_intervals n i arr default s)
unfolding push_intervals
push_intervals-IsValid zero i arr default s v = v
push_intervals-IsValid (suc n) i arr default s v =
    push_intervals-IsValid n (i + 1) arr default _ (push_tau-IsValid _ s (clamp-InRange _) v)

-- An update, whatever the record of times is, keeps a well-formed record of candidates so: the
-- candidates from LOWER_TAU to UPPER_TAU, the index in the array, and the count.
pub update_tau_interval-IsValid :
    (ts_start ts_end : ℕ) (realsent : ℤ) (is_client : Bool) (times : Times) (taus : Taus)
    → IsValid taus
    → IsValid (update_tau_interval ts_start ts_end realsent is_client (times, taus)).1
unfolding update_tau_interval
update_tau_interval-IsValid ts_start ts_end realsent is_client times taus v =
    elim (Bool-cases (leb ts_end ts_start)) [
      | inl e ↦ rw e v
      | inr e ↦ rw e (
          push_intervals-IsValid _ 0 _ _ _
            (if_IsValid _ _ _ (push_tau-IsValid _ taus (clamp-InRange _) v) v))
    ]

-- ===== src/ServerLoop/Target.antt =====
-- How far CSBuFLO pads: the total that is to be reached.
use csbu_flo.Loop.{ceil_power, padding_base, round_up_to, set_target, Server, target_queue_len}
use native.Mathlib.Nat.{div-mul-le_self, lt-div-mul-add, pow-suc}
use csbu_flo.Base.{
  arith, ℕ, ◌<◌, ◌≡◌, ◌*◌, ◌+◌, ◌^◌, ◌≤◌, if_at_false, suc, ◌-◌, ==_false, Bool-cases, ◌/◌, leb,
  refl, inl, leb→le, inr, if◌then◌else◌, subst, zero, sym, ◌&&◌, ltb, ap, ◌∙◌,
}

-- The multiple of `base` that is the next one to `total`.
pub record IsNext (base total target : ℕ) : Type 0 where
  pub rounds : ℕ
  pub multiple : target ≡ rounds * base
  pub reaches : total ≤ target
  pub closest : target < total + base

round_up_to-IsNext : (base total : ℕ) → 0 < base → IsNext base total (round_up_to base total)
unfolding round_up_to
round_up_to-IsNext base total some =
    let low = div-mul-le_self (total + base - 1) base in
    let high = lt-div-mul-add {a = total + base - 1} {b = base} some in
    record {
      rounds = (total + base - 1) / base;
      multiple = refl;
      reaches = omega arith;
      closest = omega arith;
    }

-- The smallest power of two that is not below `n`.
abbrev pub IsCeilPower : ℕ → ℕ → Type 0
IsCeilPower n p = (k : ℕ) × (p ≡ 2 ^ k) × (n ≤ p) × (p < 2 * n)

-- A power of two that is more than 1 is even.
below_odd : (k n : ℕ) → 2 ≤ n → 2 ^ k < 2 * ((n + 1) / 2) → 2 ^ k < n
below_odd zero n two lt = omega arith
below_odd (suc k) n two lt = omega (arith, pow-suc 2 k)

ceil_power_lem : (fuel n : ℕ) → 0 < n → n ≤ 2 ^ fuel → IsCeilPower n (ceil_power fuel n)
unfolding ceil_power
ceil_power_lem zero n some small = (0, omega arith, omega arith, omega arith)
ceil_power_lem (suc fuel) n some small = elim (Bool-cases (leb n 1)) [
  | inl one ↦ rw one (0, omega (arith, leb→le n 1 one), omega arith, omega arith)
  | inr more ↦
      let (k, e, le, below) =
        ceil_power_lem fuel ((n + 1) / 2) (omega arith) (omega (arith, pow-suc 2 fuel)) in
      let two : 2 ≤ n = ground arith in
      let under = below_odd k n two (omega (arith, e)) in
      rw more (suc k, omega (arith, e, pow-suc 2 k), omega arith, omega (arith, e))
]

padding_base_some : (incoming : ℕ) → 0 < padding_base incoming
unfolding padding_base
padding_base_some incoming = ground arith

padding_base_lem :
    (incoming : ℕ) → 0 < incoming → incoming ≤ 2 ^ 48 → IsCeilPower incoming (padding_base incoming)
unfolding padding_base
padding_base_lem incoming some small =
    let (k, e, le, below) = ceil_power_lem 64 incoming some (omega arith) in
    if_at_false (IsCeilPower incoming) _ _ (==_false (ceil_power 64 incoming) 0 (omega arith))
      (k, e, le, below)

padding_base-nothing : padding_base 0 ≡ 2
unfolding padding_base ceil_power
padding_base-nothing = refl

-- The amount to write, once the target is known.
choose_w2w :
    (outbuf_len target : ℕ) (s : Server)
    → s.total_sent_bytes ≤ target
    → let s' = record s { target_sent_bytes = target } in
      let t =
        if leb s.total_sent_bytes target && ltb (target - s.total_sent_bytes) target_queue_len
        then record s' { w2w = outbuf_len }
        else s' in
      (t.target_sent_bytes ≡ target)
      × (t.target_sent_bytes < s.total_sent_bytes + target_queue_len → t.w2w ≡ outbuf_len)
      × (s.total_sent_bytes + target_queue_len ≤ t.target_sent_bytes → t.w2w ≡ s.w2w)
choose_w2w outbuf_len target s reached = ground arith

-- Once data has been sent, less than 2 ^ 31 bytes of it, and while no more than 2 ^ 48 bytes came in for
-- the page, the target is the next multiple of the smallest power of two that is not
-- below the data that came in for the page (2 where none came in); it is not below what has been sent,
-- and is less than one such power above it. When it is less than a packet away, what waits is sent and
-- no more; otherwise the amount to write is left as it was.
pub set_target-IsNext :
    (outbuf_len : ℕ) (s : Server)
    → 0 < s.total_sent_bytes
    → s.total_sent_bytes < 2 ^ 31
    → s.cur_total_realincoming_bytes ≤ 2 ^ 48
    → let t = set_target outbuf_len s in
      let base = padding_base s.cur_total_realincoming_bytes in
      IsNext base s.total_sent_bytes t.target_sent_bytes
      × (s.cur_total_realincoming_bytes ≡ 0 → base ≡ 2)
      × (0 < s.cur_total_realincoming_bytes → IsCeilPower s.cur_total_realincoming_bytes base)
      × (t.target_sent_bytes < s.total_sent_bytes + target_queue_len → t.w2w ≡ outbuf_len)
      × (s.total_sent_bytes + target_queue_len ≤ t.target_sent_bytes → t.w2w ≡ s.w2w)
unfolding set_target
set_target-IsNext outbuf_len s some in_int small =
    let incoming = s.cur_total_realincoming_bytes in
    let base = padding_base incoming in
    let next = round_up_to-IsNext base s.total_sent_bytes (padding_base_some incoming) in
    let (aim, near, far) =
      choose_w2w outbuf_len (round_up_to base s.total_sent_bytes) s next.reaches in
    if_at_false
      (λ (t : Server).
        IsNext base s.total_sent_bytes t.target_sent_bytes
        × (incoming ≡ 0 → base ≡ 2)
        × (0 < incoming → IsCeilPower incoming base)
        × (t.target_sent_bytes < s.total_sent_bytes + target_queue_len → t.w2w ≡ outbuf_len)
        × (s.total_sent_bytes + target_queue_len ≤ t.target_sent_bytes → t.w2w ≡ s.w2w))
      _ _ (==_false s.total_sent_bytes 0 (omega arith))
      (
        subst (IsNext base s.total_sent_bytes) (sym aim) next,
        λ z. ap padding_base z ∙ padding_base-nothing,
        λ h. padding_base_lem incoming h small,
        near,
        far,
      )

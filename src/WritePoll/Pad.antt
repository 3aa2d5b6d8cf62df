-- ===== src/WritePoll/Pad.antt =====
-- Filling the output buffer with ignored messages: it ends, adds behind the data, and overshoots by
-- less than one message.
use csbu_flo.Base.{
  ℕ, zero, suc, ◌+◌, ◌-◌, ◌≤◌, ◌<◌, ◌≡◌, refl, sym, ap, ◌∙◌, List, [], ◌++◌, length, ok, arith,
  length-append, dec_lt, lt→ltb, ltb-false,
}
use mathlib.Core.List.{append_assoc, append-nil}
use csbu_flo.Packet.{Crypto, Session, ignored}
use csbu_flo.Packet.Size.{wire_length, wire_length_bounds, ignored_output, ignored-extra_pad}
use csbu_flo.WritePoll.{fill, pad_output}

module _ (crypto : Crypto) where
  open crypto use {block_size, mac_len, block_fits}

  -- How far a message may go past what is needed.
  abbrev pub slack : ℕ
  slack = block_size + mac_len + 12

  -- The session `t` has the data of `s`, then junk.
  pub record Padded (actual : ℕ) (s t : Session) : Type 0 where
    pub junk : List ℕ
    pub behind : t.output ≡ s.output ++ junk
    pub enough : actual ≤ length t.output
    pub close : length t.output ≤ actual + slack
    pub none_extra : t.extra_pad ≡ 0

  stays :
      {actual : ℕ} (s : Session)
      → s.extra_pad ≡ 0
      → actual ≤ length s.output
      → length s.output ≤ actual + slack
      → Padded actual s s
  stays s none_extra enough close = record {
    junk = [];
    behind = sym (append-nil s.output);
    enough = enough;
    close = close;
    none_extra = none_extra;
  }

  extends :
      {actual : ℕ} (s u t : Session) (more : List ℕ)
      → u.output ≡ s.output ++ more
      → Padded actual u t
      → Padded actual s t
  extends s u t more e p = record {
    junk = more ++ p.junk;
    behind = p.behind ∙ ap (λ q. q ++ p.junk) e ∙ append_assoc s.output more p.junk;
    enough = p.enough;
    close = p.close;
    none_extra = p.none_extra;
  }

  fill_lem :
      (fuel actual : ℕ) (s : Session)
      → s.extra_pad ≡ 0
      → actual ≤ length s.output + fuel
      → length s.output ≤ actual + slack
      → (t : Session) × (fill crypto fuel actual s ≡ ok t) × Padded actual s t
  unfolding fill
  fill_lem zero actual s none_extra enough close = (
    s,
    rw (ltb-false (length s.output) actual (omega arith)) refl,
    stays s none_extra (omega arith) close,
  )
  fill_lem (suc fuel) actual s none_extra enough close = elim (dec_lt (length s.output) actual) [
    | yes short ↦
        let (more, e, size) = ignored_output crypto 0 s none_extra in
        let longer : length (ignored crypto 0 s).output ≡ length s.output + wire_length crypto 10 =
          ap length e ∙ omega (arith, length-append s.output more, size) in
        let bounds = wire_length_bounds crypto 10 in
        let (t, run, p) =
          fill_lem fuel actual (ignored crypto 0 s) (ignored-extra_pad crypto 0 s) (omega arith)
            (omega arith) in
        (
          t,
          rw (lt→ltb (length s.output) actual short) run,
          extends s (ignored crypto 0 s) t more e p,
        )
    | no done ↦ (
      s,
      rw (ltb-false (length s.output) actual (omega arith)) refl,
      stays s none_extra (omega arith) close,
    )
  ]

  -- Padding an output buffer that is too short for `actual` bytes, no extra padding being asked for,
  -- ends: the data stays, junk stands behind it, and together they have at least `actual` bytes and
  -- at most a block, a MAC and 12 bytes more.
  pub pad_output_lem :
      (actual : ℕ) (s : Session)
      → s.extra_pad ≡ 0
      → length s.output < actual
      → (t : Session) × (pad_output crypto actual s ≡ ok t) × Padded actual s t
  unfolding pad_output
  pad_output_lem actual s none_extra short = elim (dec_lt 16 (actual - length s.output)) [
    | yes far ↦
        rw (lt→ltb 16 (actual - length s.output) far)
          (first (actual - length s.output - 16 + 6) (omega arith))
    | no near ↦ rw (ltb-false 16 (actual - length s.output) (omega arith)) (first 0 (omega arith))
  ]
    where
      first :
          (n : ℕ)
          → length s.output + n + 10 ≤ actual + 9
          → (t : Session) × (fill crypto actual actual (ignored crypto n s) ≡ ok t)
            × Padded actual s t
      first n le =
          let (more, e, size) = ignored_output crypto n s none_extra in
          let longer : length (ignored crypto n s).output
              ≡ length s.output + wire_length crypto (n + 10) =
            ap length e ∙ omega (arith, length-append s.output more, size) in
          let bounds = wire_length_bounds crypto (n + 10) in
          let (t, run, p) =
            fill_lem actual actual (ignored crypto n s) (ignored-extra_pad crypto n s) (omega arith)
              (omega arith) in
          (t, run, extends s (ignored crypto n s) t more e p)

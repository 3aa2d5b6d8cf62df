-- ===== src/WritePoll/Rounds.antt =====
-- One call of `packet_write_poll_one_write`: how much it asks for, and where the bytes go.
use csbu_flo.Base.{
  ℕ, ◌+◌, ◌≤◌, ◌≡◌, refl, sym, ap, ◌∙◌, min, Bool, true, false, ◌&&◌, List, [], ◌++◌, length, take,
  ltb, inl, inr, if◌then◌else◌, ok, arith, length-take, dec_le, le→leb, leb-false, ltb→lt, ==_false,
  take-append-drop, Bool-cases,
}
use csbu_flo.Base.Int.{ℤ, pos, ◌-ℤ◌, ltb_ℤ, pos_part}
use mathlib.Core.List.{append_assoc, append-nil}
use csbu_flo.Packet.{Crypto}
use csbu_flo.WritePoll.{
  is_csbuflo, is_supertrace, is_normal, Shaper, Sender, Socket, written, actual_write, padded_out,
  prepare, account, write_out, packet_write_poll_one_write, decrease_trans_padded_remaining,
}
use csbu_flo.WritePoll.Pad.{slack, pad_output_lem}

module _ (crypto : Crypto) where
  -- The sender `t` has the bytes of `s` and junk behind them, and the same wire and mode.
  pub record Prepared (actual len : ℕ) (s t : Sender) : Type 0 where
    pub junk : List ℕ
    pub behind : t.session.output ≡ s.session.output ++ junk
    pub covered : len ≤ length t.session.output
    pub enough : actual ≤ len
    pub close : len ≤ actual + slack crypto
    pub exact : is_csbuflo s.shaper.stmode ≡ false → len ≡ actual
    pub none_extra : t.session.extra_pad ≡ 0
    pub same_wire : t.wire ≡ s.wire
    pub same_mode : t.shaper.stmode ≡ s.shaper.stmode
    pub same_tend : t.shaper.sent_tend ≡ s.shaper.sent_tend
    pub same_time : t.shaper.packet_tau ≡ s.shaper.packet_tau

  pub prepare_lem :
      (actual : ℕ) (s : Sender)
      → s.session.extra_pad ≡ 0
      → (len : ℕ) × (t : Sender) × (prepare crypto actual s ≡ ok (len, t)) × Prepared actual len s t
  unfolding prepare
  prepare_lem actual s none_extra = elim (dec_le actual (length s.session.output)) [
    | yes full ↦ (
      actual,
      s,
      rw (le→leb actual (length s.session.output) full) refl,
      record {
        junk = [];
        behind = sym (append-nil s.session.output);
        covered = full;
        enough = omega arith;
        close = omega arith;
        exact = λ _. refl;
        none_extra = none_extra;
        same_wire = refl;
        same_mode = refl;
        same_tend = refl;
        same_time = refl;
      },
    )
    | no short ↦
        let (session, run, p) = pad_output_lem crypto actual s.session none_extra (omega arith) in
        (
          if is_csbuflo s.shaper.stmode then length session.output else actual,
          padded_out crypto s session,
          rw (leb-false actual (length s.session.output) (omega arith), run) refl,
          record {
            junk = p.junk;
            behind = p.behind;
            covered = (chosen (is_csbuflo s.shaper.stmode) (length session.output) p.enough).0;
            enough = (chosen (is_csbuflo s.shaper.stmode) (length session.output) p.enough).1;
            close =
                use_le (chosen (is_csbuflo s.shaper.stmode) (length session.output) p.enough).0
                  p.close;
            exact = λ e. rw e refl;
            none_extra = p.none_extra;
            same_wire = refl;
            same_mode = refl;
            same_tend = refl;
            same_time = refl;
          },
        )
  ]
    where
      chosen :
          (b : Bool) (n : ℕ)
          → actual ≤ n
          → ((if b then n else actual) ≤ n) × (actual ≤ (if b then n else actual))
      chosen b n le = ground arith

      use_le : {a b c : ℕ} → a ≤ b → b ≤ c → a ≤ c
      use_le h k = omega arith

-- From `s` to `t`, bytes went to the wire from the front of the output buffer, the data of which
-- junk may follow: nothing is lost, doubled or put out of order.
pub record Moved (s t : Sender) : Type 0 where
  pub sent : List ℕ
  pub junk : List ℕ
  pub wire_grows : t.wire ≡ s.wire ++ sent
  pub in_order : sent ++ t.session.output ≡ s.session.output ++ junk
  pub none_extra : t.session.extra_pad ≡ 0
  pub same_mode : t.shaper.stmode ≡ s.shaper.stmode
  pub same_tend : t.shaper.sent_tend ≡ s.shaper.sent_tend
  pub same_time : t.shaper.packet_tau ≡ s.shaper.packet_tau

abbrev pub Moved-refl : (s : Sender) → s.session.extra_pad ≡ 0 → Moved s s
Moved-refl s none_extra = record {
  sent = [];
  junk = [];
  wire_grows = sym (append-nil s.wire);
  in_order = sym (append-nil s.session.output);
  none_extra = none_extra;
  same_mode = refl;
  same_tend = refl;
  same_time = refl;
}

-- A change of the static variables alone.
abbrev pub reshaped :
    (s : Sender) (h : Shaper)
    → h.stmode ≡ s.shaper.stmode
    → h.sent_tend ≡ s.shaper.sent_tend
    → h.packet_tau ≡ s.shaper.packet_tau
    → s.session.extra_pad ≡ 0
    → Moved s (record s { shaper = h })
reshaped s h mode tend tau none_extra = record {
  sent = [];
  junk = [];
  wire_grows = sym (append-nil s.wire);
  in_order = sym (append-nil s.session.output);
  none_extra = none_extra;
  same_mode = mode;
  same_tend = tend;
  same_time = tau;
}

abbrev pub Moved-trans : {s t u : Sender} → Moved s t → Moved t u → Moved s u
Moved-trans {s} {t} {u} p q = record {
  sent = p.sent ++ q.sent;
  junk = p.junk ++ q.junk;
  wire_grows =
      q.wire_grows ∙ ap (λ w. w ++ q.sent) p.wire_grows ∙ append_assoc s.wire p.sent q.sent;
  in_order =
      append_assoc p.sent q.sent u.session.output
      ∙ ap (λ o. p.sent ++ o) q.in_order
      ∙ sym (append_assoc p.sent t.session.output q.junk)
      ∙ ap (λ o. o ++ q.junk) p.in_order
      ∙ append_assoc s.session.output p.junk q.junk;
  none_extra = q.none_extra;
  same_mode = q.same_mode ∙ p.same_mode;
  same_tend = q.same_tend ∙ p.same_tend;
  same_time = q.same_time ∙ p.same_time;
}

module _ (crypto : Crypto) where
  account_same :
      (w : ℤ) (k : ℕ) (u : Sender)
      → ((account crypto w k u).1.shaper.stmode ≡ u.shaper.stmode)
        × ((account crypto w k u).1.shaper.sent_tend ≡ u.shaper.sent_tend)
        × ((account crypto w k u).1.shaper.packet_tau ≡ u.shaper.packet_tau)
  unfolding account decrease_trans_padded_remaining
  account_same w k u =
      elim (Bool-cases (is_normal u.shaper && ltb 0 u.shaper.trans_padded_remaining)) [
        | inl e ↦ (rw e refl, rw e refl, rw e refl)
        | inr e ↦ (rw e refl, rw e refl, rw e refl)
      ]

  -- Where the socket takes nothing.
  pub prepared-Moved : {actual len : ℕ} {s u : Sender} → Prepared crypto actual len s u → Moved s u
  prepared-Moved {s = s} p = record {
    sent = [];
    junk = p.junk;
    wire_grows = p.same_wire ∙ sym (append-nil s.wire);
    in_order = p.behind;
    none_extra = p.none_extra;
    same_mode = p.same_mode;
    same_tend = p.same_tend;
    same_time = p.same_time;
  }

  -- After `account`.
  pub account_moved :
      {actual len : ℕ} (s u : Sender) (w : ℤ) (k : ℕ)
      → Prepared crypto actual len s u
      → k ≤ len
      → (m : Moved s (account crypto w k u).1) × (length m.sent ≡ k)
  account_moved s u w k p le = (
    record {
      sent = take k u.session.output;
      junk = p.junk;
      wire_grows = unfold account in ap (λ q. q ++ take k u.session.output) p.same_wire;
      in_order = unfold account in take-append-drop k u.session.output ∙ p.behind;
      none_extra = unfold account in p.none_extra;
      same_mode = (account_same w k u).0 ∙ p.same_mode;
      same_tend = (account_same w k u).1 ∙ p.same_tend;
      same_time = (account_same w k u).2 ∙ p.same_time;
    },
    omega (arith, length-take k u.session.output, p.covered),
  )

  -- A round with a socket that takes some of the bytes.
  pub record Round (socket : Socket) (k : ℕ) (w : ℤ) (s : Sender) : Type 0 where
    pub len : ℕ
    pub after : Sender
    pub left : ℤ
    pub run : packet_write_poll_one_write crypto socket w s ≡ ok (left, after)
    pub moved : Moved s after
    pub size : length moved.sent ≡ min k len
    pub enough :
        pos_part (actual_write socket.tcp_buf_len w s.shaper (length s.session.output)) ≤ len
    pub close :
        len
        ≤ pos_part (actual_write socket.tcp_buf_len w s.shaper (length s.session.output))
          + slack crypto
    pub exact :
        is_csbuflo s.shaper.stmode ≡ false
        → len ≡ pos_part (actual_write socket.tcp_buf_len w s.shaper (length s.session.output))
    pub left_over :
        left
        ≡ (if is_supertrace s.shaper.stmode && ltb_ℤ (pos 0) w then w -ℤ pos (min k len) else w)

  pub one_write-Round :
      (socket : Socket) (k : ℕ) (cont : Bool) (w : ℤ) (s : Sender)
      → socket.result ≡ written k cont
      → 1 ≤ k
      → s.session.extra_pad ≡ 0
      → ltb_ℤ (pos 0) (actual_write socket.tcp_buf_len w s.shaper (length s.session.output)) ≡ true
      → Round socket k w s
  one_write-Round socket k cont w s res some none_extra asks =
      let (len, u, run, p) = prepare_lem crypto actual s none_extra in
      let asked = ltb→lt _ _ asks in
      let (m, size) = account_moved s u w (min k len) p (omega arith) in
      record {
        len = len;
        after = (account crypto w (min k len) u).1;
        left = (account crypto w (min k len) u).0;
        run =
            unfold packet_write_poll_one_write write_out in
            rw (asks, run, res)
              (rw (==_false (min k len) 0 (λ none. omega (arith, asked, p.enough))) refl);
        moved = m;
        size = size;
        enough = p.enough;
        close = p.close;
        exact = p.exact;
        left_over = unfold account in rw (p.same_mode) refl;
      }
    where
      actual : ℕ
      actual = pos_part (actual_write socket.tcp_buf_len w s.shaper (length s.session.output))

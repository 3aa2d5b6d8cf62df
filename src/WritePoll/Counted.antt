-- ===== src/WritePoll/Counted.antt =====
-- How much leaves and how much is padding: the bytes on the wire and in the output buffer are those
-- that were there and the padding that `padded_junk` has counted.
use csbu_flo.WritePoll.Rounds.{prepare_lem}
use csbu_flo.Packet.{Crypto}
use csbu_flo.WritePoll.{
  Sender, prepare, account, packet_write_poll_one_write, write_all, write_once, write_out, Socket,
  WriteResult, decrease_trans_padded_remaining, pad_output, ℤ, actual_write, ltb_ℤ, written, pos,
  pos_part, again, packet_write_poll, write_by_mode, broken, set_w2w, WriteError, is_supertrace,
}
use csbu_flo.Base.{
  arith, length, ℕ, ◌+◌, ◌≡◌, ok, ◌≤◌, ◌-◌, if_cases, leb, refl, subst, List, ok_of_map,
  length-append, ◌∷◌, min, take, length-take, ok_of_bind, ◌==◌, length-drop, ◌&&◌, not, [],
  ok_injective, sym, Outcome, ◌∙◌, ap, if◌then◌else◌, ◌>>=◌, ltb, ltb→lt,
}

pub record Counted (s t : Sender) : Type 0 where
  pub balance :
      length t.wire + length t.session.output + s.shaper.padded_junk
      ≡ length s.wire + length s.session.output + t.shaper.padded_junk
  pub grows : length s.wire ≤ length t.wire
  pub none_extra : t.session.extra_pad ≡ 0

Counted-refl : {s : Sender} → s.session.extra_pad ≡ 0 → Counted s s
Counted-refl x = record { balance = refl; grows = omega arith; none_extra = x }

Counted-then : {s t u : Sender} → Counted s t → Counted t u → Counted s u
Counted-then a b = record {
  balance = omega (arith, a.balance, b.balance);
  grows = omega (arith, a.grows, b.grows);
  none_extra = b.none_extra;
}

module _ (crypto : Crypto) where
  account-Counted :
      (w : ℤ) (k : ℕ) (s : Sender)
      → k ≤ length s.session.output
      → s.session.extra_pad ≡ 0
      → Counted s (account crypto w k s).1
  unfolding account decrease_trans_padded_remaining
  account-Counted w k s le x = ground (
    arith,
    length-append s.wire (take k s.session.output),
    length-take k s.session.output,
    length-drop k s.session.output,
  )

  prepare-junk :
      (actual : ℕ) (s : Sender) (r : ℕ × Sender)
      → prepare crypto actual s ≡ ok r
      → r.1.shaper.padded_junk
        ≡ length r.1.session.output - length s.session.output + s.shaper.padded_junk
  unfolding prepare
  prepare-junk actual s r =
      if_cases
        (λ o.
          o ≡ ok r
          → r.1.shaper.padded_junk
            ≡ length r.1.session.output - length s.session.output + s.shaper.padded_junk)
        (leb actual (length s.session.output)) _ _
        (λ _ e.
          let same : (actual, s) ≡ r = cc in
          subst
            (λ (q : ℕ × Sender).
              q.1.shaper.padded_junk
              ≡ length q.1.session.output - length s.session.output + s.shaper.padded_junk)
            same (omega arith))
        (λ _ e.
          let (session, _, same) = ok_of_map (pad_output crypto actual s.session) _ r e in
          subst
            (λ (q : ℕ × Sender).
              q.1.shaper.padded_junk
              ≡ length q.1.session.output - length s.session.output + s.shaper.padded_junk)
            same refl)

  prepare-Counted :
      (actual : ℕ) (s : Sender) (r : ℕ × Sender)
      → prepare crypto actual s ≡ ok r
      → s.session.extra_pad ≡ 0
      → Counted s r.1 × (r.0 ≤ length r.1.session.output)
  prepare-Counted actual s r e x =
      let (len, u, run, p) = prepare_lem crypto actual s x in
      let same : (len, u) ≡ r = ok_injective (sym run ∙ e) in
      let junk = prepare-junk actual s (len, u) run in
      subst (λ (q : ℕ × Sender). Counted s q.1 × (q.0 ≤ length q.1.session.output)) same
        (
          record {
            balance = omega (
              arith,
              junk,
              ap (λ q. length q) p.behind,
              length-append s.session.output p.junk,
              ap (λ q. length q) p.same_wire,
            );
            grows = omega (arith, ap (λ q. length q) p.same_wire);
            none_extra = p.none_extra;
          },
          p.covered,
        )

  write_out-Counted :
      (result : WriteResult) (w : ℤ) (len : ℕ) (s : Sender) (r : ℤ × Sender)
      → len ≤ length s.session.output
      → s.session.extra_pad ≡ 0
      → write_out crypto result w len s ≡ ok r
      → Counted s r.1
  unfolding write_out
  write_out-Counted again w len s r le x e =
      let same : (w, s) ≡ r = cc in subst (λ (q : ℤ × Sender). Counted s q.1) same (Counted-refl x)
  write_out-Counted broken w len s r le x e = cc
  write_out-Counted (written n cont) w len s r le x e =
      if_cases (λ o. o ≡ ok r → Counted s r.1) (min n len == 0 && not cont) _ _ (λ _ e. cc)
        (λ _ e.
          let same : account crypto w (min n len) s ≡ r = cc in
          subst (λ (q : ℤ × Sender). Counted s q.1) same
            (account-Counted w (min n len) s (omega arith) x))
        e

  one_write-Counted :
      (socket : Socket) (w : ℤ) (s : Sender) (r : ℤ × Sender)
      → s.session.extra_pad ≡ 0
      → packet_write_poll_one_write crypto socket w s ≡ ok r
      → Counted s r.1
  unfolding packet_write_poll_one_write
  one_write-Counted socket w s r x =
      let actual = actual_write socket.tcp_buf_len w s.shaper (length s.session.output) in
      if_cases (λ o. o ≡ ok r → Counted s r.1) (ltb_ℤ (pos 0) actual) _ _
        (λ _ e.
          let (a, ready, wrote) = ok_of_bind (prepare crypto (pos_part actual) s) _ r e in
          let (counted, covered) = prepare-Counted (pos_part actual) s a ready x in
          Counted-then counted
            (write_out-Counted socket.result w a.0 a.1 r covered counted.none_extra wrote))
        (λ _ e.
          let same : (w, s) ≡ r = cc in
          subst (λ (q : ℤ × Sender). Counted s q.1) same (Counted-refl x))

  write_all-Counted :
      (sockets : List Socket) (w : ℤ) (s t : Sender)
      → s.session.extra_pad ≡ 0
      → write_all crypto sockets w s ≡ ok t
      → Counted s t
  unfolding write_all
  write_all-Counted [] w s t x =
      if_cases (λ o. o ≡ ok t → Counted s t) (ltb_ℤ (pos 0) w) _ _ (λ _ e. cc)
        (λ _ e. let same : s ≡ t = cc in subst (Counted s) same (Counted-refl x))
  write_all-Counted (socket ∷ sockets) w s t x =
      if_cases (λ o. o ≡ ok t → Counted s t) (ltb_ℤ (pos 0) w) _ _
        (λ _ e.
          let (r, one, rest) = ok_of_bind (packet_write_poll_one_write crypto socket w s) _ t e in
          let counted = one_write-Counted socket w s r x one in
          Counted-then counted (write_all-Counted sockets r.0 r.1 t counted.none_extra rest))
        (λ _ e. let same : s ≡ t = cc in subst (Counted s) same (Counted-refl x))

  write_once-Counted :
      (sockets : List Socket) (w : ℤ) (s : Sender) (r : ℤ × List Socket × Sender)
      → s.session.extra_pad ≡ 0
      → write_once crypto sockets w s ≡ ok r
      → Counted s r.2
  unfolding write_once
  write_once-Counted [] w s r x e = cc
  write_once-Counted (socket ∷ rest) w s r x e =
      let (a, one, same) = ok_of_map (packet_write_poll_one_write crypto socket w s) _ r e in
      subst (λ (q : ℤ × List Socket × Sender). Counted s q.2) same
        (one_write-Counted socket w s a x one)

  -- The modes, from a count of padding that starts at 0.
  write_by_mode-Counted :
      (sockets : List Socket) (s t : Sender)
      → s.session.extra_pad ≡ 0
      → write_by_mode crypto sockets s ≡ ok t
      → Counted (record s { shaper = record (s.shaper) { padded_junk = 0 } }) t
  unfolding write_by_mode set_w2w
  write_by_mode-Counted sockets s t x =
      let w = pos s.shaper.w2w in
      let s' = record s { shaper = record (s.shaper) { padded_junk = 0 } } in
      let Goal = λ (o : Outcome WriteError Sender). o ≡ ok t → Counted s' t in
      if_cases Goal (is_supertrace s.shaper.stmode) _ _
        (λ _ e.
          let (u, run, same) =
            ok_of_map
              (if s.shaper.w2w == 0 && s.shaper.sent_tend
                then (write_once crypto sockets w s' >>= λ r. write_all crypto r.1 r.0 r.2)
                else write_all crypto sockets w s')
              _ t e in
          let counted : Counted s' u =
            if_cases (λ o. o ≡ ok u → Counted s' u) (s.shaper.w2w == 0 && s.shaper.sent_tend) _ _
              (λ _ q.
                let (r, one, rest) = ok_of_bind (write_once crypto sockets w s') _ u q in
                let first = write_once-Counted sockets w s' r x one in
                Counted-then first (write_all-Counted r.1 r.0 r.2 u first.none_extra rest))
              (λ _ q. write_all-Counted sockets w s' u x q) run in
          subst (Counted s') same (record {
            balance = counted.balance;
            grows = counted.grows;
            none_extra = counted.none_extra;
          }))
        (λ _ e.
          let (r, one, same) = ok_of_map (write_once crypto sockets w s') _ t e in
          subst (Counted s') same (write_once-Counted sockets w s' r x one))

  -- Once its time has come, `packet_write_poll` leaves in `padded_junk` exactly the bytes of padding
  -- that it has added: what is on the wire and in the output buffer afterwards is what was there before
  -- and that padding.
  pub packet_write_poll-Counted :
      (now random : ℕ) (sockets : List Socket) (s t : Sender)
      → s.shaper.packet_time_to_write ≤ now
      → s.session.extra_pad ≡ 0
      → packet_write_poll crypto now random sockets s ≡ ok t
      → Counted (record s { shaper = record (s.shaper) { padded_junk = 0 } }) t
  unfolding packet_write_poll
  packet_write_poll-Counted now random sockets s t due x =
      let s' = record s { shaper = record (s.shaper) { padded_junk = 0 } } in
      if_cases (λ o. o ≡ ok t → Counted s' t) (ltb now s.shaper.packet_time_to_write) _ _
        (λ early _. absurd (omega (arith, ltb→lt now s.shaper.packet_time_to_write early)))
        (λ _ e.
          let (u, run, same) = ok_of_map (write_by_mode crypto sockets s) _ t e in
          let counted = write_by_mode-Counted sockets s u x run in
          subst (Counted s') same (record {
            balance = counted.balance;
            grows = counted.grows;
            none_extra = counted.none_extra;
          }))

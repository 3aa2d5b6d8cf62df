-- ===== src/WritePoll/Safety.antt =====
-- Whatever the mode is and the socket answers: no byte is lost, doubled or put out of order, and the
-- process stops only for what the socket answered.
use csbu_flo.Base.{
  ℕ, ◌*◌, ◌<◌, ◌≡◌, refl, sym, ap, subst, ◌∙◌, min, true, false, ◌&&◌, inl, inr, List, [], ◌∷◌,
  length, ltb, ◌==◌, if◌then◌else◌, Outcome, ok, stop, spin, ◌>>=◌, arith, Bool-cases, and_false,
  ==_iff, ltb→lt,
}
use csbu_flo.Base.Int.{ℤ, pos, ltb_ℤ, pos_part}
use csbu_flo.Packet.{Crypto}
use csbu_flo.WritePoll.{
  is_ssh, is_supertrace, Sender, Socket, WriteResult, written, again, broken, WriteError,
  actual_write, write_out, packet_write_poll_one_write, write_all, write_once, write_by_mode,
  packet_write_poll, set_w2w, update_time, initial_tau,
}
use csbu_flo.WritePoll.Rounds.{
  Moved, Moved-refl, Prepared, prepare_lem, account_moved, prepared-Moved, reshaped,
}
use csbu_flo.WritePoll.Safe.{Step, Safe, MaySpin, Safe-then, Safe-shaper, Safe-before}

module _ (crypto : Crypto) where
  write_out-Step :
      (socket : Socket) (r : WriteResult) (w : ℤ) (actual len : ℕ) (s u : Sender)
      → socket.result ≡ r
      → 0 < len
      → Prepared crypto actual len s u
      → Step socket s (write_out crypto r w len u)
  unfolding write_out
  write_out-Step socket again w actual len s u e some p = prepared-Moved crypto p
  write_out-Step socket broken w actual len s u e some p = e
  write_out-Step socket (written n true) w actual len s u e some p =
      rw (and_false (min n len == 0)) (account_moved crypto s u w (min n len) p (omega arith)).0
  write_out-Step socket (written n false) w actual len s u e some p =
      elim (Bool-cases (min n len == 0)) [
        | inl none ↦
            let least : min n len ≡ 0 = (==_iff (min n len) 0).0 none in
            let nothing : n ≡ 0 = omega arith in rw none (e ∙ ap (λ k. written k false) nothing)
        | inr more ↦ rw more (account_moved crypto s u w (min n len) p (omega arith)).0
      ]

  one_write-Step :
      (socket : Socket) (w : ℤ) (s : Sender)
      → s.session.extra_pad ≡ 0
      → Step socket s (packet_write_poll_one_write crypto socket w s)
  unfolding packet_write_poll_one_write
  one_write-Step socket w s none_extra =
      elim (Bool-cases
        (ltb_ℤ (pos 0) (actual_write socket.tcp_buf_len w s.shaper (length s.session.output)))) [
          | inl asks ↦
              let (len, u, run, p) =
                prepare_lem crypto
                  (pos_part (actual_write socket.tcp_buf_len w s.shaper (length s.session.output)))
                  s none_extra in
              rw (asks, run)
                (write_out-Step socket socket.result w _ len s u refl
                  (omega (arith, ltb→lt _ _ asks, p.enough)) p)
          | inr idle ↦ rw idle (Moved-refl s none_extra)
        ]

  write_all-Safe :
      (sockets : List Socket) (w : ℤ) (s : Sender)
      → s.session.extra_pad ≡ 0
      → Safe Unit sockets s (write_all crypto sockets w s)
  unfolding write_all
  write_all-Safe [] w s none_extra = elim (Bool-cases (ltb_ℤ (pos 0) w)) [
    | inl more ↦ rw more tt
    | inr done ↦ rw done (Moved-refl s none_extra)
  ]
  write_all-Safe (socket ∷ sockets) w s none_extra = elim (Bool-cases (ltb_ℤ (pos 0) w)) [
    | inl more ↦ rw more (
        Safe-then Unit socket sockets s (packet_write_poll_one_write crypto socket w s)
          (λ v t. write_all crypto sockets v t) (one_write-Step socket w s none_extra)
          (λ v t e. write_all-Safe sockets v t e))
    | inr done ↦ rw done (Moved-refl s none_extra)
  ]

  abbrev with_rest : List Socket → ℤ × Sender → Outcome WriteError (ℤ × List Socket × Sender)
  with_rest rest r = ok (r.0, rest, r.1)

  after_once :
      (o : Outcome WriteError (ℤ × Sender)) (rest : List Socket)
      (k : List Socket → ℤ → Sender → Outcome WriteError Sender)
      → ((o >>= with_rest rest) >>= λ r. k r.1 r.0 r.2) ≡ (o >>= λ r. k rest r.0 r.1)
  after_once (ok (w, t)) rest k = refl
  after_once (stop e) rest k = refl
  after_once spin rest k = refl

  once-Safe :
      (Spins : Type 0) (sockets : List Socket) (w : ℤ) (s : Sender)
      (k : List Socket → ℤ → Sender → Outcome WriteError Sender)
      → s.session.extra_pad ≡ 0
      → (sockets ≡ [] → Spins)
      → ((rest : List Socket) (v : ℤ) (t : Sender)
          → t.session.extra_pad ≡ 0
          → Safe Spins rest t (k rest v t))
      → Safe Spins sockets s (write_once crypto sockets w s >>= λ r. k r.1 r.0 r.2)
  unfolding write_once
  once-Safe Spins [] w s k none_extra out go_on = out refl
  once-Safe Spins (socket ∷ rest) w s k none_extra out go_on =
      subst (Safe Spins (socket ∷ rest) s)
        (sym (after_once (packet_write_poll_one_write crypto socket w s) rest k))
        (Safe-then Spins socket rest s (packet_write_poll_one_write crypto socket w s) (k rest)
          (one_write-Step socket w s none_extra) (λ v t e. go_on rest v t e))

  abbrev reset : Sender → Sender
  reset s = record s { shaper = record (s.shaper) { padded_junk = 0 } }

  reset-Moved : (s : Sender) → s.session.extra_pad ≡ 0 → Moved s (reset s)
  reset-Moved s none_extra = reshaped s (reset s).shaper refl refl refl none_extra

  Safe-Spins :
      (A B : Type 0) (sockets : List Socket) (s : Sender) (o : Outcome WriteError Sender)
      → (A → B)
      → Safe A sockets s o
      → Safe B sockets s o
  Safe-Spins A B sockets s (ok t) f m = m
  Safe-Spins A B sockets s (stop e) f h = h
  Safe-Spins A B sockets s spin f h = f h

  abbrev rounds : List Socket → Sender → Outcome WriteError Sender
  rounds sockets s =
      if s.shaper.w2w == 0 && s.shaper.sent_tend
      then (write_once crypto sockets (pos s.shaper.w2w) (reset s) >>= λ r.
          write_all crypto r.1 r.0 r.2)
      else write_all crypto sockets (pos s.shaper.w2w) (reset s)

  rounds-Safe :
      (sockets : List Socket) (s : Sender)
      → s.session.extra_pad ≡ 0
      → Safe Unit sockets s (rounds sockets s)
  rounds-Safe sockets s none_extra =
      Safe-before Unit sockets s (reset s) (rounds sockets s) (reset-Moved s none_extra)
        (elim (Bool-cases (s.shaper.w2w == 0 && s.shaper.sent_tend)) [
          | inl over ↦ rw over (
              once-Safe Unit sockets (pos s.shaper.w2w) (reset s)
                (λ rest w t. write_all crypto rest w t) none_extra (λ _. tt)
                (λ rest w t e. write_all-Safe rest w t e))
          | inr more ↦ rw more (write_all-Safe sockets (pos s.shaper.w2w) (reset s) none_extra)
        ])

  write_by_mode-Safe :
      (Spins : Type 0) (sockets : List Socket) (s : Sender)
      → s.session.extra_pad ≡ 0
      → (is_supertrace s.shaper.stmode ≡ true → Spins)
      → (sockets ≡ [] → Spins)
      → Safe Spins sockets s (write_by_mode crypto sockets s)
  unfolding write_by_mode set_w2w
  write_by_mode-Safe Spins sockets s none_extra on_super on_empty =
      elim (Bool-cases (is_supertrace s.shaper.stmode)) [
        | inr once ↦ rw once (
            Safe-before Spins sockets s (reset s) _ (reset-Moved s none_extra) (
              once-Safe Spins sockets (pos s.shaper.w2w) (reset s) (λ rest v t. ok t) none_extra
                on_empty (λ rest v t e. Moved-refl t e)))
        | inl super ↦ rw super (
            Safe-Spins Unit Spins sockets s
              (rounds sockets s >>= λ t. ok (record t { shaper = record (t.shaper) { w2w = 0 } }))
              (λ _. on_super super)
              (Safe-shaper Unit sockets s (λ t. record (t.shaper) { w2w = 0 }) (λ t. refl)
                (λ t. refl) (λ t. refl) (rounds sockets s) (rounds-Safe sockets s none_extra)))
      ]

  -- A call of `packet_write_poll`, no extra padding being asked for, in any mode, at any time and for
  -- any answers of the socket: if it returns, what has gone to the wire is the front of the output
  -- buffer, in its order, followed by junk at most, and the rest still waits, so that nothing is lost,
  -- doubled or reordered, also where a write failed halfway and is tried again; it stops with "write
  -- failed" only if a write was answered with an error, and with "connection closed" only if one wrote
  -- nothing at all;
  -- and it can run out of rounds only in supertrace mode, or if there is no round at all.
  pub packet_write_poll-Safe :
      (now random : ℕ) (sockets : List Socket) (s : Sender)
      → s.session.extra_pad ≡ 0
      → Safe (MaySpin sockets s) sockets s (packet_write_poll crypto now random sockets s)
  unfolding packet_write_poll
  packet_write_poll-Safe now random sockets s none_extra =
      elim (Bool-cases (ltb now s.shaper.packet_time_to_write)) [
        | inl early ↦ rw early (Moved-refl s none_extra)
        | inr late ↦ rw late (
            Safe-shaper (MaySpin sockets s) sockets s
              (λ t. record (t.shaper) {
                packet_time_to_write =
                    update_time now
                      (if is_ssh t.shaper.stmode
                        then pos (10 * initial_tau)
                        else t.shaper.packet_tau)
                      random t.shaper.stmode;
              })
              (λ t. refl) (λ t. refl) (λ t. refl) (write_by_mode crypto sockets s)
              (write_by_mode-Safe (MaySpin sockets s) sockets s none_extra (λ e. inl e)
                (λ e. inr e)))
      ]

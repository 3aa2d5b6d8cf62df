-- ===== src/WritePoll/Tick.antt =====
-- `packet_write_poll` in the modes that write once: plain ssh and CSBuFLO.
use csbu_flo.Base.{
  ℕ, ◌+◌, ◌*◌, ◌%◌, ◌^◌, ◌≤◌, ◌<◌, ◌≡◌, refl, sym, ap, ap₂, subst, ◌∙◌, min, Bool, false, ◌&&◌,
  List, [], ◌∷◌, length, leb, ◌==◌, if◌then◌else◌, ok, arith, length-append, dec_lt, lt→ltb,
  ltb-false,
}
use native.Mathlib.Nat.{mod-lt, mul-le-mul_left}
use csbu_flo.Base.Int.{ℤ, pos, ltb_ℤ, pos_part}
use csbu_flo.Packet.{Crypto}
use csbu_flo.WritePoll.{
  Mode, ssh, csbuflo, is_ssh, is_supertrace, is_normal, Shaper, Sender, Socket, room, actual_write,
  packet_write_poll_one_write, write_once, write_by_mode, packet_write_poll, update_time,
  initial_tau,
}
use csbu_flo.WritePoll.Pad.{slack}
use csbu_flo.WritePoll.Rounds.{Moved, Moved-refl, Moved-trans, one_write-Round, reshaped}
use csbu_flo.WritePoll.Exact.{Takes, asked_amount}

-- The next time is at most twice `tau` away, and never before now.
pub update_time_bounds :
    (now random : ℕ) (tau : ℤ) (mode : Mode)
    → is_supertrace mode ≡ false
    → now + 2 * pos_part tau < 2 ^ 64
    → (now ≤ update_time now tau random mode)
      × (update_time now tau random mode ≤ now + 2 * pos_part tau)
unfolding update_time
update_time_bounds now random tau mode e fits =
    let draw : random % 201 < 201 = mod-lt random (omega arith) in
    let most : random % 201 ≤ 200 = omega arith in
    let product = mul-le-mul_left (pos_part tau) most in rw e (ground arith)

ssh_amount :
    (tcp_buf_len w : ℤ) (len : ℕ) (s : Shaper)
    → s.stmode ≡ ssh
    → actual_write tcp_buf_len w s len
      ≡ pos (if s.trans_padded_remaining == 0 && leb len 32 then len else 128)
unfolding actual_write
ssh_amount tcp_buf_len w len s mode = rw mode (ground arith)

module _ (crypto : Crypto) where
  by_mode :
      (socket : Socket) (sockets : List Socket) (left : ℤ) (s t : Sender)
      → is_supertrace s.shaper.stmode ≡ false
      → packet_write_poll_one_write crypto socket
          (pos s.shaper.w2w)
          (record s { shaper = record (s.shaper) { padded_junk = 0 } })
        ≡ ok (left, t)
      → write_by_mode crypto (socket ∷ sockets) s ≡ ok t
  unfolding write_by_mode write_once
  by_mode socket sockets left s t mode run = rw (mode, run) refl

  abbrev reset : Sender → Sender
  reset s = record s { shaper = record (s.shaper) { padded_junk = 0 } }

  abbrev tau_of : Shaper → ℤ
  tau_of h = if is_ssh h.stmode then pos (10 * initial_tau) else h.packet_tau

  -- The call after its one write.
  once_lem :
      (now random : ℕ) (socket : Socket) (sockets : List Socket) (left : ℤ) (s after : Sender)
      → s.shaper.packet_time_to_write ≤ now
      → s.session.extra_pad ≡ 0
      → is_supertrace s.shaper.stmode ≡ false
      → packet_write_poll_one_write crypto socket (pos s.shaper.w2w) (reset s) ≡ ok (left, after)
      → (m : Moved (reset s) after) → now + 2 * pos_part (tau_of s.shaper) < 2 ^ 64
      → (t : Sender) × (m' : Moved s t) × (packet_write_poll crypto now random (socket ∷ sockets) s
          ≡ ok t)
        × (length m'.sent ≡ length m.sent)
        × (now ≤ t.shaper.packet_time_to_write)
        × (t.shaper.packet_time_to_write ≤ now + 2 * pos_part (tau_of s.shaper))
  unfolding packet_write_poll
  once_lem now random socket sockets left s after late none_extra once run m fits =
      let mode : is_supertrace after.shaper.stmode ≡ false = ap is_supertrace m.same_mode ∙ once in
      let tau : tau_of after.shaper ≡ tau_of s.shaper =
        ap₂ (λ (b : Bool) t. if b then pos (10 * initial_tau) else t) (ap is_ssh m.same_mode)
          m.same_time in
      let fits' = subst (λ t. now + 2 * pos_part t < 2 ^ 64) (sym tau) fits in
      let bounds =
        update_time_bounds now random (tau_of after.shaper) after.shaper.stmode mode fits' in
      let last = record (after.shaper) {
        packet_time_to_write = update_time now (tau_of after.shaper) random after.shaper.stmode;
      } in
      (
        record after { shaper = last },
        Moved-trans (reshaped s (reset s).shaper refl refl refl none_extra)
            (Moved-trans m (reshaped after last refl refl refl m.none_extra)),
        rw
            (
              ltb-false now s.shaper.packet_time_to_write late,
              by_mode socket sockets left s after once run,
            )
            refl,
        length-append m.sent [] ∙ omega arith,
        bounds.0,
        subst
            (λ t.
              update_time now (tau_of after.shaper) random after.shaper.stmode
              ≤ now + 2 * pos_part t)
            tau bounds.1,
      )

  -- In CSBuFLO mode, when its time has come and no extra padding is asked for, with an amount from 1
  -- to 2 ^ 31 - 1, a socket that holds less than 16384 bytes and takes one byte at least, and times
  -- below 2 ^ 64: `packet_write_poll` asks the socket for at least the amount (or what the socket has
  -- room for, if that is less) and for at most a block, a MAC and 12 bytes more, however much data
  -- waits; what the socket takes of it goes to the wire, the data in order and then junk; the next
  -- time lies between now and twice `packet_tau` from now.
  pub packet_write_poll-csbuflo :
      (now random : ℕ) (socket : Socket) (sockets : List Socket) (s : Sender)
      → s.shaper.packet_time_to_write ≤ now
      → (takes : Takes socket) → 0 < s.shaper.w2w
      → s.shaper.w2w < 2 ^ 31
      → s.session.extra_pad ≡ 0
      → s.shaper.stmode ≡ csbuflo
      → now + 2 * pos_part s.shaper.packet_tau < 2 ^ 64
      → (t : Sender) × (m : Moved s t) × (len : ℕ) × (packet_write_poll crypto now random
            (socket ∷ sockets)
            s
          ≡ ok t)
        × (length m.sent ≡ min takes.amount len)
        × (min s.shaper.w2w (pos_part (room socket.tcp_buf_len)) ≤ len)
        × (len ≤ min s.shaper.w2w (pos_part (room socket.tcp_buf_len)) + slack crypto)
        × (now ≤ t.shaper.packet_time_to_write)
        × (t.shaper.packet_time_to_write ≤ now + 2 * pos_part s.shaper.packet_tau)
  packet_write_poll-csbuflo now random socket sockets s late takes some small none_extra mode fits =
      let load : is_normal (reset s).shaper ≡ false = rw mode refl in
      let (asks, amount, free) =
        asked_amount socket.tcp_buf_len s.shaper.w2w (length s.session.output) (reset s).shaper load
          takes.has_room some small in
      let r =
        one_write-Round crypto socket takes.amount takes.cont (pos s.shaper.w2w) (reset s)
          takes.taken takes.some none_extra asks in
      let tau : tau_of s.shaper ≡ s.shaper.packet_tau = rw mode refl in
      let (t, m, run, size, after, before) =
        once_lem now random socket sockets r.left s r.after late none_extra (rw mode refl) r.run
          r.moved (subst (λ t. now + 2 * pos_part t < 2 ^ 64) (sym tau) fits) in
      (
        t,
        m,
        r.len,
        run,
        size ∙ r.size,
        omega (arith, r.enough, amount),
        omega (arith, r.close, amount),
        after,
        subst (λ x. t.shaper.packet_time_to_write ≤ now + 2 * pos_part x) tau before,
      )

  -- In plain ssh, when its time has come and no extra padding is asked for, with a socket that holds
  -- less than 16384 bytes and takes one byte at least, and times below 2 ^ 64: `packet_write_poll`
  -- asks the socket for what waits if that is 32 bytes at most and no padding of the last page is
  -- due, and for 128 bytes otherwise; what the socket takes of it goes to the wire, the data in order
  -- and then junk; the next time lies between now and 163,840 microseconds from now.
  pub packet_write_poll-ssh :
      (now random : ℕ) (socket : Socket) (sockets : List Socket) (s : Sender)
      → s.shaper.packet_time_to_write ≤ now
      → (takes : Takes socket) → s.session.extra_pad ≡ 0
      → s.shaper.stmode ≡ ssh
      → now + 163840 < 2 ^ 64
      → (t : Sender) × (m : Moved s t) × (packet_write_poll crypto now random (socket ∷ sockets) s
          ≡ ok t)
        × (length m.sent
            ≡ min takes.amount (
                if s.shaper.trans_padded_remaining == 0 && leb (length s.session.output) 32
                then length s.session.output
                else 128))
        × (now ≤ t.shaper.packet_time_to_write)
        × (t.shaper.packet_time_to_write ≤ now + 163840)
  packet_write_poll-ssh now random socket sockets s late takes none_extra mode fits =
      elim (dec_lt 0 request) [
        | yes some ↦
            let asks = ap (λ a. ltb_ℤ (pos 0) a) amount ∙ lt→ltb 0 (request + 0) (omega arith) in
            let r =
              one_write-Round crypto socket takes.amount takes.cont (pos s.shaper.w2w) (reset s)
                takes.taken takes.some none_extra asks in
            let exact = r.exact (rw mode refl) ∙ ap pos_part amount in
            let (t, m, run, size, after, before) =
              once_lem now random socket sockets r.left s r.after late none_extra (rw mode refl)
                r.run r.moved (rw tau fits) in
            (
              t,
              m,
              run,
              omega (arith, size, r.size, exact),
              after,
              subst (λ x. t.shaper.packet_time_to_write ≤ now + 2 * pos_part x) tau before,
            )
        | no none ↦
            let nothing : request ≡ 0 = omega arith in
            let (t, m, run, size, after, before) =
              once_lem now random socket sockets (pos s.shaper.w2w) s (reset s) late none_extra
                (rw mode refl) (idle nothing) (Moved-refl (reset s) none_extra) (rw tau fits) in
            (
              t,
              m,
              run,
              omega (arith, size, nothing),
              after,
              subst (λ x. t.shaper.packet_time_to_write ≤ now + 2 * pos_part x) tau before,
            )
      ]
    where
      request : ℕ
      request =
          if s.shaper.trans_padded_remaining == 0 && leb (length s.session.output) 32
          then length s.session.output
          else 128

      amount :
          actual_write socket.tcp_buf_len
            (pos s.shaper.w2w)
            (reset s).shaper
            (length s.session.output)
          ≡ pos request
      amount =
          ssh_amount socket.tcp_buf_len (pos s.shaper.w2w) (length s.session.output)
            (reset s).shaper mode

      tau : tau_of s.shaper ≡ pos (10 * initial_tau)
      tau = rw mode refl

      idle :
          request ≡ 0
          → packet_write_poll_one_write crypto socket (pos s.shaper.w2w) (reset s)
            ≡ ok (pos s.shaper.w2w, reset s)
      idle nothing = unfold packet_write_poll_one_write in rw (amount, nothing) refl

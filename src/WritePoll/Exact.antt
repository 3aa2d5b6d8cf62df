-- ===== src/WritePoll/Exact.antt =====
-- The loop of `packet_write_poll` in supertrace mode: as many bytes as the item of the trace says.
use native.Mathlib.Nat.{mod-eq_of_lt}
use csbu_flo.Base.{
  ℕ, ◌+◌, ◌-◌, ◌*◌, ◌^◌, ◌≤◌, ◌<◌, ◌≡◌, refl, ap, ◌∙◌, min, Bool, true, false, ◌&&◌, List, [], ◌∷◌,
  length, ◌==◌, if◌then◌else◌, ok, arith, and_false, add64, length-append, dec_lt, lt→ltb,
  ltb-false, ltb→lt, All,
}
use csbu_flo.Base.Int.{
  ℤ, pos, negsuc, ◌-ℤ◌, ltb_ℤ, to_int, to_u64, pos_part, neg_part, eq_of_parts, -ℤ_parts,
}
use csbu_flo.Packet.{Crypto}
use csbu_flo.WritePoll.{
  Mode, supertrace, is_ssh, is_supertrace, is_normal, Shaper, Sender, Socket, written, room,
  tcp_limit, actual_write, packet_write_poll_one_write, write_all, write_by_mode, packet_write_poll,
  set_w2w, update_time, initial_tau,
}
use csbu_flo.WritePoll.Rounds.{Moved, Moved-refl, Moved-trans, one_write-Round, reshaped}

-- A round in which the socket has room and takes a byte at least.
pub record Takes (socket : Socket) : Type 0 where
  pub amount : ℕ
  pub cont : Bool
  pub taken : socket.result ≡ written amount cont
  pub some : 1 ≤ amount
  pub has_room : ltb_ℤ socket.tcp_buf_len tcp_limit ≡ true

to_int_pos : (n : ℕ) → n < 2 ^ 31 → to_int (pos n) ≡ pos n
to_int_pos n small =
    let small' : n < 2 ^ 32 = omega arith in rw (mod-eq_of_lt small', lt→ltb n (2 ^ 31) small) refl

above :
    (a b : ℤ)
    → pos_part b + neg_part a < pos_part a + neg_part b
    → (neg_part (a -ℤ b) ≡ 0) × (0 < pos_part (a -ℤ b))
unfolding ◌-ℤ◌
above a b h = ground arith

capped :
    (r : ℤ) (n : ℕ)
    → neg_part r ≡ 0
    → 0 < pos_part r
    → 0 < n
    → (ltb_ℤ (pos 0) (if ltb_ℤ r (pos n) then r else pos n) ≡ true)
      × (pos_part (if ltb_ℤ r (pos n) then r else pos n) ≡ min n (pos_part r))
      × (0 < pos_part r)
capped (pos r) n whole some more = ground arith
capped (negsuc r) n whole some more = absurd (omega arith)

-- During a page load the amount is what is asked for, or what the socket has room for.
pub asked_amount :
    (tcp_buf_len : ℤ) (n len : ℕ) (s : Shaper)
    → is_normal s ≡ false
    → ltb_ℤ tcp_buf_len tcp_limit ≡ true
    → 0 < n
    → n < 2 ^ 31
    → (ltb_ℤ (pos 0) (actual_write tcp_buf_len (pos n) s len) ≡ true)
      × (pos_part (actual_write tcp_buf_len (pos n) s len) ≡ min n (pos_part (room tcp_buf_len)))
      × (0 < pos_part (room tcp_buf_len))
unfolding actual_write
asked_amount tcp_buf_len n len s load free some small =
    let fits : to_int (pos n) ≡ pos n = to_int_pos n small in
    let positive = above tcp_limit tcp_buf_len (ltb→lt _ _ free) in
    rw (load, free, fits) (capped (tcp_limit -ℤ tcp_buf_len) n positive.0 positive.1 some)

load_supertrace : (s : Shaper) → s.stmode ≡ supertrace → s.sent_tend ≡ false → is_normal s ≡ false
load_supertrace s mode tend = rw (mode, tend) refl

positive : (n : ℕ) → 0 < n → ltb_ℤ (pos 0) (pos n) ≡ true
positive n some = lt→ltb _ _ (omega arith)

left_over :
    (mode : Mode) (n k : ℕ)
    → mode ≡ supertrace
    → 0 < n
    → k ≤ n
    → (if is_supertrace mode && ltb_ℤ (pos 0) (pos n) then pos n -ℤ pos k else pos n) ≡ pos (n - k)
left_over mode n k e some le =
    rw (e, positive n some) (eq_of_parts _ _ (omega (arith, -ℤ_parts (pos n) (pos k))))

module _ (crypto : Crypto) where
  write_all_step :
      (socket : Socket) (sockets : List Socket) (n : ℕ) (s : Sender) (left : ℤ) (t : Sender)
      → 0 < n
      → packet_write_poll_one_write crypto socket (pos n) s ≡ ok (left, t)
      → write_all crypto (socket ∷ sockets) (pos n) s ≡ write_all crypto sockets left t
  unfolding write_all
  write_all_step socket sockets n s left t some run = rw (positive n some, run) refl

  pub write_all_lem :
      (sockets : List Socket) (n : ℕ) (s : Sender)
      → All Takes sockets
      → n ≤ length sockets
      → n < 2 ^ 31
      → s.session.extra_pad ≡ 0
      → s.shaper.stmode ≡ supertrace
      → s.shaper.sent_tend ≡ false
      → (t : Sender) × (m : Moved s t) × (write_all crypto sockets (pos n) s ≡ ok t)
        × (length m.sent ≡ n)
  unfolding write_all
  write_all_lem [] n s takes enough small none_extra mode tend =
      let none : n ≡ 0 = omega arith in (s, Moved-refl s none_extra, rw none refl, rw none refl)
  write_all_lem (socket ∷ sockets) n s takes enough small none_extra mode tend = elim (dec_lt 0 n) [
    | no done ↦
        let none : n ≡ 0 = omega arith in (s, Moved-refl s none_extra, rw none refl, rw none refl)
    | yes some ↦
        let (asks, amount, free) =
          asked_amount socket.tcp_buf_len n (length s.session.output) s.shaper
            (load_supertrace s.shaper mode tend) takes.0.has_room some small in
        let r =
          one_write-Round crypto socket takes.0.amount takes.0.cont (pos n) s takes.0.taken
            takes.0.some none_extra asks in
        let exact = r.exact (rw mode refl) in
        let left : r.left ≡ pos (n - min takes.0.amount r.len) =
          r.left_over
          ∙ left_over s.shaper.stmode n (min takes.0.amount r.len) mode some (omega arith) in
        let (t, m, run, size) =
          write_all_lem sockets (n - min takes.0.amount r.len) r.after takes.1
            (omega (arith, takes.0.some)) (omega arith) r.moved.none_extra
            (r.moved.same_mode ∙ mode) (r.moved.same_tend ∙ tend) in
        (
          t,
          Moved-trans r.moved m,
          write_all_step socket sockets n s r.left r.after some r.run
              ∙ ap (λ w. write_all crypto sockets w r.after) left
              ∙ run,
          omega (arith, length-append r.moved.sent m.sent, r.size, size),
        )
  ]

  by_mode :
      (sockets : List Socket) (s t : Sender)
      → s.shaper.stmode ≡ supertrace
      → s.shaper.sent_tend ≡ false
      → write_all crypto sockets
          (pos s.shaper.w2w)
          (record s { shaper = record (s.shaper) { padded_junk = 0 } })
        ≡ ok t
      → write_by_mode crypto sockets s ≡ ok (record t { shaper = record (t.shaper) { w2w = 0 } })
  unfolding write_by_mode set_w2w
  by_mode sockets s t mode tend run =
      let super : is_supertrace s.shaper.stmode ≡ true = ap is_supertrace mode in
      let more : (s.shaper.w2w == 0 && s.shaper.sent_tend) ≡ false =
        ap (λ b. s.shaper.w2w == 0 && b) tend ∙ and_false (s.shaper.w2w == 0) in
      rw (super, more, run) refl

  timed :
      (now random : ℕ) (t : Sender)
      → t.shaper.stmode ≡ supertrace
      → update_time now
          (if is_ssh t.shaper.stmode then pos (10 * initial_tau) else t.shaper.packet_tau)
          random
          t.shaper.stmode
        ≡ add64 now (to_u64 t.shaper.packet_tau)
  unfolding update_time
  timed now random t mode = rw mode refl

  -- In supertrace mode before the end of the trace, when its time has come and no extra padding is
  -- asked for, with an amount below 2 ^ 31 and at least that many rounds in each of which the socket
  -- holds less than 16384 bytes and takes one byte at least, `packet_write_poll` returns: it has put
  -- exactly the amount of bytes on the wire, however much data there was, the data in order and then
  -- junk, of which the rest stays in the output buffer; the next time is `packet_tau` later, and
  -- nothing is left to write.
  pub packet_write_poll-exact :
      (now random : ℕ) (sockets : List Socket) (s : Sender)
      → s.shaper.packet_time_to_write ≤ now
      → All Takes sockets
      → s.shaper.w2w ≤ length sockets
      → s.shaper.w2w < 2 ^ 31
      → s.session.extra_pad ≡ 0
      → s.shaper.stmode ≡ supertrace
      → s.shaper.sent_tend ≡ false
      → (t : Sender) × (m : Moved s t) × (packet_write_poll crypto now random sockets s ≡ ok t)
        × (length m.sent ≡ s.shaper.w2w)
        × (t.shaper.w2w ≡ 0)
        × (t.shaper.packet_time_to_write ≡ add64 now (to_u64 s.shaper.packet_tau))
  unfolding packet_write_poll write_by_mode set_w2w update_time
  packet_write_poll-exact now random sockets s late takes enough small none_extra mode tend =
      let reset = record s { shaper = record (s.shaper) { padded_junk = 0 } } in
      let (t, m, run, size) =
        write_all_lem sockets s.shaper.w2w reset takes enough small none_extra mode tend in
      let same = m.same_mode ∙ mode in
      let last = record (t.shaper) {
        w2w = 0;
        packet_time_to_write = add64 now (to_u64 t.shaper.packet_tau);
      } in
      (
        record t { shaper = last },
        Moved-trans (reshaped s reset.shaper refl refl refl none_extra)
            (Moved-trans m (reshaped t last refl refl refl m.none_extra)),
        rw (ltb-false now s.shaper.packet_time_to_write late, by_mode sockets s t mode tend run)
            (ap
              (λ time.
                ok (record t {
                  shaper = record (t.shaper) { w2w = 0; packet_time_to_write = time };
                }))
              (timed now random t same)),
        omega (arith, size, length-append m.sent []),
        refl,
        rw (m.same_time) refl,
      )

-- ===== src/ServerLoop/Counting.antt =====
-- What either side counts as sent.
use csbu_flo.WritePoll.Counted.{packet_write_poll-Counted}
use csbu_flo.Packet.{Crypto, Session}
use csbu_flo.ServerLoop.{Socket, Sender, packet_write_poll}
use csbu_flo.Loop.{
  account_sent, note_times, write_and_count, update_tau, Clock, Server, sent_bytes,
  output_buffer_len, with_sender, sender_of,
}
use csbu_flo.Base.{arith, List, ℕ, ◌≡◌, ◌≤◌, ok, ◌+◌, length, ok_of_map, ap, subst, ◌∙◌, sym, Bool}

account_sent-kept :
    (is_client : Bool) (cur_ts outbuf_len incoming waited : ℕ) (s : Server)
    → let t = account_sent is_client cur_ts outbuf_len incoming waited s in
      (t.total_sent_bytes ≡ s.total_sent_bytes + sent_bytes waited s)
      × (t.outbuf_remain ≡ output_buffer_len s)
      × (t.time_to_write ≡ s.packet_time_to_write)
      × (t.peer.session ≡ s.peer.session)
      × (t.wire ≡ s.wire)
unfolding account_sent note_times update_tau
account_sent-kept is_client cur_ts outbuf_len incoming waited s = ground arith

module _ (crypto : Crypto) where
  -- On either side: when the time to write has come, the total grows by exactly the bytes that have gone to the wire,
  -- padding and all; what is kept as the remainder is what still waits in the output buffer.
  pub write_and_count-counts :
      (is_client : Bool) (sockets : List Socket) (clock : Clock) (outbuf_len incoming : ℕ)
      (s t : Server)
      → s.packet_time_to_write ≤ clock.write_now
      → s.peer.session.extra_pad ≡ 0
      → write_and_count crypto is_client sockets clock outbuf_len incoming s ≡ ok t
      → (t.total_sent_bytes + length s.wire ≡ s.total_sent_bytes + length t.wire)
        × (length s.wire ≤ length t.wire)
        × (t.outbuf_remain ≡ output_buffer_len t)
  unfolding write_and_count sender_of with_sender
  write_and_count-counts is_client sockets clock outbuf_len incoming s t due x e =
      let waited = output_buffer_len s in
      let count = λ (u : Sender).
        account_sent is_client clock.cur_ts outbuf_len incoming waited (with_sender u s) in
      let (u, run, last) =
        ok_of_map (packet_write_poll crypto clock.write_now clock.time_random sockets (sender_of s))
          count t e in
      let counted =
        packet_write_poll-Counted crypto clock.write_now clock.time_random sockets (sender_of s) u
          due x run in
      let (total, remain, _, session, wire) =
        account_sent-kept is_client clock.cur_ts outbuf_len incoming waited (with_sender u s) in
      let left = ap (λ (z : Session). length z.output) session in
      let out = ap (λ (z : List ℕ). length z) wire in
      subst
        (λ (q : Server).
          (q.total_sent_bytes + length s.wire ≡ s.total_sent_bytes + length q.wire)
          × (length s.wire ≤ length q.wire)
          × (q.outbuf_remain ≡ output_buffer_len q))
        last
        (
          omega (arith, total, out, counted.balance, counted.grows),
          omega (arith, out, counted.grows),
          remain ∙ sym left,
        )

-- ===== src/ServerLoop/Kept.antt =====
-- What the steps of a round that do not wait leave of a wait, and of the mode.
use csbu_flo.ServerLoop.{
  StPair, pos, Crypto, csbuflo_round, finish_page, switch_to_ssh, both_over, next_item, trace_over,
  ◌*ℤ◌, initial_tau, notify, flag_t,
}
use csbu_flo.Loop.{
  Server, account_sent, note_times, channel_idle, update_tau, set_target, Clock, handle_unload,
  switch_to_csbuflo,
}
use csbu_flo.Base.{arith, ℕ, ◌≡◌, true, false, List, Bool}

pub account_sent-waits :
    (is_client : Bool) (cur_ts outbuf_len incoming waited : ℕ) (s : Server)
    → let t = account_sent is_client cur_ts outbuf_len incoming waited s in
      (t.waiting_for_a_packet ≡ s.waiting_for_a_packet) × (t.deadlock_start ≡ s.deadlock_start)
unfolding account_sent note_times update_tau
account_sent-waits is_client cur_ts outbuf_len incoming waited s = ground arith

pub handle_unload-start :
    (now : ℕ) (s : Server) → (handle_unload now s).deadlock_start ≡ s.deadlock_start
unfolding handle_unload
handle_unload-start now s = ground arith

pub next_item-start :
    (pairs : List StPair) (s : Server) → (next_item pairs s).deadlock_start ≡ s.deadlock_start
unfolding next_item
next_item-start pairs s = ground arith

pub handle_unload-mode : (now : ℕ) (s : Server) → (handle_unload now s).peer.stmode ≡ s.peer.stmode
unfolding handle_unload
handle_unload-mode now s = ground arith

module _ (crypto : Crypto) where
  pub csbuflo_round-waits :
      (clock : Clock) (outbuf_len : ℕ) (s : Server)
      → let t = csbuflo_round crypto clock outbuf_len s in
        (t.waiting_for_a_packet ≡ s.waiting_for_a_packet) × (t.deadlock_start ≡ s.deadlock_start)
  unfolding csbuflo_round channel_idle set_target finish_page switch_to_ssh
  csbuflo_round-waits clock outbuf_len s = ground arith

  pub both_over-waits :
      (now outbuf_len : ℕ) (s : Server)
      → (both_over crypto now outbuf_len s).waiting_for_a_packet ≡ s.waiting_for_a_packet
  unfolding both_over switch_to_ssh switch_to_csbuflo
  both_over-waits now outbuf_len s = ground arith

  pub trace_over-waits :
      (now outbuf_len : ℕ) (s : Server)
      → (trace_over crypto now outbuf_len s).waiting_for_a_packet ≡ false
  unfolding trace_over
  trace_over-waits now outbuf_len s =
      let s1 = record s { waiting_for_a_packet = false; packet_tau = pos 10 *ℤ initial_tau } in
      ground (
        arith,
        both_over-waits now outbuf_len s1,
        both_over-waits now outbuf_len
            (record s1 { peer = record (notify crypto 4 flag_t s1.peer) { sent_tend = true } }),
      )

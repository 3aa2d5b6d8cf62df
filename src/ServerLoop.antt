-- ===== src/ServerLoop.antt =====
-- serverloop.c: `process_output`, which decides in each round of the server's main loop whether to
-- write and how much, in each mode, and when one mode gives way to another. What the client's loop has
-- as well is in Loop. Left out are the stdin of protocol 1, the log file, and the variables that are
-- only ever set (`old_ts`, `new_ts`, `pre_rate` and the totals with those names).
mod Target
mod Kept
mod Waiting
pub mod Modes
mod Counting
pub mod Tests
use csbu_flo.Loop.{
  Clock, Server, await_data, handle_unload, initial_boundary, set_stmode, switch_to_csbuflo,
  target_queue_len, channel_idle, data_received, output_buffer_len, set_target, write_and_count,
}
use csbu_flo.Cursor.{move_to_next_st_item, should_jump_trans_end}
use csbu_flo.Packet.{Crypto}
use csbu_flo.Tau.{update_tau_median, Times, initial_tau, Taus, update_tau_interval, insert_time}
use csbu_flo.Trace.{StPair}
use csbu_flo.WritePoll.{
  Mode, Sender, csbuflo, is_csbuflo, ssh, Socket, is_supertrace, WriteError, packet_write_poll,
}
use csbu_flo.Base.Int.{ℤ, ltb_ℤ, pos, pos_part, ◌*ℤ◌, ◌+ℤ◌}
use csbu_flo.Notify.{Peer, Sites, notify, flag_n, flag_t, pairs_of}
use csbu_flo.Base.{
  zero, suc, ℕ, Bool, false, if◌then◌else◌, length, suc, ◌&&◌, ◌+◌, List, Option, leb, ltb, not,
  true, ◌*◌, ◌-◌, ◌==◌, add64, some, sub64, ◌/◌, Outcome, none, ◌||◌, ◌%◌, ok, ◌>>=◌,
}

-- `item` is still NULL here.
pub should_send : ℕ → Bool → Server → Bool
should_send now writable s =
    if ltb now s.time_to_write then is_supertrace s.peer.stmode && writable else writable

-- `cursize`, and `unset_first_client`.
pub item_size : ℕ → StPair → Peer → ℤ
item_size outbuf_len item p =
    if p.first_client && ltb_ℤ item.size (pos outbuf_len) then pos outbuf_len else item.size

-- One item of the trace: unless the server waits, its size is added to what is to be written.
pub send_item : ℕ → ℕ → StPair → Server → Server
send_item deadlock_now outbuf_len item s =
    let s1 = record s { packet_tau = item.time; peer = record (s.peer) { first_client = false } } in
    let s2 =
      if ltb s.peer.received_sofar item.expected
      then await_data deadlock_now s1
      else data_received item.expected s1 in
    let cursize = if s2.waiting_for_a_packet then pos 0 else item_size outbuf_len item s.peer in
    record s2 { w2w = pos_part (pos s2.w2w +ℤ cursize) }

-- The total is within one packet of the target, and little waits.
pub padding_done : ℕ → Server → Bool
padding_done outbuf_len s =
    leb outbuf_len 32
    && ltb s.total_sent_bytes (s.target_sent_bytes + target_queue_len)
    && ltb s.target_sent_bytes (s.total_sent_bytes + target_queue_len)

pub next_item : List StPair → Server → Server
next_item pairs s = if s.waiting_for_a_packet then s else record s {
  peer = record (s.peer) { cursor = move_to_next_st_item pairs (pos 1) s.peer.cursor };
}

module _ (crypto : Crypto) where
  -- `packet_send_notify(4, 'n')`, and the mode of a connection without a page.
  pub switch_to_ssh : Server → Server
  switch_to_ssh s = set_stmode ssh (record s { peer = notify crypto 4 flag_n s.peer })

  -- Once the client has said that its trace is over, too, and nothing is left to write.
  pub both_over : ℕ → ℕ → Server → Server
  both_over now outbuf_len s =
      if s.peer.onload_flag
      then switch_to_ssh s
      else if s.peer.st_idle_start == 0
      then record s { peer = record (s.peer) { st_idle_start = now } }
      else if ltb 0 outbuf_len
      then switch_to_csbuflo now s
      else if leb 2000000 (sub64 now s.peer.st_idle_start)
      then switch_to_ssh s
      else s

  -- Past the end of the trace: the client is told, once.
  pub trace_over : ℕ → ℕ → Server → Server
  trace_over now outbuf_len s =
      let s1 = record s { waiting_for_a_packet = false; packet_tau = pos 10 *ℤ initial_tau } in
      let s2 =
        if not s1.peer.sent_tend && s1.w2w == 0
        then record s1 { peer = record (notify crypto 4 flag_t s1.peer) { sent_tend = true } }
        else s1 in
      if s2.peer.cursor.transcript_end && s2.w2w == 0 then both_over now outbuf_len s2 else s2

  -- After the load event the server may leave the trace before its end.
  pub jump_or_send : Clock → ℕ → StPair → Server → Server
  jump_or_send clock outbuf_len item s =
      let (jumps, cursor) = should_jump_trans_end clock.jump_random s.peer.cursor in
      let s' = record s { peer = record (s.peer) { cursor = cursor } } in
      if jumps
      then trace_over clock.now outbuf_len s'
      else send_item clock.deadlock_now outbuf_len item s'

  pub play_item : Option StPair → Clock → ℕ → Server → Server
  play_item none clock outbuf_len s = trace_over clock.now outbuf_len s
  play_item (some item) clock outbuf_len s =
      if not s.peer.onload_flag
      then send_item clock.deadlock_now outbuf_len item s
      else jump_or_send clock outbuf_len item s

  pub supertrace_round : List StPair → Clock → ℕ → Server → Server
  supertrace_round pairs clock outbuf_len s =
      let s' = next_item pairs s in
      if is_supertrace s.peer.stmode
      then play_item s'.peer.cursor.cur_item clock outbuf_len s'
      else s

  -- The page is over and its padding done.
  pub finish_page : Server → Server
  finish_page s = switch_to_ssh (record s {
    total_sent_bytes = 0;
    cur_total_realincoming_bytes = 0;
    cur_total_realsent_bytes = 0;
    truly_idle = true;
    boundary = initial_boundary;
    tau = initial_tau;
    w2w = target_queue_len;
    packet_tau = initial_tau;
    tstart_set = false;
    peer = record (s.peer) { paddingdone_flag = false; tend_set = false; ts_start = 0; ts_end = 0 };
  })

  -- How much to write in CSBuFLO mode: a packet, as long as the channel is not idle.
  pub csbuflo_round : Clock → ℕ → Server → Server
  csbuflo_round clock outbuf_len s =
      let s1 = record s { w2w = target_queue_len } in
      let (cidle, s2) = channel_idle clock.idle_now outbuf_len s1 in
      if not (is_csbuflo s.peer.stmode)
      then s
      else if cidle
      then set_target outbuf_len (if padding_done outbuf_len s2 then finish_page s2 else s2)
      else s2

  -- What comes before the writing, in a round that writes.
  pub prepare_round : List StPair → Clock → ℕ → Server → Server
  prepare_round pairs clock outbuf_len s =
      csbuflo_round clock outbuf_len
        (record (supertrace_round pairs clock outbuf_len s) { truly_idle = false })

  -- One round; `writable` is whether `select` has set the socket.
  pub process_output : Sites → List Socket → Clock → Bool → Server → Outcome WriteError Server
  process_output sites sockets clock writable s0 =
      let s = handle_unload clock.now s0 in
      let outbuf_len = output_buffer_len s in
      if should_send clock.now writable s
      then write_and_count crypto false sockets clock outbuf_len (outbuf_len - s.outbuf_remain)
          (prepare_round (pairs_of sites s.peer) clock outbuf_len s)
      else ok (if ltb s.outbuf_remain outbuf_len then record s { truly_idle = false } else s)

-- ===== src/ClientLoop.antt =====
-- clientloop.c: the part of `client_loop` that decides in each round whether the client writes and how
-- much, as `process_output` does on the server. What the two have in common is in Loop; here is what
-- differs. Left out are the log file and the stop of a control master.
mod Modes
mod Acknowledged
mod Tests
use csbu_flo.Base.Int.{pos, ℤ, pos_part, ◌*ℤ◌, ◌-ℤ◌, ltb_ℤ, ◌+ℤ◌}
use csbu_flo.Cursor.{move_to_next_st_item, should_jump_trans_end}
use csbu_flo.Notify.{Peer, Sites, notify, flag_p, flag_t, pairs_of}
use csbu_flo.WritePoll.{is_supertrace, ssh, Socket, is_csbuflo, WriteError}
use csbu_flo.Packet.{Crypto}
use csbu_flo.Trace.{StPair}
use csbu_flo.Loop.{
  Server, Clock, set_stmode, await_data, data_received, target_queue_len, channel_idle,
  switch_to_csbuflo, initial_boundary, set_target, handle_unload, output_buffer_len,
  write_and_count,
}
use csbu_flo.Base.{
  arith, Bool, List, Option, if◌then◌else◌, ℕ, false, ltb, not, some, true, ◌==◌, none, ◌&&◌,
  Outcome, leb, ◌+◌, sub64, ◌-◌, ◌>>=◌, ok,
}
use csbu_flo.Tau.{initial_tau}

-- The static variables that both sides have, and those that only the client has. `item` is a variable
-- of `client_loop` that keeps its value from round to round.
pub record Client : Type 0 where
  pub loop : Server
  pub second_client : Bool
  pub item : Option StPair

abbrev pub is_none : Option StPair → Bool
is_none none = true
is_none (some _) = false

-- While the last item is not NULL the client does not write before its time.
pub client_should_send : ℕ → Bool → Client → Bool
client_should_send now writable c =
    if ltb now c.loop.time_to_write
    then is_supertrace c.loop.peer.stmode && (is_none c.item && writable)
    else writable

-- The mode of a connection without a page. When the server has said that it is in that mode already,
-- the lock is removed.
pub leave_page : Server → Server
leave_page s =
    let p = s.peer in
    set_stmode ssh (
      if p.server_entering_normal
      then record s { peer = record p { server_entering_normal = false; locked = false } }
      else s)

-- `INT_MAX`
abbrev pub int_max : ℕ
int_max = 2147483647

-- The second item of a page waits until the server has acknowledged the URL.
pub expected_data : StPair → Client → ℕ
expected_data item c =
    if not c.loop.peer.first_client && (c.second_client && not c.loop.peer.urlack)
    then int_max
    else item.expected

-- The first item makes the next one the second; the acknowledgement is used up.
pub note_first : Client → Client
note_first c =
    if c.loop.peer.first_client
    then record c {
      loop = record (c.loop) { peer = record (c.loop.peer) { first_client = false } };
      second_client = true;
    }
    else if c.second_client && c.loop.peer.urlack
    then record c {
      loop = record (c.loop) { peer = record (c.loop.peer) { urlack = false } };
      second_client = false;
    }
    else c

-- The client's items have negative sizes.
pub client_size : ℕ → StPair → Peer → ℤ
client_size outbuf_len item p =
    let size = pos 0 -ℤ item.size in
    if p.first_client && ltb_ℤ size (pos outbuf_len) then pos outbuf_len else size

-- As on the server; a wait that is given up also ends that for the acknowledgement.
pub client_await : ℕ → Client → Client
client_await deadlock_now c =
    let s = await_data deadlock_now c.loop in
    record c { loop = s; second_client = s.waiting_for_a_packet && c.second_client }

pub client_received : ℕ → Client → Client
client_received expected c = record c { loop = data_received expected c.loop }

pub client_send_item : ℕ → ℕ → StPair → Client → Client
client_send_item deadlock_now outbuf_len item c =
    let expected = expected_data item c in
    let c1 = note_first (record c { loop = record (c.loop) { packet_tau = item.time } }) in
    let c2 =
      if ltb c.loop.peer.received_sofar expected
      then client_await deadlock_now c1
      else client_received expected c1 in
    let cursize =
      if c2.loop.waiting_for_a_packet then pos 0 else client_size outbuf_len item c.loop.peer in
    record c2 { loop = record (c2.loop) { w2w = pos_part (pos c2.loop.w2w +ℤ cursize) } }

pub client_next_item : List StPair → Client → Client
client_next_item pairs c =
    let s = if c.loop.waiting_for_a_packet then c.loop else record (c.loop) {
      peer = record (c.loop.peer) {
        cursor = move_to_next_st_item pairs (pos 0) c.loop.peer.cursor;
      };
    } in
    record c { loop = s; item = s.peer.cursor.cur_item }

-- Once the server has said that its trace is over, too, and nothing is left to write.
pub client_both_over : ℕ → ℕ → Server → Server
client_both_over now outbuf_len s =
    if s.peer.onload_flag
    then leave_page s
    else if s.peer.st_idle_start == 0
    then record s { peer = record (s.peer) { st_idle_start = now } }
    else if ltb 0 outbuf_len
    then switch_to_csbuflo now s
    else if leb 2000000 (sub64 now s.peer.st_idle_start)
    then leave_page s
    else s

-- No packet is too many that waits when the page is over.
pub client_padding_done : ℕ → Server → Bool
client_padding_done outbuf_len s =
    outbuf_len == 0
    && (ltb s.total_sent_bytes (s.target_sent_bytes + target_queue_len)
        && ltb s.target_sent_bytes (s.total_sent_bytes + target_queue_len))

module _ (crypto : Crypto) where
  pub client_trace_over : ℕ → ℕ → Server → Server
  client_trace_over now outbuf_len s =
      let s1 = record s { waiting_for_a_packet = false; packet_tau = pos 10 *ℤ initial_tau } in
      let s2 =
        if not s1.peer.sent_tend && s1.w2w == 0
        then record s1 { peer = record (notify crypto 4 flag_t s1.peer) { sent_tend = true } }
        else s1 in
      if s2.peer.cursor.transcript_end && s2.w2w == 0
      then client_both_over now outbuf_len s2
      else s2

  pub client_jump_or_send : Clock → ℕ → StPair → Client → Client
  client_jump_or_send clock outbuf_len item c =
      let (jumps, cursor) = should_jump_trans_end clock.jump_random c.loop.peer.cursor in
      let s = record (c.loop) { peer = record (c.loop.peer) { cursor = cursor } } in
      if jumps
      then record c { loop = client_trace_over clock.now outbuf_len s }
      else client_send_item clock.deadlock_now outbuf_len item (record c { loop = s })

  pub client_play_item : Option StPair → Clock → ℕ → Client → Client
  client_play_item none clock outbuf_len c = record c {
    loop = client_trace_over clock.now outbuf_len c.loop;
  }
  client_play_item (some item) clock outbuf_len c =
      if not c.loop.peer.onload_flag
      then client_send_item clock.deadlock_now outbuf_len item c
      else client_jump_or_send clock outbuf_len item c

  pub client_supertrace_round : List StPair → Clock → ℕ → Client → Client
  client_supertrace_round pairs clock outbuf_len c =
      let c' = client_next_item pairs c in
      if is_supertrace c.loop.peer.stmode then client_play_item c'.item clock outbuf_len c' else c

  -- The page is over and its padding done, which the server is told.
  pub client_finish_page : Server → Server
  client_finish_page s =
      let p = notify crypto 4 flag_p s.peer in
      leave_page (record s {
        total_sent_bytes = 0;
        cur_total_realincoming_bytes = 0;
        cur_total_realsent_bytes = 0;
        truly_idle = true;
        boundary = initial_boundary;
        tau = initial_tau;
        packet_tau = initial_tau;
        tstart_set = false;
        peer = record p { tend_set = false; ts_start = 0; ts_end = 0 };
      })

  pub client_csbuflo_round : Clock → ℕ → Server → Server
  client_csbuflo_round clock outbuf_len s =
      let s1 = record s { w2w = target_queue_len } in
      let (cidle, s2) = channel_idle clock.idle_now outbuf_len s1 in
      if not (is_csbuflo s.peer.stmode)
      then s
      else if cidle
      then set_target outbuf_len
          (if client_padding_done outbuf_len s2 then client_finish_page s2 else s2)
      else s2

  pub client_prepare_round : List StPair → Clock → ℕ → Client → Client
  client_prepare_round pairs clock outbuf_len c =
      let c' = client_supertrace_round pairs clock outbuf_len c in
      record c' {
        loop = client_csbuflo_round clock outbuf_len (record (c'.loop) { truly_idle = false });
      }

  abbrev with_loop : Client → Server → Client
  with_loop c s = record c { loop = s }

  pub client_write : List Socket → Clock → ℕ → ℕ → Client → Outcome WriteError Client
  client_write sockets clock outbuf_len incoming c =
      write_and_count crypto true sockets clock outbuf_len incoming c.loop >>= λ s.
      ok (with_loop c s)

  pub client_skip : ℕ → Client → Client
  client_skip outbuf_len c = with_loop c (
      if ltb c.loop.outbuf_remain outbuf_len
      then record (c.loop) { truly_idle = false }
      else c.loop)

  -- One round of the loop, where it sends.
  pub client_round : Sites → List Socket → Clock → Bool → Client → Outcome WriteError Client
  client_round sites sockets clock writable c0 =
      let c = record c0 { loop = handle_unload clock.now c0.loop } in
      let outbuf_len = output_buffer_len c.loop in
      let ready = client_prepare_round (pairs_of sites c.loop.peer) clock outbuf_len c in
      if client_should_send clock.now writable c
      then client_write sockets clock outbuf_len (outbuf_len - c.loop.outbuf_remain) ready
      else ok (client_skip outbuf_len c)

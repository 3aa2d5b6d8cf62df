-- ===== src/Loop.antt =====
-- What the two main loops share, `process_output` of serverloop.c and `client_loop` of clientloop.c: their
-- static variables, the wait for the other side, the target of the padding, and the count of what has
-- left, from which tau follows; with `channel_idle` and `should_set_writefd` of misc.c. Of the two copies
-- that the sources have, that of serverloop.c is named.
use csbu_flo.Packet.{Crypto}
use csbu_flo.Tau.{update_tau_median, Times, initial_tau, Taus, update_tau_interval, insert_time}
use csbu_flo.WritePoll.{Mode, Sender, csbuflo, is_csbuflo, Socket, WriteError, packet_write_poll}
use csbu_flo.Base.Int.{ℤ, pos}
use csbu_flo.Notify.{Peer}
use csbu_flo.Base.{
  zero, suc, ℕ, Bool, false, if◌then◌else◌, length, suc, ◌&&◌, ◌+◌, List, Option, leb, ltb, not,
  true, ◌*◌, ◌-◌, ◌==◌, add64, some, ◌/◌, Outcome, none, ◌||◌, ◌%◌, ok, ◌>>=◌,
}

-- The static variables of serverloop.c, with those of misc.c and packet.c that it reads: `peer` has the
-- flags, the cursor and the connection, and the rest are those of `Shaper` that `peer` has not.
pub record Server : Type 0 where
  pub peer : Peer
  pub times : Times
  pub taus : Taus
  pub tstart_set : Bool
  pub padded_junk : ℕ
  pub w2w : ℕ
  pub packet_tau : ℤ
  pub packet_time_to_write : ℕ
  pub wire : List ℕ
  pub time_to_write : ℕ
  pub tau : ℤ
  pub boundary : ℤ
  pub truly_idle : Bool
  pub idle_start : ℕ
  pub total_sent_bytes : ℕ
  pub target_sent_bytes : ℕ
  pub outbuf_remain : ℕ
  pub cur_total_realincoming_bytes : ℕ
  pub cur_total_realsent_bytes : ℕ
  pub waiting_for_a_packet : Bool
  pub deadlock_start : ℕ

-- What the calls of `get_current_time_usecs` return in one round, in their order, and what `arc4random`
-- draws.
pub record Clock : Type 0 where
  pub now : ℕ
  pub deadlock_now : ℕ
  pub idle_now : ℕ
  pub write_now : ℕ
  pub cur_ts : ℕ
  pub jump_random : ℕ
  pub time_random : ℕ

abbrev pub target_queue_len : ℕ
target_queue_len = 548

abbrev pub initial_boundary : ℤ
initial_boundary = pos 16384

-- What `packet_write_poll` sees of this state, and what it changes.
unfoldable pub sender_of : Server → Sender
sender_of s = record {
  session = s.peer.session;
  shaper = record {
    stmode = s.peer.stmode;
    sent_tend = s.peer.sent_tend;
    trans_padded_remaining = s.peer.trans_padded_remaining;
    padded_junk = s.padded_junk;
    w2w = s.w2w;
    packet_tau = s.packet_tau;
    packet_time_to_write = s.packet_time_to_write;
  };
  wire = s.wire;
}

unfoldable pub with_sender : Sender → Server → Server
with_sender t s = record s {
  peer = record (s.peer) {
    session = t.session;
    trans_padded_remaining = t.shaper.trans_padded_remaining;
  };
  padded_junk = t.shaper.padded_junk;
  w2w = t.shaper.w2w;
  packet_time_to_write = t.shaper.packet_time_to_write;
  wire = t.wire;
}

abbrev pub output_buffer_len : Server → ℕ
output_buffer_len s = length s.peer.session.output

abbrev pub set_stmode : Mode → Server → Server
set_stmode mode s = record s { peer = record (s.peer) { stmode = mode } }

-- The browser has left the page: in CSBuFLO mode the next packet is due at once.
unfoldable pub handle_unload : ℕ → Server → Server
handle_unload now s =
    let s' = record s { peer = record (s.peer) { unload_flag = false } } in
    if not s.peer.unload_flag
    then s
    else if is_csbuflo s.peer.stmode
    then record s' {
      time_to_write = now;
      packet_time_to_write = now;
      tau = initial_tau;
      packet_tau = initial_tau;
    }
    else record s' { peer = record (s'.peer) { trans_padded_remaining = 2560 } }

-- The server waits for what the trace says that the client sends first, but not for 5 seconds.
unfoldable pub await_data : ℕ → Server → Server
await_data deadlock_now s =
    let start = if s.deadlock_start == 0 then deadlock_now else s.deadlock_start in
    if leb (start + 5000000) deadlock_now
    then record s { waiting_for_a_packet = false; deadlock_start = 0 }
    else record s { waiting_for_a_packet = true; deadlock_start = start; packet_tau = pos 0 }

unfoldable pub data_received : ℕ → Server → Server
data_received expected s = record s {
  waiting_for_a_packet = false;
  deadlock_start = 0;
  peer = record (s.peer) { received_sofar = s.peer.received_sofar - expected };
}

-- A page of one more burst: from here on the amount per time is constant.
unfoldable pub switch_to_csbuflo : ℕ → Server → Server
switch_to_csbuflo now s = set_stmode csbuflo (record s {
  tau = initial_tau;
  packet_tau = initial_tau;
  total_sent_bytes = 0;
  cur_total_realincoming_bytes = 0;
  cur_total_realsent_bytes = 0;
  boundary = initial_boundary;
  idle_start = now;
})

-- `channel_idle`, with what it does to `idle_start`.
unfoldable pub channel_idle : ℕ → ℕ → Server → Bool × Server
channel_idle now buf_len s =
    let start = if leb (s.outbuf_remain + 32) buf_len then now else s.idle_start in
    (ltb (add64 start 2000000) now || s.peer.onload_flag, record s { idle_start = start })

-- `pow(2, ceil(log2(n)))` up to 2 ^ 48, where the floating point is exact; 0 at 0. (From there on `log2`
-- may round to the exponent below, and this is only what the source aims at.) The first argument is fuel: the
-- number of bits of `n`.
unfoldable pub ceil_power : ℕ → ℕ → ℕ
ceil_power zero n = n
ceil_power (suc fuel) n =
    let larger = 2 * ceil_power fuel ((n + 1) / 2) in if leb n 1 then n else larger

-- The base of the padding, and the total that is to be reached: the next multiple of the base.
unfoldable pub padding_base : ℕ → ℕ
padding_base incoming = let base = ceil_power 64 incoming in if base == 0 then 2 else base

-- `base * (int)ceil(total / 1.0 / base)`, while the quotient fits into an `int`: the source says nothing
-- of a larger one.
unfoldable pub round_up_to : ℕ → ℕ → ℕ
round_up_to base total = (total + base - 1) / base * base

unfoldable pub set_target : ℕ → Server → Server
set_target outbuf_len s =
    let target = round_up_to (padding_base s.cur_total_realincoming_bytes) s.total_sent_bytes in
    let s' = record s { target_sent_bytes = target } in
    if s.total_sent_bytes == 0
    then record s { target_sent_bytes = 0; w2w = 0 }
    else if leb s.total_sent_bytes target && ltb (target - s.total_sent_bytes) target_queue_len
    then record s' { w2w = outbuf_len }
    else s'

-- `should_set_writefd`: whether the loop waits for the socket, and if not the seconds and microseconds
-- after which it looks again. (With `time_to_write` in the past it waits without a limit.)
pub should_set_writefd : Server → ℕ → Bool × Option (ℕ × ℕ)
should_set_writefd s now =
    let diff = s.time_to_write - now in
    if is_csbuflo s.peer.stmode && s.truly_idle
    then (false, some (5, 0))
    else if ltb s.time_to_write now
    then (true, none)
    else (false, some (diff / 1000000, diff % 1000000))

-- What has left in this round: what waited, and the padding since, less what waits now.
abbrev pub sent_bytes : ℕ → Server → ℕ
sent_bytes waited s = waited + s.padded_junk - output_buffer_len s

-- Only in CSBuFLO mode and when not only padding was sent: the times for tau.
unfoldable pub note_times : Bool → ℕ → ℕ → Server → Server
note_times is_client cur_ts sent s =
    let closes = s.tstart_set && s.peer.tend_set && ltb s.peer.ts_start s.peer.ts_end in
    let updated =
      update_tau_interval s.peer.ts_start s.peer.ts_end (pos s.cur_total_realsent_bytes) is_client
        (s.times, s.taus) in
    let s1 =
      if closes
      then record s {
        times = updated.0;
        taus = updated.1;
        cur_total_realsent_bytes = 0;
        tstart_set = false;
        peer = record (s.peer) { tend_set = false };
      }
      else s in
    let s2 =
      if s1.tstart_set
      then s1
      else record s1 { tstart_set = true; peer = record (s1.peer) { ts_start = cur_ts } } in
    let real = s2.cur_total_realsent_bytes + (sent - s2.padded_junk) in
    if leb target_queue_len real
    then record s2 {
      cur_total_realsent_bytes = real - target_queue_len;
      times = insert_time cur_ts s2.times;
    }
    else record s2 { cur_total_realsent_bytes = real }

unfoldable pub update_tau : Server → Server
update_tau s =
    let updated = update_tau_median s.tau s.boundary (pos s.total_sent_bytes) s.taus in
    record s { tau = updated.0; packet_tau = updated.0; boundary = updated.1; taus = updated.2 }

-- After `packet_write_poll`. `outbuf_len` and `incoming` are those of the beginning of the round.
unfoldable pub account_sent : Bool → ℕ → ℕ → ℕ → ℕ → Server → Server
account_sent is_client cur_ts outbuf_len incoming waited s =
    let sent = sent_bytes waited s in
    let s1 = record s {
      time_to_write = s.packet_time_to_write;
      outbuf_remain = output_buffer_len s;
      total_sent_bytes = s.total_sent_bytes + sent;
      cur_total_realincoming_bytes = s.cur_total_realincoming_bytes + incoming;
    } in
    let s2 =
      if is_csbuflo s.peer.stmode && not (outbuf_len == 0)
      then note_times is_client cur_ts sent s1
      else s1 in
    if is_csbuflo s.peer.stmode then update_tau s2 else s2

module _ (crypto : Crypto) where
  -- `packet_write_poll`, and the count of what it has sent, on either side.
  unfoldable pub write_and_count :
      Bool → List Socket → Clock → ℕ → ℕ → Server → Outcome WriteError Server
  write_and_count is_client sockets clock outbuf_len incoming s =
      packet_write_poll crypto clock.write_now clock.time_random sockets (sender_of s) >>= λ t. ok (
        account_sent is_client clock.cur_ts outbuf_len incoming (output_buffer_len s)
          (with_sender t s))

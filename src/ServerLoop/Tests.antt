-- ===== src/ServerLoop/Tests.antt =====
-- A server in a supertrace that waits for the client, and one whose page is about to end.
use csbu_flo.ServerLoop.Counting.{write_and_count-counts}
use csbu_flo.ServerLoop.Target.{IsNext, IsCeilPower, set_target-IsNext}
use csbu_flo.ServerLoop.Waiting.{process_output-gives_up, again, wait}
use csbu_flo.ServerLoop.Modes.{Allowed, process_output-Allowed}
use csbu_flo.Base.Int.{◌+ℤ◌, ◌-ℤ◌}
use csbu_flo.ServerLoop.{
  process_output, pos, should_send, send_item, item_size, prepare_round, supertrace_round,
  next_item, play_item, csbuflo_round, trace_over, padding_done, finish_page, switch_to_ssh,
}
use csbu_flo.Loop.{
  Clock, Server, handle_unload, await_data, write_and_count, sender_of, with_sender, account_sent,
  note_times, update_tau, set_target, padding_base, output_buffer_len, target_queue_len,
  channel_idle,
}
use csbu_flo.WritePoll.{
  packet_write_poll, Mode, supertrace, write_by_mode, write_all, update_time, set_w2w, Socket,
  csbuflo, packet_write_poll_one_write, prepare, written, write_out, account, actual_write,
  WriteError, ssh,
}
use csbu_flo.Cursor.{Cursor, move_to_next_st_item, skip}
use csbu_flo.Notify.{Sites, Peer, notify}
use csbu_flo.Trace.{StPair}
use csbu_flo.Base.{
  ℕ, [], false, none, some, ◌∷◌, true, ◌≡◌, ok, refl, ◌+◌, ◌<◌, length, arith, ◌≤◌, Outcome,
}
use csbu_flo.Packet.Tests.{aes, session}

abbrev pub item : StPair
item = record { size = pos 9; time = pos 100; sprob = 0; expected = 50 }

abbrev pub sites : Sites
sites = record { clusters = []; straces = [] ∷ (item ∷ []) ∷ [] }

abbrev pub started : Cursor
started = record {
  cluster_id = pos 1;
  st_index = pos 0;
  cur_item = none;
  transcript_end = false;
  first_sent = false;
  first_expected = 0;
}

abbrev pub peer_in : Mode → Peer
peer_in mode = record {
  stmode = mode;
  onload_flag = false;
  unload_flag = false;
  paddingdone_flag = false;
  sent_tend = false;
  urlack = false;
  server_entering_normal = false;
  trans_padded = false;
  first_client = false;
  trans_padded_remaining = 0;
  received_sofar = 10;
  st_idle_start = 0;
  tend_set = false;
  ts_start = 0;
  ts_end = 0;
  url = [];
  cursor = started;
  locked = false;
  session = session;
}

abbrev pub server_in : Mode → Server
server_in mode = record {
  peer = peer_in mode;
  times = record { time_arr = []; time_index = 0; time_size = 0 };
  taus = record { tau_arr = []; tau_index = 0; tau_size = 0 };
  tstart_set = false;
  padded_junk = 0;
  w2w = 0;
  packet_tau = pos 8192;
  packet_time_to_write = 900;
  wire = [];
  time_to_write = 900;
  tau = pos 8192;
  boundary = pos 16384;
  truly_idle = false;
  idle_start = 800;
  total_sent_bytes = 1000;
  target_sent_bytes = 1024;
  outbuf_remain = 3;
  cur_total_realincoming_bytes = 700;
  cur_total_realsent_bytes = 0;
  waiting_for_a_packet = false;
  deadlock_start = 0;
}

abbrev pub clock_at : ℕ → Clock
clock_at n = record {
  now = n;
  deadlock_now = n;
  idle_now = n;
  write_now = n;
  cur_ts = n;
  jump_random = 0;
  time_random = 0;
}

abbrev pub waiting_at : ℕ → Server
waiting_at n = record (server_in supertrace) {
  peer = record (peer_in supertrace) {
    cursor = record started { cur_item = some item; st_index = pos 1 };
  };
  packet_tau = pos 0;
  packet_time_to_write = n;
  time_to_write = n;
  waiting_for_a_packet = true;
  deadlock_start = 1000;
}

first_round :
    process_output aes sites [] (clock_at 1000) true (server_in supertrace) ≡ ok (waiting_at 1000)
unfolding skip process_output handle_unload should_send await_data send_item item_size prepare_round
    supertrace_round next_item play_item csbuflo_round write_and_count sender_of with_sender
    account_sent note_times update_tau move_to_next_st_item packet_write_poll write_by_mode
    write_all update_time set_w2w ◌+ℤ◌
first_round = refl

second_round :
    process_output aes sites [] (clock_at 2000) true (waiting_at 1000) ≡ ok (waiting_at 2000)
unfolding skip process_output handle_unload should_send await_data send_item item_size prepare_round
    supertrace_round next_item play_item csbuflo_round write_and_count sender_of with_sender
    account_sent note_times update_tau move_to_next_st_item packet_write_poll write_by_mode
    write_all update_time set_w2w ◌+ℤ◌
second_round = refl

first_writes : should_send 1000 true (handle_unload 1000 (server_in supertrace)) ≡ true
unfolding should_send handle_unload
first_writes = refl

second_writes : should_send 2000 true (handle_unload 2000 (waiting_at 1000)) ≡ true
unfolding should_send handle_unload
second_writes = refl

process_output-gives_up_example : 2000 < 1000 + 5000000
process_output-gives_up_example =
    process_output-gives_up aes sites (server_in supertrace) (waiting_at 2000) 1000 2000 refl
      (omega arith)
      (again (waiting_at 1000) [] (clock_at 2000) true
        (wait [] (clock_at 1000) true refl first_writes first_round refl refl) refl refl
        second_writes second_round refl)

-- A page in CSBuFLO mode that has been loaded, 24 bytes short of its target.
abbrev ending : Server
ending = record (server_in csbuflo) {
  peer = record (peer_in csbuflo) { onload_flag = true };
  packet_time_to_write = 5000;
}

abbrev after : Outcome WriteError Server → Server
after (ok s) = s
after _ = ending

abbrev ended : Server
ended = after (process_output aes sites [] (clock_at 1000) true ending)

last_round : process_output aes sites [] (clock_at 1000) true ending ≡ ok ended
unfolding process_output handle_unload should_send prepare_round supertrace_round csbuflo_round
    channel_idle padding_done finish_page switch_to_ssh notify set_target write_and_count sender_of
    with_sender account_sent note_times update_tau packet_write_poll write_by_mode write_all
    update_time set_w2w ◌+ℤ◌
last_round = refl

ended-ssh : ended.peer.stmode ≡ ssh
unfolding process_output handle_unload should_send prepare_round supertrace_round csbuflo_round
    channel_idle padding_done finish_page switch_to_ssh notify set_target write_and_count sender_of
    with_sender account_sent note_times update_tau packet_write_poll write_by_mode write_all
    update_time set_w2w ◌+ℤ◌
ended-ssh = refl

process_output-Allowed_example : Allowed ending ended
process_output-Allowed_example =
    process_output-Allowed aes sites [] (clock_at 1000) true ending ended last_round

-- 1000 bytes have been sent for 700 that came in: the base is 1024.
set_target-IsNext_example :
    let s = server_in csbuflo in
    let t = set_target 3 s in
    let base = padding_base 700 in
    IsNext base 1000 t.target_sent_bytes
    × (s.cur_total_realincoming_bytes ≡ 0 → base ≡ 2)
    × (0 < 700 → IsCeilPower 700 base)
    × (t.target_sent_bytes < 1000 + target_queue_len → t.w2w ≡ 3)
    × (1000 + target_queue_len ≤ t.target_sent_bytes → t.w2w ≡ s.w2w)
set_target-IsNext_example =
    set_target-IsNext 3 (server_in csbuflo) (omega arith) (omega arith) (omega arith)

-- Two of the three bytes that wait are due.
abbrev due : Server
due = record (server_in supertrace) { w2w = 2 }

abbrev socket : Socket
socket = record { tcp_buf_len = pos 100; result = written 2 false }

abbrev counted : Server
counted = record due {
  peer = record (peer_in supertrace) { session = record session { output = 12 ∷ [] } };
  w2w = 0;
  packet_time_to_write = 9192;
  time_to_write = 9192;
  wire = 10 ∷ 11 ∷ [];
  total_sent_bytes = 1002;
  outbuf_remain = 1;
}

count_run : write_and_count aes false (socket ∷ []) (clock_at 1000) 3 0 due ≡ ok counted
unfolding write_and_count sender_of with_sender account_sent note_times update_tau packet_write_poll
    write_by_mode write_all update_time set_w2w actual_write packet_write_poll_one_write prepare
    write_out account ◌+ℤ◌ ◌-ℤ◌
count_run = refl

write_and_count-counts_example :
    (counted.total_sent_bytes + length due.wire ≡ due.total_sent_bytes + length counted.wire)
    × (length due.wire ≤ length counted.wire)
    × (counted.outbuf_remain ≡ output_buffer_len counted)
write_and_count-counts_example =
    write_and_count-counts aes false (socket ∷ []) (clock_at 1000) 3 0 due counted (omega arith)
      refl count_run

-- Before its time nothing is written, but the padding of the last time is counted once more.
abbrev early : Server
early = record due { padded_junk = 36; packet_time_to_write = 5000 }

stale_junk :
    write_and_count aes false [] (clock_at 1000) 3 0 early
    ≡ ok (record early { total_sent_bytes = 1036; time_to_write = 5000 })
unfolding write_and_count sender_of with_sender account_sent note_times update_tau packet_write_poll
stale_junk = refl

-- The end of the trace leaves the start of a wait behind: 5 seconds later a wait that begins is given
-- up at once.
stale_start : (trace_over aes 2000 3 (waiting_at 2000)).deadlock_start ≡ 1000
unfolding trace_over notify
stale_start = refl

stale_wait :
    (send_item 5001000 3 item
      (record (server_in supertrace) { deadlock_start = 1000 })).waiting_for_a_packet
    ≡ false
unfolding send_item await_data
stale_wait = refl

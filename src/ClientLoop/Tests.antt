-- ===== src/ClientLoop/Tests.antt =====
-- A client that waits in a supertrace, and one whose page is about to end.
use csbu_flo.Notify.{notify}
use csbu_flo.ClientLoop.Acknowledged.{ClientWaiting, ClientSent, client_send_item-IsSent}
use csbu_flo.Loop.{
  handle_unload, await_data, data_received, write_and_count, sender_of, with_sender, account_sent,
  note_times, update_tau, channel_idle, set_target,
}
use csbu_flo.WritePoll.{
  supertrace, packet_write_poll, write_by_mode, write_all, update_time, set_w2w, csbuflo,
  WriteError, ssh,
}
use csbu_flo.Base.Int.{negsuc, pos, ◌+ℤ◌, ◌-ℤ◌}
use csbu_flo.ClientLoop.Modes.{ClientAllowed, client_round-Allowed}
use csbu_flo.ClientLoop.{
  Client, client_round, client_send_item, note_first, client_should_send, expected_data,
  client_received, client_await, client_size, client_prepare_round, client_supertrace_round,
  client_next_item, client_play_item, client_csbuflo_round, client_write, client_padding_done,
  client_finish_page, leave_page,
}
use csbu_flo.Trace.{StPair}
use csbu_flo.ServerLoop.Tests.{item, sites, started, peer_in, server_in, clock_at, waiting_at}
use csbu_flo.Packet.Tests.{aes, session}
use csbu_flo.Base.{ℕ, ◌≡◌, [], true, some, false, refl, ok, arith, Outcome}

-- Nine bytes from the client, once the server has sent 50.
abbrev upward : StPair
upward = record item { size = negsuc 8 }

abbrev client_at : ℕ → Client
client_at n = record {
  loop = record (waiting_at n) {
    peer = record (peer_in supertrace) {
      cursor = record started { cur_item = some upward; st_index = pos 1 };
    };
  };
  second_client = false;
  item = some upward;
}

waiting_round :
    client_round aes sites [] (clock_at 2000) true (client_at 1000) ≡ ok (client_at 2000)
unfolding client_round handle_unload client_should_send await_data client_await client_send_item
    client_size note_first expected_data client_prepare_round client_supertrace_round
    client_next_item client_play_item client_csbuflo_round client_write write_and_count sender_of
    with_sender account_sent note_times update_tau packet_write_poll write_by_mode write_all
    update_time set_w2w ◌+ℤ◌
waiting_round = refl

-- A page in CSBuFLO mode that has been loaded, 24 bytes short of its target, with nothing that waits.
-- The server has ended its own.
abbrev ending : Client
ending = record (client_at 1000) {
  loop = record (server_in csbuflo) {
    peer = record (peer_in csbuflo) {
      onload_flag = true;
      server_entering_normal = true;
      session = record session { output = [] };
    };
    packet_time_to_write = 5000;
    outbuf_remain = 0;
  };
}

abbrev after : Outcome WriteError Client → Client
after (ok c) = c
after _ = ending

abbrev ended : Client
ended = after (client_round aes sites [] (clock_at 1000) true ending)

last_round : client_round aes sites [] (clock_at 1000) true ending ≡ ok ended
unfolding client_round handle_unload client_should_send client_prepare_round client_supertrace_round
    client_next_item client_csbuflo_round channel_idle client_padding_done client_finish_page
    leave_page notify set_target client_write write_and_count sender_of with_sender account_sent
    note_times update_tau packet_write_poll write_by_mode write_all update_time set_w2w
last_round = refl

ended-ssh : ended.loop.peer.stmode ≡ ssh
unfolding client_round handle_unload client_should_send client_prepare_round client_supertrace_round
    client_next_item client_csbuflo_round channel_idle client_padding_done client_finish_page
    leave_page notify set_target client_write write_and_count sender_of with_sender account_sent
    note_times update_tau packet_write_poll write_by_mode write_all update_time set_w2w
ended-ssh = refl

client_round-Allowed_example : ClientAllowed ending.loop ended.loop
client_round-Allowed_example =
    client_round-Allowed aes sites [] (clock_at 1000) true ending ended last_round

client_send_item-IsSent_example :
    let d = client_send_item 2000 3 upward (client_at 1000) in
    (d.loop.waiting_for_a_packet ≡ true → ClientWaiting 2000 upward (client_at 1000) d)
    × (d.loop.waiting_for_a_packet ≡ false → ClientSent 2000 3 9 upward (client_at 1000) d)
client_send_item-IsSent_example =
    client_send_item-IsSent 2000 3 9 upward (client_at 1000) refl (omega arith)

-- An acknowledgement that came after the wait for it was given up is still there on the next page: the
-- first item of that page does not use it up, so that the second does not wait for its own.
abbrev late_ack : Client
late_ack = record (client_at 1000) {
  loop = record (server_in supertrace) {
    peer = record (peer_in supertrace) { urlack = true; first_client = true };
  };
}

stale_ack :
    let c = client_send_item 2000 3 (record upward { expected = 0 }) late_ack in
    expected_data upward c ≡ 50
unfolding client_send_item note_first expected_data client_received data_received client_size ◌+ℤ◌
    ◌-ℤ◌
stale_ack = refl

-- ===== src/Channel/Flow/Tests.antt =====
-- A channel of protocol 2 that reads five bytes, sends them in two messages, and is closed.
use csbu_flo.Channel.Flow.Quiet.{said, spent}
use csbu_flo.Channel.Flow.Window.{Run-output_bounded}
use csbu_flo.Channel.Flow.Stream.{heard, granted, Run-stream}
use csbu_flo.Channel.Flow.Legal.{Run-legal}
use csbu_flo.Channel.Closing.{legal}
use csbu_flo.Channel.Flow.{
  channel_handle_rfd, channel_input_data, channel_input_window_adjust, channel_output_poll,
  send_input, portion, send_extended, got, sent_datagram, read_ended, input_ended, channel_pre_open,
  input_channel_req,
}
use csbu_flo.Channel.Setup.Fresh.{confirmed-IsFresh}
use csbu_flo.Channel.Setup.{channel_input_open_confirmation, channel_new, channel_register_fds}
use csbu_flo.Channel.{
  Channel, Conn, chan_rcvd_oclose, in_closed, other, chan_rcvd_close2, out_wait_drain, read_usage,
  sent_data, chan_is_dead, rcvd_close2_input, shut_read, chan_obuf_empty, chan_shutdown_read, act,
  chan_read_failed, chan_ibuf_empty, input_drained, chan_send_eof2, chan_shutdown_write,
  output_drained, is_dead2, chan_send_close2, chan_rcvd_eow, reply, close, shut_write, eof,
  efd_input_active, efd_output_active,
}
use csbu_flo.Base.{true, ◌∷◌, [], false, ◌≡◌, length, refl, ◌≤◌, arith, ◌++◌, ◌+◌, ok, stop, spin}
use csbu_flo.Channel.Flow.Runs.{
  readable, polled, got_adjust, got_oclose, got_data, begin, IsFresh, handle, Run, step, Event,
  got_request, collected, prepared,
}

abbrev conn : Conn
conn = record {
  compat20 = true;
  compat13 = false;
  new_openssh = true;
  bug_exteof = false;
  interactive = true;
  maxsize = 32768;
}

-- A peer with room for three bytes.
abbrev made : Channel
made =
    channel_input_open_confirmation conn 3 4
      (channel_new true other true true false true 16 8 read_usage)

made-IsFresh : IsFresh made
made-IsFresh = confirmed-IsFresh conn true other true true false true 16 8 3 4 read_usage

abbrev reads : Channel
reads = record made { input = 1 ∷ 2 ∷ 3 ∷ 4 ∷ 5 ∷ [] }

abbrev sends : Channel
sends = record reads {
  input = 4 ∷ 5 ∷ [];
  remote_window = 0;
  did = sent_data (1 ∷ 2 ∷ 3 ∷ []) ∷ [];
}

abbrev allowed : Channel
allowed = record sends { remote_window = 10 }

abbrev hears : Channel
hears = record allowed { output = 7 ∷ 8 ∷ []; local_window = 14 }

abbrev shuts : Channel
shuts = record hears {
  close_rcvd = true;
  istate = in_closed;
  ostate = out_wait_drain;
  did = shut_read ∷ sent_data (1 ∷ 2 ∷ 3 ∷ []) ∷ [];
}

run_reads : Run conn made reads
unfolding handle channel_handle_rfd channel_input_open_confirmation channel_new channel_register_fds
run_reads = step (readable (got (1 ∷ 2 ∷ 3 ∷ 4 ∷ 5 ∷ []))) begin refl

run_sends : Run conn made sends
unfolding handle channel_output_poll send_input portion send_extended act
    channel_input_open_confirmation channel_new channel_register_fds
run_sends = step polled run_reads refl

run_allowed : Run conn made allowed
unfolding handle channel_input_window_adjust channel_input_open_confirmation channel_new
    channel_register_fds
run_allowed = step (got_adjust 10) run_sends refl

run_hears : Run conn made hears
unfolding handle channel_input_data channel_input_open_confirmation channel_new channel_register_fds
run_hears = step (got_data (7 ∷ 8 ∷ [])) run_allowed refl

run_shuts : Run conn made shuts
unfolding handle chan_rcvd_oclose chan_rcvd_close2 rcvd_close2_input chan_shutdown_read act
    channel_input_open_confirmation channel_new channel_register_fds
run_shuts = step got_oclose run_hears refl

-- Another end of the same channel: the descriptor is at its end, EOF is said, the peer closes, CLOSE is
-- said, and a request that comes then is still answered.
abbrev after : Event → Channel → Channel
after e c = elim (handle conn e c) [ ok d ↦ d | stop _ ↦ c | spin ↦ c ]

abbrev drained : Channel
drained = after polled (after polled (after (readable (got [])) allowed))

abbrev closes : Channel
closes =
    after (got_request true true false)
      (after (collected true) (after prepared (after got_oclose drained)))

run_closes : Run conn made closes
unfolding handle channel_handle_rfd read_ended chan_read_failed channel_output_poll send_input
    portion send_extended input_ended chan_ibuf_empty input_drained chan_send_eof2 chan_rcvd_oclose
    chan_rcvd_close2 rcvd_close2_input chan_shutdown_read chan_shutdown_write channel_pre_open
    chan_obuf_empty output_drained chan_is_dead is_dead2 chan_send_close2 input_channel_req
    chan_rcvd_eow act channel_input_open_confirmation channel_new channel_register_fds
run_closes =
    step (got_request true true false)
      (step (collected true)
        (step prepared
          (step got_oclose
            (step polled (step polled (step (readable (got [])) run_allowed refl) refl) refl) refl)
          refl)
        refl)
      refl

closes_says :
    closes.did
    ≡ reply false
      ∷ close
      ∷ shut_write
      ∷ eof
      ∷ sent_data (4 ∷ 5 ∷ [])
      ∷ shut_read
      ∷ sent_data (1 ∷ 2 ∷ 3 ∷ [])
      ∷ []
unfolding handle channel_handle_rfd read_ended chan_read_failed channel_output_poll send_input
    portion send_extended input_ended chan_ibuf_empty input_drained chan_send_eof2 chan_rcvd_oclose
    chan_rcvd_close2 rcvd_close2_input chan_shutdown_read chan_shutdown_write channel_pre_open
    chan_obuf_empty output_drained chan_is_dead is_dead2 chan_send_close2 input_channel_req
    chan_rcvd_eow act channel_input_open_confirmation channel_new channel_register_fds
    efd_input_active efd_output_active
closes_says = refl

Run-legal_example : legal closes.did ≡ true
Run-legal_example = Run-legal conn refl made closes made-IsFresh run_closes

Run-stream_example :
    (said shuts.did ++ shuts.input ≡ heard conn refl run_shuts)
    × (spent shuts.did + shuts.remote_window ≡ granted conn refl run_shuts)
unfolding channel_input_open_confirmation channel_new channel_register_fds heard granted run_shuts
    run_hears run_allowed run_sends run_reads
Run-stream_example = Run-stream conn refl made-IsFresh refl run_shuts (omega arith)

Run-output_bounded_example : length shuts.output ≤ made.local_window_max
unfolding channel_input_open_confirmation channel_new channel_register_fds
Run-output_bounded_example =
    Run-output_bounded conn refl refl made shuts made-IsFresh refl (omega arith) run_shuts

-- A datagram of three bytes in a window of five: four bytes of length more, and the window wraps.
datagram_wraps :
    (sent_datagram
      (1 ∷ 2 ∷ 3 ∷ [])
      (record made { remote_window = 5; remote_maxpacket = 8 })).remote_window
    ≡ 4294967294
unfolding sent_datagram act
datagram_wraps = refl

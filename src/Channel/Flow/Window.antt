-- ===== src/Channel/Flow/Window.antt =====
-- How much a peer can make a channel hold, under protocol 2: the window of the channel bounds it.
use csbu_flo.Channel.{
  out_open, chan_ibuf_empty, chan_is_dead, chan_obuf_empty, chan_rcvd_eow, chan_rcvd_ieof,
  chan_rcvd_oclose, chan_read_failed, chan_write_failed, rcvd_close2_input, act, chan_mark_dead,
  chan_rcvd_close2, chan_rcvd_eof2, chan_send_eof2, chan_shutdown_read, chan_write_failed2,
  input_drained, is_dead2, is_in_open, output_drained, InState, chan_send_close2, chan_send_ieof1,
  chan_shutdown_write, out_wait_drain, write_failed2, chan_send_eow2, chan_send_oclose1, is_opened,
  set_istate, in_wait_drain, is_in_wait_drain, efd_input_active,
}
use csbu_flo.Base.{
  arith, ℕ, if◌then◌else◌, ◌<◌, ◌≡◌, true, ◌^◌, false, length, ◌&&◌, ◌+◌, List, ◌≤◌, Bool,
  length-append, not, ◌==◌, ◌>>=◌, ok, ◌||◌, length-drop, refl, if_at_false, if_both, min, ltb,
}
use csbu_flo.Channel.Flow.{
  Channel, Conn, is_write, channel_check_window, channel_handle_efd, channel_handle_rfd,
  channel_handle_wfd, channel_input_data, channel_input_extended_data, channel_input_ieof,
  channel_output_poll, channel_pre_open, input_ended, kept_extended, read_ended, send_extended,
  send_input, write_ended, write_stream, FdRead, FdWrite, efd_read, simulated_echo,
  channel_input_window_adjust, efd_written, passed_over, wrote, again, write_error,
  input_channel_req,
}
use csbu_flo.Channel.Flow.Runs.{
  readable, writable, extended_ready, polled, checked, prepared, read_failed, write_failed,
  marked_dead, collected, got_data, got_extended, got_ieof, got_oclose, got_request, got_adjust,
  IsFresh, handle, After, Run, After-if, Run-keeps, Event, returned, stopped,
}

-- The extended data that has come from the peer.
abbrev pub received_extended : Channel → ℕ
received_extended c = if is_write c.extended_usage then length c.extended else 0

-- While the output is open, what is buffered, what has been consumed and not granted again, and what
-- may still come are no more than `limit` together.
record Held (limit : ℕ) (c : Channel) : Type 0 where
  all_within :
      c.ostate ≡ out_open
      → c.local_window + c.local_consumed + length c.output + received_extended c ≤ limit
  output_within : length c.output ≤ limit
  stream : c.datagram ≡ false

module _ (limit : ℕ) (small : limit < 2 ^ 32) (conn : Conn) (v2 : conn.compat20 ≡ true)
    (not13 : conn.compat13 ≡ false) where
  chan_read_failed-Held : (c : Channel) → Held limit c → Held limit (chan_read_failed conn c)
  unfolding chan_read_failed chan_shutdown_read act
  chan_read_failed-Held c h = ground arith

  chan_ibuf_empty-Held : (c : Channel) → Held limit c → Held limit (chan_ibuf_empty conn c)
  unfolding chan_ibuf_empty input_drained chan_send_eof2 chan_send_ieof1 act
  chan_ibuf_empty-Held c h = ground arith

  chan_obuf_empty-Held : (c : Channel) → Held limit c → Held limit (chan_obuf_empty conn c)
  unfolding chan_obuf_empty output_drained chan_shutdown_write chan_send_oclose1 act
  chan_obuf_empty-Held c h = ground arith

  chan_rcvd_eow-Held : (c : Channel) → Held limit c → Held limit (chan_rcvd_eow conn c)
  unfolding chan_rcvd_eow chan_shutdown_read act
  chan_rcvd_eow-Held c h = ground arith

  chan_write_failed-Held : (c : Channel) → Held limit c → Held limit (chan_write_failed conn c)
  unfolding chan_write_failed chan_write_failed2 write_failed2 chan_send_eow2 chan_shutdown_write
      act
  chan_write_failed-Held c h = ground arith

  rcvd_close2_input-Held :
      (i : InState) (c : Channel) → Held limit c → Held limit (rcvd_close2_input conn i c)
  unfolding rcvd_close2_input chan_send_eof2 chan_shutdown_read act
  rcvd_close2_input-Held i c h = ground arith

  chan_rcvd_oclose-Held : (c : Channel) → Held limit c → Held limit (chan_rcvd_oclose conn c)
  unfolding chan_rcvd_oclose chan_rcvd_close2
  chan_rcvd_oclose-Held c h = ground (
    arith,
    rcvd_close2_input-Held c.istate (record c { close_rcvd = not c.local || c.close_rcvd }),
    rcvd_close2_input-Held c.istate
        (record c { close_rcvd = not c.local || c.close_rcvd; ostate = out_wait_drain }),
  )

  chan_rcvd_ieof-Held : (c : Channel) → Held limit c → Held limit (chan_rcvd_ieof conn c)
  unfolding chan_rcvd_ieof chan_rcvd_eof2
  chan_rcvd_ieof-Held c h = ground (
    arith,
    chan_obuf_empty-Held (record c { eof_rcvd = true }),
    chan_obuf_empty-Held (record c { eof_rcvd = true; ostate = out_wait_drain }),
  )

  read_ended-Held : (c : Channel) → Held limit c → Held limit (read_ended conn c)
  unfolding read_ended chan_mark_dead
  read_ended-Held c h = ground (arith, chan_read_failed-Held c h)

  write_ended-Held : (c : Channel) → Held limit c → Held limit (write_ended conn c)
  unfolding write_ended chan_mark_dead
  write_ended-Held c h = ground (arith, chan_write_failed-Held c h)

  chan_is_dead-Held :
      (do_send : Bool) (c : Channel) → Held limit c → Held limit (chan_is_dead conn do_send c).1
  unfolding chan_is_dead is_dead2 chan_send_close2 act
  chan_is_dead-Held do_send c h = ground arith

  channel_handle_rfd-Held :
      (r : FdRead) (c : Channel) → Held limit c → Held limit (channel_handle_rfd conn r c)
  unfolding channel_handle_rfd
  channel_handle_rfd-Held r c h = ground (arith, read_ended-Held c h)

  -- What is written counts as consumed.
  write_stream-Held :
      (r : FdWrite) (no_echo : Bool) (c : Channel)
      → Held limit c
      → Held limit (write_stream conn r no_echo (length c.output) c)
  unfolding write_stream simulated_echo act
  write_stream-Held again no_echo c h = h
  write_stream-Held write_error no_echo c h = write_ended-Held c h
  write_stream-Held (wrote n) no_echo c h =
      ground (arith, write_ended-Held c h, length-drop (min n (length c.output)) c.output)

  channel_handle_wfd-Held :
      (r : FdWrite) (no_echo : Bool) (c : Channel)
      → Held limit c
      → After (Held limit) (channel_handle_wfd conn r no_echo c)
  unfolding channel_handle_wfd
  channel_handle_wfd-Held r no_echo c h =
      After-if (Held limit) (not c.wfd || length c.output == 0) _ _ (λ _. returned h)
        λ _.
          if_at_false (After (Held limit)) _ _ h.stream (returned (write_stream-Held r no_echo c h))

  channel_handle_efd-Held :
      (w : FdWrite) (r : FdRead) (c : Channel)
      → Held limit c
      → Held limit (channel_handle_efd w r c)
  unfolding channel_handle_efd efd_read efd_written
  channel_handle_efd-Held again r c h = ground arith
  channel_handle_efd-Held write_error r c h = ground arith
  channel_handle_efd-Held (wrote n) r c h =
      ground (arith, length-drop (min n (length c.extended)) c.extended)

  channel_check_window-Held : (c : Channel) → Held limit c → Held limit (channel_check_window c)
  unfolding channel_check_window act
  channel_check_window-Held c h = ground arith

  channel_pre_open-Held : (c : Channel) → Held limit c → Held limit (channel_pre_open conn c)
  unfolding channel_pre_open
  channel_pre_open-Held c h = ground (arith, chan_obuf_empty-Held c h)

  channel_input_data-Held :
      (bytes : List ℕ) (c : Channel) → Held limit c → Held limit (channel_input_data conn bytes c)
  unfolding channel_input_data
  channel_input_data-Held bytes c h = ground (arith, length-append c.output bytes)

  kept_extended-Held :
      (tcode : ℕ) (bytes : List ℕ) (c : Channel)
      → Held limit c
      → Held limit (kept_extended tcode bytes c)
  unfolding kept_extended
  kept_extended-Held tcode bytes c h = ground (arith, length-append c.extended bytes)

  channel_input_extended_data-Held :
      (tcode : ℕ) (bytes : List ℕ) (c : Channel)
      → Held limit c
      → After (Held limit) (channel_input_extended_data conn tcode bytes c)
  unfolding channel_input_extended_data
  channel_input_extended_data-Held tcode bytes c h =
      After-if (Held limit) (not (is_opened c.kind)) _ _ (λ _. returned h)
        λ _.
          After-if (Held limit) (c.eof_rcvd && not conn.bug_exteof) _ _ (λ _. stopped)
            λ _. returned (kept_extended-Held tcode bytes c h)

  forced-Held :
      (c1 : Channel)
      → Held limit c1
      → Held limit (
          if c1.force_drain && is_in_open c1.istate
          then (if length c1.input == 0
              then chan_ibuf_empty conn (set_istate in_wait_drain c1)
              else set_istate in_wait_drain c1)
          else c1)
  forced-Held c1 q = ground (arith, chan_ibuf_empty-Held (set_istate in_wait_drain c1))

  channel_input_ieof-Held : (c : Channel) → Held limit c → Held limit (channel_input_ieof conn c)
  unfolding channel_input_ieof
  channel_input_ieof-Held c h = forced-Held (chan_rcvd_ieof conn c) (chan_rcvd_ieof-Held c h)

  send_input-Held : (c : Channel) → Held limit c → Held limit (send_input conn c)
  unfolding send_input act
  send_input-Held c h = ground arith

  -- Extended data is sent only where it is read from the local side.
  send_extended-Held : (c : Channel) → Held limit c → Held limit (send_extended conn c)
  unfolding send_extended act
  send_extended-Held c h = ground arith

  input_ended-Held :
      (c : Channel)
      → Held limit c
      → After (Held limit) (input_ended conn c >>= λ c'. ok (send_extended conn c'))
  unfolding input_ended
  input_ended-Held c h =
      if_at_false (λ o. After (Held limit) (o >>= λ c'. ok (send_extended conn c'))) _ _ not13
        (returned (
          send_extended-Held (if efd_input_active conn c then c else chan_ibuf_empty conn c)
            (if_both (Held limit) (efd_input_active conn c) _ _ h (chan_ibuf_empty-Held c h))))

  channel_output_poll-Held :
      (c : Channel) → Held limit c → After (Held limit) (channel_output_poll conn c)
  unfolding channel_output_poll
  channel_output_poll-Held c h =
      After-if (Held limit) (passed_over conn c) _ _ (λ _. returned h)
        λ _.
          After-if (Held limit)
            ((is_in_open c.istate || is_in_wait_drain c.istate) && ltb 0 (length c.input)) _ _
            (λ _.
              if_at_false (After (Held limit)) _ _ h.stream
                (returned (send_extended-Held (send_input conn c) (send_input-Held c h))))
            λ _.
              After-if (Held limit) (is_in_wait_drain c.istate) _ _ (λ _. input_ended-Held c h)
                (λ _. returned (send_extended-Held c h))

  input_channel_req-Held :
      (is_eow want_reply success : Bool) (c : Channel)
      → Held limit c
      → Held limit (input_channel_req conn is_eow want_reply success c)
  unfolding input_channel_req act
  input_channel_req-Held true want_reply success c h = ground (arith, chan_rcvd_eow-Held c h)
  input_channel_req-Held false want_reply success c h = ground arith

  handle-Held : (e : Event) (c : Channel) → Held limit c → After (Held limit) (handle conn e c)
  unfolding handle chan_mark_dead channel_input_window_adjust
  handle-Held (readable r) c h = returned (channel_handle_rfd-Held r c h)
  handle-Held (writable r no_echo) c h = channel_handle_wfd-Held r no_echo c h
  handle-Held (extended_ready w r) c h = returned (channel_handle_efd-Held w r c h)
  handle-Held polled c h = channel_output_poll-Held c h
  handle-Held checked c h = returned (channel_check_window-Held c h)
  handle-Held prepared c h = returned (channel_pre_open-Held c h)
  handle-Held read_failed c h = returned (chan_read_failed-Held c h)
  handle-Held write_failed c h = returned (chan_write_failed-Held c h)
  handle-Held marked_dead c h = returned (ground arith)
  handle-Held (collected do_send) c h = returned (chan_is_dead-Held do_send c h)
  handle-Held (got_data bytes) c h = returned (channel_input_data-Held bytes c h)
  handle-Held (got_extended tcode bytes) c h = channel_input_extended_data-Held tcode bytes c h
  handle-Held got_ieof c h = returned (channel_input_ieof-Held c h)
  handle-Held got_oclose c h = returned (chan_rcvd_oclose-Held c h)
  handle-Held (got_request is_eow want_reply success) c h =
      returned (input_channel_req-Held is_eow want_reply success c h)
  handle-Held (got_adjust n) c h = returned (ground arith)

  fresh-Held :
      (c : Channel) → IsFresh c → c.local_window_max ≡ limit → c.datagram ≡ false → Held limit c
  fresh-Held c f w d = ground (arith, f.all_granted, f.none_consumed, f.no_output, f.no_extended)

-- Whatever the peer sends and however much of it, a channel never holds more data for its local
-- descriptor than the window it was made with. (Protocol 2; a channel without datagrams.)
pub Run-output_bounded :
    (conn : Conn)
    → conn.compat20 ≡ true
    → conn.compat13 ≡ false
    → (c d : Channel) → IsFresh c
    → c.datagram ≡ false
    → c.local_window_max < 2 ^ 32
    → Run conn c d
    → length d.output ≤ c.local_window_max
Run-output_bounded conn v2 not13 c d f g small run =
    (Run-keeps (Held c.local_window_max) (handle-Held c.local_window_max small conn v2 not13) run
      (fresh-Held c.local_window_max small conn v2 not13 c f refl g)).output_within

-- ===== src/Channel/Flow/Legal.antt =====
-- What a channel says to its peer under protocol 2, over every run.
use csbu_flo.Channel.Flow.Runs.{
  After, After-if, After-bind, handle, returned, stopped, Run, Run-keeps, Event, readable, writable,
  extended_ready, collected, got_data, got_extended, IsFresh, got_adjust, polled, checked, prepared,
  read_failed, write_failed, marked_dead, got_ieof, got_oclose, got_request,
}
use csbu_flo.Channel.Closing.{
  Sound, chan_obuf_empty-Sound, chan_read_failed-Sound, chan_write_failed-Sound, has_eof, has_close,
  legal, chan_ibuf_empty-Sound, chan_rcvd_ieof-Sound, chan_ibuf_empty-close_sent,
  chan_is_dead-Sound, chan_rcvd_oclose-Sound, chan_rcvd_eow-Sound,
}
use csbu_flo.Channel.Flow.{
  channel_check_window, channel_handle_efd, channel_handle_rfd, channel_handle_wfd,
  channel_input_data, channel_input_extended_data, channel_input_ieof, channel_pre_open, read_ended,
  write_datagram, write_ended, write_stream, FdRead, FdWrite, datagram_write_ended, efd_read,
  simulated_echo, efd_written, channel_output_poll, input_ended, send_extended, send_input,
  sent_datagram, get_string, send_datagram, channel_input_window_adjust, kept_extended, passed_over,
  cannot_happen, input_channel_req,
}
use csbu_flo.Channel.{
  Conn, Channel, act, chan_mark_dead, in_open, set_istate, in_wait_drain, is_in_open,
  is_in_wait_drain, chan_ibuf_empty, chan_rcvd_ieof, efd_input_active, is_opened,
}
use csbu_flo.Base.{
  arith, ◌≡◌, true, List, ℕ, Bool, length, false, if◌then◌else◌, ◌&&◌, ◌||◌, and_left, ◌==◌, ◌>>=◌,
  ok, ◌∙◌, not, stop, ltb,
}

not_closed :
    (skipped v closed rcvd : Bool)
    → v ≡ true
    → (skipped || v && (closed || rcvd)) ≡ false
    → closed ≡ false
not_closed skipped v closed rcvd h e = ground arith

module _ (conn : Conn) (v2 : conn.compat20 ≡ true) where
  read_ended-Sound : (c : Channel) → Sound c → Sound (read_ended conn c)
  unfolding read_ended chan_mark_dead
  read_ended-Sound c h = ground (arith, chan_read_failed-Sound conn v2 c)

  channel_handle_rfd-Sound :
      (r : FdRead) (c : Channel) → Sound c → Sound (channel_handle_rfd conn r c)
  unfolding channel_handle_rfd
  channel_handle_rfd-Sound r c h = ground (arith, read_ended-Sound c h)

  write_ended-Sound : (c : Channel) → Sound c → Sound (write_ended conn c)
  unfolding write_ended chan_mark_dead
  write_ended-Sound c h = ground (arith, chan_write_failed-Sound conn v2 c)

  write_datagram-Sound :
      (r : FdWrite) (olen : ℕ) (c : Channel) → Sound c → Sound (write_datagram conn r olen c)
  unfolding write_datagram datagram_write_ended chan_mark_dead
  write_datagram-Sound r olen c h = ground (arith, chan_write_failed-Sound conn v2 c)

  write_stream-Sound :
      (r : FdWrite) (no_echo : Bool) (olen : ℕ) (c : Channel)
      → Sound c
      → Sound (write_stream conn r no_echo olen c)
  unfolding write_stream simulated_echo act has_eof has_close legal
  write_stream-Sound r no_echo olen c h = ground (arith, write_ended-Sound c h)

  channel_handle_wfd-Sound :
      (r : FdWrite) (no_echo : Bool) (c : Channel)
      → Sound c
      → After Sound (channel_handle_wfd conn r no_echo c)
  unfolding channel_handle_wfd
  channel_handle_wfd-Sound r no_echo c h =
      let olen = length c.output in
      After-if Sound (not c.wfd || olen == 0) _ _ (λ _. returned h)
        λ _.
          After-if Sound c.datagram _ _
            (λ _. After-bind Sound (get_string c.output) _ λ b.
              returned (write_datagram-Sound r olen (record c { output = b.1 }) (ground arith)))
            (λ _. returned (write_stream-Sound r no_echo olen c h))

  channel_handle_efd-Sound :
      (w : FdWrite) (r : FdRead) (c : Channel) → Sound c → Sound (channel_handle_efd w r c)
  unfolding channel_handle_efd efd_read efd_written
  channel_handle_efd-Sound w r c h = ground arith

  channel_check_window-Sound : (c : Channel) → Sound c → Sound (channel_check_window c)
  unfolding channel_check_window act has_eof has_close legal
  channel_check_window-Sound c h = ground arith

  channel_pre_open-Sound : (c : Channel) → Sound c → Sound (channel_pre_open conn c)
  unfolding channel_pre_open
  channel_pre_open-Sound c h = ground (arith, chan_obuf_empty-Sound conn v2 c)

  channel_input_data-Sound :
      (bytes : List ℕ) (c : Channel) → Sound c → Sound (channel_input_data conn bytes c)
  unfolding channel_input_data
  channel_input_data-Sound bytes c h = ground arith

  kept_extended-Sound :
      (tcode : ℕ) (bytes : List ℕ) (c : Channel) → Sound c → Sound (kept_extended tcode bytes c)
  unfolding kept_extended
  kept_extended-Sound tcode bytes c h = ground arith

  channel_input_extended_data-Sound :
      (tcode : ℕ) (bytes : List ℕ) (c : Channel)
      → Sound c
      → After Sound (channel_input_extended_data conn tcode bytes c)
  unfolding channel_input_extended_data
  channel_input_extended_data-Sound tcode bytes c h =
      After-if Sound (not (is_opened c.kind)) _ _ (λ _. returned h)
        λ _.
          After-if Sound (c.eof_rcvd && not conn.bug_exteof) _ _ (λ _. stopped)
            λ _. returned (kept_extended-Sound tcode bytes c h)

  forced_drain-Sound :
      (c : Channel) → Sound c → c.istate ≡ in_open → Sound (set_istate in_wait_drain c)
  forced_drain-Sound c h e = ground arith

  channel_input_ieof-Sound : (c : Channel) → Sound c → Sound (channel_input_ieof conn c)
  unfolding channel_input_ieof
  channel_input_ieof-Sound c h = forced (chan_rcvd_ieof conn c) (chan_rcvd_ieof-Sound conn v2 c h)
    where
      forced :
          (c1 : Channel)
          → Sound c1
          → Sound (
              if c1.force_drain && is_in_open c1.istate
              then (if length c1.input == 0
                  then chan_ibuf_empty conn (set_istate in_wait_drain c1)
                  else set_istate in_wait_drain c1)
              else c1)
      forced c1 h1 = ground (
        arith,
        forced_drain-Sound c1 h1,
        chan_ibuf_empty-Sound conn v2 (set_istate in_wait_drain c1),
      )

  -- The bytes of the input go before EOF and CLOSE.
  send_input-Sound :
      (c : Channel)
      → Sound c
      → c.close_sent ≡ false
      → c.eof_sent ≡ false
      → Sound (send_input conn c)
  unfolding send_input act has_eof has_close legal
  send_input-Sound c h nc ne = ground arith

  send_extended-Sound :
      (c : Channel) → Sound c → c.close_sent ≡ false → Sound (send_extended conn c)
  unfolding send_extended act has_eof has_close legal
  send_extended-Sound c h nc = ground arith

  sent_datagram-Sound :
      (bytes : List ℕ) (c : Channel)
      → Sound c
      → c.close_sent ≡ false
      → c.eof_sent ≡ false
      → Sound (sent_datagram bytes c)
  unfolding sent_datagram act has_eof has_close legal
  sent_datagram-Sound bytes c h nc ne = ground arith

  send_datagram-Sound :
      (c : Channel)
      → Sound c
      → c.close_sent ≡ false
      → c.eof_sent ≡ false
      → After Sound (send_datagram c)
  unfolding send_datagram
  send_datagram-Sound c h nc ne =
      After-bind Sound (get_string c.input) _
        λ r. returned (sent_datagram-Sound r.0 (record c { input = r.1 }) (ground arith) nc ne)

  input_kept :
      (c : Channel)
      → Sound c
      → c.close_sent ≡ false
      → (b : Bool) → Sound (send_extended conn (if b then c else chan_ibuf_empty conn c))
  input_kept c h nc true = send_extended-Sound c h nc
  input_kept c h nc false =
      send_extended-Sound (chan_ibuf_empty conn c) (chan_ibuf_empty-Sound conn v2 c h)
        (chan_ibuf_empty-close_sent conn v2 c ∙ nc)

  input_ended-Sound :
      (c : Channel)
      → Sound c
      → c.close_sent ≡ false
      → After Sound (input_ended conn c >>= λ c'. ok (send_extended conn c'))
  unfolding input_ended
  input_ended-Sound c h nc = go conn.compat13
    where
      go :
          (b : Bool)
          → After Sound (
              (if b
                then stop cannot_happen
                else ok (if efd_input_active conn c then c else chan_ibuf_empty conn c))
              >>= λ c'. ok (send_extended conn c'))
      go true = stopped
      go false = returned (input_kept c h nc (efd_input_active conn c))

  open_unsent :
      (c : Channel)
      → Sound c
      → (is_in_open c.istate || is_in_wait_drain c.istate) ≡ true
      → c.eof_sent ≡ false
  open_unsent c h o = ground arith

  send_input-close_sent : (c : Channel) → (send_input conn c).close_sent ≡ c.close_sent
  unfolding send_input act
  send_input-close_sent c = ground arith

  channel_output_poll-Sound : (c : Channel) → Sound c → After Sound (channel_output_poll conn c)
  unfolding channel_output_poll
  channel_output_poll-Sound c h =
      After-if Sound (passed_over conn c) _ _ (λ _. returned h)
        λ e.
          let nc = not_closed _ _ c.close_sent c.close_rcvd v2 e in
          After-if Sound
            ((is_in_open c.istate || is_in_wait_drain c.istate) && ltb 0 (length c.input)) _ _
            (λ o.
              let ne = open_unsent c h (and_left _ _ o) in
              After-if Sound c.datagram _ _ (λ _. send_datagram-Sound c h nc ne)
                (λ _. returned (
                  send_extended-Sound (send_input conn c) (send_input-Sound c h nc ne)
                    (send_input-close_sent c ∙ nc))))
            λ _.
              After-if Sound (is_in_wait_drain c.istate) _ _ (λ _. input_ended-Sound c h nc)
                (λ _. returned (send_extended-Sound c h nc))

  -- A reply counts neither as data nor as closing.
  input_channel_req-Sound :
      (is_eow want_reply success : Bool) (c : Channel)
      → Sound c
      → Sound (input_channel_req conn is_eow want_reply success c)
  unfolding input_channel_req act legal has_eof has_close
  input_channel_req-Sound true want_reply success c h =
      ground (arith, chan_rcvd_eow-Sound conn v2 c h)
  input_channel_req-Sound false want_reply success c h = ground arith

  handle-Sound : (e : Event) (c : Channel) → Sound c → After Sound (handle conn e c)
  unfolding handle chan_mark_dead channel_input_window_adjust
  handle-Sound (readable r) c h = returned (channel_handle_rfd-Sound r c h)
  handle-Sound (writable r no_echo) c h = channel_handle_wfd-Sound r no_echo c h
  handle-Sound (extended_ready w r) c h = returned (channel_handle_efd-Sound w r c h)
  handle-Sound polled c h = channel_output_poll-Sound c h
  handle-Sound checked c h = returned (channel_check_window-Sound c h)
  handle-Sound prepared c h = returned (channel_pre_open-Sound c h)
  handle-Sound read_failed c h = returned (chan_read_failed-Sound conn v2 c h)
  handle-Sound write_failed c h = returned (chan_write_failed-Sound conn v2 c h)
  handle-Sound marked_dead c h = returned (ground arith)
  handle-Sound (collected do_send) c h = returned (chan_is_dead-Sound conn v2 do_send c h)
  handle-Sound (got_data bytes) c h = returned (channel_input_data-Sound bytes c h)
  handle-Sound (got_extended tcode bytes) c h = channel_input_extended_data-Sound tcode bytes c h
  handle-Sound got_ieof c h = returned (channel_input_ieof-Sound c h)
  handle-Sound got_oclose c h = returned (chan_rcvd_oclose-Sound conn v2 c h)
  handle-Sound (got_request is_eow want_reply success) c h =
      returned (input_channel_req-Sound is_eow want_reply success c h)
  handle-Sound (got_adjust n) c h = returned (ground arith)

  fresh-Sound : (c : Channel) → IsFresh c → Sound c
  unfolding has_eof has_close legal
  fresh-Sound c f = ground arith

  -- Under protocol 2, from a channel that has said nothing, every run says at most one EOF and at most
  -- one CLOSE; no data comes after EOF, and after CLOSE neither data nor a window adjustment, EOF or EOW.
  -- The replies to channel requests, which are sent after CLOSE as well, are not counted.
  pub Run-legal : (c d : Channel) → IsFresh c → Run conn c d → legal d.did ≡ true
  Run-legal c d f run = (Run-keeps Sound handle-Sound run (fresh-Sound c f)).said_legal

-- ===== src/Channel/Flow/Quiet.antt =====
-- The data that a channel has sent, and the handlers that send none.
use csbu_flo.Channel.Flow.{
  channel_check_window, channel_handle_efd, channel_handle_wfd, channel_input_data,
  channel_input_extended_data, channel_input_ieof, channel_pre_open, kept_extended, read_ended,
  write_datagram, write_ended, write_stream, FdWrite, datagram_write_ended, efd_read,
  simulated_echo, efd_written, FdRead, get_string, input_channel_req,
}
use csbu_flo.Channel.{
  Channel, Conn, Act, chan_read_failed, chan_shutdown_read, act, sent_data, ext_data,
  chan_ibuf_empty, chan_is_dead, chan_obuf_empty, chan_rcvd_eow, chan_rcvd_ieof, chan_rcvd_oclose,
  chan_write_failed, chan_write_failed2, rcvd_close2_input, rcvd_ieof1_by, rcvd_oclose1_by,
  write_failed1_by, OutState, chan_mark_dead, chan_rcvd_close2, chan_rcvd_eof2, chan_send_eof2,
  chan_send_ieof1, chan_send_oclose1, input_drained, is_dead2, output_drained, write_failed2,
  InState, chan_send_close2, chan_send_eow2, chan_shutdown_write, is_in_open, is_opened,
  out_wait_drain, set_istate, in_wait_drain,
}
use csbu_flo.Channel.Flow.Runs.{After, After-if, returned, After-bind, stopped}
use csbu_flo.Base.{
  arith, List, [], ℕ, ◌≡◌, ◌++◌, ◌∷◌, ◌+◌, length, if◌then◌else◌, ◌&&◌, Bool, not, true, ◌==◌, ◌||◌,
  false,
}

-- The data sent, in the order of the stream.
unfoldable pub said : List Act → List ℕ
said [] = []
said (sent_data bytes ∷ did) = said did ++ bytes
said (_ ∷ did) = said did

-- How much of the peer's window it took.
unfoldable pub spent : List Act → ℕ
spent [] = 0
spent (sent_data bytes ∷ did) = spent did + length bytes
spent (ext_data bytes ∷ did) = spent did + length bytes
spent (_ ∷ did) = spent did

-- Nothing is sent, and nothing comes in.
pub record Quiet (c c' : Channel) : Type 0 where
  pub same_said : said c'.did ≡ said c.did
  pub same_spent : spent c'.did ≡ spent c.did
  pub same_input : c'.input ≡ c.input
  pub same_window : c'.remote_window ≡ c.remote_window
  pub same_datagram : c'.datagram ≡ c.datagram

module _ (conn : Conn) where
  pub chan_read_failed-Quiet : (c : Channel) → Quiet c (chan_read_failed conn c)
  unfolding chan_read_failed chan_shutdown_read act said spent
  chan_read_failed-Quiet c = ground arith

  pub chan_ibuf_empty-Quiet : (c : Channel) → Quiet c (chan_ibuf_empty conn c)
  unfolding chan_ibuf_empty input_drained chan_send_eof2 chan_send_ieof1 act said spent
  chan_ibuf_empty-Quiet c = ground arith

  pub chan_obuf_empty-Quiet : (c : Channel) → Quiet c (chan_obuf_empty conn c)
  unfolding chan_obuf_empty output_drained chan_shutdown_write chan_send_oclose1 act said spent
  chan_obuf_empty-Quiet c = ground arith

  pub chan_rcvd_eow-Quiet : (c : Channel) → Quiet c (chan_rcvd_eow conn c)
  unfolding chan_rcvd_eow chan_shutdown_read act said spent
  chan_rcvd_eow-Quiet c = ground arith

  pub chan_write_failed2-Quiet : (c : Channel) → Quiet c (chan_write_failed2 conn c)
  unfolding chan_write_failed2 write_failed2 chan_send_eow2 chan_shutdown_write act said spent
  chan_write_failed2-Quiet c = ground arith

  pub write_failed1_by-Quiet : (o : OutState) (c : Channel) → Quiet c (write_failed1_by conn o c)
  unfolding write_failed1_by chan_send_oclose1 chan_shutdown_write act said spent
  write_failed1_by-Quiet o c = ground arith

  pub chan_write_failed-Quiet : (c : Channel) → Quiet c (chan_write_failed conn c)
  unfolding chan_write_failed
  chan_write_failed-Quiet c =
      ground (arith, chan_write_failed2-Quiet c, write_failed1_by-Quiet c.ostate c)

  pub rcvd_close2_input-Quiet : (i : InState) (c : Channel) → Quiet c (rcvd_close2_input conn i c)
  unfolding rcvd_close2_input chan_send_eof2 chan_shutdown_read act said spent
  rcvd_close2_input-Quiet i c = ground arith

  pub rcvd_oclose1_by-Quiet : (i : InState) (c : Channel) → Quiet c (rcvd_oclose1_by conn i c)
  unfolding rcvd_oclose1_by chan_send_ieof1 chan_shutdown_read act said spent
  rcvd_oclose1_by-Quiet i c = ground arith

  pub chan_rcvd_oclose-Quiet : (c : Channel) → Quiet c (chan_rcvd_oclose conn c)
  unfolding chan_rcvd_oclose chan_rcvd_close2
  chan_rcvd_oclose-Quiet c = ground (
    arith,
    rcvd_oclose1_by-Quiet c.istate c,
    rcvd_close2_input-Quiet c.istate (record c { close_rcvd = not c.local || c.close_rcvd }),
    rcvd_close2_input-Quiet c.istate
        (record c { close_rcvd = not c.local || c.close_rcvd; ostate = out_wait_drain }),
  )

  pub rcvd_ieof1_by-Quiet : (o : OutState) (c : Channel) → Quiet c (rcvd_ieof1_by o c)
  unfolding rcvd_ieof1_by
  rcvd_ieof1_by-Quiet o c = ground arith

  pub chan_rcvd_ieof-Quiet : (c : Channel) → Quiet c (chan_rcvd_ieof conn c)
  unfolding chan_rcvd_ieof chan_rcvd_eof2
  chan_rcvd_ieof-Quiet c = ground (
    arith,
    rcvd_ieof1_by-Quiet c.ostate c,
    chan_obuf_empty-Quiet (rcvd_ieof1_by c.ostate c),
    chan_obuf_empty-Quiet (record c { eof_rcvd = true }),
    chan_obuf_empty-Quiet (record c { eof_rcvd = true; ostate = out_wait_drain }),
  )

  pub chan_is_dead-Quiet : (do_send : Bool) (c : Channel) → Quiet c (chan_is_dead conn do_send c).1
  unfolding chan_is_dead is_dead2 chan_send_close2 act said spent
  chan_is_dead-Quiet do_send c = ground arith

  pub read_ended-Quiet : (c : Channel) → Quiet c (read_ended conn c)
  unfolding read_ended chan_mark_dead
  read_ended-Quiet c = ground (arith, chan_read_failed-Quiet c)

  pub write_ended-Quiet : (c : Channel) → Quiet c (write_ended conn c)
  unfolding write_ended chan_mark_dead
  write_ended-Quiet c = ground (arith, chan_write_failed-Quiet c)

  pub write_datagram-Quiet :
      (r : FdWrite) (olen : ℕ) (c : Channel) → Quiet c (write_datagram conn r olen c)
  unfolding write_datagram datagram_write_ended chan_mark_dead
  write_datagram-Quiet r olen c = ground (arith, chan_write_failed-Quiet c)

  pub write_stream-Quiet :
      (r : FdWrite) (no_echo : Bool) (olen : ℕ) (c : Channel)
      → Quiet c (write_stream conn r no_echo olen c)
  unfolding write_stream simulated_echo act said spent
  write_stream-Quiet r no_echo olen c = ground (arith, write_ended-Quiet c)

  pub channel_handle_wfd-Quiet :
      (r : FdWrite) (no_echo : Bool) (c : Channel)
      → After (Quiet c) (channel_handle_wfd conn r no_echo c)
  unfolding channel_handle_wfd
  channel_handle_wfd-Quiet r no_echo c =
      let olen = length c.output in
      After-if (Quiet c) (not c.wfd || olen == 0) _ _ (λ _. returned (ground arith))
        λ _.
          After-if (Quiet c) c.datagram _ _
            (λ _. After-bind (Quiet c) (get_string c.output) _ λ b.
              returned (ground (arith, write_datagram-Quiet r olen (record c { output = b.1 }))))
            (λ _. returned (write_stream-Quiet r no_echo olen c))

  pub channel_handle_efd-Quiet :
      (w : FdWrite) (r : FdRead) (c : Channel) → Quiet c (channel_handle_efd w r c)
  unfolding channel_handle_efd efd_read efd_written
  channel_handle_efd-Quiet w r c = ground arith

  pub channel_check_window-Quiet : (c : Channel) → Quiet c (channel_check_window c)
  unfolding channel_check_window act said spent
  channel_check_window-Quiet c = ground arith

  pub channel_pre_open-Quiet : (c : Channel) → Quiet c (channel_pre_open conn c)
  unfolding channel_pre_open
  channel_pre_open-Quiet c = ground (arith, chan_obuf_empty-Quiet c)

  pub channel_input_data-Quiet :
      (bytes : List ℕ) (c : Channel) → Quiet c (channel_input_data conn bytes c)
  unfolding channel_input_data
  channel_input_data-Quiet bytes c = ground arith

  pub kept_extended-Quiet :
      (tcode : ℕ) (bytes : List ℕ) (c : Channel) → Quiet c (kept_extended tcode bytes c)
  unfolding kept_extended
  kept_extended-Quiet tcode bytes c = ground arith

  pub channel_input_extended_data-Quiet :
      (tcode : ℕ) (bytes : List ℕ) (c : Channel)
      → After (Quiet c) (channel_input_extended_data conn tcode bytes c)
  unfolding channel_input_extended_data
  channel_input_extended_data-Quiet tcode bytes c =
      After-if (Quiet c) (not (is_opened c.kind)) _ _ (λ _. returned (ground arith))
        λ _.
          After-if (Quiet c) (c.eof_rcvd && not conn.bug_exteof) _ _ (λ _. stopped)
            λ _. returned (kept_extended-Quiet tcode bytes c)

  pub forced-Quiet :
      (c c1 : Channel)
      → Quiet c c1
      → Quiet c (
          if c1.force_drain && is_in_open c1.istate
          then (if length c1.input == 0
              then chan_ibuf_empty conn (set_istate in_wait_drain c1)
              else set_istate in_wait_drain c1)
          else c1)
  forced-Quiet c c1 q = ground (arith, chan_ibuf_empty-Quiet (set_istate in_wait_drain c1))

  pub channel_input_ieof-Quiet : (c : Channel) → Quiet c (channel_input_ieof conn c)
  unfolding channel_input_ieof
  channel_input_ieof-Quiet c = forced-Quiet c (chan_rcvd_ieof conn c) (chan_rcvd_ieof-Quiet c)

  pub input_channel_req-Quiet :
      (is_eow want_reply success : Bool) (c : Channel)
      → Quiet c (input_channel_req conn is_eow want_reply success c)
  unfolding input_channel_req act said spent
  input_channel_req-Quiet true want_reply success c = ground (arith, chan_rcvd_eow-Quiet c)
  input_channel_req-Quiet false want_reply success c = ground arith

-- ===== src/Channel/Closing.antt =====
-- What the events of nchan.c say to the peer under protocol 2, and in which order.
use csbu_flo.Base.{Bool, true, false, not, ◌&&◌, ◌||◌, List, [], ◌∷◌, ◌≡◌, arith, ◌≢◌}
use csbu_flo.Channel.{
  Conn, Channel, Act, in_closed, in_wait_oclose, out_closed, eof, close, eow, ieof, oclose,
  sent_data, ext_data, adjust, act, chan_shutdown_read, chan_shutdown_write, chan_read_failed,
  chan_ibuf_empty, input_drained, chan_send_eof2, chan_is_dead, chan_obuf_empty, chan_rcvd_eow,
  chan_rcvd_ieof, chan_rcvd_oclose, chan_write_failed, chan_rcvd_close2, chan_rcvd_eof2,
  chan_write_failed2, is_dead2, output_drained, chan_send_close2, rcvd_close2_input, write_failed2,
  chan_send_eow2, out_wait_drain, out_wait_ieof,
}

-- The messages of the channel's data and of its closing. The reply to a channel request is not one.
abbrev pub is_message : Act → Bool
is_message eof = true
is_message close = true
is_message eow = true
is_message ieof = true
is_message oclose = true
is_message (sent_data _) = true
is_message (ext_data _) = true
is_message (adjust _) = true
is_message _ = false

abbrev pub is_content : Act → Bool
is_content eof = true
is_content (sent_data _) = true
is_content (ext_data _) = true
is_content _ = false

abbrev is_eof : Act → Bool
is_eof eof = true
is_eof _ = false

abbrev is_close : Act → Bool
is_close close = true
is_close _ = false

unfoldable pub has_eof : List Act → Bool
has_eof [] = false
has_eof (a ∷ did) = is_eof a || has_eof did

unfoldable pub has_close : List Act → Bool
has_close [] = false
has_close (a ∷ did) = is_close a || has_close did

-- No such message comes after CLOSE, and neither data nor a second EOF after EOF.
unfoldable pub legal : List Act → Bool
legal [] = true
legal (a ∷ did) =
    not (has_close did && is_message a) && not (has_eof did && is_content a) && legal did

pub record Sound (c : Channel) : Type 0 where
  pub close_noted : c.close_sent ≡ has_close c.did
  pub eof_noted : c.eof_sent ≡ has_eof c.did
  pub close_last : c.close_sent ≡ true → (c.istate ≡ in_closed) × (c.ostate ≡ out_closed)
  pub eof_last : c.eof_sent ≡ true → c.istate ≡ in_closed
  pub said_legal : legal c.did ≡ true
  pub input_side : c.istate ≢ in_wait_oclose
  pub output_side : c.ostate ≢ out_wait_ieof

module _ (conn : Conn) (v2 : conn.compat20 ≡ true) where
  pub chan_ibuf_empty-Sound : (c : Channel) → Sound c → Sound (chan_ibuf_empty conn c)
  unfolding chan_ibuf_empty input_drained chan_send_eof2 act legal has_eof has_close
  chan_ibuf_empty-Sound c h = ground arith

  pub chan_obuf_empty-Sound : (c : Channel) → Sound c → Sound (chan_obuf_empty conn c)
  unfolding chan_obuf_empty output_drained chan_shutdown_write act legal has_eof has_close
  chan_obuf_empty-Sound c h = ground arith

  pub chan_read_failed-Sound : (c : Channel) → Sound c → Sound (chan_read_failed conn c)
  unfolding chan_read_failed chan_shutdown_read act legal has_eof has_close
  chan_read_failed-Sound c h = ground arith

  pub chan_rcvd_eow-Sound : (c : Channel) → Sound c → Sound (chan_rcvd_eow conn c)
  unfolding chan_rcvd_eow chan_shutdown_read act legal has_eof has_close
  chan_rcvd_eow-Sound c h = ground arith

  pub chan_write_failed-Sound : (c : Channel) → Sound c → Sound (chan_write_failed conn c)
  unfolding chan_write_failed chan_write_failed2 write_failed2 chan_send_eow2 chan_shutdown_write
      act legal has_eof has_close
  chan_write_failed-Sound c h = ground arith

  pub rcvd_close2_input-Sound : (c : Channel) → Sound c → Sound (rcvd_close2_input conn c.istate c)
  unfolding rcvd_close2_input chan_send_eof2 chan_shutdown_read act legal has_eof has_close
  rcvd_close2_input-Sound c h = ground arith

  pub chan_rcvd_oclose-Sound : (c : Channel) → Sound c → Sound (chan_rcvd_oclose conn c)
  unfolding chan_rcvd_oclose chan_rcvd_close2
  chan_rcvd_oclose-Sound c h = ground (
    arith,
    rcvd_close2_input-Sound (record c { close_rcvd = not c.local || c.close_rcvd }),
    rcvd_close2_input-Sound
        (record c { close_rcvd = not c.local || c.close_rcvd; ostate = out_wait_drain }),
  )

  pub chan_rcvd_ieof-Sound : (c : Channel) → Sound c → Sound (chan_rcvd_ieof conn c)
  unfolding chan_rcvd_ieof chan_rcvd_eof2
  chan_rcvd_ieof-Sound c h = ground (
    arith,
    chan_obuf_empty-Sound (record c { eof_rcvd = true }),
    chan_obuf_empty-Sound (record c { eof_rcvd = true; ostate = out_wait_drain }),
  )

  pub chan_is_dead-Sound :
      (do_send : Bool) (c : Channel) → Sound c → Sound (chan_is_dead conn do_send c).1
  unfolding chan_is_dead is_dead2 chan_send_close2 act legal has_eof has_close
  chan_is_dead-Sound do_send c h = ground arith

  pub chan_ibuf_empty-close_sent :
      (c : Channel) → (chan_ibuf_empty conn c).close_sent ≡ c.close_sent
  unfolding chan_ibuf_empty input_drained chan_send_eof2 act
  chan_ibuf_empty-close_sent c = ground arith

-- ===== src/Channel/Flow.antt =====
-- channels.c: how data moves through a channel: from the local descriptor into `input`, from there to
-- the peer within its window, from the peer into `output`, and from there to the local descriptor.
-- Filters are left out (`input_filter` and `output_filter` are NULL), and so is AIX. What `read` and
-- `write` answer is an input; a channel that is selected for neither has no such step.
pub mod Runs
mod Legal
mod Quiet
mod Stream
mod Window
mod Tests
use csbu_flo.Base.{
  ℕ, ◌+◌, ◌-◌, ◌*◌, ◌/◌, ◌^◌, min, Bool, true, false, not, ◌&&◌, ◌||◌, List, [], ◌∷◌, ◌++◌, length,
  take, drop, ltb, ◌==◌, if◌then◌else◌, Outcome, ok, stop, ◌>>=◌, add32, sub32,
}
use csbu_flo.Packet.{put_u32}
use csbu_flo.Channel.{
  Conn, input_draining, is_in_closed, in_wait_drain, Act, sent_data, ext_data, adjust, echo, reply,
  chan_rcvd_eow, Channel, is_opened, x11_open, Kind, is_in_open, is_in_wait_drain, is_out_open,
  is_out_wait_drain, is_read, is_write, act, set_istate, chan_read_failed, chan_ibuf_empty,
  chan_obuf_empty, chan_write_failed, chan_rcvd_ieof, chan_mark_dead, efd_input_active,
  efd_output_active,
}

-- `bad_string`: `buffer_get_string` finds no string; the others are the two calls of
-- `packet_disconnect` and the one of `fatal`.
pub data Fatal : Type 0 where
  bad_string data_after_eof cannot_happen : Fatal

-- `read`: the bytes, none at the end of the file; -1 with EINTR, with EAGAIN, or with another errno.
pub data FdRead : Type 0 where
  got : List ℕ → FdRead
  interrupted would_block read_error : FdRead

-- `write`: how many bytes, no more than asked for; -1 with an errno to try again; -1 with another.
pub data FdWrite : Type 0 where
  wrote : ℕ → FdWrite
  again write_error : FdWrite

abbrev pub is_x11_open : Kind → Bool
is_x11_open x11_open = true
is_x11_open _ = false

abbrev pub is_draining : Kind → Bool
is_draining input_draining = true
is_draining _ = false

-- `buffer_put_string`
pub put_string : List ℕ → List ℕ → List ℕ
put_string bytes buffer = buffer ++ put_u32 (length bytes) ++ bytes

-- `buffer_get_int` reads four bytes, the highest first.
pub get_u32 : List ℕ → Outcome Fatal (ℕ × List ℕ)
get_u32 (a ∷ b ∷ c ∷ d ∷ rest) = ok (((a * 256 + b) * 256 + c) * 256 + d, rest)
get_u32 _ = stop bad_string

-- `buffer_get_string`
pub get_string : List ℕ → Outcome Fatal (List ℕ × List ℕ)
get_string buffer = get_u32 buffer >>= λ r.
    if ltb (256 * 1024) r.0 || ltb (length r.1) r.0
    then stop bad_string
    else ok (take r.0 r.1, drop r.0 r.1)

abbrev starts_cr : List ℕ → Bool
starts_cr [] = false
starts_cr (b ∷ _) = b == 13

-- `efd`, to which extended data is written.
pub efd_written : FdWrite → Channel → Channel
efd_written again c = c
efd_written write_error c = record c { efd = false }
efd_written (wrote n) c =
    let len = min n (length c.extended) in
    if len == 0
    then record c { efd = false }
    else record c { extended = drop len c.extended; local_consumed = add32 c.local_consumed len }

-- `efd`, from which it is read.
pub efd_read : FdRead → Channel → Channel
efd_read (got []) c = record c { efd = false }
efd_read (got (b ∷ bs)) c =
    if is_read c.extended_usage then record c { extended = c.extended ++ b ∷ bs } else c
efd_read interrupted c = c
efd_read would_block c = if c.detach_close then record c { efd = false } else c
efd_read read_error c = record c { efd = false }

pub channel_handle_efd : FdWrite → FdRead → Channel → Channel
channel_handle_efd result read c =
    if not c.efd
    then c
    else if not (is_write c.extended_usage)
    then efd_read read c
    else if length c.extended == 0
    then c
    else efd_written result c

pub channel_check_window : Channel → Channel
channel_check_window c =
    if is_opened c.kind
      && not (c.close_sent || c.close_rcvd)
      && (ltb (c.local_maxpacket * 3) (sub32 c.local_window_max c.local_window)
          || ltb c.local_window (c.local_window_max / 2))
      && ltb 0 c.local_consumed
    then record (act (adjust c.local_consumed) c) {
      local_window = add32 c.local_window c.local_consumed;
      local_consumed = 0;
    }
    else c

-- A datagram that is too large is dropped.
pub sent_datagram : List ℕ → Channel → Channel
sent_datagram bytes c =
    if ltb c.remote_window (length bytes) || ltb c.remote_maxpacket (length bytes)
    then c
    else record (act (sent_data bytes) c) {
      remote_window = sub32 c.remote_window (length bytes + 4);
    }

pub send_datagram : Channel → Outcome Fatal Channel
send_datagram c = get_string c.input >>= λ r. ok (sent_datagram r.0 (record c { input = r.1 }))

abbrev kept : List ℕ → Channel → Channel
kept bytes c = record c {
  output = if c.datagram then put_string bytes c.output else c.output ++ bytes;
}

-- `tcode` is right when it is `SSH2_EXTENDED_DATA_STDERR`.
pub kept_extended : ℕ → List ℕ → Channel → Channel
kept_extended tcode bytes c =
    if not c.efd
      || not (is_write c.extended_usage)
      || not (tcode == 1)
      || ltb c.local_window (length bytes)
    then c
    else record c { local_window = c.local_window - length bytes; extended = c.extended ++ bytes }

module _ (conn : Conn) where
  open conn use {compat20, compat13, bug_exteof, interactive, maxsize}

  -- A read of nothing, or one that has failed.
  pub read_ended : Channel → Channel
  read_ended c =
      if not (is_opened c.kind)
      then chan_mark_dead c
      else if compat13
      then record c { output = []; kind = input_draining }
      else chan_read_failed conn c

  pub channel_handle_rfd : FdRead → Channel → Channel
  channel_handle_rfd (got []) c = read_ended c
  channel_handle_rfd (got (b ∷ bs)) c = record c {
    input = if c.datagram then put_string (b ∷ bs) c.input else c.input ++ b ∷ bs;
  }
  channel_handle_rfd interrupted c = c
  channel_handle_rfd would_block c =
      if c.isatty && c.detach_close && not (is_in_closed c.istate) then read_ended c else c
  channel_handle_rfd read_error c = read_ended c

  pub datagram_write_ended : Channel → Channel
  datagram_write_ended c = if is_opened c.kind then chan_write_failed conn c else chan_mark_dead c

  pub write_ended : Channel → Channel
  write_ended c =
      if not (is_opened c.kind)
      then chan_mark_dead c
      else if compat13
      then record c { output = []; kind = input_draining }
      else chan_write_failed conn c

  abbrev consumed : ℕ → Channel → Channel
  consumed olen c =
      if compat20
      then record c { local_consumed = add32 c.local_consumed (sub32 olen (length c.output)) }
      else c

  -- A datagram has left the buffer whatever `write` answers.
  pub write_datagram : FdWrite → ℕ → Channel → Channel
  write_datagram again olen c = c
  write_datagram write_error olen c = datagram_write_ended c
  write_datagram (wrote n) olen c = if n == 0 then datagram_write_ended c else consumed olen c

  -- `no_echo`: the terminal reads lines and does not echo them.
  pub simulated_echo : Bool → ℕ → Channel → Channel
  simulated_echo no_echo len c =
      if compat20 && c.isatty && not (starts_cr c.output) && no_echo
      then act (echo (4 + len)) c
      else c

  pub write_stream : FdWrite → Bool → ℕ → Channel → Channel
  write_stream again no_echo olen c = c
  write_stream write_error no_echo olen c = write_ended c
  write_stream (wrote n) no_echo olen c =
      let len = min n (length c.output) in
      if len == 0
      then write_ended c
      else consumed olen
          (let c' = simulated_echo no_echo len c in record c' { output = drop len c'.output })

  pub channel_handle_wfd : FdWrite → Bool → Channel → Outcome Fatal Channel
  channel_handle_wfd result no_echo c =
      let olen = length c.output in
      if not c.wfd || olen == 0
      then ok c
      else if c.datagram
      then (get_string c.output >>= λ r.
          ok (write_datagram result olen (record c { output = r.1 })))
      else ok (write_stream result no_echo olen c)

  -- What `channel_pre_open` changes: an output that has drained is closed.
  pub channel_pre_open : Channel → Channel
  channel_pre_open c =
      if is_out_wait_drain c.ostate && length c.output == 0 && not (efd_output_active conn c)
      then chan_obuf_empty conn c
      else c

  -- How much of `len` bytes is sent now.
  pub portion : Channel → ℕ → ℕ
  portion c len =
      if compat20
      then min (min len c.remote_window) c.remote_maxpacket
      else if interactive
      then (if ltb 1024 len then 512 else len)
      else min len (maxsize / 2)

  pub send_input : Channel → Channel
  send_input c =
      let len = portion c (length c.input) in
      if ltb 0 len
      then record (act (sent_data (take len c.input)) c) {
        input = drop len c.input;
        remote_window = sub32 c.remote_window len;
      }
      else c

  pub send_extended : Channel → Channel
  send_extended c =
      let len = min (min (length c.extended) c.remote_window) c.remote_maxpacket in
      if compat20
        && not c.eof_sent
        && ltb 0 c.remote_window
        && ltb 0 (length c.extended)
        && is_read c.extended_usage
      then record (act (ext_data (take len c.extended)) c) {
        extended = drop len c.extended;
        remote_window = sub32 c.remote_window len;
      }
      else c

  pub input_ended : Channel → Outcome Fatal Channel
  input_ended c =
      if compat13
      then stop cannot_happen
      else ok (if efd_input_active conn c then c else chan_ibuf_empty conn c)

  -- The channels that `channel_output_poll` passes over.
  abbrev pub passed_over : Channel → Bool
  passed_over c =
      not (is_opened c.kind || compat13 && is_draining c.kind)
      || compat20 && (c.close_sent || c.close_rcvd)

  -- The body of the loop of `channel_output_poll`, for one channel.
  pub channel_output_poll : Channel → Outcome Fatal Channel
  channel_output_poll c =
      if passed_over c
      then ok c
      else if (is_in_open c.istate || is_in_wait_drain c.istate) && ltb 0 (length c.input)
      then (if c.datagram then send_datagram c else ok (send_extended (send_input c)))
      else if is_in_wait_drain c.istate
      then (input_ended c >>= λ c'. ok (send_extended c'))
      else ok (send_extended c)

  pub channel_input_data : List ℕ → Channel → Channel
  channel_input_data bytes c =
      let win_len = if c.datagram then add32 (length bytes) 4 else length bytes in
      if not (is_opened c.kind || is_x11_open c.kind)
      then c
      else if not compat13 && not (is_out_open c.ostate)
      then (if compat20
          then record c {
            local_window = sub32 c.local_window win_len;
            local_consumed = add32 c.local_consumed win_len;
          }
          else c)
      else if not compat20
      then kept bytes c
      else if ltb c.local_window win_len
      then c
      else kept bytes (record c { local_window = c.local_window - win_len })

  pub channel_input_extended_data : ℕ → List ℕ → Channel → Outcome Fatal Channel
  channel_input_extended_data tcode bytes c =
      if not (is_opened c.kind)
      then ok c
      else if c.eof_rcvd && not bug_exteof
      then stop data_after_eof
      else ok (kept_extended tcode bytes c)

  pub channel_input_ieof : Channel → Channel
  channel_input_ieof c =
      let c1 = chan_rcvd_ieof conn c in
      let c2 = set_istate in_wait_drain c1 in
      if c1.force_drain && is_in_open c1.istate
      then (if length c2.input == 0 then chan_ibuf_empty conn c2 else c2)
      else c1

  pub channel_input_window_adjust : ℕ → Channel → Channel
  channel_input_window_adjust amount c =
      if compat20 then record c { remote_window = add32 c.remote_window amount } else c

  -- serverloop.c and clientloop.c: `server_input_channel_req`, `client_input_channel_req`. `is_eow` is
  -- whether the request is "eow@openssh.com"; `success` is what another one answers, which is taken to
  -- leave the channel as it is.
  pub input_channel_req : Bool → Bool → Bool → Channel → Channel
  input_channel_req is_eow want_reply success c =
      let c' = if is_eow then chan_rcvd_eow conn c else c in
      if want_reply then act (reply (not is_eow && success)) c' else c'

-- ===== src/Channel.antt =====
-- nchan.c: how a channel is closed. Each of its two directions has a state, `istate` for what the
-- channel sends and `ostate` for what it receives; the events change the states and call the actions,
-- which send messages and shut the local socket down.
-- `did` is what the actions did, the newest first. A message names the channel's `remote_id`, which is
-- left out, as are the debug output and what `shutdown` and `close` answer.
mod Flow
mod Closing
mod Setup
use csbu_flo.Base.{
  ℕ, ◌+◌, Bool, true, false, not, ◌&&◌, ◌||◌, List, [], ◌∷◌, length, ltb, ◌==◌, if◌then◌else◌,
}

-- `compat20`, `compat13`, the bits of `datafellows`, and what packet.c says of the connection.
pub record Conn : Type 0 where
  pub compat20 : Bool
  pub compat13 : Bool
  pub new_openssh : Bool
  pub bug_exteof : Bool
  pub interactive : Bool
  pub maxsize : ℕ

-- `type`: the values that these files test.
pub data Kind : Type 0 where
  larval opened x11_open zombie input_draining other : Kind

pub data InState : Type 0 where
  in_open in_wait_drain in_wait_oclose in_closed : InState

pub data OutState : Type 0 where
  out_open out_wait_drain out_wait_ieof out_closed : OutState

pub data Usage : Type 0 where
  ignored_usage read_usage write_usage : Usage

pub data Act : Type 0 where
  ieof oclose eof close eow shut_read shut_write close_rfd close_wfd : Act
  sent_data ext_data : List ℕ → Act
  adjust : ℕ → Act
  echo : ℕ → Act
  reply : Bool → Act

-- A descriptor is present or -1; `session` is whether `ctype` is "session". `flags` is given by its
-- bits.
pub record Channel : Type 0 where
  pub kind : Kind
  pub session : Bool
  pub istate : InState
  pub ostate : OutState
  pub close_sent : Bool
  pub close_rcvd : Bool
  pub eof_sent : Bool
  pub eof_rcvd : Bool
  pub local : Bool
  pub sock : Bool
  pub rfd : Bool
  pub wfd : Bool
  pub efd : Bool
  pub isatty : Bool
  pub detach_close : Bool
  pub force_drain : Bool
  pub datagram : Bool
  pub extended_usage : Usage
  pub input : List ℕ
  pub output : List ℕ
  pub extended : List ℕ
  pub remote_window : ℕ
  pub remote_maxpacket : ℕ
  pub local_window : ℕ
  pub local_window_max : ℕ
  pub local_consumed : ℕ
  pub local_maxpacket : ℕ
  pub did : List Act

abbrev pub is_larval : Kind → Bool
is_larval larval = true
is_larval _ = false

abbrev pub is_opened : Kind → Bool
is_opened opened = true
is_opened _ = false

abbrev pub is_zombie : Kind → Bool
is_zombie zombie = true
is_zombie _ = false

abbrev pub is_in_open : InState → Bool
is_in_open in_open = true
is_in_open _ = false

abbrev pub is_in_wait_drain : InState → Bool
is_in_wait_drain in_wait_drain = true
is_in_wait_drain _ = false

abbrev pub is_in_closed : InState → Bool
is_in_closed in_closed = true
is_in_closed _ = false

abbrev pub is_out_open : OutState → Bool
is_out_open out_open = true
is_out_open _ = false

abbrev pub is_out_wait_drain : OutState → Bool
is_out_wait_drain out_wait_drain = true
is_out_wait_drain _ = false

abbrev pub is_out_closed : OutState → Bool
is_out_closed out_closed = true
is_out_closed _ = false

abbrev pub is_read : Usage → Bool
is_read read_usage = true
is_read _ = false

abbrev pub is_write : Usage → Bool
is_write write_usage = true
is_write _ = false

pub act : Act → Channel → Channel
act a c = record c { did = a ∷ c.did }

abbrev pub set_istate : InState → Channel → Channel
set_istate next c = record c { istate = next }

abbrev pub set_ostate : OutState → Channel → Channel
set_ostate next c = record c { ostate = next }

pub chan_send_ieof1 : Channel → Channel
chan_send_ieof1 c = if is_in_open c.istate || is_in_wait_drain c.istate then act ieof c else c

pub chan_send_oclose1 : Channel → Channel
chan_send_oclose1 c =
    if is_out_open c.ostate || is_out_wait_drain c.ostate
    then act oclose (record c { output = [] })
    else c

pub rcvd_ieof1_by : OutState → Channel → Channel
rcvd_ieof1_by out_open c = set_ostate out_wait_drain c
rcvd_ieof1_by out_wait_ieof c = set_ostate out_closed c
rcvd_ieof1_by _ c = c

pub chan_send_eof2 : Channel → Channel
chan_send_eof2 c = if is_in_wait_drain c.istate then record (act eof c) { eof_sent = true } else c

pub chan_send_close2 : Channel → Channel
chan_send_close2 c =
    if not (is_out_closed c.ostate && is_in_closed c.istate) || c.close_sent
    then c
    else record (act close c) { close_sent = true }

pub chan_rcvd_eof2 : Channel → Channel
chan_rcvd_eof2 c =
    let c1 = record c { eof_rcvd = true } in
    if is_out_open c.ostate then set_ostate out_wait_drain c1 else c1

pub chan_mark_dead : Channel → Channel
chan_mark_dead c = record c { kind = zombie }

-- What is left of `chan_is_dead` once CLOSE has been sent where it should be.
pub is_dead2 : Bool → Channel → Bool × Channel
is_dead2 do_send c =
    let c1 = if not c.close_sent && do_send then chan_send_close2 c else c in
    (
      if not c.close_sent && not do_send && c.close_rcvd
          then true
          else c1.close_sent && c1.close_rcvd,
      c1,
    )

module _ (conn : Conn) where
  open conn use {compat20, new_openssh, bug_exteof}

  pub chan_shutdown_write : Channel → Channel
  chan_shutdown_write c =
      let c' = record c { output = [] } in
      if compat20 && is_larval c.kind
      then c'
      else if c.sock
      then act shut_write c'
      else if c.wfd
      then act close_wfd (record c' { wfd = false })
      else c'

  pub chan_shutdown_read : Channel → Channel
  chan_shutdown_read c =
      if compat20 && is_larval c.kind
      then c
      else if c.sock
      then act shut_read c
      else if c.rfd
      then act close_rfd (record c { rfd = false })
      else c

  -- Protocol 1.5.
  pub rcvd_oclose1_by : InState → Channel → Channel
  rcvd_oclose1_by in_wait_oclose c = set_istate in_closed c
  rcvd_oclose1_by in_open c = set_istate in_closed (chan_send_ieof1 (chan_shutdown_read c))
  rcvd_oclose1_by in_wait_drain c = set_istate in_closed (chan_send_ieof1 c)
  rcvd_oclose1_by in_closed c = c

  pub write_failed1_by : OutState → Channel → Channel
  write_failed1_by out_open c = set_ostate out_wait_ieof (chan_send_oclose1 (chan_shutdown_write c))
  write_failed1_by out_wait_drain c =
      set_ostate out_closed (chan_send_oclose1 (chan_shutdown_write c))
  write_failed1_by _ c = c

  -- Protocol 2.
  pub chan_send_eow2 : Channel → Channel
  chan_send_eow2 c = if is_out_closed c.ostate || not new_openssh then c else act eow c

  pub rcvd_close2_input : InState → Channel → Channel
  rcvd_close2_input in_open c = set_istate in_closed (chan_shutdown_read c)
  rcvd_close2_input in_wait_drain c = set_istate in_closed (if c.local then c else chan_send_eof2 c)
  rcvd_close2_input _ c = c

  pub chan_rcvd_close2 : Channel → Channel
  chan_rcvd_close2 c =
      let c1 = record c { close_rcvd = not c.local || c.close_rcvd } in
      let c2 = if is_out_open c.ostate then set_ostate out_wait_drain c1 else c1 in
      if is_larval c.kind
      then record c1 { ostate = out_closed; istate = in_closed }
      else rcvd_close2_input c.istate c2

  pub write_failed2 : Channel → Channel
  write_failed2 c =
      let c1 = chan_shutdown_write c in
      set_ostate out_closed (if c.session then chan_send_eow2 c1 else c1)

  pub chan_write_failed2 : Channel → Channel
  chan_write_failed2 c =
      if is_out_open c.ostate || is_out_wait_drain c.ostate then write_failed2 c else c

  -- Both.
  pub chan_read_failed : Channel → Channel
  chan_read_failed c =
      if is_in_open c.istate then set_istate in_wait_drain (chan_shutdown_read c) else c

  pub input_drained : Channel → Channel
  input_drained c =
      if compat20
      then set_istate in_closed (if c.close_sent || c.local then c else chan_send_eof2 c)
      else set_istate in_wait_oclose (chan_send_ieof1 c)

  pub chan_ibuf_empty : Channel → Channel
  chan_ibuf_empty c =
      if length c.input == 0 && is_in_wait_drain c.istate then input_drained c else c

  pub output_drained : Channel → Channel
  output_drained c =
      let c1 = chan_shutdown_write c in
      set_ostate out_closed (if compat20 then c1 else chan_send_oclose1 c1)

  pub chan_obuf_empty : Channel → Channel
  chan_obuf_empty c =
      if length c.output == 0 && is_out_wait_drain c.ostate then output_drained c else c

  pub chan_rcvd_eow : Channel → Channel
  chan_rcvd_eow c = if is_in_open c.istate then set_istate in_closed (chan_shutdown_read c) else c

  -- `CHANNEL_EFD_INPUT_ACTIVE` and `CHANNEL_EFD_OUTPUT_ACTIVE`
  pub efd_input_active : Channel → Bool
  efd_input_active c = compat20 && is_read c.extended_usage && (c.efd || ltb 0 (length c.extended))

  pub efd_output_active : Channel → Bool
  efd_output_active c =
      compat20
      && is_write c.extended_usage
      && c.efd
      && (not (c.eof_rcvd || c.close_rcvd) || ltb 0 (length c.extended))

  pub chan_rcvd_ieof : Channel → Channel
  chan_rcvd_ieof c =
      let c1 = if compat20 then chan_rcvd_eof2 c else rcvd_ieof1_by c.ostate c in
      if is_out_wait_drain c1.ostate && length c1.output == 0 && not (efd_output_active c1)
      then chan_obuf_empty c1
      else c1

  pub chan_rcvd_oclose : Channel → Channel
  chan_rcvd_oclose c = if compat20 then chan_rcvd_close2 c else rcvd_oclose1_by c.istate c

  pub chan_write_failed : Channel → Channel
  chan_write_failed c = if compat20 then chan_write_failed2 c else write_failed1_by c.ostate c

  pub chan_is_dead : Bool → Channel → Bool × Channel
  chan_is_dead do_send c =
      if is_zombie c.kind
      then (true, c)
      else if not (is_in_closed c.istate && is_out_closed c.ostate)
      then (false, c)
      else if not compat20
      then (true, c)
      else if bug_exteof && is_write c.extended_usage && c.efd && ltb 0 (length c.extended)
      then (false, c)
      else if c.local
      then (true, c)
      else is_dead2 do_send c

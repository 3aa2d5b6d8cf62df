-- ===== src/Channel/Setup.antt =====
-- channels.c: how a channel is made and opened. The table of the channels is left out, and so are the
-- descriptors' numbers and flags.
pub mod Fresh
use csbu_flo.Channel.{
  Channel, Conn, Kind, Usage, other, opened, in_open, is_larval, out_open, act, ignored_usage,
  adjust,
}
use csbu_flo.Base.{ℕ, Bool, if◌then◌else◌, Option, false, ◌&&◌, some, [], none}

-- `sock` is the descriptor that is read and written alike; `same` is whether `rfd == wfd`.
unfoldable pub channel_register_fds : Bool → Bool → Bool → Bool → Usage → Bool → Channel → Channel
channel_register_fds rfd wfd efd same extusage is_tty c = record c {
  rfd = rfd;
  wfd = wfd;
  sock = same && rfd;
  efd = efd;
  extended_usage = extusage;
  isatty = is_tty;
}

-- `xcalloc` gives zeros.
abbrev blank : Channel
blank = record {
  kind = other;
  session = false;
  istate = in_open;
  ostate = out_open;
  close_sent = false;
  close_rcvd = false;
  eof_sent = false;
  eof_rcvd = false;
  local = false;
  sock = false;
  rfd = false;
  wfd = false;
  efd = false;
  isatty = false;
  detach_close = false;
  force_drain = false;
  datagram = false;
  extended_usage = ignored_usage;
  input = [];
  output = [];
  extended = [];
  remote_window = 0;
  remote_maxpacket = 0;
  local_window = 0;
  local_window_max = 0;
  local_consumed = 0;
  local_maxpacket = 0;
  did = [];
}

unfoldable pub channel_new : Bool → Kind → Bool → Bool → Bool → Bool → ℕ → ℕ → Usage → Channel
channel_new session type rfd wfd efd same window maxpack extusage =
    record (channel_register_fds rfd wfd efd same extusage false blank) {
      kind = type;
      session = session;
      local_window = window;
      local_window_max = window;
      local_maxpacket = maxpack;
    }

-- `channel_set_fds` of a larval channel: it is open now, and the peer is told its window. Of another
-- it is fatal.
unfoldable pub channel_set_fds :
    Bool → Bool → Bool → Bool → Usage → Bool → ℕ → Channel → Option Channel
channel_set_fds rfd wfd efd same extusage is_tty window_max c =
    if is_larval c.kind
    then some (
        act (adjust window_max) (record (channel_register_fds rfd wfd efd same extusage is_tty c) {
          kind = opened;
          local_window = window_max;
          local_window_max = window_max;
        }))
    else none

-- The peer's confirmation of an opening channel, under protocol 2 with its window.
unfoldable pub channel_input_open_confirmation : Conn → ℕ → ℕ → Channel → Channel
channel_input_open_confirmation conn window maxpacket c =
    if conn.compat20
    then record c { kind = opened; remote_window = window; remote_maxpacket = maxpacket }
    else record c { kind = opened }

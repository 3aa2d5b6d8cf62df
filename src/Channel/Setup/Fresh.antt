-- ===== src/Channel/Setup/Fresh.antt =====
-- A channel that has been made and confirmed is where a run starts.
use csbu_flo.Channel.Flow.Runs.{IsFresh}
use csbu_flo.Channel.Setup.{
  channel_input_open_confirmation, channel_new, channel_register_fds, Conn, Kind, Usage,
}
use csbu_flo.Base.{ℕ, Bool, arith}

pub confirmed-IsFresh :
    (conn : Conn) (session : Bool) (type : Kind) (rfd wfd efd same : Bool)
    (window maxpack rwindow rmax : ℕ) (extusage : Usage)
    → IsFresh (
        channel_input_open_confirmation conn rwindow rmax
          (channel_new session type rfd wfd efd same window maxpack extusage))
unfolding channel_input_open_confirmation channel_new channel_register_fds
confirmed-IsFresh conn session type rfd wfd efd same window maxpack rwindow rmax extusage =
    ground arith

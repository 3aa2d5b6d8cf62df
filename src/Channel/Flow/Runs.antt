-- ===== src/Channel/Flow/Runs.antt =====
-- Every sequence of steps of a channel: what the peer sends, what the local descriptors do, and the
-- rounds of the main loop.
use csbu_flo.Base.{
  ℕ, Bool, List, Outcome, ok, ◌≡◌, true, false, if◌then◌else◌, refl, ◌>>=◌, stop, spin, [],
}
use csbu_flo.Channel.{
  Conn, Channel, chan_rcvd_oclose, chan_mark_dead, chan_is_dead, chan_read_failed,
  chan_write_failed, in_open, out_open,
}
use csbu_flo.Channel.Flow.{
  Fatal, FdRead, FdWrite, channel_handle_rfd, channel_handle_wfd, channel_handle_efd,
  channel_check_window, channel_pre_open, channel_output_poll, channel_input_data,
  channel_input_extended_data, channel_input_ieof, channel_input_window_adjust, input_channel_req,
}

pub data Event : Type 0 where
  readable : FdRead → Event
  writable : FdWrite → Bool → Event
  extended_ready : FdWrite → FdRead → Event
  polled checked prepared read_failed write_failed marked_dead : Event
  collected : Bool → Event
  got_data : List ℕ → Event
  got_extended : ℕ → List ℕ → Event
  got_ieof got_oclose : Event
  got_request : Bool → Bool → Bool → Event
  got_adjust : ℕ → Event

module _ (conn : Conn) where
  -- The handler that an event calls.
  unfoldable pub handle : Event → Channel → Outcome Fatal Channel
  handle (readable r) c = ok (channel_handle_rfd conn r c)
  handle (writable r no_echo) c = channel_handle_wfd conn r no_echo c
  handle (extended_ready w r) c = ok (channel_handle_efd w r c)
  handle polled c = channel_output_poll conn c
  handle checked c = ok (channel_check_window c)
  handle prepared c = ok (channel_pre_open conn c)
  handle read_failed c = ok (chan_read_failed conn c)
  handle write_failed c = ok (chan_write_failed conn c)
  handle marked_dead c = ok (chan_mark_dead c)
  handle (collected do_send) c = ok (chan_is_dead conn do_send c).1
  handle (got_data bytes) c = ok (channel_input_data conn bytes c)
  handle (got_extended tcode bytes) c = channel_input_extended_data conn tcode bytes c
  handle got_ieof c = ok (channel_input_ieof conn c)
  handle got_oclose c = ok (chan_rcvd_oclose conn c)
  handle (got_request is_eow want_reply success) c =
      ok (input_channel_req conn is_eow want_reply success c)
  handle (got_adjust n) c = ok (channel_input_window_adjust conn n c)

  -- A run between two states of the channel, in which no handler ends the process.
  pub data Run (c : Channel) : Channel → Type 0 where
    begin : Run c c
    step : {c1 c2 : Channel} (e : Event) → Run c c1 → handle e c1 ≡ ok c2 → Run c c2

-- A channel as it is made, before the first event.
pub record IsFresh (c : Channel) : Type 0 where
  pub silent : c.did ≡ []
  pub no_close : c.close_sent ≡ false
  pub no_eof : c.eof_sent ≡ false
  pub input_open : c.istate ≡ in_open
  pub output_open : c.ostate ≡ out_open
  pub no_input : c.input ≡ []
  pub no_output : c.output ≡ []
  pub no_extended : c.extended ≡ []
  pub all_granted : c.local_window ≡ c.local_window_max
  pub none_consumed : c.local_consumed ≡ 0

-- Where the handler returns, the channel satisfies `P`.
pub data After {ℓ} (P : Channel → Type ℓ) : Outcome Fatal Channel → Type ℓ where
  returned : {c : Channel} → P c → After P (ok c)
  stopped : {e : Fatal} → After P (stop e)
  spun : After P spin

module _ {ℓ} (P : Channel → Type ℓ) where
  pub After-bind {κ} :
      {A : Type κ} (o : Outcome Fatal A) (f : A → Outcome Fatal Channel)
      → ((a : A) → After P (f a))
      → After P (o >>= f)
  After-bind (ok a) f h = h a
  After-bind (stop e) f h = stopped
  After-bind spin f h = spun

  pub After-if :
      (b : Bool) (x y : Outcome Fatal Channel)
      → (b ≡ true → After P x)
      → (b ≡ false → After P y)
      → After P (if b then x else y)
  After-if true x y hx hy = hx refl
  After-if false x y hx hy = hy refl

  pub of_After : {c : Channel} → After P (ok c) → P c
  of_After (returned h) = h

module _ {ℓ} {conn : Conn} (P : Channel → Type ℓ)
    (kept : (e : Event) (c : Channel) → P c → After P (handle conn e c)) where
  -- What every handler keeps, every run keeps.
  pub Run-keeps : {c d : Channel} → Run conn c d → P c → P d
  Run-keeps begin h = h
  Run-keeps (step {c1} e run q) h = of_After P (rw (← q) (kept e c1 (Run-keeps run h)))

module _ {ℓ κ} {P : Channel → Type ℓ} {Q : Channel → Type κ} where
  pub After-map : {o : Outcome Fatal Channel} → ((c : Channel) → P c → Q c) → After P o → After Q o
  After-map f (returned h) = returned (f _ h)
  After-map f stopped = stopped
  After-map f spun = spun

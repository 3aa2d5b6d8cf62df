-- ===== src/Channel/Flow/Stream.antt =====
-- What a channel sends against what it has read from the local descriptor and what the peer allows.
use csbu_flo.Channel.Flow.{
  got, channel_handle_rfd, send_extended, send_input, FdRead, channel_input_window_adjust,
  channel_output_poll, input_ended, portion, passed_over, cannot_happen,
}
use csbu_flo.Channel.{
  Channel, Conn, chan_mark_dead, act, is_in_open, chan_ibuf_empty, is_in_wait_drain, is_read,
  efd_input_active,
}
use mathlib.Core.List.{append-nil, append_assoc}
use csbu_flo.Base.{
  arith, List, [], ℕ, ◌≡◌, ap₂, true, ◌∙◌, ◌++◌, sym, ◌+◌, false, ◌<◌, ◌^◌, ◌∷◌, length, min, ok,
  ◌>>=◌, ◌≤◌, Bool, ap, if_both, if◌then◌else◌, ltb, ◌&&◌, not, take, ◌||◌, drop, length-take, stop,
  take-append-drop, refl, if_at_false,
}
use csbu_flo.Channel.Flow.Runs.{
  readable, writable, extended_ready, polled, checked, prepared, read_failed, write_failed,
  marked_dead, collected, got_data, got_extended, got_ieof, got_oclose, got_request, got_adjust,
  Event, handle, After, returned, After-map, IsFresh, Run, After-if, step, of_After, begin, stopped,
}
use csbu_flo.Channel.Flow.{interrupted, would_block, read_error, got}
use csbu_flo.Channel.Flow.Quiet.{
  chan_read_failed-Quiet, Quiet, said, spent, read_ended-Quiet, channel_handle_wfd-Quiet,
  channel_handle_efd-Quiet, channel_check_window-Quiet, channel_pre_open-Quiet,
  chan_ibuf_empty-Quiet, chan_write_failed-Quiet, chan_is_dead-Quiet, channel_input_data-Quiet,
  channel_input_extended_data-Quiet, channel_input_ieof-Quiet, chan_rcvd_oclose-Quiet,
  input_channel_req-Quiet,
}

-- What an event reads from the local descriptor, and what it adds to the window.
abbrev pub read_by : Event → List ℕ
read_by (readable (got bytes)) = bytes
read_by _ = []

abbrev pub granted_by : Event → ℕ
granted_by (got_adjust n) = n
granted_by _ = 0

-- What is sent leaves the input, and the window pays for it.
record Moves (bytes : List ℕ) (n : ℕ) (c c' : Channel) : Type 0 where
  queue : said c'.did ++ c'.input ≡ (said c.did ++ c.input) ++ bytes
  paid :
      c.remote_window + spent c.did + n < 2 ^ 32
      → c'.remote_window + spent c'.did ≡ c.remote_window + spent c.did + n
  still : c'.datagram ≡ c.datagram

Quiet-Moves : {c c' : Channel} → Quiet c c' → Moves [] 0 c c'
Quiet-Moves {c} {c'} q = record {
  queue = ap₂ (λ a b. a ++ b) q.same_said q.same_input ∙ sym (append-nil _);
  paid = λ _. omega (arith, q.same_spent, q.same_window);
  still = q.same_datagram;
}

Moves-then : {c c1 c2 : Channel} → Moves [] 0 c c1 → Moves [] 0 c1 c2 → Moves [] 0 c c2
Moves-then {c} {c1} {c2} m k = record {
  queue = k.queue ∙ append-nil _ ∙ m.queue;
  paid = λ b. let p = m.paid b in let q = k.paid (omega arith) in omega arith;
  still = k.still ∙ m.still;
}

module _ (conn : Conn) (v2 : conn.compat20 ≡ true) where
  portion_bounds :
      (c : Channel) (n : ℕ) → (portion conn c n ≤ n) × (portion conn c n ≤ c.remote_window)
  unfolding portion
  portion_bounds c n = rw v2 (omega arith)

  send_input-Moves : (c : Channel) → Moves [] 0 c (send_input conn c)
  unfolding send_input act said spent
  send_input-Moves c =
      let len = portion conn c (length c.input) in
      let (short, allowed) = portion_bounds c (length c.input) in
      if_both (Moves [] 0 c) (ltb 0 len) _ _
        (record {
          queue =
              append_assoc (said c.did) (take len c.input) (drop len c.input)
              ∙ ap (λ q. said c.did ++ q) (take-append-drop len c.input)
              ∙ sym (append-nil _);
          paid = λ b. omega (arith, length-take len c.input);
          still = refl;
        })
        (Quiet-Moves (ground arith))

  send_extended-Moves : (c : Channel) → Moves [] 0 c (send_extended conn c)
  unfolding send_extended act said spent
  send_extended-Moves c =
      let len = min (min (length c.extended) c.remote_window) c.remote_maxpacket in
      if_both (Moves [] 0 c)
        (conn.compat20
          && not c.eof_sent
          && ltb 0 c.remote_window
          && ltb 0 (length c.extended)
          && is_read c.extended_usage)
        _ _
        (record {
          queue = sym (append-nil _);
          paid = λ b. omega (arith, length-take len c.extended);
          still = refl;
        })
        (Quiet-Moves (ground arith))

  input_ended-Moves :
      (c : Channel) → After (Moves [] 0 c) (input_ended conn c >>= λ c'. ok (send_extended conn c'))
  unfolding input_ended
  input_ended-Moves c = go conn.compat13
    where
      kept :
          (b : Bool) → Moves [] 0 c (send_extended conn (if b then c else chan_ibuf_empty conn c))
      kept true = send_extended-Moves c
      kept false =
          Moves-then (Quiet-Moves (chan_ibuf_empty-Quiet conn c))
            (send_extended-Moves (chan_ibuf_empty conn c))

      go :
          (b : Bool)
          → After (Moves [] 0 c) (
              (if b
                then stop cannot_happen
                else ok (if efd_input_active conn c then c else chan_ibuf_empty conn c))
              >>= λ c'. ok (send_extended conn c'))
      go true = stopped
      go false = returned (kept (efd_input_active conn c))

  channel_output_poll-Moves :
      (c : Channel) → c.datagram ≡ false → After (Moves [] 0 c) (channel_output_poll conn c)
  unfolding channel_output_poll
  channel_output_poll-Moves c d =
      After-if (Moves [] 0 c) (passed_over conn c) _ _ (λ _. returned (Quiet-Moves (ground arith)))
        λ _.
          After-if (Moves [] 0 c)
            ((is_in_open c.istate || is_in_wait_drain c.istate) && ltb 0 (length c.input)) _ _
            (λ _. if_at_false (After (Moves [] 0 c)) _ _ d (
              returned (Moves-then (send_input-Moves c) (send_extended-Moves (send_input conn c)))))
            λ _.
              After-if (Moves [] 0 c) (is_in_wait_drain c.istate) _ _ (λ _. input_ended-Moves c)
                (λ _. returned (send_extended-Moves c))

  channel_handle_rfd-Moves :
      (r : FdRead) (c : Channel)
      → c.datagram ≡ false
      → Moves (read_by (readable r)) 0 c (channel_handle_rfd conn r c)
  unfolding channel_handle_rfd
  channel_handle_rfd-Moves (got []) c d = Quiet-Moves (read_ended-Quiet conn c)
  channel_handle_rfd-Moves (got (b ∷ bs)) c d =
      if_at_false (λ q. Moves (b ∷ bs) 0 c (record c { input = q })) _ _ d
        (record {
          queue = sym (append_assoc (said c.did) c.input (b ∷ bs));
          paid = λ _. omega arith;
          still = refl;
        })
  channel_handle_rfd-Moves interrupted c d = Quiet-Moves (ground arith)
  channel_handle_rfd-Moves would_block c d = Quiet-Moves (ground (arith, read_ended-Quiet conn c))
  channel_handle_rfd-Moves read_error c d = Quiet-Moves (read_ended-Quiet conn c)

  handle-Moves :
      (e : Event) (c : Channel)
      → c.datagram ≡ false
      → After (Moves (read_by e) (granted_by e) c) (handle conn e c)
  unfolding handle chan_mark_dead channel_input_window_adjust
  handle-Moves (readable r) c d = returned (channel_handle_rfd-Moves r c d)
  handle-Moves (writable r no_echo) c d =
      After-map (λ c'. Quiet-Moves) (channel_handle_wfd-Quiet conn r no_echo c)
  handle-Moves (extended_ready w r) c d =
      returned (Quiet-Moves (channel_handle_efd-Quiet conn w r c))
  handle-Moves polled c d = channel_output_poll-Moves c d
  handle-Moves checked c d = returned (Quiet-Moves (channel_check_window-Quiet conn c))
  handle-Moves prepared c d = returned (Quiet-Moves (channel_pre_open-Quiet conn c))
  handle-Moves read_failed c d = returned (Quiet-Moves (chan_read_failed-Quiet conn c))
  handle-Moves write_failed c d = returned (Quiet-Moves (chan_write_failed-Quiet conn c))
  handle-Moves marked_dead c d = returned (Quiet-Moves (ground arith))
  handle-Moves (collected do_send) c d = returned (Quiet-Moves (chan_is_dead-Quiet conn do_send c))
  handle-Moves (got_data bytes) c d = returned (Quiet-Moves (channel_input_data-Quiet conn bytes c))
  handle-Moves (got_extended tcode bytes) c d =
      After-map (λ c'. Quiet-Moves) (channel_input_extended_data-Quiet conn tcode bytes c)
  handle-Moves got_ieof c d = returned (Quiet-Moves (channel_input_ieof-Quiet conn c))
  handle-Moves got_oclose c d = returned (Quiet-Moves (chan_rcvd_oclose-Quiet conn c))
  handle-Moves (got_request is_eow want_reply success) c d =
      returned (Quiet-Moves (input_channel_req-Quiet conn is_eow want_reply success c))
  handle-Moves (got_adjust n) c d =
      rw v2
        (returned (record { queue = sym (append-nil _); paid = λ b. omega arith; still = refl }))

  -- What a run has read from the local descriptor, and how much the peer has granted it.
  unfoldable pub heard : {c d : Channel} → Run conn c d → List ℕ
  heard begin = []
  heard (step e run q) = heard run ++ read_by e

  unfoldable pub granted : {c d : Channel} → Run conn c d → ℕ
  granted {c} begin = c.remote_window
  granted (step e run q) = granted run + granted_by e

  record Streams {c d : Channel} (run : Run conn c d) : Type 0 where
    all_heard : said d.did ++ d.input ≡ heard run
    all_paid : d.remote_window + spent d.did ≡ granted run
    no_datagram : d.datagram ≡ false

  step-Streams :
      {c c1 c2 : Channel} (e : Event) (run : Run conn c c1) (q : handle conn e c1 ≡ ok c2)
      → granted run + granted_by e < 2 ^ 32
      → Streams run
      → Moves (read_by e) (granted_by e) c1 c2
      → Streams (step e run q)
  unfolding heard granted
  step-Streams e run q b s m = record {
    all_heard = m.queue ∙ ap (λ x. x ++ read_by e) s.all_heard;
    all_paid = m.paid (omega (arith, s.all_paid)) ∙ ap (λ x. x + granted_by e) s.all_paid;
    no_datagram = m.still ∙ s.no_datagram;
  }

  Run-Streams :
      {c d : Channel}
      → IsFresh c
      → c.datagram ≡ false
      → (run : Run conn c d) → granted run < 2 ^ 32
      → Streams run
  unfolding heard granted said spent
  Run-Streams {c} f g begin b = record {
    all_heard = rw (f.silent, f.no_input) refl;
    all_paid = ground (arith, f.silent);
    no_datagram = g;
  }
  Run-Streams f g (step {c1} e run q) b =
      let before = Run-Streams f g run (omega arith) in
      step-Streams e run q b before (
        of_After (Moves (read_by e) (granted_by e) c1)
          (rw (← q) (handle-Moves e c1 before.no_datagram)))

  -- The data that a channel has sent, followed by what waits in its input, is exactly what it has read
  -- from the local descriptor, in that order; and what it has sent, with extended data, is what the
  -- peer's window has granted less what is left. (Protocol 2; a channel without datagrams, and a peer
  -- that grants less than 2 ^ 32 bytes in all.)
  pub Run-stream :
      {c d : Channel}
      → IsFresh c
      → c.datagram ≡ false
      → (run : Run conn c d) → granted run < 2 ^ 32
      → (said d.did ++ d.input ≡ heard run) × (spent d.did + d.remote_window ≡ granted run)
  Run-stream f g run b = let s = Run-Streams f g run b in (s.all_heard, omega (arith, s.all_paid))

-- ===== src/ServerLoop/Waiting.antt =====
-- When the server waits for the client in a supertrace, and what it keeps while it does.
use csbu_flo.ServerLoop.Kept.{
  account_sent-waits, csbuflo_round-waits, handle_unload-mode, next_item-start, trace_over-waits,
  handle_unload-start,
}
use csbu_flo.Base.Int.{pos_part-add_zero}
use csbu_flo.ServerLoop.{
  send_item, StPair, pos, pos_part, ◌+ℤ◌, item_size, Crypto, jump_or_send, next_item, play_item,
  supertrace_round, should_jump_trans_end, is_supertrace, prepare_round, Socket, Sender,
  packet_write_poll, Sites, should_send, process_output, pairs_of,
}
use csbu_flo.Loop.{
  await_data, Server, data_received, account_sent, Clock, handle_unload, write_and_count,
  output_buffer_len, with_sender, sender_of,
}
use mathlib.Core.Bool.{false≢true}
use csbu_flo.Base.{
  arith, ℕ, ◌<◌, ◌≡◌, true, false, if◌then◌else◌, ◌==◌, ◌+◌, ◌⊎◌, ◌≤◌, if_cases, ltb, leb, inr,
  leb→le, ltb→lt, inl, refl, List, Option, subst, sym, ◌∙◌, ok, some, not, ok_of_map, Bool, ap,
  if_at_true, none, ==_true, ◌-◌, if_at_false, ==_false,
}

-- What a round that ends waiting has left as it was. `started` is when the wait began.
pub record IsWaiting (now : ℕ) (item : StPair) (s t : Server) : Type 0 where
  pub missing : s.peer.received_sofar < item.expected
  pub same_amount : t.w2w ≡ s.w2w
  pub same_received : t.peer.received_sofar ≡ s.peer.received_sofar
  pub same_cursor : t.peer.cursor ≡ s.peer.cursor
  pub no_delay : t.packet_tau ≡ pos 0
  pub start_kept : t.deadlock_start ≡ (if s.deadlock_start == 0 then now else s.deadlock_start)
  pub in_time : now < t.deadlock_start + 5000000

-- What one that goes on has done: the amount is that of the item, and what the client has sent for it
-- is used up, unless the wait has been given up.
pub record IsSent (now outbuf_len : ℕ) (item : StPair) (s t : Server) : Type 0 where
  pub amount : t.w2w ≡ pos_part (pos s.w2w +ℤ item_size outbuf_len item s.peer)
  pub paced : t.packet_tau ≡ item.time
  pub settled :
      (t.peer.received_sofar + item.expected ≡ s.peer.received_sofar)
      ⊎ ((t.peer.received_sofar ≡ s.peer.received_sofar)
          × ((if s.deadlock_start == 0 then now else s.deadlock_start) + 5000000 ≤ now))
  pub no_start : t.deadlock_start ≡ 0

-- An item of the trace is either waited for, and then nothing but the time of the wait changes, or its
-- bytes are added to the amount to write and the bytes that the client was to send for it are used up.
-- A wait is given up 5 seconds after it began, and then the item is sent although bytes are missing.
pub send_item-IsSent :
    (now outbuf_len : ℕ) (item : StPair) (s : Server)
    → let t = send_item now outbuf_len item s in
      (t.waiting_for_a_packet ≡ true → IsWaiting now item s t)
      × (t.waiting_for_a_packet ≡ false → IsSent now outbuf_len item s t)
unfolding send_item await_data data_received
send_item-IsSent now outbuf_len item s =
    let start = if s.deadlock_start == 0 then now else s.deadlock_start in
    let s1 = record s { packet_tau = item.time; peer = record (s.peer) { first_client = false } } in
    if_cases Goal (ltb s.peer.received_sofar item.expected) (await_data now s1)
      (data_received item.expected s1)
      (λ few.
        if_cases Goal (leb (start + 5000000) now) _ _
          (λ late. (
            λ w. cc,
            λ _. record {
              amount = refl;
              paced = refl;
              settled = inr (refl, leb→le (start + 5000000) now late);
              no_start = refl;
            },
          ))
          (λ soon. (
            λ _. record {
              missing = ltb→lt s.peer.received_sofar item.expected few;
              same_amount = pos_part-add_zero s.w2w;
              same_received = refl;
              same_cursor = refl;
              no_delay = refl;
              start_kept = refl;
              in_time = ground arith;
            },
            λ w. cc,
          )))
      (λ enough. (
        λ w. cc,
        λ _. record { amount = refl; paced = refl; settled = inl (ground arith); no_start = refl },
      ))
  where
    Goal : Server → Type 0
    Goal s2 =
        let cursize = if s2.waiting_for_a_packet then pos 0 else item_size outbuf_len item s.peer in
        let t = record s2 { w2w = pos_part (pos s2.w2w +ℤ cursize) } in
        (t.waiting_for_a_packet ≡ true → IsWaiting now item s t)
        × (t.waiting_for_a_packet ≡ false → IsSent now outbuf_len item s t)

-- A wait that goes on: when it began, and that it is not over.
abbrev IsTimed : ℕ → Server → Server → Type 0
IsTimed now s t =
    (t.deadlock_start ≡ (if s.deadlock_start == 0 then now else s.deadlock_start))
    × (now < t.deadlock_start + 5000000)

send_item-IsTimed :
    (now outbuf_len : ℕ) (item : StPair) (s : Server)
    → (send_item now outbuf_len item s).waiting_for_a_packet ≡ true
    → IsTimed now s (send_item now outbuf_len item s)
send_item-IsTimed now outbuf_len item s w =
    let waiting = (send_item-IsSent now outbuf_len item s).0 w in
    (waiting.start_kept, waiting.in_time)

module _ (crypto : Crypto) where
  jump_or_send-IsTimed :
      (clock : Clock) (outbuf_len : ℕ) (item : StPair) (s : Server)
      → (jump_or_send crypto clock outbuf_len item s).waiting_for_a_packet ≡ true
      → IsTimed clock.deadlock_now s (jump_or_send crypto clock outbuf_len item s)
  unfolding jump_or_send
  jump_or_send-IsTimed clock outbuf_len item s =
      let (jumps, cursor) = should_jump_trans_end clock.jump_random s.peer.cursor in
      let s' = record s { peer = record (s.peer) { cursor = cursor } } in
      if_cases (λ (t : Server). t.waiting_for_a_packet ≡ true → IsTimed clock.deadlock_now s t)
        jumps _ _
        (λ _ w. absurd (false≢true (sym (trace_over-waits crypto clock.now outbuf_len s') ∙ w)))
        (λ _. send_item-IsTimed clock.deadlock_now outbuf_len item s')

  play_item-IsTimed :
      (o : Option StPair) (clock : Clock) (outbuf_len : ℕ) (s : Server)
      → (play_item crypto o clock outbuf_len s).waiting_for_a_packet ≡ true
      → IsTimed clock.deadlock_now s (play_item crypto o clock outbuf_len s)
  unfolding play_item
  play_item-IsTimed none clock outbuf_len s w =
      absurd (false≢true (sym (trace_over-waits crypto clock.now outbuf_len s) ∙ w))
  play_item-IsTimed (some item) clock outbuf_len s w =
      if_cases (λ (t : Server). t.waiting_for_a_packet ≡ true → IsTimed clock.deadlock_now s t)
        (not s.peer.onload_flag) _ _ (λ _. send_item-IsTimed clock.deadlock_now outbuf_len item s)
        (λ _. jump_or_send-IsTimed clock outbuf_len item s) w

  supertrace_round-IsTimed :
      (pairs : List StPair) (clock : Clock) (outbuf_len : ℕ) (s : Server)
      → is_supertrace s.peer.stmode ≡ true
      → (supertrace_round crypto pairs clock outbuf_len s).waiting_for_a_packet ≡ true
      → IsTimed clock.deadlock_now s (supertrace_round crypto pairs clock outbuf_len s)
  unfolding supertrace_round
  supertrace_round-IsTimed pairs clock outbuf_len s mode =
      let s' = next_item pairs s in
      if_cases (λ (t : Server). t.waiting_for_a_packet ≡ true → IsTimed clock.deadlock_now s t)
        (is_supertrace s.peer.stmode) _ _
        (λ _ w.
          subst
            (λ d.
              ((play_item crypto s'.peer.cursor.cur_item clock outbuf_len s').deadlock_start
                ≡ (if d == 0 then clock.deadlock_now else d))
              × (clock.deadlock_now
                  < (play_item crypto s'.peer.cursor.cur_item clock outbuf_len s').deadlock_start
                    + 5000000))
            (next_item-start pairs s)
            (play_item-IsTimed s'.peer.cursor.cur_item clock outbuf_len s' w))
        (λ other. absurd (false≢true (sym other ∙ mode)))

  -- A round that writes and ends waiting.
  prepare_round-IsTimed :
      (pairs : List StPair) (clock : Clock) (outbuf_len : ℕ) (s : Server)
      → is_supertrace s.peer.stmode ≡ true
      → (prepare_round crypto pairs clock outbuf_len s).waiting_for_a_packet ≡ true
      → IsTimed clock.deadlock_now s (prepare_round crypto pairs clock outbuf_len s)
  unfolding prepare_round
  prepare_round-IsTimed pairs clock outbuf_len s mode w =
      let t = supertrace_round crypto pairs clock outbuf_len s in
      let (same, start) =
        csbuflo_round-waits crypto clock outbuf_len (record t { truly_idle = false }) in
      let (from, within) = supertrace_round-IsTimed pairs clock outbuf_len s mode (sym same ∙ w) in
      (start ∙ from, omega (arith, start))

  write_and_count-IsTimed :
      (now : ℕ) (sockets : List Socket) (clock : Clock) (outbuf_len incoming : ℕ) (s p t : Server)
      → write_and_count crypto false sockets clock outbuf_len incoming p ≡ ok t
      → t.waiting_for_a_packet ≡ true
      → (p.waiting_for_a_packet ≡ true → IsTimed now s p)
      → IsTimed now s t
  unfolding write_and_count
  write_and_count-IsTimed now sockets clock outbuf_len incoming s p t e w h =
      let count = λ (u : Sender).
        account_sent false clock.cur_ts outbuf_len incoming (output_buffer_len p)
          (with_sender u p) in
      let (u, _, last) =
        ok_of_map (packet_write_poll crypto clock.write_now clock.time_random sockets (sender_of p))
          count t e in
      let (same, start) =
        account_sent-waits false clock.cur_ts outbuf_len incoming (output_buffer_len p)
          (with_sender u p) in
      let (from, within) =
        h (
          unfold with_sender in
          (sym same) ∙ ap (λ (x : Server). x.waiting_for_a_packet) last ∙ w) in
      let begun : t.deadlock_start ≡ p.deadlock_start =
        sym (ap (λ (x : Server). x.deadlock_start) last) ∙ unfold with_sender in start in
      (begun ∙ from, omega (arith, begun))

  process_output-IsTimed :
      (sites : Sites) (sockets : List Socket) (clock : Clock) (writable : Bool) (s t : Server)
      → is_supertrace s.peer.stmode ≡ true
      → should_send clock.now writable (handle_unload clock.now s) ≡ true
      → process_output crypto sites sockets clock writable s ≡ ok t
      → t.waiting_for_a_packet ≡ true
      → IsTimed clock.deadlock_now s t
  unfolding process_output
  process_output-IsTimed sites sockets clock writable s t mode writes e w =
      let s' = handle_unload clock.now s in
      let outbuf_len = output_buffer_len s' in
      let p = prepare_round crypto (pairs_of sites s'.peer) clock outbuf_len s' in
      let ran : write_and_count crypto false sockets clock outbuf_len
            (outbuf_len - s'.outbuf_remain) p
          ≡ ok t =
        sym (if_at_true _ _ writes) ∙ e in
      let (from, within) =
        write_and_count-IsTimed clock.deadlock_now sockets clock outbuf_len
          (outbuf_len - s'.outbuf_remain) s' p t ran w
          (prepare_round-IsTimed (pairs_of sites s'.peer) clock outbuf_len s'
            (ap is_supertrace (handle_unload-mode clock.now s) ∙ mode)) in
      (
        subst (λ d. t.deadlock_start ≡ (if d == 0 then clock.deadlock_now else d))
            (handle_unload-start clock.now s) from,
        within,
      )

  -- Rounds in supertrace mode that all write and all end waiting, with anything done between two of
  -- them that leaves the wait alone. The times are those at which the first and the last look.
  pub data Waits (sites : Sites) (s : Server) (first : ℕ) : ℕ → Server → Type 0 where
    wait :
        {t : Server} (sockets : List Socket) (clock : Clock) (writable : Bool)
        → is_supertrace s.peer.stmode ≡ true
        → should_send clock.now writable (handle_unload clock.now s) ≡ true
        → process_output crypto sites sockets clock writable s ≡ ok t
        → t.waiting_for_a_packet ≡ true
        → clock.deadlock_now ≡ first
        → Waits sites s first first t
    again :
        {last : ℕ} {t v : Server} (u : Server) (sockets : List Socket) (clock : Clock)
        (writable : Bool)
        → Waits sites s first last t
        → u.deadlock_start ≡ t.deadlock_start
        → is_supertrace u.peer.stmode ≡ true
        → should_send clock.now writable (handle_unload clock.now u) ≡ true
        → process_output crypto sites sockets clock writable u ≡ ok v
        → v.waiting_for_a_packet ≡ true
        → Waits sites s first clock.deadlock_now v

  Waits-started :
      (sites : Sites) (first : ℕ) {s t : Server} {last : ℕ}
      → s.deadlock_start ≡ 0
      → 0 < first
      → Waits sites s first last t
      → (t.deadlock_start ≡ first) × (last < first + 5000000)
  Waits-started sites first {s} clear late (wait {t} sockets clock writable mode writes e w at) =
      let (from, within) =
        process_output-IsTimed sites sockets clock writable s t mode writes e w in
      let begun =
        from
        ∙ if_at_true clock.deadlock_now s.deadlock_start (==_true s.deadlock_start 0 clear)
        ∙ at in
      (begun, omega (arith, begun))
  Waits-started sites first clear late
        (again {t} {v} u sockets clock writable before still mode writes e w) =
      let (begun, _) = Waits-started sites first clear late before in
      let (from, within) =
        process_output-IsTimed sites sockets clock writable u v mode writes e w in
      let kept : v.deadlock_start ≡ first =
        from
        ∙ if_at_false (λ d. d ≡ u.deadlock_start) clock.deadlock_now u.deadlock_start
            (==_false u.deadlock_start 0 (omega arith)) refl
        ∙ still
        ∙ begun in
      (kept, omega (arith, kept))

  -- The server does not wait for ever: of rounds that all write and all end waiting, the last looks at
  -- the clock less than 5 seconds after the first (when no wait was going on before them).
  pub process_output-gives_up :
      (sites : Sites) (s t : Server) (first last : ℕ)
      → s.deadlock_start ≡ 0
      → 0 < first
      → Waits sites s first last t
      → last < first + 5000000
  process_output-gives_up sites s t first last clear late waits =
      (Waits-started sites first clear late waits).1

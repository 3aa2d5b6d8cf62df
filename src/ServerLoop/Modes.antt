-- ===== src/ServerLoop/Modes.antt =====
-- When one mode gives way to another.
use csbu_flo.WritePoll.{supertrace}
use csbu_flo.Packet.{Crypto}
use csbu_flo.Cursor.{should_jump_trans_end, move_to_next_st_item, Cursor}
use csbu_flo.ServerLoop.{
  next_item, send_item, csbuflo_round, jump_or_send, play_item, supertrace_round, trace_over,
  is_supertrace, ssh, StPair, csbuflo, finish_page, switch_to_ssh, is_csbuflo, padding_done,
  prepare_round, process_output, Sites, Socket, WriteError, Sender, pairs_of, should_send,
  packet_write_poll,
}
use csbu_flo.Loop.{
  Server, account_sent, set_target, await_data, note_times, Clock, channel_idle, data_received,
  update_tau, output_buffer_len, target_queue_len, write_and_count, handle_unload, with_sender,
  sender_of,
}
use csbu_flo.Notify.{notify}
use csbu_flo.Base.{
  arith, ℕ, ◌≡◌, List, Option, false, some, ◌⊎◌, if_at_false, true, refl, if◌then◌else◌, none,
  if_at_true, if_cases, ap, inr, inl, not, Bool, if_both, ◌∙◌, ok, sym, ltb, ok_of_map, ◌-◌,
  Outcome, subst, ◌≤◌, ◌<◌, ◌+◌,
}

-- Little waits, and the total is within a packet of the target.
abbrev pub Near : ℕ → Server → Type 0
Near n s =
    (n ≤ 32)
    × (s.total_sent_bytes < s.target_sent_bytes + 548)
    × (s.target_sent_bytes < s.total_sent_bytes + 548)

padding_done-Near : (n : ℕ) (s : Server) → padding_done n s ≡ true → Near n s
unfolding padding_done
padding_done-Near n s h = ground arith

-- The states before and after one round. A connection without a page stays one. CSBuFLO ends when
-- little waits and the total is within a packet of the target, a supertrace when the client has ended
-- its own and nothing of this one is left to write.
pub record Allowed (s t : Server) : Type 0 where
  pub from_ssh : s.peer.stmode ≡ ssh → t.peer.stmode ≡ ssh
  pub from_csbuflo :
      s.peer.stmode ≡ csbuflo
      → (t.peer.stmode ≡ csbuflo) ⊎ ((t.peer.stmode ≡ ssh) × Near (output_buffer_len s) s)
  pub from_supertrace :
      s.peer.stmode ≡ supertrace
      → (t.peer.stmode ≡ supertrace) ⊎ ((s.peer.cursor.transcript_end ≡ true) × (s.w2w ≡ 0))

abbrev Over : Server → Server → Type 0
Over s t =
    s.peer.stmode ≡ supertrace
    → (t.peer.stmode ≡ supertrace) ⊎ ((s.peer.cursor.transcript_end ≡ true) × (s.w2w ≡ 0))

pub next_item-kept :
    (pairs : List StPair) (s : Server)
    → let t = next_item pairs s in
      (t.peer.stmode ≡ s.peer.stmode)
      × (t.peer.cursor.transcript_end ≡ s.peer.cursor.transcript_end)
      × (t.w2w ≡ s.w2w)
unfolding next_item move_to_next_st_item
next_item-kept pairs s = ground arith

pub should_jump_trans_end-kept :
    (random : ℕ) (c : Cursor) → (should_jump_trans_end random c).1.transcript_end ≡ c.transcript_end
unfolding should_jump_trans_end
should_jump_trans_end-kept random c = ground arith

send_item-mode :
    (now outbuf_len : ℕ) (item : StPair) (s : Server)
    → (send_item now outbuf_len item s).peer.stmode ≡ s.peer.stmode
unfolding send_item await_data data_received
send_item-mode now outbuf_len item s = ground arith

pub set_target-mode :
    (outbuf_len : ℕ) (s : Server) → (set_target outbuf_len s).peer.stmode ≡ s.peer.stmode
unfolding set_target
set_target-mode outbuf_len s = ground arith

account_sent-mode :
    (is_client : Bool) (cur_ts outbuf_len incoming waited : ℕ) (s : Server)
    → (account_sent is_client cur_ts outbuf_len incoming waited s).peer.stmode ≡ s.peer.stmode
unfolding account_sent note_times update_tau
account_sent-mode is_client cur_ts outbuf_len incoming waited s = ground arith

account_sent-lock :
    (is_client : Bool) (cur_ts outbuf_len incoming waited : ℕ) (s : Server)
    → let t = account_sent is_client cur_ts outbuf_len incoming waited s in
      (t.peer.locked ≡ s.peer.locked)
      × (t.peer.server_entering_normal ≡ s.peer.server_entering_normal)
unfolding account_sent note_times update_tau
account_sent-lock is_client cur_ts outbuf_len incoming waited s = ground arith

module _ (crypto : Crypto) where
  trace_over-Over : (now outbuf_len : ℕ) (s : Server) → Over s (trace_over crypto now outbuf_len s)
  unfolding trace_over notify
  trace_over-Over now outbuf_len s = ground arith

  jump_or_send-Over :
      (clock : Clock) (outbuf_len : ℕ) (item : StPair) (s : Server)
      → Over s (jump_or_send crypto clock outbuf_len item s)
  unfolding jump_or_send
  jump_or_send-Over clock outbuf_len item s m =
      let (jumps, cursor) = should_jump_trans_end clock.jump_random s.peer.cursor in
      let s' = record s { peer = record (s.peer) { cursor = cursor } } in
      ground (
        arith,
        should_jump_trans_end-kept clock.jump_random s.peer.cursor,
        trace_over-Over clock.now outbuf_len s' m,
        send_item-mode clock.deadlock_now outbuf_len item s',
      )

  play_item-Over :
      (o : Option StPair) (clock : Clock) (outbuf_len : ℕ) (s : Server)
      → Over s (play_item crypto o clock outbuf_len s)
  unfolding play_item
  play_item-Over none clock outbuf_len s m = trace_over-Over clock.now outbuf_len s m
  play_item-Over (some item) clock outbuf_len s m = ground (
    arith,
    jump_or_send-Over clock outbuf_len item s m,
    send_item-mode clock.deadlock_now outbuf_len item s,
  )

  supertrace_round-Over :
      (pairs : List StPair) (clock : Clock) (outbuf_len : ℕ) (s : Server)
      → Over s (supertrace_round crypto pairs clock outbuf_len s)
  unfolding supertrace_round
  supertrace_round-Over pairs clock outbuf_len s m =
      let (mode, ended, amount) = next_item-kept pairs s in
      let s' = next_item pairs s in
      ground
        (arith, mode, ended, amount, play_item-Over s'.peer.cursor.cur_item clock outbuf_len s')

  supertrace_round-same :
      (pairs : List StPair) (clock : Clock) (outbuf_len : ℕ) (s : Server)
      → is_supertrace s.peer.stmode ≡ false
      → supertrace_round crypto pairs clock outbuf_len s ≡ s
  unfolding supertrace_round
  supertrace_round-same pairs clock outbuf_len s m = if_at_false (λ t. t ≡ s) _ _ m refl

  -- The end of a page, where the padding is done.
  padded-mode :
      (outbuf_len : ℕ) (s : Server)
      → let t =
          set_target outbuf_len (if padding_done outbuf_len s then finish_page crypto s else s) in
        s.peer.stmode ≡ csbuflo
        → (t.peer.stmode ≡ csbuflo) ⊎ ((t.peer.stmode ≡ ssh) × Near outbuf_len s)
  unfolding finish_page switch_to_ssh
  padded-mode outbuf_len s m =
      if_cases
        (λ (u : Server).
          ((set_target outbuf_len u).peer.stmode ≡ csbuflo)
          ⊎ (((set_target outbuf_len u).peer.stmode ≡ ssh) × Near outbuf_len s))
        (padding_done outbuf_len s) (finish_page crypto s) s
        (λ done.
          inr (
            set_target-mode outbuf_len (finish_page crypto s),
            padding_done-Near outbuf_len s done,
          ))
        (λ _. inl (set_target-mode outbuf_len s ∙ m))

  csbuflo_round-mode :
      (clock : Clock) (outbuf_len : ℕ) (s : Server)
      → let t = csbuflo_round crypto clock outbuf_len s in
        (is_csbuflo s.peer.stmode ≡ false → t ≡ s)
        × (s.peer.stmode ≡ csbuflo
            → (t.peer.stmode ≡ csbuflo) ⊎ ((t.peer.stmode ≡ ssh) × Near outbuf_len s))
  unfolding csbuflo_round channel_idle padding_done
  csbuflo_round-mode clock outbuf_len s =
      let s2 = (channel_idle clock.idle_now outbuf_len (record s { w2w = target_queue_len })).1 in
      (
        λ other. if_at_true _ _ (ap not other),
        λ m.
            if_at_false
              (λ (t : Server).
                (t.peer.stmode ≡ csbuflo) ⊎ ((t.peer.stmode ≡ ssh) × Near outbuf_len s))
              _ _ (ap (λ k. not (is_csbuflo k)) m)
              (if_both
                (λ (t : Server).
                  (t.peer.stmode ≡ csbuflo) ⊎ ((t.peer.stmode ≡ ssh) × Near outbuf_len s))
                (channel_idle clock.idle_now outbuf_len (record s { w2w = target_queue_len })).0 _ _
                (padded-mode outbuf_len s2 m) (inl m)),
      )

  prepare_round-Allowed :
      (pairs : List StPair) (clock : Clock) (s : Server)
      → Allowed s (prepare_round crypto pairs clock (output_buffer_len s) s)
  unfolding prepare_round padding_done
  prepare_round-Allowed pairs clock s =
      let n = output_buffer_len s in
      let r = supertrace_round crypto pairs clock n s in
      let u = record r { truly_idle = false } in
      let (skip, ends) = csbuflo_round-mode clock n u in
      let mode = λ (x : Server). x.peer.stmode in
      record {
        from_ssh = λ m.
            let same = supertrace_round-same pairs clock n s (ap is_supertrace m) in
            let ssh_still = ap mode same ∙ m in
            ap mode (skip (ap is_csbuflo ssh_still)) ∙ ssh_still;
        from_csbuflo = λ m.
            let same = supertrace_round-same pairs clock n s (ap is_supertrace m) in
            elim (ends (ap mode same ∙ m)) [
              | inl stays ↦ inl stays
              | inr (over, done) ↦ inr (over, subst (Near n) same done)
            ];
        from_supertrace = λ m. elim (supertrace_round-Over pairs clock n s m) [
          | inl stays ↦ inl (ap mode (skip (ap is_csbuflo stays)) ∙ stays)
          | inr ended ↦ inr ended
        ];
      }

  -- The writing does not change the mode.
  pub write_and_count-mode :
      (is_client : Bool) (sockets : List Socket) (clock : Clock) (outbuf_len incoming : ℕ)
      (p t : Server)
      → write_and_count crypto is_client sockets clock outbuf_len incoming p ≡ ok t
      → t.peer.stmode ≡ p.peer.stmode
  unfolding write_and_count with_sender
  write_and_count-mode is_client sockets clock outbuf_len incoming p t e =
      let count = λ (u : Sender).
        account_sent is_client clock.cur_ts outbuf_len incoming (output_buffer_len p)
          (with_sender u p) in
      let (u, _, last) =
        ok_of_map (packet_write_poll crypto clock.write_now clock.time_random sockets (sender_of p))
          count t e in
      sym (ap (λ (x : Server). x.peer.stmode) last)
      ∙ account_sent-mode is_client clock.cur_ts outbuf_len incoming (output_buffer_len p)
          (with_sender u p)

  pub write_and_count-lock :
      (is_client : Bool) (sockets : List Socket) (clock : Clock) (outbuf_len incoming : ℕ)
      (p t : Server)
      → write_and_count crypto is_client sockets clock outbuf_len incoming p ≡ ok t
      → (t.peer.locked ≡ p.peer.locked)
        × (t.peer.server_entering_normal ≡ p.peer.server_entering_normal)
  unfolding write_and_count with_sender
  write_and_count-lock is_client sockets clock outbuf_len incoming p t e =
      let count = λ (u : Sender).
        account_sent is_client clock.cur_ts outbuf_len incoming (output_buffer_len p)
          (with_sender u p) in
      let (u, _, last) =
        ok_of_map (packet_write_poll crypto clock.write_now clock.time_random sockets (sender_of p))
          count t e in
      let (locked, normal) =
        account_sent-lock is_client clock.cur_ts outbuf_len incoming (output_buffer_len p)
          (with_sender u p) in
      (
        sym (ap (λ (x : Server). x.peer.locked) last) ∙ locked,
        sym (ap (λ (x : Server). x.peer.server_entering_normal) last) ∙ normal,
      )

  Allowed-mode : (s p t : Server) → t.peer.stmode ≡ p.peer.stmode → Allowed s p → Allowed s t
  Allowed-mode s p t e a = ground (arith, a.from_ssh, a.from_csbuflo, a.from_supertrace)

  handle_unload-Allowed : (now : ℕ) (s t : Server) → Allowed (handle_unload now s) t → Allowed s t
  unfolding handle_unload padding_done
  handle_unload-Allowed now s t a = ground (arith, a.from_ssh, a.from_csbuflo, a.from_supertrace)

  unwritten :
      (n : ℕ) (s t : Server)
      → ◌≡◌ {A = Outcome WriteError Server}
          (ok (if ltb s.outbuf_remain n then record s { truly_idle = false } else s))
          (ok t)
      → Allowed s t
  unwritten n s t e =
      let same : (if ltb s.outbuf_remain n then record s { truly_idle = false } else s) ≡ t = cc in
      subst (Allowed s) same (
        if_both (Allowed s) (ltb s.outbuf_remain n) (record s { truly_idle = false }) s
          (ground arith) (ground arith))

  -- A round leaves a connection without a page alone. In CSBuFLO mode it ends the page only when no
  -- more than 32 bytes wait and the total is within a packet of 548 bytes of the target. In supertrace mode it goes on
  -- to another mode only when the client has ended its trace and this side has nothing left to write.
  pub process_output-Allowed :
      (sites : Sites) (sockets : List Socket) (clock : Clock) (writable : Bool) (s t : Server)
      → process_output crypto sites sockets clock writable s ≡ ok t
      → Allowed s t
  unfolding process_output write_and_count
  process_output-Allowed sites sockets clock writable s t =
      let s' = handle_unload clock.now s in
      let n = output_buffer_len s' in
      let p = prepare_round crypto (pairs_of sites s'.peer) clock n s' in
      if_cases (λ o. o ≡ ok t → Allowed s t) (should_send clock.now writable s') _ _
        (λ _ e. handle_unload-Allowed clock.now s t (
          Allowed-mode s' p t
            (write_and_count-mode false sockets clock n (n - s'.outbuf_remain) p t e)
            (prepare_round-Allowed (pairs_of sites s'.peer) clock s')))
        (λ _ e. handle_unload-Allowed clock.now s t (unwritten n s' t e))

-- ===== src/ClientLoop/Modes.antt =====
-- When the client goes from one mode to another, and what becomes of the lock.
use csbu_flo.Trace.{StPair}
use csbu_flo.Notify.{notify, Sites, pairs_of}
use csbu_flo.Cursor.{move_to_next_st_item, should_jump_trans_end}
use csbu_flo.WritePoll.{is_supertrace, ssh, csbuflo, supertrace, is_csbuflo, Mode, Socket}
use csbu_flo.Packet.{Crypto}
use csbu_flo.ClientLoop.{
  Client, client_round, client_both_over, client_next_item, client_send_item, leave_page,
  client_await, client_jump_or_send, client_trace_over, client_received, client_padding_done,
  note_first, client_csbuflo_round, client_finish_page, client_play_item, client_supertrace_round,
  client_prepare_round, client_skip, client_write, client_should_send,
}
use csbu_flo.ServerLoop.Modes.{
  should_jump_trans_end-kept, write_and_count-mode, write_and_count-lock,
}
use csbu_flo.Loop.{
  Server, Clock, switch_to_csbuflo, await_data, data_received, output_buffer_len, set_target,
  channel_idle, target_queue_len, handle_unload,
}
use csbu_flo.Base.{
  arith, ◌≡◌, List, false, ℕ, true, ◌⊎◌, Option, if_at_false, if_at_true, refl, some, ap, none, not,
  ◌∙◌, subst, Bool-cases, ◌≢◌, inl, sym, inr, if_both, ltb, Bool, ok, if_cases, ok_of_map, ◌-◌,
  ok_injective, ◌<◌, ◌+◌,
}

-- Where the page ends, the lock does not stay if the server has said that it is over there.
abbrev pub Released : Server → Server → Type 0
Released s t =
    t.peer.stmode ≡ ssh
    → (t.peer.server_entering_normal ≡ false)
      × (s.peer.server_entering_normal ≡ true → t.peer.locked ≡ false)

-- Nothing waits, and the total is within a packet of the target.
abbrev pub AllSent : ℕ → Server → Type 0
AllSent n s =
    (n ≡ 0)
    × (s.total_sent_bytes < s.target_sent_bytes + 548)
    × (s.target_sent_bytes < s.total_sent_bytes + 548)

-- The states before and after one round, as on the server; but CSBuFLO ends only with nothing waiting.
pub record ClientAllowed (s t : Server) : Type 0 where
  pub from_ssh : s.peer.stmode ≡ ssh → t.peer.stmode ≡ ssh
  pub from_csbuflo :
      s.peer.stmode ≡ csbuflo
      → Released s t
        × ((t.peer.stmode ≡ csbuflo) ⊎ ((t.peer.stmode ≡ ssh) × AllSent (output_buffer_len s) s))
  pub from_supertrace :
      s.peer.stmode ≡ supertrace
      → Released s t
        × ((t.peer.stmode ≡ supertrace) ⊎ ((s.peer.cursor.transcript_end ≡ true) × (s.w2w ≡ 0)))

-- What leaving the trace gives; where CSBuFLO follows, the server's word is still to be used.
abbrev Left : Server → Server → Type 0
Left s t =
    Released s t
    × (t.peer.stmode ≡ csbuflo → t.peer.server_entering_normal ≡ s.peer.server_entering_normal)
    × ((t.peer.stmode ≡ supertrace) ⊎ ((s.peer.cursor.transcript_end ≡ true) × (s.w2w ≡ 0)))

abbrev Ends : Server → Server → Type 0
Ends s t = s.peer.stmode ≡ supertrace → Left s t

client_next_item-kept :
    (pairs : List StPair) (c : Client)
    → let s = c.loop in
      let t = (client_next_item pairs c).loop in
      (t.peer.stmode ≡ s.peer.stmode)
      × (t.peer.cursor.transcript_end ≡ s.peer.cursor.transcript_end)
      × (t.w2w ≡ s.w2w)
      × (t.peer.server_entering_normal ≡ s.peer.server_entering_normal)
unfolding client_next_item move_to_next_st_item
client_next_item-kept pairs c = ground arith

client_send_item-mode :
    (now outbuf_len : ℕ) (item : StPair) (c : Client)
    → (client_send_item now outbuf_len item c).loop.peer.stmode ≡ c.loop.peer.stmode
unfolding client_send_item client_await client_received await_data data_received note_first
client_send_item-mode now outbuf_len item c = ground arith

csbuflo_mode : (m : Mode) → is_csbuflo m ≡ true → m ≡ csbuflo
csbuflo_mode ssh h = cc
csbuflo_mode csbuflo h = refl
csbuflo_mode supertrace h = cc

csbuflo≢supertrace : csbuflo ≢ supertrace
csbuflo≢supertrace e = cc

module _ (crypto : Crypto) where
  client_trace_over-Ends :
      (now outbuf_len : ℕ) (s : Server) → Ends s (client_trace_over crypto now outbuf_len s)
  unfolding client_trace_over notify client_both_over leave_page switch_to_csbuflo
  client_trace_over-Ends now outbuf_len s m = ground arith

  client_jump_or_send-Ends :
      (clock : Clock) (outbuf_len : ℕ) (item : StPair) (c : Client)
      → Ends c.loop (client_jump_or_send crypto clock outbuf_len item c).loop
  unfolding client_jump_or_send
  client_jump_or_send-Ends clock outbuf_len item c m =
      let (jumps, cursor) = should_jump_trans_end clock.jump_random c.loop.peer.cursor in
      let s = record (c.loop) { peer = record (c.loop.peer) { cursor = cursor } } in
      ground (
        arith,
        should_jump_trans_end-kept clock.jump_random c.loop.peer.cursor,
        client_trace_over-Ends clock.now outbuf_len s m,
        client_send_item-mode clock.deadlock_now outbuf_len item (record c { loop = s }),
      )

  client_play_item-Ends :
      (o : Option StPair) (clock : Clock) (outbuf_len : ℕ) (c : Client)
      → Ends c.loop (client_play_item crypto o clock outbuf_len c).loop
  unfolding client_play_item
  client_play_item-Ends none clock outbuf_len c m =
      client_trace_over-Ends clock.now outbuf_len c.loop m
  client_play_item-Ends (some item) clock outbuf_len c m = ground (
    arith,
    client_jump_or_send-Ends clock outbuf_len item c m,
    client_send_item-mode clock.deadlock_now outbuf_len item c,
  )

  client_supertrace_round-Ends :
      (pairs : List StPair) (clock : Clock) (outbuf_len : ℕ) (c : Client)
      → Ends c.loop (client_supertrace_round crypto pairs clock outbuf_len c).loop
  unfolding client_supertrace_round
  client_supertrace_round-Ends pairs clock outbuf_len c m =
      let (mode, ended, amount, normal) = client_next_item-kept pairs c in
      let c' = client_next_item pairs c in
      ground (arith, mode, ended, amount, normal, client_play_item-Ends c'.item clock outbuf_len c')

  client_supertrace_round-same :
      (pairs : List StPair) (clock : Clock) (outbuf_len : ℕ) (c : Client)
      → is_supertrace c.loop.peer.stmode ≡ false
      → client_supertrace_round crypto pairs clock outbuf_len c ≡ c
  unfolding client_supertrace_round
  client_supertrace_round-same pairs clock outbuf_len c m = if_at_false (λ t. t ≡ c) _ _ m refl

  -- A round outside CSBuFLO, and one in it, where the channel is idle or not.
  abbrev Padded : ℕ → Server → Server → Type 0
  Padded outbuf_len s t =
      Released s t × ((t.peer.stmode ≡ csbuflo) ⊎ ((t.peer.stmode ≡ ssh) × AllSent outbuf_len s))

  set_target-kept : (outbuf_len : ℕ) (s : Server) → (set_target outbuf_len s).peer ≡ s.peer
  unfolding set_target
  set_target-kept outbuf_len s = ground arith

  client_finish_page-Released :
      (s : Server)
      → ((client_finish_page crypto s).peer.stmode ≡ ssh) × Released s (client_finish_page crypto s)
  unfolding client_finish_page leave_page notify
  client_finish_page-Released s = ground arith

  client_csbuflo_round-Padded :
      (clock : Clock) (outbuf_len : ℕ) (s : Server)
      → s.peer.stmode ≡ csbuflo
      → Padded outbuf_len s (client_csbuflo_round crypto clock outbuf_len s)
  unfolding client_csbuflo_round channel_idle client_padding_done
  client_csbuflo_round-Padded clock outbuf_len s m =
      let s2 = (channel_idle clock.idle_now outbuf_len (record s { w2w = target_queue_len })).1 in
      let finished = client_finish_page crypto s2 in
      ground (
        arith,
        set_target-kept outbuf_len finished,
        set_target-kept outbuf_len s2,
        client_finish_page-Released s2,
      )

  client_csbuflo_round-same :
      (clock : Clock) (outbuf_len : ℕ) (s : Server)
      → is_csbuflo s.peer.stmode ≡ false
      → client_csbuflo_round crypto clock outbuf_len s ≡ s
  unfolding client_csbuflo_round
  client_csbuflo_round-same clock outbuf_len s other = if_at_true _ _ (ap not other)

  -- A round that has left the trace may begin with CSBuFLO at once.
  after_supertrace :
      (clock : Clock) (n : ℕ) (s u : Server)
      → Left s u
      → Released s (client_csbuflo_round crypto clock n u)
        × (((client_csbuflo_round crypto clock n u).peer.stmode ≡ supertrace)
            ⊎ ((s.peer.cursor.transcript_end ≡ true) × (s.w2w ≡ 0)))
  after_supertrace clock n s u (released, normal, ended) =
      elim (Bool-cases (is_csbuflo u.peer.stmode)) [
        | inl there ↦
            let mode = csbuflo_mode u.peer.stmode there in
            let padded = client_csbuflo_round-Padded clock n u mode in
            (
              λ over. let r = padded.0 over in (r.0, λ said. r.1 (normal mode ∙ said)),
              elim ended [
                | inl stays ↦ absurd (csbuflo≢supertrace (sym mode ∙ stays))
                | inr done ↦ inr done
              ],
            )
        | inr other ↦
            subst
              (λ (t : Server).
                Released s t
                × ((t.peer.stmode ≡ supertrace)
                    ⊎ ((s.peer.cursor.transcript_end ≡ true) × (s.w2w ≡ 0))))
              (sym (client_csbuflo_round-same clock n u other)) (released, ended)
      ]

  client_prepare_round-Allowed :
      (pairs : List StPair) (clock : Clock) (c : Client)
      → ClientAllowed c.loop
          (client_prepare_round crypto pairs clock (output_buffer_len c.loop) c).loop
  unfolding client_prepare_round client_padding_done
  client_prepare_round-Allowed pairs clock c =
      let n = output_buffer_len c.loop in
      let r = client_supertrace_round crypto pairs clock n c in
      let u = record (r.loop) { truly_idle = false } in
      let mode = λ (x : Server). x.peer.stmode in
      record {
        from_ssh = λ m.
            let same : r.loop ≡ c.loop =
              ap (λ (x : Client). x.loop)
                (client_supertrace_round-same pairs clock n c (ap is_supertrace m)) in
            let still = ap mode same ∙ m in
            ap mode (client_csbuflo_round-same clock n u (ap is_csbuflo still)) ∙ still;
        from_csbuflo = λ m.
            let same : r.loop ≡ c.loop =
              ap (λ (x : Client). x.loop)
                (client_supertrace_round-same pairs clock n c (ap is_supertrace m)) in
            subst (λ (x : Server). Padded n x (client_csbuflo_round crypto clock n u)) same
              (client_csbuflo_round-Padded clock n u (ap mode same ∙ m));
        from_supertrace = λ m.
            let ends = client_supertrace_round-Ends pairs clock n c m in
            after_supertrace clock n c.loop u ends;
      }

  ClientAllowed-kept :
      (s p t : Server)
      → t.peer.stmode ≡ p.peer.stmode
      → t.peer.locked ≡ p.peer.locked
      → t.peer.server_entering_normal ≡ p.peer.server_entering_normal
      → ClientAllowed s p
      → ClientAllowed s t
  ClientAllowed-kept s p t mode locked normal a =
      ground (arith, a.from_ssh, a.from_csbuflo, a.from_supertrace)

  handle_unload-ClientAllowed :
      (now : ℕ) (s t : Server) → ClientAllowed (handle_unload now s) t → ClientAllowed s t
  unfolding handle_unload client_padding_done
  handle_unload-ClientAllowed now s t a =
      ground (arith, a.from_ssh, a.from_csbuflo, a.from_supertrace)

  client_skip-Allowed : (n : ℕ) (c : Client) → ClientAllowed c.loop (client_skip crypto n c).loop
  unfolding client_skip
  client_skip-Allowed n c =
      if_both (ClientAllowed c.loop) (ltb c.loop.outbuf_remain n)
        (record (c.loop) { truly_idle = false }) c.loop (ground arith) (ground arith)

  -- A round of the client leaves a connection without a page alone. CSBuFLO it ends only with nothing
  -- waiting and the total within a packet of 548 bytes of the target, a supertrace only when the server has ended its
  -- own and nothing of this one is left to write. Where a page ends and the server has said before that
  -- it is over there, that is used up and the lock is gone.
  pub client_round-Allowed :
      (sites : Sites) (sockets : List Socket) (clock : Clock) (writable : Bool) (c d : Client)
      → client_round crypto sites sockets clock writable c ≡ ok d
      → ClientAllowed c.loop d.loop
  unfolding client_round client_write
  client_round-Allowed sites sockets clock writable c0 d =
      let c = record c0 { loop = handle_unload clock.now c0.loop } in
      let n = output_buffer_len c.loop in
      let ready = client_prepare_round crypto (pairs_of sites c.loop.peer) clock n c in
      if_cases (λ o. o ≡ ok d → ClientAllowed c0.loop d.loop)
        (client_should_send clock.now writable c) _ _
        (λ _ e.
          let (s, ran, last) = ok_of_map _ (λ (s : Server). record ready { loop = s }) d e in
          let (locked, normal) =
            write_and_count-lock crypto true sockets clock n (n - c.loop.outbuf_remain) ready.loop s
              ran in
          handle_unload-ClientAllowed clock.now c0.loop d.loop (
            subst (λ (x : Client). ClientAllowed c.loop x.loop) last
              (ClientAllowed-kept c.loop ready.loop s
                (write_and_count-mode crypto true sockets clock n (n - c.loop.outbuf_remain)
                  ready.loop s ran)
                locked normal (client_prepare_round-Allowed (pairs_of sites c.loop.peer) clock c))))
        (λ _ e. handle_unload-ClientAllowed clock.now c0.loop d.loop (
          subst (λ (x : Client). ClientAllowed c.loop x.loop) (ok_injective e)
            (client_skip-Allowed n c)))

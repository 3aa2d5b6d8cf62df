-- ===== src/ClientLoop/Acknowledged.antt =====
-- What becomes of an item of the client's trace: it is waited for, or sent.
use csbu_flo.Notify.{Peer}
use csbu_flo.Base.Int.{pos, pos_part, ◌+ℤ◌, pos_part-add_zero, negated, ◌-ℤ◌}
use csbu_flo.Trace.{StPair}
use csbu_flo.Loop.{Server, await_data, data_received}
use csbu_flo.ClientLoop.{
  Client, client_send_item, expected_data, client_size, client_await, client_received, note_first,
}
use csbu_flo.Base.{
  arith, ℕ, if◌then◌else◌, ◌<◌, ◌≡◌, ◌==◌, ◌+◌, true, ◌⊎◌, false, ◌≤◌, if_cases, inl, ltb, inr,
  ◌&&◌, leb, ap, ltb→lt, ◌∙◌, refl,
}

-- When the wait began.
abbrev pub wait_start : ℕ → Server → ℕ
wait_start now s = if s.deadlock_start == 0 then now else s.deadlock_start

-- The second item of a page whose URL has not been acknowledged.
abbrev pub Unacknowledged : Client → Type 0
Unacknowledged c =
    (c.loop.peer.first_client ≡ false) × (c.second_client ≡ true) × (c.loop.peer.urlack ≡ false)

pub record ClientWaiting (now : ℕ) (item : StPair) (c d : Client) : Type 0 where
  pub missing : Unacknowledged c ⊎ (c.loop.peer.received_sofar < item.expected)
  pub same_amount : d.loop.w2w ≡ c.loop.w2w
  pub same_received : d.loop.peer.received_sofar ≡ c.loop.peer.received_sofar
  pub no_delay : d.loop.packet_tau ≡ pos 0
  pub in_time : now < wait_start now c.loop + 5000000
  pub start_kept : d.loop.deadlock_start ≡ wait_start now c.loop

-- `bytes` is the size of the item. The first one takes all that waits with it.
pub record ClientSent (now outbuf_len bytes : ℕ) (item : StPair) (c d : Client) : Type 0 where
  pub amount :
      d.loop.w2w
      ≡ c.loop.w2w
        + (if c.loop.peer.first_client && ltb bytes outbuf_len then outbuf_len else bytes)
  pub paced : d.loop.packet_tau ≡ item.time
  pub settled :
      ((d.loop.peer.received_sofar + item.expected ≡ c.loop.peer.received_sofar)
        × ((c.loop.peer.first_client ≡ true)
            ⊎ ((c.second_client ≡ false) ⊎ (c.loop.peer.urlack ≡ true))))
      ⊎ ((d.loop.peer.received_sofar ≡ c.loop.peer.received_sofar)
          × (d.second_client ≡ false)
          × (wait_start now c.loop + 5000000 ≤ now))

note_first-kept :
    (c : Client)
    → let d = note_first c in
      (d.loop.w2w ≡ c.loop.w2w)
      × (d.loop.peer.received_sofar ≡ c.loop.peer.received_sofar)
      × (d.loop.deadlock_start ≡ c.loop.deadlock_start)
      × (d.loop.packet_tau ≡ c.loop.packet_tau)
unfolding note_first
note_first-kept c = ground arith

-- The item waits for its own bytes, or for more than can have come.
expected_cases :
    (item : StPair) (c : Client)
    → ((expected_data item c ≡ item.expected)
        × ((c.loop.peer.first_client ≡ true)
            ⊎ ((c.second_client ≡ false) ⊎ (c.loop.peer.urlack ≡ true))))
      ⊎ ((expected_data item c ≡ 2147483647) × Unacknowledged c)
unfolding expected_data
expected_cases item c = ground arith

client_size_lem :
    (w outbuf_len bytes : ℕ) (item : StPair) (p : Peer)
    → item.size ≡ negated bytes
    → pos_part (pos w +ℤ client_size outbuf_len item p)
      ≡ w + (if p.first_client && ltb bytes outbuf_len then outbuf_len else bytes)
unfolding client_size ◌+ℤ◌ ◌-ℤ◌
client_size_lem w outbuf_len bytes item p e = rw e (ground arith)

-- An item of the client's trace, of `bytes` bytes from the client, while fewer than 2 ^ 31 - 1 bytes of the
-- server's are counted, is either waited for or sent. It is waited for because its part of the server's
-- data is missing, or as the second item of a page whose URL has not been acknowledged, for less than 5
-- seconds; then neither the amount to write nor what has been received changes. Or its bytes are added to
-- the amount, for the first item all that waits if that is more, and what the server was to send for it
-- is used up. So the second item is sent only when the URL has been acknowledged; unless the wait, 5
-- seconds after it began, is given up, and then nothing is used up.
pub client_send_item-IsSent :
    (now outbuf_len bytes : ℕ) (item : StPair) (c : Client)
    → item.size ≡ negated bytes
    → c.loop.peer.received_sofar < 2147483647
    → let d = client_send_item now outbuf_len item c in
      (d.loop.waiting_for_a_packet ≡ true → ClientWaiting now item c d)
      × (d.loop.waiting_for_a_packet ≡ false → ClientSent now outbuf_len bytes item c d)
unfolding client_send_item client_await client_received await_data data_received
client_send_item-IsSent now outbuf_len bytes item c size few_counted =
    let c1 = note_first (record c { loop = record (c.loop) { packet_tau = item.time } }) in
    let (w2w, received, start, tau) =
      note_first-kept (record c { loop = record (c.loop) { packet_tau = item.time } }) in
    let cases = expected_cases item c in
    let amount : pos_part (pos c1.loop.w2w +ℤ client_size outbuf_len item c.loop.peer)
        ≡ c.loop.w2w
          + (if c.loop.peer.first_client && ltb bytes outbuf_len then outbuf_len else bytes) =
      client_size_lem c1.loop.w2w outbuf_len bytes item c.loop.peer size
      ∙ ap
          (λ (w : ℕ).
            w + (if c.loop.peer.first_client && ltb bytes outbuf_len then outbuf_len else bytes))
          w2w in
    if_cases Goal (ltb c.loop.peer.received_sofar (expected_data item c)) (client_await now c1)
      (client_received (expected_data item c) c1)
      (λ few.
        if_cases
          (λ (s : Server).
            Goal
              (record c1 { loop = s; second_client = s.waiting_for_a_packet && c1.second_client }))
          (leb (wait_start now c1.loop + 5000000) now) _ _
          (λ late. (
            λ w. cc,
            λ _. record {
              amount = amount;
              paced = tau;
              settled = inr (received, refl, ground (arith, start, late));
            },
          ))
          (λ soon. (
            λ _. record {
              missing = elim cases [
                | inl own ↦ inr (
                    omega
                      (arith, own.0, ltb→lt c.loop.peer.received_sofar (expected_data item c) few))
                | inr none_yet ↦ inl none_yet.1
              ];
              same_amount = pos_part-add_zero c1.loop.w2w ∙ w2w;
              same_received = received;
              no_delay = refl;
              in_time = ground (arith, start, soon);
              start_kept = ap (λ (k : ℕ). if k == 0 then now else k) start;
            },
            λ w. cc,
          )))
      (λ enough. (
        λ w. cc,
        λ _. record {
          amount = amount;
          paced = tau;
          settled = elim cases [
            | inl own ↦ inl (ground (arith, own.0, received, enough), own.1)
            | inr none_yet ↦ absurd (ground (arith, none_yet.0, few_counted, enough))
          ];
        },
      ))
  where
    Goal : Client → Type 0
    Goal c2 =
        let cursize =
          if c2.loop.waiting_for_a_packet then pos 0 else client_size outbuf_len item c.loop.peer in
        let d = record c2 {
          loop = record (c2.loop) { w2w = pos_part (pos c2.loop.w2w +ℤ cursize) };
        } in
        (d.loop.waiting_for_a_packet ≡ true → ClientWaiting now item c d)
        × (d.loop.waiting_for_a_packet ≡ false → ClientSent now outbuf_len bytes item c d)

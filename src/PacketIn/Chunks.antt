-- ===== src/PacketIn/Chunks.antt =====
-- The messages are read as their bytes come, chunk by chunk.
use mathlib.Core.List.{append-nil, append_assoc}
use csbu_flo.PacketIn.{
  Opener, Reader, count_packet, is_valid_type, packet_process_incoming, read_messages,
  receive_chunks, packet_read_poll2,
}
use csbu_flo.PacketIn.Stream.{Ready, unbegun, begun, after, stream, poll_waits, poll_gets, poll_end}
use csbu_flo.PacketIn.Poll.{Rest, fresh, halfway, on_wire, length-mac}
use csbu_flo.PacketIn.Whole.{Typed, IsTyped, packet_of}
use csbu_flo.Packet.{Crypto}
use csbu_flo.Base.{
  arith, List, ℕ, All, [], length, ◌++◌, ◌+◌, ◌==◌, ◌∷◌, ◌≡◌, ap, false, ok, refl, suc, ◌<◌, ◌≤◌,
  length-append, ◌^◌, ◌∙◌, subst, sym, take-append_le, dec_lt, drop, drop-append_le, zero, joined,
  no_bytes, split_prefix,
}

kind_nonzero : (m : Typed) → IsTyped m → m.0 == 0 ≡ false
unfolding is_valid_type
kind_nonzero m v = ground (arith, v.kind)

module _ (crypto : Crypto) (opener : Opener crypto) where
  open crypto use {block_size, mac_len, block_fits}

  -- What a run of `read_messages` comes to when `d` is still to come: the messages that are there are
  -- given, in order, and the reader waits for the others.
  record Progress (fuel : ℕ) (ms : List Typed) (d : List ℕ) (r : Reader) : Type 0 where
    got : List Typed
    missing : List Typed
    state : Rest
    bytes : List ℕ
    next : Reader
    parts : ms ≡ got ++ missing
    run : read_messages crypto opener fuel r ≡ ok (got, next)
    ready : Ready crypto opener state missing bytes next
    agrees : bytes ++ d ≡ stream crypto opener state.p_read missing
    valid : All IsTyped missing
    few : state.p_read.packets + length missing < 2 ^ 32
    done : d ≡ [] → missing ≡ []

  read_last :
      (fuel : ℕ) (r r' : Reader)
      → packet_read_poll2 crypto opener r ≡ ok (0, r')
      → read_messages crypto opener (suc fuel) r ≡ ok ([], r')
  unfolding read_messages
  read_last fuel r r' e = rw e refl

  read_next :
      (fuel : ℕ) (m : Typed) (r r' next : Reader) (got : List Typed)
      → m.0 == 0 ≡ false
      → packet_read_poll2 crypto opener r ≡ ok (m.0, r')
      → read_messages crypto opener fuel r' ≡ ok (got, next)
      → read_messages crypto opener (suc fuel) r ≡ ok ((m.0, r'.incoming_packet) ∷ got, next)
  unfolding read_messages
  read_next fuel m r r' next got z e e' = rw (e, z, e') refl

  after-few :
      (m : Typed) (q : Rest) (k : ℕ)
      → q.p_read.packets + suc k < 2 ^ 32
      → (after crypto opener m q).p_read.packets + k < 2 ^ 32
  unfolding count_packet
  after-few m q k h = omega (arith, h)

  -- With the whole first message there, what is there is the message and the bytes behind it.
  whole_there :
      (n : ℕ) (p c d t : List ℕ)
      → c ++ d ≡ on_wire crypto opener n p t
      → length p + mac_len ≤ length c
      → (behind : List ℕ) × (c ≡ on_wire crypto opener n p behind) × (behind ++ d ≡ t)
  unfolding on_wire
  whole_there n p c d t e long =
      let w = opener.encrypt n p ++ opener.mac_compute n p in
      let size : length w ≡ length p + mac_len = omega (
        arith,
        length-append (opener.encrypt n p) (opener.mac_compute n p),
        opener.length-encrypt n p,
        length-mac crypto opener n p,
      ) in
      let cut =
        split_prefix w t c d
          (e ∙ sym (append_assoc (opener.encrypt n p) (opener.mac_compute n p) t))
          (omega (arith, size, long)) in
      (
        drop (length w) c,
        cut.0 ∙ append_assoc (opener.encrypt n p) (opener.mac_compute n p) _,
        cut.1,
      )

  pub length-on_wire :
      (n : ℕ) (p t : List ℕ) → length p + mac_len ≤ length (on_wire crypto opener n p t)
  unfolding on_wire
  length-on_wire n p t = omega (
    arith,
    length-append (opener.encrypt n p) (opener.mac_compute n p ++ t),
    length-append (opener.mac_compute n p) t,
    opener.length-encrypt n p,
    length-mac crypto opener n p,
  )

  -- The first message is not whole yet.
  read_part :
      (fuel : ℕ) (m : Typed) (ms : List Typed) (c d : List ℕ) (q : Rest) (r : Reader)
      → All IsTyped (m ∷ ms)
      → q.p_read.packets + suc (length ms) < 2 ^ 32
      → Ready crypto opener q (m ∷ ms) c r
      → c ++ d ≡ stream crypto opener q.p_read (m ∷ ms)
      → length c < length (packet_of crypto q.p_read.seqnr m) + mac_len
      → Progress (suc fuel) (m ∷ ms) d r
  unfolding stream
  read_part fuel m ms c d q r valid few ready e part =
      let waits = poll_waits crypto opener m ms c q valid.0 r _ d ready e part in
      record {
        got = [];
        missing = m ∷ ms;
        state = q;
        bytes = c;
        next = waits.0;
        parts = refl;
        run = read_last fuel r waits.0 waits.1;
        ready = waits.2;
        agrees = e;
        valid = valid;
        few = few;
        done = λ (all : d ≡ []). absurd (
            omega (
              arith,
              part,
              ap length (sym (append-nil c) ∙ ap (λ x. c ++ x) (sym all) ∙ e),
              length-on_wire q.p_read.seqnr (packet_of crypto q.p_read.seqnr m)
                  (stream crypto opener (after crypto opener m q).p_read ms),
            ));
      }

  -- The first message is whole: the others follow it.
  read_more :
      (fuel : ℕ) (m : Typed) (ms : List Typed) (d behind : List ℕ) (q : Rest) (r : Reader)
      → IsTyped m
      → packet_read_poll2 crypto opener r ≡ ok (m.0, fresh m.1 behind (after crypto opener m q))
      → Progress fuel ms d (fresh m.1 behind (after crypto opener m q))
      → Progress (suc fuel) (m ∷ ms) d r
  unfolding fresh
  read_more fuel m ms d behind q r v e others = record {
    got = m ∷ others.got;
    missing = others.missing;
    state = others.state;
    bytes = others.bytes;
    next = others.next;
    parts = ap (λ x. m ∷ x) others.parts;
    run = read_next fuel m r _ others.next others.got (kind_nonzero m v) e others.run;
    ready = others.ready;
    agrees = others.agrees;
    valid = others.valid;
    few = others.few;
    done = others.done;
  }

  read-Ready :
      (fuel : ℕ) (ms : List Typed) (c d : List ℕ) (q : Rest) (r : Reader)
      → length ms < fuel
      → All IsTyped ms
      → q.p_read.packets + length ms < 2 ^ 32
      → Ready crypto opener q ms c r
      → c ++ d ≡ stream crypto opener q.p_read ms
      → Progress fuel ms d r
  unfolding stream
  read-Ready zero ms c d q r h valid few ready e = absurd (omega arith)
  read-Ready (suc fuel) [] c d q r h valid few ready e =
      let none_left : c ≡ [] = no_bytes c d e in
      let ready' : Ready crypto opener q [] [] r =
        subst (λ b. Ready crypto opener q [] b r) none_left ready in
      record {
        got = [];
        missing = [];
        state = q;
        bytes = c;
        next = r;
        parts = refl;
        run = read_last fuel r r (poll_end crypto opener q r ready');
        ready = ready;
        agrees = e;
        valid = tt;
        few = few;
        done = λ _. refl;
      }
  read-Ready (suc fuel) (m ∷ ms) c d q r h (v, valid) few ready e =
      let n = q.p_read.seqnr in
      let p = packet_of crypto n m in
      elim (dec_lt (length c) (length p + mac_len)) [
        | yes part ↦ read_part fuel m ms c d q r (v, valid) few ready e part
        | no whole ↦
            let there =
              whole_there n p c d (stream crypto opener (after crypto opener m q).p_read ms) e
                (omega (arith, whole)) in
            read_more fuel m ms d there.0 q r v
              (poll_gets crypto opener m ms c q v r there.0 ready there.1 (omega (arith, few)))
              (read-Ready fuel ms there.0 d (after crypto opener m q)
                (fresh m.1 there.0 (after crypto opener m q)) (omega (arith, h)) valid
                (after-few m q (length ms) few) (unbegun m.1 refl) there.2)
      ]

  -- More bytes come.
  arrives :
      (ms : List Typed) (c buf : List ℕ) (q : Rest) (r : Reader)
      → Ready crypto opener q ms c r
      → (r' : Reader) × (packet_process_incoming buf r ≡ ok r')
        × Ready crypto opener
            (record q { received_sofar = q.received_sofar + length buf })
            ms
            (c ++ buf)
            r'
  unfolding packet_process_incoming fresh halfway
  arrives ms c buf q r (unbegun incoming same) =
      let q' = record q { received_sofar = q.received_sofar + length buf } in
      (fresh incoming (c ++ buf) q', ap (packet_process_incoming buf) same, unbegun incoming refl)
  arrives (m ∷ ms) c buf q r (begun long same) =
      let q' = record q { received_sofar = q.received_sofar + length buf } in
      (
        halfway crypto opener (packet_of crypto q.p_read.seqnr m) (c ++ buf) q',
        ap (packet_process_incoming buf) same
            ∙ rw (take-append_le block_size c buf long, drop-append_le block_size c buf long) refl,
        begun (omega (arith, length-append c buf, long)) refl,
      )

  nothing_left :
      (q : Rest) (c : List ℕ) (r : Reader) → Ready crypto opener q [] c r → c ≡ [] → r.input ≡ []
  unfolding fresh
  nothing_left q c r (unbegun incoming same) e = ap (λ (x : Reader). x.input) same ∙ e

  -- All chunks in turn, where no whole message is left over at the start.
  pub receive-Ready :
      (fuel : ℕ) (chunks : List (List ℕ)) (ms : List Typed) (c : List ℕ) (q : Rest) (r : Reader)
      → length ms < fuel
      → All IsTyped ms
      → q.p_read.packets + length ms < 2 ^ 32
      → Ready crypto opener q ms c r
      → c ++ joined chunks ≡ stream crypto opener q.p_read ms
      → (joined chunks ≡ [] → ms ≡ [])
      → (next : Reader) × (receive_chunks crypto opener fuel chunks r ≡ ok (ms, next))
        × (next.input ≡ [])
  unfolding receive_chunks stream
  receive-Ready fuel [] ms c q r h valid few ready e done =
      let over : ms ≡ [] = done refl in
      (
        r,
        ap (λ x. ok (x, r)) (sym over),
        nothing_left q c r (subst (λ x. Ready crypto opener q x c r) over ready)
            (no_bytes c [] (e ∙ ap (stream crypto opener q.p_read) over)),
      )
  receive-Ready fuel (buf ∷ bufs) ms c q r h valid few ready e done =
      let come = arrives ms c buf q r ready in
      let q' = record q { received_sofar = q.received_sofar + length buf } in
      let read =
        read-Ready fuel ms (c ++ buf) (joined bufs) q' come.0 h valid few come.2
          (append_assoc c buf (joined bufs) ∙ e) in
      let rest =
        receive-Ready fuel bufs read.missing read.bytes read.state read.next
          (omega (arith, ap length read.parts, length-append read.got read.missing, h)) read.valid
          read.few read.ready read.agrees read.done in
      (rest.0, rw (come.1, read.run, rest.1) (ap (λ x. ok (x, rest.0)) (sym read.parts)), rest.2)

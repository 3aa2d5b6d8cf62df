-- ===== src/PacketIn/Sent.antt =====
-- From one end of the connection to the other.
use mathlib.Core.List.{append-nil, append_assoc}
use csbu_flo.PacketIn.{Opener, Reader, count_packet, receive_chunks}
use csbu_flo.PacketIn.Chunks.{receive-Ready, length-on_wire}
use csbu_flo.PacketIn.Stream.{unbegun, stream}
use csbu_flo.PacketIn.Poll.{Rest, fresh, on_wire}
use csbu_flo.PacketIn.Whole.{Typed, IsTyped, packet_of, length-packet_of}
use csbu_flo.Packet.{
  Crypto, PacketState, Session, packet_start, packet_put_bytes, packet_send2, packet_send2_wrapped,
  padding, msg_kexinit, msg_newkeys,
}
use csbu_flo.Packet.Size.{put_bytes-append}
use csbu_flo.Base.{
  arith, All, List, ◌≡◌, false, replicate, ℕ, ◌<◌, ◌∷◌, [], map, ◌++◌, ◌≢◌, ◌%◌, ◌∙◌, ap, ap₂, refl,
  length, ◌==◌, ==_false, ◌+◌, sym, ◌^◌, ok, joined,
}

-- A message of bytes that does not start or end a change of keys.
pub record IsSendable (m : Typed) : Type 0 where
  pub message : IsTyped m
  pub all_bytes : All (λ b. b < 256) m.1
  pub no_kexinit : m.0 ≢ msg_kexinit
  pub no_newkeys : m.0 ≢ msg_newkeys

map_byte : (bs : List ℕ) → All (λ b. b < 256) bs → map (λ b. b % 256) bs ≡ bs
map_byte [] h = refl
map_byte (b ∷ bs) (h, hs) = ap₂ (λ x xs. x ∷ xs) (omega (arith, h)) (map_byte bs hs)

All-message : (ms : List Typed) → All IsSendable ms → All IsTyped ms
All-message [] v = tt
All-message (m ∷ ms) (v, vs) = (v.message, All-message ms vs)

-- Past the start of the connection, and not while keys are changed.
pub record IsSettled (s : Session) : Type 0 where
  pub no_extra : s.extra_pad ≡ 0
  pub no_rekeying : s.rekeying ≡ false

settled : List ℕ → List ℕ → List (List ℕ) → PacketState → Session
settled output outgoing_packet outgoing p = record {
  output = output;
  outgoing_packet = outgoing_packet;
  p_send = p;
  extra_pad = 0;
  rekeying = false;
  outgoing = outgoing;
}

IsSettled-settled :
    (s : Session) → IsSettled s → s ≡ settled s.output s.outgoing_packet s.outgoing s.p_send
unfolding settled
IsSettled-settled s v i = record {
  output = s.output;
  outgoing_packet = s.outgoing_packet;
  p_send = s.p_send;
  extra_pad = v.no_extra i;
  rekeying = v.no_rekeying i;
  outgoing = s.outgoing;
}

module _ (crypto : Crypto) where
  open crypto use {block_size}

  -- `packet_start`, the body, and `packet_send`.
  pub send : Typed → Session → Session
  send m s = packet_send2 crypto (packet_put_bytes m.1 (packet_start m.0 s))

  pub send_all : List Typed → Session → Session
  send_all [] s = s
  send_all (m ∷ ms) s = send_all ms (send m s)

  whole_message :
      (m : Typed) (s : Session)
      → IsSendable m
      → packet_put_bytes m.1 (packet_start m.0 s)
        ≡ record s { outgoing_packet = replicate 5 0 ++ m.0 ∷ m.1 }
  unfolding packet_start
  whole_message m s v =
      put_bytes-append m.1 (packet_start m.0 s)
      ∙ ap (λ b. record s { outgoing_packet = replicate 5 0 ++ m.0 ∷ b }) (map_byte m.1 v.all_bytes)

  -- Outside a change of keys a message is sent at once, behind the bytes that wait.
  send-settled :
      (m : Typed) (output outgoing_packet : List ℕ) (outgoing : List (List ℕ)) (p : PacketState)
      → IsSendable m
      → send m (settled output outgoing_packet outgoing p)
        ≡ settled
            (output ++ crypto.seal p.seqnr (packet_of crypto p.seqnr m))
            []
            outgoing
            (count_packet block_size (length (packet_of crypto p.seqnr m)) p)
  unfolding send packet_send2 packet_send2_wrapped settled padding packet_of count_packet
  send-settled m output outgoing_packet outgoing p v =
      let starts : m.0 == msg_kexinit ≡ false = ==_false m.0 msg_kexinit v.no_kexinit in
      let ends : m.0 == msg_newkeys ≡ false = ==_false m.0 msg_newkeys v.no_newkeys in
      let len : length (replicate 5 0 ++ m.0 ∷ m.1) ≡ length m.1 + 6 = omega arith in
      rw (whole_message m (settled output outgoing_packet outgoing p) v, starts, ends, len) refl

  module _ (opener : Opener crypto) where
    send_all-stream :
        (ms : List Typed) (output outgoing_packet : List ℕ) (outgoing : List (List ℕ))
        (p : PacketState)
        → All IsSendable ms
        → (send_all ms (settled output outgoing_packet outgoing p)).output
          ≡ output ++ stream crypto opener p ms
    unfolding send_all settled stream on_wire
    send_all-stream [] output outgoing_packet outgoing p v = sym (append-nil output)
    send_all-stream (m ∷ ms) output outgoing_packet outgoing p (v, vs) =
        let packet = packet_of crypto p.seqnr m in
        let p' = count_packet block_size (length packet) p in
        let e = opener.encrypt p.seqnr packet in
        let mac = opener.mac_compute p.seqnr packet in
        let others = stream crypto opener p' ms in
        ap (λ (s : Session). (send_all ms s).output)
          (send-settled m output outgoing_packet outgoing p v)
        ∙ send_all-stream ms (output ++ crypto.seal p.seqnr packet) [] outgoing p' vs
        ∙ append_assoc output (crypto.seal p.seqnr packet) others
        ∙ ap (λ w. output ++ (w ++ others)) (opener.seal_parts p.seqnr packet)
        ∙ ap (λ w. output ++ w) (append_assoc e mac others)

    stream_empty : (ms : List Typed) (p : PacketState) → stream crypto opener p ms ≡ [] → ms ≡ []
    unfolding stream
    stream_empty [] p e = refl
    stream_empty (m ∷ ms) p e =
        let packet = packet_of crypto p.seqnr m in
        absurd (
          omega (
            arith,
            ap length e,
            length-on_wire crypto opener p.seqnr packet _,
            length-packet_of crypto p.seqnr m,
          ))

    -- What is sent with nothing else waiting is received by a peer whose counts are those of the sender:
    -- the same messages, in order, each with its type and its bytes, however the network cuts the bytes
    -- into chunks; and nothing is left over. The messages are valid ones of at most 262000 bytes that
    -- do not change keys, and fewer than 2 ^ 32 with those before them.
    pub receive_chunks-send_all :
        (ms : List Typed) (s : Session) (chunks : List (List ℕ)) (fuel : ℕ) (incoming : List ℕ)
        (q : Rest)
        → All IsSendable ms
        → IsSettled s
        → s.output ≡ []
        → q.p_read ≡ s.p_send
        → s.p_send.packets + length ms < 2 ^ 32
        → length ms < fuel
        → joined chunks ≡ (send_all ms s).output
        → (next : Reader) × (receive_chunks crypto opener fuel chunks (fresh incoming [] q)
            ≡ ok (ms, next))
          × (next.input ≡ [])
    receive_chunks-send_all ms s chunks fuel incoming q v settled_here empty same few enough cut =
        let whole : joined chunks ≡ stream crypto opener q.p_read ms =
          cut
          ∙ ap (λ (t : Session). (send_all ms t).output) (IsSettled-settled s settled_here)
          ∙ send_all-stream ms s.output s.outgoing_packet s.outgoing s.p_send v
          ∙ ap (λ o. o ++ stream crypto opener s.p_send ms) empty
          ∙ ap (λ p. stream crypto opener p ms) (sym same) in
        receive-Ready crypto opener fuel chunks ms [] q (fresh incoming [] q) enough
          (All-message ms v) (omega (arith, few, ap (λ (p : PacketState). p.packets) same))
          (unbegun incoming refl) whole
          (λ none_come. stream_empty ms q.p_read (sym whole ∙ none_come))

-- ===== src/PacketIn/Stream.antt =====
-- Messages over a connection: what is sent is received, however the bytes are cut on the way.
use mathlib.Core.List.{append-nil}
use csbu_flo.PacketIn.{Opener, Reader, packet_read_poll2, count_packet, read_rest}
use csbu_flo.PacketIn.Poll.{
  Rest, IsPacket, fresh, halfway, on_wire, read_head-halfway, poll-halfway, rest_waits,
  rest_received, poll_short,
}
use csbu_flo.PacketIn.Whole.{Typed, IsTyped, packet_of, packet_of-IsPacket, accept-packet_of}
use csbu_flo.Packet.{Crypto, PacketState}
use csbu_flo.Base.{
  arith, List, length, ℕ, ◌++◌, ◌∷◌, ◌≡◌, [], ◌≤◌, refl, take, ◌<◌, sym, ◌+◌, ok, take-append_le,
  dec_lt, ◌∙◌, ap, length-append, ◌^◌,
}

module _ (crypto : Crypto) (opener : Opener crypto) where
  open crypto use {block_size, mac_len, block_fits}

  abbrev pub after : Typed → Rest → Rest
  after m q = record q {
    p_read = count_packet block_size (length (packet_of crypto q.p_read.seqnr m)) q.p_read;
  }

  -- The bytes that the messages take.
  unfoldable pub stream : PacketState → List Typed → List ℕ
  stream p [] = []
  stream p (m ∷ ms) =
      on_wire crypto opener p.seqnr (packet_of crypto p.seqnr m)
        (stream (count_packet block_size (length (packet_of crypto p.seqnr m)) p) ms)

  -- A reader that has got the bytes `c` of those messages, and has given none of them yet.
  pub data Ready (q : Rest) : List Typed → List ℕ → Reader → Type 0 where
    unbegun :
        {ms : List Typed} {c : List ℕ} {r : Reader} (incoming : List ℕ)
        → r ≡ fresh incoming c q
        → Ready q ms c r
    begun :
        {m : Typed} {ms : List Typed} {c : List ℕ} {r : Reader}
        → block_size ≤ length c
        → r ≡ halfway crypto opener (packet_of crypto q.p_read.seqnr m) c q
        → Ready q (m ∷ ms) c r

  module _ (m : Typed) (ms : List Typed) (c : List ℕ) (q : Rest) (v : IsTyped m) where
    abbrev pub packet : List ℕ
    packet = packet_of crypto q.p_read.seqnr m

    valid_packet : IsPacket crypto opener packet
    valid_packet = packet_of-IsPacket crypto opener q.p_read.seqnr m v

    first_same :
        (t d : List ℕ)
        → c ++ d ≡ on_wire crypto opener q.p_read.seqnr packet t
        → block_size ≤ length c
        → take block_size c ≡ take block_size (opener.encrypt q.p_read.seqnr packet)
    unfolding on_wire
    first_same t d e long =
        sym (take-append_le block_size c d long)
        ∙ ap (take block_size) e
        ∙ take-append_le block_size (opener.encrypt q.p_read.seqnr packet) _
            (omega (arith, opener.length-encrypt q.p_read.seqnr packet, valid_packet.first))

    whole_long :
        (behind : List ℕ)
        → c ≡ on_wire crypto opener q.p_read.seqnr packet behind
        → block_size ≤ length c
    unfolding on_wire
    whole_long behind e =
        let e' = opener.encrypt q.p_read.seqnr packet in
        omega (
          arith,
          ap length e,
          length-append e' (opener.mac_compute q.p_read.seqnr packet ++ behind),
          opener.length-encrypt q.p_read.seqnr packet,
          valid_packet.first,
        )

    -- A part of the first message: nothing is given.
    pub poll_waits :
        (r : Reader) (t d : List ℕ)
        → Ready q (m ∷ ms) c r
        → c ++ d ≡ on_wire crypto opener q.p_read.seqnr packet t
        → length c < length packet + mac_len
        → (r' : Reader) × (packet_read_poll2 crypto opener r ≡ ok (0, r')) × Ready q (m ∷ ms) c r'
    poll_waits r t d (unbegun incoming same) e part = elim (dec_lt (length c) block_size) [
      | yes less ↦ (
        fresh incoming c q,
        ap (packet_read_poll2 crypto opener) same ∙ poll_short crypto opener c incoming q less,
        unbegun incoming refl,
      )
      | no more ↦
          let long : block_size ≤ length c = omega (arith, more) in
          (
            halfway crypto opener packet c q,
            ap (packet_read_poll2 crypto opener) same
                ∙ read_head-halfway crypto opener packet c incoming q valid_packet long
                    (first_same t d e long)
                ∙ rest_waits crypto opener packet c q valid_packet long part,
            begun long refl,
          )
    ]
    poll_waits r t d (begun long same) e part = (
      halfway crypto opener packet c q,
      ap (packet_read_poll2 crypto opener) same
          ∙ poll-halfway crypto opener packet c q valid_packet
          ∙ rest_waits crypto opener packet c q valid_packet long part,
      begun long refl,
    )

    -- The whole of the first message: it is given, and the next bytes are those behind it.
    pub poll_gets :
        (r : Reader) (behind : List ℕ)
        → Ready q (m ∷ ms) c r
        → c ≡ on_wire crypto opener q.p_read.seqnr packet behind
        → q.p_read.packets + 1 < 2 ^ 32
        → packet_read_poll2 crypto opener r ≡ ok (m.0, fresh m.1 behind (after m q))
    poll_gets r behind (unbegun incoming same) e few =
        let long : block_size ≤ length c = whole_long behind e in
        ap (packet_read_poll2 crypto opener) same
        ∙ read_head-halfway crypto opener packet c incoming q valid_packet long
            (first_same behind [] (append-nil c ∙ e) long)
        ∙ ap (λ b. read_rest crypto opener (halfway crypto opener packet b q)) e
        ∙ rest_received crypto opener packet behind q valid_packet
        ∙ accept-packet_of crypto opener m behind q v few
    poll_gets r behind (begun long same) e few =
        ap (packet_read_poll2 crypto opener) same
        ∙ poll-halfway crypto opener packet c q valid_packet
        ∙ ap (λ b. read_rest crypto opener (halfway crypto opener packet b q)) e
        ∙ rest_received crypto opener packet behind q valid_packet
        ∙ accept-packet_of crypto opener m behind q v few

  pub poll_end :
      (q : Rest) (r : Reader) → Ready q [] [] r → packet_read_poll2 crypto opener r ≡ ok (0, r)
  poll_end q r (unbegun incoming same) =
      ap (packet_read_poll2 crypto opener) same
      ∙ poll_short crypto opener [] incoming q (omega (arith, block_fits.0))
      ∙ ap (λ s. ok (0, s)) (sym same)

-- ===== src/PacketIn/Whole.antt =====
-- A whole packet that has arrived gives the message that was sent.
use native.Mathlib.Nat.{mod-eq_of_lt}
use csbu_flo.PacketIn.{
  Opener, Reader, accept_packet, strip_padding, take_type, count_packet, is_valid_type,
}
use csbu_flo.PacketIn.Poll.{Rest, IsPacket, fresh, arrived}
use csbu_flo.Packet.{Crypto, PacketState, framed, base_padding, put_u32}
use csbu_flo.Packet.Size.{base_padding_bounds}
use csbu_flo.Bufaux.Roundtrip.{u32_value}
use csbu_flo.Bufaux.{from_bytes}
use csbu_flo.Base.{
  arith, List, ℕ, ◌≡◌, ◌≤◌, ap, length, replicate, true, ◌<◌, ◌%◌, ◌++◌, ◌+◌, dec_lt, ◌∙◌, ◌∷◌,
  length-append, ok, take, ◌^◌, [], ◌-◌, ltb, false, ltb-false, take_at, take_own, refl, ◌==◌,
  ==_false, add32,
}

-- A type and what follows it.
abbrev pub Typed : Type 0
Typed = ℕ × List ℕ

pub record IsTyped (m : Typed) : Type 0 where
  pub kind : is_valid_type m.0 ≡ true
  pub room : length m.1 ≤ 262000

module _ (crypto : Crypto) where
  open crypto use {block_size, mac_len, block_fits, noise, length-noise}

  abbrev pub padlen : Typed → ℕ
  padlen m = base_padding block_size (length m.1 + 6)

  -- The message with its length and padding, as `packet_send2_wrapped` makes it.
  unfoldable pub packet_of : ℕ → Typed → List ℕ
  packet_of n m = framed crypto (replicate 5 0 ++ m.0 ∷ m.1) (padlen m) n

  padlen_bounds :
      (m : Typed)
      → (4 ≤ padlen m)
        × (padlen m < block_size + 4)
        × ((length m.1 + 6 + padlen m) % block_size ≡ 0)
  padlen_bounds m = base_padding_bounds block_size (length m.1 + 6) block_fits.0 block_fits.1

  pub length-packet_of : (n : ℕ) (m : Typed) → length (packet_of n m) ≡ length m.1 + 6 + padlen m
  unfolding packet_of framed put_u32
  length-packet_of n m =
      omega (arith, length-append m.1 (noise n (padlen m)), length-noise n (padlen m))

  whole_first : (p : List ℕ) → 0 < length p → length p % block_size ≡ 0 → block_size ≤ length p
  whole_first p some_bytes whole = elim (dec_lt (length p) block_size) [
    | yes less ↦ absurd (omega (arith, mod-eq_of_lt less, whole))
    | no more ↦ omega (arith, more)
  ]

  packet_of-size :
      (n : ℕ) (m : Typed)
      → IsTyped m
      → from_bytes 0 (take 4 (packet_of n m)) ≡ length (packet_of n m) - 4
  unfolding packet_of framed put_u32
  packet_of-size n m v =
      u32_value (length (replicate 5 0 ++ m.0 ∷ m.1) + padlen m - 4)
        (omega (arith, padlen_bounds m, v.room, block_fits.1))
      ∙ omega (arith, length-packet_of n m)

module _ (crypto : Crypto) (opener : Opener crypto) where
  open crypto use {block_size, block_fits, noise, length-noise}

  pub packet_of-IsPacket :
      (n : ℕ) (m : Typed) → IsTyped m → IsPacket crypto opener (packet_of crypto n m)
  packet_of-IsPacket n m v =
      let len = length-packet_of crypto n m in
      let b = padlen_bounds crypto m in
      record {
        whole = ap (λ k. k % block_size) len ∙ b.2;
        first =
            whole_first crypto (packet_of crypto n m) (omega (arith, len, b.0))
              (ap (λ k. k % block_size) len ∙ b.2);
        least = omega (arith, len, b.0);
        small = omega (arith, len, b.1, block_fits.1, v.room);
        size = packet_of-size crypto n m v;
      }

  -- Without the length and the padding the message is left.
  strip-packet_of :
      (n : ℕ) (m : Typed) (r : Reader)
      → IsTyped m
      → strip_padding (record r { incoming_packet = packet_of crypto n m })
        ≡ ok (m.0, record r { incoming_packet = m.1; packlen = 0; opened = [] })
  unfolding strip_padding take_type packet_of framed put_u32
  strip-packet_of n m r v =
      let body = m.0 ∷ m.1 in
      let pad = noise n (padlen crypto m) in
      let long : length (body ++ pad) ≡ length body + padlen crypto m =
        omega (arith, length-append body pad, length-noise n (padlen crypto m)) in
      let all_there : ltb (length (body ++ pad)) (padlen crypto m) ≡ false =
        ltb-false _ _ (omega (arith, long)) in
      let left : take (length (body ++ pad) - padlen crypto m) (body ++ pad) ≡ body =
        take_at (body ++ pad) (length (body ++ pad) - padlen crypto m) (length body)
          (omega (arith, long))
        ∙ take_own body pad in
      rw (ltb-false (padlen crypto m) 4 (padlen_bounds crypto m).0, all_there, left, v.kind) refl

  counted :
      (size : ℕ) (p : PacketState)
      → p.packets + 1 < 2 ^ 32
      → (count_packet block_size size p).packets == 0 ≡ false
  unfolding count_packet
  counted size p h = ==_false (add32 p.packets 1) 0 (omega (arith, h))

  -- A packet that is whole gives its message.
  pub accept-packet_of :
      (m : Typed) (rest : List ℕ) (q : Rest)
      → IsTyped m
      → q.p_read.packets + 1 < 2 ^ 32
      → accept_packet crypto opener
          (arrived crypto opener (packet_of crypto q.p_read.seqnr m) rest q)
        ≡ ok (
          m.0,
          fresh m.1 rest (record q {
            p_read = count_packet block_size (length (packet_of crypto q.p_read.seqnr m)) q.p_read;
          }),
        )
  unfolding accept_packet arrived fresh
  accept-packet_of m rest q v few =
      let n = q.p_read.seqnr in
      let size : length (packet_of crypto n m) - 4 + 4 ≡ length (packet_of crypto n m) =
        omega (arith, length-packet_of crypto n m) in
      rw (size, counted (length (packet_of crypto n m)) q.p_read few)
        (strip-packet_of n m
          (record (arrived crypto opener (packet_of crypto n m) rest q) {
            p_read = count_packet block_size (length (packet_of crypto n m)) q.p_read;
          })
          v)

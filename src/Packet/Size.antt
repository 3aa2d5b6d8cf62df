-- ===== src/Packet/Size.antt =====
-- How many bytes a packet takes.
use native.Mathlib.Nat.{mod-lt, mod-add-mod, mod_self, mod-eq-sub-mod}
use mathlib.Core.List.{append-nil, append_assoc}
use csbu_flo.Base.{
  ℕ, ◌+◌, ◌-◌, ◌%◌, ◌≤◌, ◌<◌, ◌≡◌, refl, sym, ap, ◌∙◌, List, [], ◌∷◌, ◌++◌, length, get_or,
  replicate, drop, arith, length-append, length-drop, and_false, or_false, map, length-map, dec_lt,
  inl, inr, ◌⊎◌,
}
use csbu_flo.Packet.{
  Crypto, Session, put_u32, packet_start, packet_put_char, packet_put_int, packet_put_bytes,
  base_padding, padding, framed, packet_send2_wrapped, packet_send2, packet_send_ignore, ignored,
  msg_ignore,
}

twice-mod : (b : ℕ) → (b + b) % b ≡ 0
twice-mod b =
    let e : b + b - b ≡ b = omega arith in mod-eq-sub-mod (omega arith) ∙ rw e (mod_self b)

fills : (b len p : ℕ) → 0 < b → (len % b + p ≡ b) ⊎ (len % b + p ≡ b + b) → (len + p) % b ≡ 0
fills b len p pos (inl e) = sym (mod-add-mod len b p) ∙ rw e (mod_self b)
fills b len p pos (inr e) = sym (mod-add-mod len b p) ∙ rw e (twice-mod b)

-- For blocks of 4 to 128 bytes: the padding has at least 4 bytes and less than a block and 4, and
-- fills the packet up to a whole number of blocks.
pub base_padding_bounds :
    (block_size len : ℕ)
    → 4 ≤ block_size
    → block_size ≤ 128
    → (4 ≤ base_padding block_size len)
      × (base_padding block_size len < block_size + 4)
      × ((len + base_padding block_size len) % block_size ≡ 0)
unfolding base_padding
base_padding_bounds block_size len lo hi =
    let r : len % block_size < block_size = mod-lt len (omega arith) in
    (
      ground arith,
      ground arith,
      fills block_size len (base_padding block_size len) (omega arith)
          (elim (dec_lt (block_size - len % block_size) 4) [
            | yes few ↦ inr (ground arith)
            | no enough ↦ inl (ground arith)
          ]),
    )

pub put_bytes-append :
    (bs : List ℕ) (s : Session)
    → packet_put_bytes bs s
      ≡ record s { outgoing_packet = s.outgoing_packet ++ map (λ b. b % 256) bs }
unfolding packet_put_bytes packet_put_char
put_bytes-append [] s =
    ap (λ q. record s { outgoing_packet = q }) (sym (append-nil s.outgoing_packet))
put_bytes-append (b ∷ bs) s =
    put_bytes-append bs (packet_put_char b s)
    ∙ ap (λ q. record s { outgoing_packet = q })
        (append_assoc s.outgoing_packet (b % 256 ∷ []) (map (λ b. b % 256) bs))

module _ (crypto : Crypto) where
  open crypto use {block_size, mac_len, block_fits, length-seal, length-noise}

  pub length-put_u32 : (v : ℕ) → length (put_u32 v) ≡ 4
  unfolding put_u32
  length-put_u32 v = refl

  length-framed :
      (payload : List ℕ) (padlen seed : ℕ)
      → 5 ≤ length payload
      → length (framed crypto payload padlen seed) ≡ length payload + padlen
  unfolding framed put_u32
  length-framed payload padlen seed h = omega (
    arith,
    length-append (drop 5 payload) (crypto.noise seed padlen),
    length-drop 5 payload,
    length-noise seed padlen,
  )

  -- What a message of `n` bytes becomes on the wire.
  pub wire_length : ℕ → ℕ
  wire_length n = n + base_padding block_size n + mac_len

  pub send_length :
      (s : Session)
      → s.extra_pad ≡ 0
      → 5 ≤ length s.outgoing_packet
      → length (packet_send2_wrapped crypto s).output
        ≡ length s.output + wire_length (length s.outgoing_packet)
  unfolding packet_send2_wrapped padding wire_length
  send_length s none_extra h = rw (none_extra) (
      omega (
        arith,
        length-append s.output (
            crypto.seal s.p_send.seqnr (
              framed crypto s.outgoing_packet (base_padding block_size (length s.outgoing_packet))
                s.p_send.seqnr)),
        length-seal s.p_send.seqnr (
            framed crypto s.outgoing_packet (base_padding block_size (length s.outgoing_packet))
              s.p_send.seqnr),
        length-framed s.outgoing_packet (base_padding block_size (length s.outgoing_packet))
            s.p_send.seqnr h,
      ))

  -- The message that `packet_send_ignore` puts together.
  abbrev ignore_message : ℕ → ℕ → List ℕ
  ignore_message nbytes seed =
      (replicate 5 0 ++ msg_ignore ∷ [])
      ++ put_u32 nbytes
      ++ map (λ b. b % 256) (crypto.noise seed nbytes)

  send_ignore_message :
      (n : ℕ) (s : Session)
      → packet_send_ignore crypto n s
        ≡ record s { outgoing_packet = ignore_message n s.p_send.seqnr }
  unfolding packet_send_ignore packet_put_int packet_start
  send_ignore_message n s = put_bytes-append (crypto.noise s.p_send.seqnr n) _

  length-ignore_message : (n seed : ℕ) → length (ignore_message n seed) ≡ n + 10
  unfolding put_u32
  length-ignore_message n seed =
      omega (arith, length-map (crypto.noise seed n) (λ b. b % 256), length-noise seed n)

  ignore_message-type : (n seed : ℕ) → get_or (ignore_message n seed) 5 0 ≡ msg_ignore
  unfolding put_u32
  ignore_message-type n seed = refl

  -- A session that is past its start: no extra padding is asked for.
  pub ignored_sent :
      (n : ℕ) (s : Session)
      → ignored crypto n s
        ≡ packet_send2_wrapped crypto
            (record s { outgoing_packet = ignore_message n s.p_send.seqnr })
  unfolding ignored packet_send2 put_u32
  ignored_sent n s =
      rw (send_ignore_message n s) (rw (and_false s.rekeying, or_false s.rekeying) refl)

  pub ignored-extra_pad : (n : ℕ) (s : Session) → (ignored crypto n s).extra_pad ≡ 0
  ignored-extra_pad n s = rw (ignored_sent n s) (unfold packet_send2_wrapped in refl)

  -- An ignore message of `n` bytes, no extra padding being asked for, goes behind the bytes that wait,
  -- also while keys are exchanged, and takes the length of a message of `n + 10` bytes on the wire.
  pub ignored_output :
      (n : ℕ) (s : Session)
      → s.extra_pad ≡ 0
      → (more : List ℕ) × ((ignored crypto n s).output ≡ s.output ++ more)
        × (length more ≡ wire_length (n + 10))
  ignored_output n s none_extra =
      (more, rw (ignored_sent n s) (unfold packet_send2_wrapped in refl), size)
    where
      message : List ℕ
      message = ignore_message n s.p_send.seqnr

      more : List ℕ
      more =
          crypto.seal s.p_send.seqnr
            (framed crypto message (padding block_size s.extra_pad (length message)) s.p_send.seqnr)

      whole : Session
      whole = packet_send2_wrapped crypto (record s { outgoing_packet = message })

      size : length more ≡ wire_length (n + 10)
      size =
          let long : 5 ≤ length message = omega (arith, length-ignore_message n s.p_send.seqnr) in
          let sum : length whole.output ≡ length s.output + wire_length (length message) =
            send_length (record s { outgoing_packet = message }) none_extra long in
          let parts : length whole.output ≡ length s.output + length more =
            unfold packet_send2_wrapped in length-append s.output more in
          omega (arith, sum, parts) ∙ ap wire_length (length-ignore_message n s.p_send.seqnr)

  -- A message takes its bytes, 4 to block size + 3 of padding, and the MAC.
  pub wire_length_bounds :
      (n : ℕ) → (n + 4 + mac_len ≤ wire_length n) × (wire_length n < n + block_size + 4 + mac_len)
  unfolding wire_length
  wire_length_bounds n = omega (arith, base_padding_bounds block_size n block_fits.0 block_fits.1)

-- What the receiver gets of a message with a number and two runs of bytes, behind its type.
pub message_body :
    (type n : ℕ) (a b : List ℕ) (s : Session)
    → drop 6
        (packet_put_bytes b
          (packet_put_bytes a (packet_put_int n (packet_start type s)))).outgoing_packet
      ≡ put_u32 n ++ (map (λ c. c % 256) a ++ map (λ c. c % 256) b)
unfolding packet_put_int packet_start put_u32
message_body type n a b s =
    let first = put_bytes-append a (packet_put_int n (packet_start type s)) in
    rw (put_bytes-append b (packet_put_bytes a (packet_put_int n (packet_start type s))), first)
      refl

-- Before it is sent: five bytes for the header, the type, and what the receiver gets.
pub message_packet :
    (type n : ℕ) (a b : List ℕ) (s : Session)
    → let t = packet_put_bytes b (packet_put_bytes a (packet_put_int n (packet_start type s))) in
      t ≡ record s { outgoing_packet = replicate 5 0 ++ type ∷ drop 6 t.outgoing_packet }
unfolding packet_put_int packet_start put_u32
message_packet type n a b s =
    let first = put_bytes-append a (packet_put_int n (packet_start type s)) in
    rw (put_bytes-append b (packet_put_bytes a (packet_put_int n (packet_start type s))), first)
      refl

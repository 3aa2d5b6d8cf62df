-- ===== src/Packet.antt =====
-- packet.c, protocol 2: how a message becomes bytes of the output buffer.
-- The cipher and the MAC are a parameter. The two buffers that are used here, of the message that is
-- put together and of the bytes that wait for the socket, are the queues that Buffer/Queue shows
-- them to be; their limit of 10 MB is not tested. Compression is off, and the new keys that follow
-- SSH2_MSG_NEWKEYS are not switched to.
pub mod Size
pub mod Tests
use csbu_flo.Base.{
  ℕ, zero, suc, ◌+◌, ◌-◌, ◌*◌, ◌/◌, ◌%◌, ◌^◌, ◌≤◌, ◌≡◌, Bool, true, false, not, ◌&&◌, ◌||◌, List,
  [], ◌∷◌, ◌++◌, length, get_or, replicate, ltb, leb, ◌==◌, if◌then◌else◌, add32, roundup, drop,
}

-- `cipher_crypt` and `mac_compute`: the bytes that are sent for a packet with its sequence number,
-- and the random padding for it. OpenSSL documents their sizes.
pub record Crypto : Type 0 where
  pub block_size : ℕ
  pub mac_len : ℕ
  pub seal : ℕ → List ℕ → List ℕ
  pub noise : ℕ → ℕ → List ℕ
  pub block_fits : (4 ≤ block_size) × (block_size ≤ 128)
  pub length-seal :
      (seqnr : ℕ) (packet : List ℕ) → length (seal seqnr packet) ≡ length packet + mac_len
  pub length-noise : (seed n : ℕ) → length (noise seed n) ≡ n

-- `struct packet_state`
pub record PacketState : Type 0 where
  pub seqnr : ℕ
  pub packets : ℕ
  pub blocks : ℕ
  pub bytes : ℕ

-- What sending changes of `struct session_state`.
pub record Session : Type 0 where
  pub output : List ℕ
  pub outgoing_packet : List ℕ
  pub p_send : PacketState
  pub extra_pad : ℕ
  pub rekeying : Bool
  pub outgoing : List (List ℕ)

abbrev pub msg_transport_min : ℕ
msg_transport_min = 1

abbrev pub msg_transport_max : ℕ
msg_transport_max = 49

abbrev pub msg_ignore : ℕ
msg_ignore = 2

abbrev pub msg_kexinit : ℕ
msg_kexinit = 20

abbrev pub msg_newkeys : ℕ
msg_newkeys = 21

-- `put_u32`, `buffer_put_int`
unfoldable pub put_u32 : ℕ → List ℕ
put_u32 v = v / 2 ^ 24 % 256 ∷ v / 2 ^ 16 % 256 ∷ v / 2 ^ 8 % 256 ∷ v % 256 ∷ []

unfoldable pub packet_start : ℕ → Session → Session
packet_start type s = record s { outgoing_packet = replicate 5 0 ++ type ∷ [] }

unfoldable pub packet_put_char : ℕ → Session → Session
packet_put_char value s = record s { outgoing_packet = s.outgoing_packet ++ value % 256 ∷ [] }

pub packet_put_int : ℕ → Session → Session
packet_put_int value s = record s { outgoing_packet = s.outgoing_packet ++ put_u32 value }

-- `packet_put_char` for each byte in turn.
unfoldable pub packet_put_bytes : List ℕ → Session → Session
packet_put_bytes [] s = s
packet_put_bytes (b ∷ bs) s = packet_put_bytes bs (packet_put_char b s)

-- The least padding that fills a block, of 4 bytes at least; `u_char`.
pub base_padding : ℕ → ℕ → ℕ
base_padding block_size len =
    let padlen = block_size - len % block_size in
    if ltb padlen 4 then (padlen + block_size) % 256 else padlen

-- With `extra_pad` set the packet is filled up to a multiple of that.
unfoldable pub padding : ℕ → ℕ → ℕ → ℕ
padding block_size extra_pad len =
    let padlen = base_padding block_size len in
    let extra = roundup extra_pad block_size % 256 in
    if extra_pad == 0 then padlen else (padlen + (extra - (len + padlen) % extra) % 256) % 256

module _ (crypto : Crypto) where
  open crypto use {block_size, mac_len, seal, noise}

  -- `put_u32(cp, packet_length); cp[4] = padlen`, over the first five bytes.
  unfoldable pub framed : List ℕ → ℕ → ℕ → List ℕ
  framed payload padlen seed =
      put_u32 (length payload + padlen - 4) ++ padlen ∷ (drop 5 payload ++ noise seed padlen)

  unfoldable pub packet_send2_wrapped : Session → Session
  packet_send2_wrapped s =
      let len = length s.outgoing_packet in
      let padlen = padding block_size s.extra_pad len in
      let packet = framed s.outgoing_packet padlen s.p_send.seqnr in
      record s {
        output = s.output ++ seal s.p_send.seqnr packet;
        outgoing_packet = [];
        extra_pad = 0;
        p_send = record {
          seqnr = add32 s.p_send.seqnr 1;
          packets = add32 s.p_send.packets 1;
          blocks = (s.p_send.blocks + length packet / block_size) % 2 ^ 64;
          bytes = (s.p_send.bytes + length packet) % 2 ^ 64;
        };
      }

  -- The queue that waited for the new keys, in its order.
  pub send_queue : List (List ℕ) → Session → Session
  send_queue [] s = record s { outgoing = [] }
  send_queue (p ∷ ps) s = send_queue ps (packet_send2_wrapped (record s { outgoing_packet = p }))

  abbrev pub is_transport : ℕ → Bool
  is_transport type = leb msg_transport_min type && leb type msg_transport_max

  unfoldable pub packet_send2 : Session → Session
  packet_send2 s =
      let type = get_or s.outgoing_packet 5 0 in
      if s.rekeying && not (is_transport type)
      then record s { outgoing = s.outgoing ++ s.outgoing_packet ∷ []; outgoing_packet = [] }
      else let s' =
          packet_send2_wrapped (record s { rekeying = s.rekeying || type == msg_kexinit }) in
        if type == msg_newkeys then send_queue s'.outgoing (record s' { rekeying = false }) else s'

  -- The body is `nbytes` random bytes. (Random data is drawn as for the padding.)
  pub packet_send_ignore : ℕ → Session → Session
  packet_send_ignore nbytes s =
      packet_put_bytes (noise s.p_send.seqnr nbytes)
        (packet_put_int nbytes (packet_start msg_ignore s))

  -- `packet_send_ignore(nbytes); packet_send();`
  pub ignored : ℕ → Session → Session
  ignored nbytes s = packet_send2 (packet_send_ignore nbytes s)

-- ===== src/PacketIn.antt =====
-- packet.c, protocol 2: how the bytes that arrive become messages (`packet_process_incoming`,
-- `packet_read_poll2`, `packet_start_discard`, `packet_stop_discard`). As in Packet, the keys are in use
-- and stay, compression is off, and a buffer is a queue of bytes whose limit is not tested.
mod Poll
mod Whole
mod Stream
mod Chunks
mod Sent
mod Genuine
mod Tests
use csbu_flo.Packet.{Crypto, PacketState}
use csbu_flo.Bufaux.{from_bytes}
use csbu_flo.Base.{
  arith, List, Outcome, ℕ, Bool, [], add32, get_or, if◌then◌else◌, stop, sub32, ◌+◌, drop, leb, not,
  take, true, ◌/◌, ◌==◌, ◌∷◌, ◌≡◌, length, ltb, ok, ◌%◌, ◌&&◌, ◌++◌, false, ◌-◌, ◌^◌, ◌||◌, ◌≤◌,
  spin, ◌>>=◌, suc, zero,
}

-- The receiver's side of the cipher and the MAC of `crypto`. `crypt seqnr before bytes` is what
-- `cipher_crypt` makes of the bytes of a packet when it has run over those `before` them; OpenSSL
-- documents that it goes on where it has stopped.
pub record Opener (crypto : Crypto) : Type 0 where
  pub encrypt : ℕ → List ℕ → List ℕ
  pub mac_compute : ℕ → List ℕ → List ℕ
  pub crypt : ℕ → List ℕ → List ℕ → List ℕ
  pub is_cbc : Bool
  pub seal_parts :
      (seqnr : ℕ) (packet : List ℕ)
      → crypto.seal seqnr packet ≡ encrypt seqnr packet ++ mac_compute seqnr packet
  pub length-encrypt : (seqnr : ℕ) (packet : List ℕ) → length (encrypt seqnr packet) ≡ length packet
  pub length-crypt :
      (seqnr : ℕ) (before bytes : List ℕ) → length (crypt seqnr before bytes) ≡ length bytes
  pub crypt-encrypt :
      (seqnr : ℕ) (packet : List ℕ)
      → length packet % crypto.block_size ≡ 0
      → crypt seqnr [] (encrypt seqnr packet) ≡ packet
  pub crypt-append :
      (seqnr : ℕ) (before bytes more : List ℕ)
      → length bytes % crypto.block_size ≡ 0
      → crypt seqnr before (bytes ++ more)
        ≡ crypt seqnr before bytes ++ crypt seqnr (before ++ bytes) more
  pub mac_fits : crypto.mac_len ≤ 64

-- What receiving changes of `struct session_state`. `opened` is what `receive_context` has run over of
-- the packet that is being read; `discard_mac` is whether `packet_discard_mac` is set.
pub record Reader : Type 0 where
  pub input : List ℕ
  pub incoming_packet : List ℕ
  pub packlen : ℕ
  pub opened : List ℕ
  pub p_read : PacketState
  pub packet_discard : ℕ
  pub discard_mac : Bool
  pub received_sofar : ℕ

-- Where the connection ends: the disconnects, the exit of `packet_stop_discard`, and `fatal`.
pub data ReadError : Type 0 where
  corrupt discarded internal_need too_many_packets bad_padlen no_padding no_type bad_type :
      ReadError

-- `PACKET_MAX_SIZE`
abbrev pub packet_max_size : ℕ
packet_max_size = 262144

pub packet_process_incoming : List ℕ → Reader → Outcome ReadError Reader
packet_process_incoming buf r =
    if r.packet_discard == 0
    then ok (record r { received_sofar = r.received_sofar + length buf; input = r.input ++ buf })
    else if leb r.packet_discard (length buf)
    then stop discarded
    else ok (record r { packet_discard = r.packet_discard - length buf })

-- A type that the peer may send; the notifications are above the others.
unfoldable pub is_valid_type : ℕ → Bool
is_valid_type type = leb 1 type && ltb type 192 || leb 200 type && leb type 207

pub same_bytes : List ℕ → List ℕ → Bool
same_bytes [] [] = true
same_bytes (x ∷ xs) (y ∷ ys) = x == y && same_bytes xs ys
same_bytes _ _ = false

-- `++seqnr`, `++packets` and the counts.
pub count_packet : ℕ → ℕ → PacketState → PacketState
count_packet block_size size p = record {
  seqnr = add32 p.seqnr 1;
  packets = add32 p.packets 1;
  blocks = (p.blocks + size / block_size) % 2 ^ 64;
  bytes = (p.bytes + size) % 2 ^ 64;
}

-- The type is taken off; 0 is `SSH_MSG_NONE`.
pub take_type : List ℕ → Reader → Outcome ReadError (ℕ × Reader)
take_type [] r = stop no_type
take_type (type ∷ body) r =
    if is_valid_type type
    then ok (type, record r { incoming_packet = body; packlen = 0; opened = [] })
    else stop bad_type

-- The padding at the end, whose length is the fifth byte.
pub strip_padding : Reader → Outcome ReadError (ℕ × Reader)
strip_padding r =
    let padlen = get_or r.incoming_packet 4 0 in
    let rest = drop 5 r.incoming_packet in
    if ltb padlen 4
    then stop bad_padlen
    else if ltb (length rest) padlen
    then stop no_padding
    else take_type (take (length rest - padlen) rest) r

module _ (crypto : Crypto) (opener : Opener crypto) where
  open crypto use {block_size, mac_len}
  open opener use {mac_compute, crypt, is_cbc}

  -- So as not to show what was wrong, a CBC connection reads on for a while before it ends.
  pub packet_start_discard : ℕ → ℕ → Reader → Outcome ReadError (ℕ × Reader)
  packet_start_discard packet_length discard r =
      if not is_cbc
      then stop corrupt
      else if leb discard (length r.input)
      then stop discarded
      else ok (
        0,
        record r {
          discard_mac =
              r.discard_mac || not (packet_length == packet_max_size) && not (mac_len == 0);
          packet_discard = discard - length r.input;
        },
      )

  -- The packet is whole and its MAC is right.
  pub accept_packet : Reader → Outcome ReadError (ℕ × Reader)
  accept_packet r =
      let counted = count_packet block_size (r.packlen + 4) r.p_read in
      if counted.packets == 0
      then stop too_many_packets
      else strip_padding (record r { p_read = counted })

  pub check_mac : ℕ → Reader → Outcome ReadError (ℕ × Reader)
  check_mac need r =
      if same_bytes (mac_compute r.p_read.seqnr r.incoming_packet) (take mac_len r.input)
      then accept_packet (record r { input = drop mac_len r.input })
      else if ltb packet_max_size need
      then stop internal_need
      else packet_start_discard r.packlen (packet_max_size - need) r

  -- The rest of the packet; `need` is a `u_int`.
  pub read_rest : Reader → Outcome ReadError (ℕ × Reader)
  read_rest r =
      let need = sub32 (4 + r.packlen) block_size in
      if not (need % block_size == 0)
      then packet_start_discard r.packlen (packet_max_size - block_size) r
      else if ltb (length r.input) (add32 need mac_len)
      then ok (0, r)
      else check_mac need (record r {
        incoming_packet = r.incoming_packet ++ crypt r.p_read.seqnr r.opened (take need r.input);
        opened = r.opened ++ take need r.input;
        input = drop need r.input;
      })

  -- The first block, which has the length of the packet. A bad one stays in the buffer.
  pub read_head : Reader → Outcome ReadError (ℕ × Reader)
  read_head r =
      let head = crypt r.p_read.seqnr [] (take block_size r.input) in
      let len = from_bytes 0 (take 4 head) in
      let r' = record r {
        incoming_packet = head;
        packlen = len;
        opened = take block_size r.input;
      } in
      if ltb (length r.input) block_size
      then ok (0, r)
      else if ltb len 5 || ltb packet_max_size len
      then packet_start_discard len packet_max_size r'
      else read_rest (record r' { input = drop block_size r.input })

  pub packet_read_poll2 : Reader → Outcome ReadError (ℕ × Reader)
  packet_read_poll2 r =
      if not (r.packet_discard == 0)
      then ok (0, r)
      else if r.packlen == 0
      then read_head r
      else read_rest r

  -- The loops of `packet_read_poll_seqnr` and of its callers: until there is no more. The fuel is one
  -- more than the messages that are there.
  pub read_messages : ℕ → Reader → Outcome ReadError (List (ℕ × List ℕ) × Reader)
  read_messages zero r = spin
  read_messages (suc fuel) r = packet_read_poll2 r >>= λ s.
      if s.0 == 0
      then ok ([], s.1)
      else read_messages fuel s.1 >>= λ t. ok ((s.0, s.1.incoming_packet) ∷ t.0, t.1)

  -- What each read from the socket brings, with the messages that can be read then.
  pub receive_chunks : ℕ → List (List ℕ) → Reader → Outcome ReadError (List (ℕ × List ℕ) × Reader)
  receive_chunks fuel [] r = ok ([], r)
  receive_chunks fuel (buf ∷ bufs) r = packet_process_incoming buf r >>= λ r'.
      read_messages fuel r' >>= λ s. receive_chunks fuel bufs s.1 >>= λ t. ok (s.0 ++ t.0, t.1)

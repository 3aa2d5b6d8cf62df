-- ===== src/PacketIn/Poll.antt =====
-- `packet_read_poll2` step by step, over the bytes of a packet of which some may be missing.
use native.Mathlib.Nat.{mod_self, mod-eq-sub-mod}
use csbu_flo.PacketIn.{
  Opener, Reader, packet_read_poll2, read_head, read_rest, check_mac, accept_packet, same_bytes,
  packet_max_size,
}
use csbu_flo.Packet.{Crypto, PacketState}
use csbu_flo.Bufaux.{from_bytes}
use csbu_flo.Base.{
  arith, Bool, List, ℕ, [], drop, length, ◌≡◌, take, true, ◌%◌, ◌++◌, ◌-◌, ◌∷◌, ◌≤◌, refl, sym, ◌+◌,
  ◌∙◌, ap, take-append-drop, drop_own, length-take, take-take, take_own, ltb-false, sub32, ◌<◌,
  ◌==◌, false, ok, ==_false, ltb, add32, length-append, lt→ltb, take-append_le, drop-append_le,
  length-drop,
}

same_bytes_refl : (xs : List ℕ) → same_bytes xs xs ≡ true
unfolding same_bytes
same_bytes_refl [] = refl
same_bytes_refl (x ∷ xs) = ground (arith, same_bytes_refl xs)

-- The fields that reading leaves alone until a packet is whole.
pub record Rest : Type 0 where
  pub p_read : PacketState
  pub discard_mac : Bool
  pub received_sofar : ℕ

-- Before a packet, where the bytes `c` are there.
unfoldable pub fresh : List ℕ → List ℕ → Rest → Reader
fresh incoming c q = record {
  input = c;
  incoming_packet = incoming;
  packlen = 0;
  opened = [];
  p_read = q.p_read;
  packet_discard = 0;
  discard_mac = q.discard_mac;
  received_sofar = q.received_sofar;
}

module _ (crypto : Crypto) (opener : Opener crypto) where
  open crypto use {block_size, mac_len, block_fits}
  open opener use {
    encrypt, mac_compute, crypt, length-encrypt, length-crypt, crypt-encrypt, crypt-append,
    mac_fits,
  }

  -- A packet that may be sent, with the length that it begins with.
  pub record IsPacket (p : List ℕ) : Type 0 where
    pub whole : length p % block_size ≡ 0
    pub first : block_size ≤ length p
    pub least : 9 ≤ length p
    pub small : length p ≤ packet_max_size + 4
    pub size : from_bytes 0 (take 4 p) ≡ length p - 4

  -- Behind the first block of the packet `p`, where the bytes `c` of it and behind it are there.
  unfoldable pub halfway : List ℕ → List ℕ → Rest → Reader
  halfway p c q = record {
    input = drop block_size c;
    incoming_packet = take block_size p;
    packlen = length p - 4;
    opened = take block_size c;
    p_read = q.p_read;
    packet_discard = 0;
    discard_mac = q.discard_mac;
    received_sofar = q.received_sofar;
  }

  length-first :
      (n : ℕ) (p : List ℕ) → IsPacket p → length (take block_size (encrypt n p)) ≡ block_size
  length-first n p v =
      omega (arith, length-take block_size (encrypt n p), length-encrypt n p, v.first)

  -- What the two runs of the cipher over a packet give.
  crypt_halves :
      (n : ℕ) (p : List ℕ)
      → IsPacket p
      → crypt n [] (take block_size (encrypt n p))
          ++ crypt n (take block_size (encrypt n p)) (drop block_size (encrypt n p))
        ≡ p
  crypt_halves n p v =
      sym (
        crypt-append n [] (take block_size (encrypt n p)) (drop block_size (encrypt n p))
          (ap (λ m. m % block_size) (length-first n p v) ∙ mod_self block_size))
      ∙ ap (crypt n []) (take-append-drop block_size (encrypt n p))
      ∙ crypt-encrypt n p v.whole

  first_plain :
      (n : ℕ) (p : List ℕ)
      → IsPacket p
      → crypt n [] (take block_size (encrypt n p)) ≡ take block_size p
  first_plain n p v =
      let e = encrypt n p in
      let xs = crypt n [] (take block_size e) in
      sym (take_own xs (crypt n (take block_size e) (drop block_size e)))
      ∙ ap (λ m. take m (xs ++ crypt n (take block_size e) (drop block_size e)))
          (length-crypt n [] (take block_size e) ∙ length-first n p v)
      ∙ ap (take block_size) (crypt_halves n p v)

  second_plain :
      (n : ℕ) (p : List ℕ)
      → IsPacket p
      → crypt n (take block_size (encrypt n p)) (drop block_size (encrypt n p)) ≡ drop block_size p
  second_plain n p v =
      let e = encrypt n p in
      let xs = crypt n [] (take block_size e) in
      let ys = crypt n (take block_size e) (drop block_size e) in
      sym (drop_own xs ys)
      ∙ ap (λ m. drop m (xs ++ ys)) (length-crypt n [] (take block_size e) ∙ length-first n p v)
      ∙ ap (drop block_size) (crypt_halves n p v)

  -- Less than a block is there.
  pub poll_short :
      (c inc : List ℕ) (q : Rest)
      → length c < block_size
      → packet_read_poll2 crypto opener (fresh inc c q) ≡ ok (0, fresh inc c q)
  unfolding packet_read_poll2 read_head fresh
  poll_short c inc q short = rw (lt→ltb (length c) block_size short) refl

  -- The whole first block is there: its length is read and the rest is looked at.
  pub read_head-halfway :
      (p c inc : List ℕ) (q : Rest)
      → IsPacket p
      → block_size ≤ length c
      → take block_size c ≡ take block_size (encrypt q.p_read.seqnr p)
      → packet_read_poll2 crypto opener (fresh inc c q) ≡ read_rest crypto opener (halfway p c q)
  unfolding packet_read_poll2 read_head fresh halfway
  read_head-halfway p c inc q v long same =
      let head : crypt q.p_read.seqnr [] (take block_size c) ≡ take block_size p =
        ap (crypt q.p_read.seqnr []) same ∙ first_plain q.p_read.seqnr p v in
      let len : from_bytes 0 (take 4 (take block_size p)) ≡ length p - 4 =
        ap (from_bytes 0) (take-take 4 block_size p block_fits.0) ∙ v.size in
      rw
        (
          ltb-false (length c) block_size long,
          head,
          len,
          ltb-false (length p - 4) 5 (omega (arith, v.least)),
          ltb-false packet_max_size (length p - 4) (omega (arith, v.small)),
        )
        refl

  need_rest :
      (p : List ℕ) → IsPacket p → sub32 (4 + (length p - 4)) block_size ≡ length p - block_size
  need_rest p v = omega (arith, v.first, v.least, v.small, block_fits.0)

  rest_whole : (p : List ℕ) → IsPacket p → (length p - block_size) % block_size ≡ 0
  rest_whole p v = sym (mod-eq-sub-mod v.first) ∙ v.whole

  -- Behind the first block the length is not read again.
  pub poll-halfway :
      (p c : List ℕ) (q : Rest)
      → IsPacket p
      → packet_read_poll2 crypto opener (halfway p c q) ≡ read_rest crypto opener (halfway p c q)
  unfolding packet_read_poll2 halfway
  poll-halfway p c q v =
      let started : length p - 4 == 0 ≡ false =
        ==_false (length p - 4) 0 (omega (arith, v.least)) in
      rw started refl

  pub rest_waits :
      (p c : List ℕ) (q : Rest)
      → IsPacket p
      → block_size ≤ length c
      → length c < length p + mac_len
      → read_rest crypto opener (halfway p c q) ≡ ok (0, halfway p c q)
  unfolding read_rest halfway
  rest_waits p c q v long short =
      let few : ltb (length (drop block_size c)) (add32 (length p - block_size) mac_len) ≡ true =
        lt→ltb _ _ (omega (arith, length-drop block_size c, v.first, v.small, mac_fits)) in
      rw (need_rest p v, rest_whole p v, few) refl

  -- The packet and its MAC, and `rest` behind them.
  unfoldable pub on_wire : ℕ → List ℕ → List ℕ → List ℕ
  on_wire n p rest = encrypt n p ++ (mac_compute n p ++ rest)

  unfoldable pub arrived : List ℕ → List ℕ → Rest → Reader
  arrived p rest q = record {
    input = rest;
    incoming_packet = p;
    packlen = length p - 4;
    opened = encrypt q.p_read.seqnr p;
    p_read = q.p_read;
    packet_discard = 0;
    discard_mac = q.discard_mac;
    received_sofar = q.received_sofar;
  }

  pub length-mac : (n : ℕ) (p : List ℕ) → length (mac_compute n p) ≡ mac_len
  length-mac n p = omega (
    arith,
    ap length (opener.seal_parts n p),
    length-append (encrypt n p) (mac_compute n p),
    length-encrypt n p,
    crypto.length-seal n p,
  )

  -- The MAC is right, and is taken off.
  mac_accepted :
      (need : ℕ) (p rest : List ℕ) (q : Rest)
      → check_mac crypto opener need (arrived p (mac_compute q.p_read.seqnr p ++ rest) q)
        ≡ accept_packet crypto opener (arrived p rest q)
  unfolding check_mac arrived
  mac_accepted need p rest q =
      let m = mac_compute q.p_read.seqnr p in
      let taken : take mac_len (m ++ rest) ≡ m =
        ap (λ k. take k (m ++ rest)) (sym (length-mac q.p_read.seqnr p)) ∙ take_own m rest in
      let left : drop mac_len (m ++ rest) ≡ rest =
        ap (λ k. drop k (m ++ rest)) (sym (length-mac q.p_read.seqnr p)) ∙ drop_own m rest in
      rw (taken, same_bytes_refl m, left) refl

  pub rest_received :
      (p rest : List ℕ) (q : Rest)
      → IsPacket p
      → read_rest crypto opener (halfway p (on_wire q.p_read.seqnr p rest) q)
        ≡ accept_packet crypto opener (arrived p rest q)
  unfolding read_rest halfway on_wire arrived
  rest_received p rest q v =
      let n = q.p_read.seqnr in
      let e = encrypt n p in
      let m = mac_compute n p in
      let fits : block_size ≤ length e = omega (arith, length-encrypt n p, v.first) in
      let begun : take block_size (e ++ (m ++ rest)) ≡ take block_size e =
        take-append_le block_size e (m ++ rest) fits in
      let behind : drop block_size (e ++ (m ++ rest)) ≡ drop block_size e ++ (m ++ rest) =
        drop-append_le block_size e (m ++ rest) fits in
      let size : length p - block_size ≡ length (drop block_size e) =
        omega (arith, length-drop block_size e, length-encrypt n p) in
      let enough : ltb (length (drop block_size e ++ (m ++ rest)))
            (add32 (length p - block_size) mac_len)
          ≡ false =
        ltb-false _ _ (
          omega (
            arith,
            length-append (drop block_size e) (m ++ rest),
            length-append m rest,
            length-mac n p,
            size,
            v.small,
            mac_fits,
          )) in
      let taken : take (length p - block_size) (drop block_size e ++ (m ++ rest))
          ≡ drop block_size e =
        ap (λ k. take k (drop block_size e ++ (m ++ rest))) size
        ∙ take_own (drop block_size e) (m ++ rest) in
      let left : drop (length p - block_size) (drop block_size e ++ (m ++ rest)) ≡ m ++ rest =
        ap (λ k. drop k (drop block_size e ++ (m ++ rest))) size
        ∙ drop_own (drop block_size e) (m ++ rest) in
      rw
        (
          behind,
          begun,
          need_rest p v,
          rest_whole p v,
          enough,
          taken,
          left,
          second_plain n p v,
          take-append-drop block_size p,
          take-append-drop block_size e,
        )
        (mac_accepted (length p - block_size) p rest q)

-- ===== src/PacketIn/Genuine.antt =====
-- What a reader gives has come with its MAC.
use csbu_flo.Bufaux.{from_bytes}
use mathlib.Core.List.{append_assoc}
use csbu_flo.PacketIn.{
  Opener, Reader, ReadError, packet_read_poll2, read_head, read_rest, check_mac, accept_packet,
  strip_padding, take_type, packet_start_discard, count_packet, same_bytes, is_valid_type,
  bad_padlen, bad_type, no_padding, corrupt, too_many_packets, packet_max_size, discarded,
  internal_need,
}
use csbu_flo.Packet.{Crypto, PacketState}
use csbu_flo.Base.{
  List, get_or, ℕ, Outcome, drop, ◌++◌, ◌≡◌, if_cases, ok, true, ◌∷◌, ◌⊎◌, add32, ltb, stop, spin,
  length, sym, [], ap₂, refl, take, ==_iff, ◌-◌, and_left, take-append-drop, ◌==◌, and_right, ap,
  not, sub32, ◌+◌, inl, ◌%◌, ◌∙◌, inr, leb, ◌||◌,
}

-- `p` holds of what is returned, where the connection goes on.
abbrev pub Holds : (ℕ × Reader → Type 0) → Outcome ReadError (ℕ × Reader) → Type 0
Holds p (ok s) = p s
Holds p (stop e) = Unit
Holds p spin = ⊥

Holds-map :
    (p q : ℕ × Reader → Type 0) (o : Outcome ReadError (ℕ × Reader))
    → ((s : ℕ × Reader) → p s → q s)
    → Holds p o
    → Holds q o
Holds-map p q (ok s) f h = f s h
Holds-map p q (stop e) f h = tt
Holds-map p q spin f h = elim h [ ]

same_bytes-eq : (a b : List ℕ) → same_bytes a b ≡ true → a ≡ b
unfolding same_bytes
same_bytes-eq [] [] e = refl
same_bytes-eq [] (y ∷ b) e = cc
same_bytes-eq (x ∷ a) [] e = cc
same_bytes-eq (x ∷ a) (y ∷ b) e =
    ap₂ (λ c s. c ∷ s) ((==_iff x y).0 (and_left (x == y) (same_bytes a b) e))
      (same_bytes-eq a b (and_right (x == y) (same_bytes a b) e))

-- The message `s.0`, `s.1.incoming_packet` stands behind the length of `packet` and before its padding.
pub Carries : List ℕ → ℕ × Reader → Type 0
Carries packet s = (padding : List ℕ) × (drop 5 packet ≡ s.0 ∷ (s.1.incoming_packet ++ padding))

abbrev Stripped : Reader → ℕ × Reader → Type 0
Stripped r s = (s.1.input ≡ r.input) × (s.1.p_read ≡ r.p_read) × Carries r.incoming_packet s

take_type-Stripped :
    (r : Reader) (bytes padding : List ℕ)
    → bytes ++ padding ≡ drop 5 r.incoming_packet
    → Holds (Stripped r) (take_type bytes r)
unfolding take_type Carries
take_type-Stripped r [] padding e = tt
take_type-Stripped r (type ∷ body) padding e =
    if_cases (Holds (Stripped r)) (is_valid_type type) _ (stop bad_type)
      (λ _. (refl, refl, (padding, sym e))) (λ _. tt)

strip_padding-Stripped : (r : Reader) → Holds (Stripped r) (strip_padding r)
unfolding strip_padding
strip_padding-Stripped r =
    let padlen = get_or r.incoming_packet 4 0 in
    let rest = drop 5 r.incoming_packet in
    if_cases (Holds (Stripped r)) (ltb padlen 4) (stop bad_padlen) _ (λ _. tt)
      (λ _.
        if_cases (Holds (Stripped r)) (ltb (length rest) padlen) (stop no_padding) _ (λ _. tt)
          (λ _.
            take_type-Stripped r (take (length rest - padlen) rest)
              (drop (length rest - padlen) rest) (take-append-drop (length rest - padlen) rest)))

module _ (crypto : Crypto) (opener : Opener crypto) where
  open crypto use {block_size, mac_len}
  open opener use {mac_compute}

  -- Nothing is given and nothing counted; or else a packet whose MAC, for its place in the sequence,
  -- stood in the input before what is left, and it is counted.
  pub Genuine : Reader → ℕ × Reader → Type 0
  Genuine r s =
      ((s.0 ≡ 0) × (s.1.p_read ≡ r.p_read))
      ⊎ ((packet : List ℕ) × (before : List ℕ) × (r.input
            ≡ before ++ (mac_compute r.p_read.seqnr packet ++ s.1.input))
          × (s.1.p_read.seqnr ≡ add32 r.p_read.seqnr 1)
          × Carries packet s)

  discard-Genuine :
      (r r1 : Reader) (len discard : ℕ)
      → r1.p_read ≡ r.p_read
      → Holds (Genuine r) (packet_start_discard crypto opener len discard r1)
  unfolding packet_start_discard Genuine
  discard-Genuine r r1 len discard same =
      if_cases (Holds (Genuine r)) (not opener.is_cbc) (stop corrupt) _ (λ _. tt)
        (λ _.
          if_cases (Holds (Genuine r)) (leb discard (length r1.input)) (stop discarded) _ (λ _. tt)
            (λ _. inl (refl, same)))

  -- What `before` a packet's MAC and behind it has been read of `r`.
  module _ (r r1 : Reader) (before : List ℕ) (whole : r.input ≡ before ++ r1.input)
      (same : r1.p_read ≡ r.p_read) where
    number : ℕ → ℕ
    number size = (count_packet block_size size r1.p_read).seqnr

    number_next : (size : ℕ) → number size ≡ add32 r.p_read.seqnr 1
    unfolding number count_packet
    number_next size = ap (λ (p : PacketState). add32 p.seqnr 1) same

    Stripped-Genuine :
        (s : ℕ × Reader) (size : ℕ)
        → mac_compute r1.p_read.seqnr r1.incoming_packet ≡ take mac_len r1.input
        → Stripped
            (record r1 {
              input = drop mac_len r1.input;
              p_read = count_packet block_size size r1.p_read;
            })
            s
        → Genuine r s
    unfolding Genuine number
    Stripped-Genuine s size mac h =
        let p = r1.incoming_packet in
        let n = r.p_read.seqnr in
        let right : mac_compute n p ++ s.1.input ≡ r1.input =
          ap₂ (λ a b. a ++ b) (ap (λ (q : PacketState). mac_compute q.seqnr p) (sym same) ∙ mac) h.0
          ∙ take-append-drop mac_len r1.input in
        inr (
          p,
          before,
          whole ∙ ap (λ b. before ++ b) (sym right),
          ap (λ (q : PacketState). q.seqnr) h.1 ∙ number_next size,
          h.2,
        )

    check_mac-Genuine : (need : ℕ) → Holds (Genuine r) (check_mac crypto opener need r1)
    unfolding check_mac accept_packet
    check_mac-Genuine need =
        if_cases (Holds (Genuine r))
          (same_bytes (mac_compute r1.p_read.seqnr r1.incoming_packet) (take mac_len r1.input)) _ _
          (λ right.
            if_cases (Holds (Genuine r))
              ((count_packet block_size (r1.packlen + 4) r1.p_read).packets == 0)
              (stop too_many_packets) _ (λ _. tt)
              (λ _.
                Holds-map _ (Genuine r) _
                  (λ s. Stripped-Genuine s (r1.packlen + 4) (same_bytes-eq _ _ right))
                  (strip_padding-Stripped _)))
          (λ _.
            if_cases (Holds (Genuine r)) (ltb packet_max_size need) (stop internal_need) _ (λ _. tt)
              (λ _. discard-Genuine r r1 r1.packlen _ same))

  read_rest-Genuine :
      (r r1 : Reader) (before : List ℕ)
      → r.input ≡ before ++ r1.input
      → r1.p_read ≡ r.p_read
      → Holds (Genuine r) (read_rest crypto opener r1)
  unfolding read_rest Genuine
  read_rest-Genuine r r1 before whole same =
      let need = sub32 (4 + r1.packlen) block_size in
      if_cases (Holds (Genuine r)) (not (need % block_size == 0)) _ _
        (λ _. discard-Genuine r r1 r1.packlen _ same)
        (λ _.
          if_cases (Holds (Genuine r)) (ltb (length r1.input) (add32 need mac_len)) (ok (0, r1)) _
            (λ _. inl (refl, same))
            (λ _.
              check_mac-Genuine r _ (before ++ take need r1.input)
                (whole
                  ∙ ap (λ b. before ++ b) (sym (take-append-drop need r1.input))
                  ∙ sym (append_assoc before (take need r1.input) (drop need r1.input)))
                same need))

  read_head-Genuine : (r : Reader) → Holds (Genuine r) (read_head crypto opener r)
  unfolding read_head Genuine
  read_head-Genuine r =
      let head = opener.crypt r.p_read.seqnr [] (take block_size r.input) in
      let len = from_bytes 0 (take 4 head) in
      let r' : Reader = record r {
        incoming_packet = head;
        packlen = len;
        opened = take block_size r.input;
      } in
      let begun : Reader = record r' { input = drop block_size r.input } in
      if_cases (Holds (Genuine r)) (ltb (length r.input) block_size) (ok (0, r)) _
        (λ _. inl (refl, refl))
        (λ _.
          if_cases (Holds (Genuine r)) (ltb len 5 || ltb packet_max_size len)
            (packet_start_discard crypto opener len packet_max_size r')
            (read_rest crypto opener begun) (λ _. discard-Genuine r r' len packet_max_size refl)
            (λ _.
              read_rest-Genuine r begun (take block_size r.input)
                (sym (take-append-drop block_size r.input)) refl))

  -- Whatever the reader's state and its input: a message is given only when the MAC of the packet that
  -- carries it, computed over the packet and its number, stood in the input in front of what is left,
  -- and then the number goes on by one; otherwise nothing is given or counted, or the connection ends.
  pub packet_read_poll2-Genuine :
      (r : Reader) → Holds (Genuine r) (packet_read_poll2 crypto opener r)
  unfolding packet_read_poll2 Genuine
  packet_read_poll2-Genuine r =
      if_cases (Holds (Genuine r)) (not (r.packet_discard == 0)) (ok (0, r)) _
        (λ _. inl (refl, refl))
        (λ _.
          if_cases (Holds (Genuine r)) (r.packlen == 0) (read_head crypto opener r) _
            (λ _. read_head-Genuine r) (λ _. read_rest-Genuine r r [] refl refl))

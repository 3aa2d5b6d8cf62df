-- ===== src/Trace/Bursts.antt =====
-- `refresh_trace` gathers each burst in its first packet: no byte of either direction is lost.
use csbu_flo.Base.{
  ℕ, suc, ◌+◌, ◌<◌, ◌≡◌, refl, ap, Bool, false, ◌&&◌, ◌||◌, List, [], ◌∷◌, length, inl, inr, ◌⊎◌,
  dec_lt, arith, Bool-cases, All,
}
use csbu_flo.Base.Int.{ℤ, pos, ◌+ℤ◌, ltb_ℤ, to_u64, pos_part, neg_part}
use csbu_flo.Trace.{StPair, ends_burst, merged, emptied, absorb, refresh_trace}

-- The bytes from the server and the bytes from the client.
abbrev pub down_total : List StPair → ℕ
down_total [] = 0
down_total (p ∷ ps) = pos_part p.size + down_total ps

abbrev pub up_total : List StPair → ℕ
up_total [] = 0
up_total (p ∷ ps) = neg_part p.size + up_total ps

-- A packet has a byte at least, in one direction.
abbrev pub IsPacket : StPair → Type 0
IsPacket p = 0 < pos_part p.size + neg_part p.size

-- The burst so far, of size `size`, goes the way of its first packet.
record OneWay (size ssize : ℤ) : Type 0 where
  down : 0 < pos_part ssize → neg_part size ≡ 0
  up : 0 < neg_part ssize → pos_part size ≡ 0
  some : 0 < pos_part ssize + neg_part ssize

starts-OneWay : (p : StPair) → IsPacket p → OneWay p.size p.size
starts-OneWay p some = record { down = λ h. ground arith; up = λ h. ground arith; some = some }

neither : (a b c : Bool) → (a || b || c) ≡ false → (a ≡ false) × (b ≡ false)
neither a b c e = ground arith

-- A packet that does not end the burst goes its way too.
same_way :
    (e : StPair) (stime : ℕ) (ssize : ℤ)
    → ends_burst stime ssize e ≡ false
    → (0 < pos_part ssize → neg_part e.size ≡ 0) × (0 < neg_part ssize → pos_part e.size ≡ 0)
unfolding ends_burst
same_way e stime ssize same =
    let (first, second) =
      neither (ltb_ℤ e.size (pos 0) && ltb_ℤ (pos 0) ssize)
        (ltb_ℤ (pos 0) e.size && ltb_ℤ ssize (pos 0)) _ same in
    (λ h. ground arith, λ h. ground arith)

sum_parts :
    (a b : ℤ)
    → ((neg_part a ≡ 0) × (neg_part b ≡ 0)) ⊎ ((pos_part a ≡ 0) × (pos_part b ≡ 0))
    → (pos_part (a +ℤ b) ≡ pos_part a + pos_part b) × (neg_part (a +ℤ b) ≡ neg_part a + neg_part b)
unfolding ◌+ℤ◌
sum_parts a b (inl h) = ground arith
sum_parts a b (inr h) = ground arith

joins :
    (s e : StPair) (stime : ℕ) (ssize : ℤ)
    → OneWay s.size ssize
    → ends_burst stime ssize e ≡ false
    → (OneWay (s.size +ℤ e.size) ssize)
      × (pos_part (s.size +ℤ e.size) ≡ pos_part s.size + pos_part e.size)
      × (neg_part (s.size +ℤ e.size) ≡ neg_part s.size + neg_part e.size)
joins s e stime ssize way same =
    let (down, up) = same_way e stime ssize same in
    let parts = sum_parts s.size e.size (elim (dec_lt 0 (pos_part ssize)) [
      | yes h ↦ inl (way.down h, down h)
      | no h ↦ let h' : 0 < neg_part ssize = omega (arith, way.some) in inr (way.up h', up h')
    ]) in
    (
      record {
        down = λ h. omega (arith, parts, way.down h, down h);
        up = λ h. omega (arith, parts, way.up h, up h);
        some = way.some;
      },
      parts.0,
      parts.1,
    )

absorb_lem :
    (s : StPair) (stime : ℕ) (ssize : ℤ) (rest : List StPair)
    → OneWay s.size ssize
    → All IsPacket rest
    → (down_total ((absorb s stime ssize rest).0 ∷ (absorb s stime ssize rest).1)
        ≡ down_total (s ∷ rest))
      × (up_total ((absorb s stime ssize rest).0 ∷ (absorb s stime ssize rest).1)
          ≡ up_total (s ∷ rest))
      × (length (absorb s stime ssize rest).1 ≡ length rest)
unfolding absorb merged emptied
absorb_lem s stime ssize [] way packets = (refl, refl, refl)
absorb_lem s stime ssize (e ∷ rest) way packets = elim (Bool-cases (ends_burst stime ssize e)) [
  | inl ends ↦
      let next = absorb_lem e (to_u64 e.time) e.size rest (starts-OneWay e packets.0) packets.1 in
      rw ends (omega (arith, next), omega (arith, next), omega (arith, next))
  | inr same ↦
      let (way', down, up) = joins s e stime ssize way same in
      let more = absorb_lem (merged s e) stime ssize rest way' packets.1 in
      rw same (omega (arith, more, down), omega (arith, more, up), omega (arith, more))
]

-- Gathering the bursts of a trace of packets, none of them empty, keeps the bytes of each direction
-- in total, and the length of the trace. (The sums stay within an `int`.)
pub refresh_trace-totals :
    (trace : List StPair)
    → All IsPacket trace
    → (down_total (refresh_trace trace) ≡ down_total trace)
      × (up_total (refresh_trace trace) ≡ up_total trace)
      × (length (refresh_trace trace) ≡ length trace)
unfolding refresh_trace
refresh_trace-totals [] packets = (refl, refl, refl)
refresh_trace-totals (s ∷ rest) packets =
    let burst = absorb_lem s (to_u64 s.time) s.size rest (starts-OneWay s packets.0) packets.1 in
    (burst.0, burst.1, ap suc burst.2)

-- ===== src/PacketIn/Tests.antt =====
-- Two messages over a connection that cuts their bytes in three.
use csbu_flo.PacketIn.Genuine.{Holds, Genuine, packet_read_poll2-Genuine}
use csbu_flo.PacketIn.Sent.{IsSendable, send_all, receive_chunks-send_all}
use csbu_flo.PacketIn.Whole.{Typed}
use csbu_flo.Packet.Tests.{session}
use csbu_flo.Packet.Tests.{aes}
use csbu_flo.PacketIn.Poll.{Rest, fresh}
use csbu_flo.Packet.{Session}
use csbu_flo.PacketIn.{Opener, Reader, receive_chunks, is_valid_type, packet_read_poll2}
use mathlib.Core.List.{append-nil}
use csbu_flo.Base.{
  arith, All, List, ℕ, [], false, replicate, ◌∷◌, take, true, drop, refl, ◌≡◌, ok, length, ap, ◌≤◌,
  ◌++◌, ◌<◌, ◌∙◌, ◌≢◌, take-append-drop,
}

abbrev opener : Opener aes
opener = record {
  encrypt = λ n packet. packet;
  mac_compute = λ n packet. replicate 20 n;
  crypt = λ n before bytes. bytes;
  is_cbc = true;
  seal_parts = λ n packet. refl;
  length-encrypt = λ n packet. refl;
  length-crypt = λ n before bytes. refl;
  crypt-encrypt = λ n packet h. refl;
  crypt-append = λ n before bytes more h. refl;
  mac_fits = omega arith;
}

abbrev quiet : Session
quiet = record session { output = [] }

abbrev messages : List Typed
messages = (94, 1 ∷ 2 ∷ 3 ∷ []) ∷ (98, []) ∷ []

sendable :
    (m : Typed)
    → is_valid_type m.0 ≡ true
    → length m.1 ≤ 262000
    → All (λ b. b < 256) m.1
    → m.0 ≢ 20
    → m.0 ≢ 21
    → IsSendable m
sendable m kind room all_bytes k n = record {
  message = record { kind = kind; room = room };
  all_bytes = all_bytes;
  no_kexinit = k;
  no_newkeys = n;
}

messages-IsSendable : All IsSendable messages
unfolding is_valid_type
messages-IsSendable = (
  sendable (94, 1 ∷ 2 ∷ 3 ∷ []) refl (omega arith) (omega arith) (omega arith) (omega arith),
  (sendable (98, []) refl (omega arith) tt (omega arith) (omega arith), tt),
)

abbrev at_start : Rest
at_start = record { p_read = session.p_send; discard_mac = false; received_sofar = 0 }

abbrev wire : List ℕ
wire = (send_all aes messages quiet).output

receive_chunks-send_all_example :
    (next : Reader) × (receive_chunks aes opener 3
        (take 7 wire ∷ drop 7 wire ∷ [])
        (fresh [] [] at_start)
      ≡ ok (messages, next))
    × (next.input ≡ [])
receive_chunks-send_all_example =
    receive_chunks-send_all aes opener messages quiet (take 7 wire ∷ drop 7 wire ∷ []) 3 [] at_start
      messages-IsSendable (record { no_extra = refl; no_rekeying = refl }) refl refl (omega arith)
      (omega arith)
      (ap (λ w. take 7 wire ++ w) (append-nil (drop 7 wire)) ∙ take-append-drop 7 wire)

packet_read_poll2-Genuine_example :
    Holds
      (Genuine aes opener (fresh [] wire at_start))
      (packet_read_poll2 aes opener (fresh [] wire at_start))
packet_read_poll2-Genuine_example = packet_read_poll2-Genuine aes opener (fresh [] wire at_start)

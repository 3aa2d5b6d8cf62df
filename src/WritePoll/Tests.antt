-- ===== src/WritePoll/Tests.antt =====
-- `packet_write_poll` in each mode, for a sender with three bytes of data.
use csbu_flo.Base.{ℕ, ◌+◌, ◌*◌, ◌≤◌, ◌≡◌, refl, min, false, [], ◌∷◌, length, ok, arith, add64}
use csbu_flo.Base.Int.{pos, to_u64, pos_part}
use csbu_flo.Packet.Tests.{aes, session}
use csbu_flo.WritePoll.{
  Mode, ssh, csbuflo, supertrace, Sender, Socket, written, again, packet_write_poll, room,
}
use csbu_flo.WritePoll.Pad.{slack}
use csbu_flo.WritePoll.Rounds.{Moved}
use csbu_flo.WritePoll.Exact.{Takes, packet_write_poll-exact}
use csbu_flo.WritePoll.Safe.{Safe, MaySpin}
use csbu_flo.WritePoll.Safety.{packet_write_poll-Safe}
use csbu_flo.WritePoll.Tick.{packet_write_poll-csbuflo, packet_write_poll-ssh}

-- Two bytes of item left to send, 5 microseconds after the last time.
abbrev sender : Mode → Sender
sender mode = record {
  session = session;
  shaper = record {
    stmode = mode;
    sent_tend = false;
    trans_padded_remaining = 0;
    padded_junk = 0;
    w2w = 2;
    packet_tau = pos 8192;
    packet_time_to_write = 1000;
  };
  wire = 1 ∷ [];
}

abbrev socket : Socket
socket = record { tcp_buf_len = pos 100; result = written 1 false }

abbrev takes : Takes socket
takes = record { amount = 1; cont = false; taken = refl; some = omega arith; has_room = refl }

packet_write_poll-exact_example :
    (t : Sender) × (m : Moved (sender supertrace) t) × (packet_write_poll aes 1005 0
        (socket ∷ socket ∷ [])
        (sender supertrace)
      ≡ ok t)
    × (length m.sent ≡ 2)
    × (t.shaper.w2w ≡ 0)
    × (t.shaper.packet_time_to_write ≡ add64 1005 (to_u64 (pos 8192)))
packet_write_poll-exact_example =
    packet_write_poll-exact aes 1005 0 (socket ∷ socket ∷ []) (sender supertrace) (omega arith)
      (takes, (takes, tt)) (omega arith) (omega arith) refl refl refl

packet_write_poll-csbuflo_example :
    (t : Sender) × (m : Moved (sender csbuflo) t) × (len : ℕ) × (packet_write_poll aes 1005 7
        (socket ∷ [])
        (sender csbuflo)
      ≡ ok t)
    × (length m.sent ≡ min 1 len)
    × (min 2 (pos_part (room (pos 100))) ≤ len)
    × (len ≤ min 2 (pos_part (room (pos 100))) + slack aes)
    × (1005 ≤ t.shaper.packet_time_to_write)
    × (t.shaper.packet_time_to_write ≤ 1005 + 2 * 8192)
packet_write_poll-csbuflo_example =
    packet_write_poll-csbuflo aes 1005 7 socket [] (sender csbuflo) (omega arith) takes
      (omega arith) (omega arith) refl refl (omega arith)

packet_write_poll-ssh_example :
    (t : Sender) × (m : Moved (sender ssh) t) × (packet_write_poll aes 1005 7
        (socket ∷ [])
        (sender ssh)
      ≡ ok t)
    × (length m.sent ≡ 1)
    × (1005 ≤ t.shaper.packet_time_to_write)
    × (t.shaper.packet_time_to_write ≤ 1005 + 163840)
packet_write_poll-ssh_example =
    packet_write_poll-ssh aes 1005 7 socket [] (sender ssh) (omega arith) takes refl refl
      (omega arith)

-- The first write is to be tried again.
abbrev busy : Socket
busy = record { tcp_buf_len = pos 100; result = again }

packet_write_poll-Safe_example :
    Safe
      (MaySpin (busy ∷ socket ∷ []) (sender supertrace))
      (busy ∷ socket ∷ [])
      (sender supertrace)
      (packet_write_poll aes 1005 0 (busy ∷ socket ∷ []) (sender supertrace))
packet_write_poll-Safe_example =
    packet_write_poll-Safe aes 1005 0 (busy ∷ socket ∷ []) (sender supertrace) refl

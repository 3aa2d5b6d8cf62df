-- ===== src/WritePoll.antt =====
-- packet.c: `packet_write_poll`, which puts bytes on the wire when its time has come, in the amount
-- that the mode asks for, and fills up with ignored messages what the output buffer lacks.
-- The static variables of misc.c and packet.c that it reads and writes are fields of `Shaper`.
mod Pad
mod Tests
mod Rounds
mod Exact
mod Tick
mod Safe
mod Safety
pub mod Counted
use csbu_flo.Base.{
  ℕ, zero, suc, ◌+◌, ◌-◌, ◌*◌, ◌/◌, ◌%◌, ◌^◌, min, Bool, true, false, not, ◌&&◌, ◌||◌, List, [],
  ◌∷◌, ◌++◌, length, take, drop, ltb, leb, ◌==◌, if◌then◌else◌, add64, Outcome, ok, stop, spin,
  ◌>>=◌,
}
use csbu_flo.Base.Int.{ℤ, pos, negsuc, ◌-ℤ◌, ltb_ℤ, to_int, to_u64, pos_part}
use csbu_flo.Packet.{Crypto, Session, ignored}

-- `stmode`: -1, 0 and 1
pub data Mode : Type 0 where
  ssh csbuflo supertrace : Mode

abbrev pub is_ssh : Mode → Bool
is_ssh ssh = true
is_ssh _ = false

abbrev pub is_csbuflo : Mode → Bool
is_csbuflo csbuflo = true
is_csbuflo _ = false

abbrev pub is_supertrace : Mode → Bool
is_supertrace supertrace = true
is_supertrace _ = false

-- `w2w` is never negative (`set_w2w`), and `trans_padded_remaining` and `padded_junk` only count
-- down to 0 and up from 0.
pub record Shaper : Type 0 where
  pub stmode : Mode
  pub sent_tend : Bool
  pub trans_padded_remaining : ℕ
  pub padded_junk : ℕ
  pub w2w : ℕ
  pub packet_tau : ℤ
  pub packet_time_to_write : ℕ

-- `wire` is what the socket has taken, the oldest byte first.
pub record Sender : Type 0 where
  pub session : Session
  pub shaper : Shaper
  pub wire : List ℕ

-- One round with the socket: the bytes that it still holds (`SIOCOUTQ`), and what `roaming_write`
-- returns: a count, with `cont`; -1 with an errno to try again; -1 with another. No write returns
-- more than was asked for.
pub data WriteResult : Type 0 where
  written : ℕ → Bool → WriteResult
  again broken : WriteResult

pub record Socket : Type 0 where
  pub tcp_buf_len : ℤ
  pub result : WriteResult

pub data WriteError : Type 0 where
  write_failed connection_closed : WriteError

unfoldable pub set_w2w : ℤ → Shaper → Shaper
set_w2w val s = record s { w2w = pos_part val }

unfoldable pub decrease_trans_padded_remaining : ℕ → Shaper → Shaper
decrease_trans_padded_remaining val s = record s {
  trans_padded_remaining =
      if leb val s.trans_padded_remaining then s.trans_padded_remaining - val else 0;
}

abbrev pub minsize : ℕ
minsize = 128

abbrev pub tcp_limit : ℤ
tcp_limit = pos 16384

-- Outside a page load: plain ssh, or a supertrace that has said that it is over.
abbrev pub is_normal : Shaper → Bool
is_normal s = is_ssh s.stmode || is_supertrace s.stmode && s.sent_tend

abbrev pub initial_tau : ℕ
initial_tau = 8192

abbrev pub room : ℤ → ℤ
room tcp_buf_len = if ltb_ℤ tcp_buf_len tcp_limit then tcp_limit -ℤ tcp_buf_len else pos 0

-- `actual_write`
unfoldable pub actual_write : ℤ → ℤ → Shaper → ℕ → ℤ
actual_write tcp_buf_len ori_w2w s len =
    let asked =
      if ltb_ℤ (room tcp_buf_len) (to_int ori_w2w) then room tcp_buf_len else to_int ori_w2w in
    if is_normal s
    then (if s.trans_padded_remaining == 0
        then (if ltb 32 len then pos minsize else pos len)
        else pos minsize)
    else asked

-- `unsigned long long` in misc.c; the argument is what `arc4random` draws. In `float` the quotient is
-- exact enough: below 2 ^ 24 hundredths it rounds down as the integers do.
unfoldable pub update_time : ℕ → ℤ → ℕ → Mode → ℕ
update_time now tau random mode =
    if is_supertrace mode
    then add64 now (to_u64 tau)
    else add64 now (pos_part tau * (random % 201) / 100)

module _ (crypto : Crypto) where
  -- `while((len = buffer_len(...)) < actual_write)`. A message has 1 byte at least, so that as many
  -- rounds as bytes are enough.
  pub fill : ℕ → ℕ → Session → Outcome WriteError Session
  fill zero actual s = if ltb (length s.output) actual then spin else ok s
  fill (suc fuel) actual s =
      let more = fill fuel actual (ignored crypto 0 s) in
      if ltb (length s.output) actual then more else ok s

  -- The padding of an output buffer with less than `actual` bytes.
  pub pad_output : ℕ → Session → Outcome WriteError Session
  pad_output actual s =
      let diff = actual - length s.output in
      fill actual actual (ignored crypto (if ltb 16 diff then diff - 16 + 6 else 0) s)

  -- `set_padded_junk(len-ori_len+get_padded_junk())`
  abbrev pub padded_out : Sender → Session → Sender
  padded_out s session = record s {
    session = session;
    shaper = record (s.shaper) {
      padded_junk = length session.output - length s.session.output + s.shaper.padded_junk;
    };
  }

  -- The number of bytes to write, with the padding that it needs.
  unfoldable pub prepare : ℕ → Sender → Outcome WriteError (ℕ × Sender)
  prepare actual s =
      if leb actual (length s.session.output)
      then ok (actual, s)
      else pad_output actual s.session >>= λ session. ok (
        if is_csbuflo s.shaper.stmode then length session.output else actual,
        padded_out s session,
      )

  -- After the socket has taken `len` bytes.
  unfoldable pub account : ℤ → ℕ → Sender → ℤ × Sender
  account ori_w2w len s = (
    if is_supertrace s.shaper.stmode && ltb_ℤ (pos 0) ori_w2w then ori_w2w -ℤ pos len else ori_w2w,
    record s {
      session = record (s.session) { output = drop len s.session.output };
      shaper =
          if is_normal s.shaper && ltb 0 s.shaper.trans_padded_remaining
          then decrease_trans_padded_remaining len s.shaper
          else s.shaper;
      wire = s.wire ++ take len s.session.output;
    },
  )

  unfoldable pub write_out : WriteResult → ℤ → ℕ → Sender → Outcome WriteError (ℤ × Sender)
  write_out again ori_w2w len s = ok (ori_w2w, s)
  write_out broken ori_w2w len s = stop write_failed
  write_out (written n cont) ori_w2w len s =
      if min n len == 0 && not cont
      then stop connection_closed
      else ok (account ori_w2w (min n len) s)

  unfoldable pub packet_write_poll_one_write : Socket → ℤ → Sender → Outcome WriteError (ℤ × Sender)
  packet_write_poll_one_write socket ori_w2w s =
      let actual = actual_write socket.tcp_buf_len ori_w2w s.shaper (length s.session.output) in
      if ltb_ℤ (pos 0) actual
      then (prepare (pos_part actual) s >>= λ r. write_out socket.result ori_w2w r.0 r.1)
      else ok (ori_w2w, s)

  -- `while(ori_w2w > 0)`, one socket for each round. Where they run out the loop still turns.
  unfoldable pub write_all : List Socket → ℤ → Sender → Outcome WriteError Sender
  write_all [] ori_w2w s = if ltb_ℤ (pos 0) ori_w2w then spin else ok s
  write_all (socket ∷ sockets) ori_w2w s =
      let more = packet_write_poll_one_write socket ori_w2w s >>= λ r. write_all sockets r.0 r.1 in
      if ltb_ℤ (pos 0) ori_w2w then more else ok s

  abbrev set_updated : ℕ → Sender → Sender
  set_updated time s = record s { shaper = record (s.shaper) { packet_time_to_write = time } }

  pub write_once : List Socket → ℤ → Sender → Outcome WriteError (ℤ × List Socket × Sender)
  write_once [] ori_w2w s = spin
  write_once (socket ∷ rest) ori_w2w s =
      packet_write_poll_one_write socket ori_w2w s >>= λ r. ok (r.0, rest, r.1)

  -- The sockets are taken in turn.
  unfoldable pub write_by_mode : List Socket → Sender → Outcome WriteError Sender
  write_by_mode sockets s =
      let ori_w2w = pos s.shaper.w2w in
      let s' = record s { shaper = record (s.shaper) { padded_junk = 0 } } in
      if is_supertrace s.shaper.stmode
      then ((if s.shaper.w2w == 0 && s.shaper.sent_tend
            then (write_once sockets ori_w2w s' >>= λ r. write_all r.1 r.0 r.2)
            else write_all sockets ori_w2w s')
          >>= λ t. ok (record t { shaper = set_w2w (pos 0) t.shaper }))
      else write_once sockets ori_w2w s' >>= λ r. ok r.2

  -- `now` is the time of the call and `random` a draw.
  unfoldable pub packet_write_poll : ℕ → ℕ → List Socket → Sender → Outcome WriteError Sender
  packet_write_poll now random sockets s =
      if ltb now s.shaper.packet_time_to_write
      then ok s
      else write_by_mode sockets s >>= λ t. ok (
          set_updated
            (update_time now
              (if is_ssh t.shaper.stmode then pos (10 * initial_tau) else t.shaper.packet_tau)
              random t.shaper.stmode)
            t)

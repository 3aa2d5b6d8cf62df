-- ===== src/Socks.antt =====
-- channels.c: what a channel for dynamic forwarding makes of the requests of the browser
-- (`channel_pre_dynamic` with the decoders of SOCKS 4 and 5 and `port_open_helper`, protocol 2), in the
-- rounds of the loop. The extra commands of SOCKS 5 are those of Notify. What is put into `output` is
-- taken to stay there.
mod Chunks
mod Requests
mod Page
mod Connect
mod Total
mod Tests
use csbu_flo.Bufaux.{from_bytes}
use csbu_flo.Notify.{Peer, Sites, Stopped, socks_command}
use csbu_flo.Packet.{Crypto, Session, packet_start, packet_put_int, packet_put_bytes, packet_send2}
use csbu_flo.Url.{c_string}
use csbu_flo.Base.{
  arith, Bool, List, Option, Outcome, ℕ, [], drop, false, get_or, if◌then◌else◌, length, ltb, none,
  not, ok, some, stop, take, true, ◌&&◌, ◌+◌, ◌++◌, ◌-◌, ◌==◌, ◌>>=◌, ◌||◌, ◌∷◌, zero, suc, spin,
}

-- `SSH_CHANNEL_DYNAMIC`, `SSH_CHANNEL_OPENING` and `SSH_CHANNEL_ZOMBIE`
pub data Stage : Type 0 where
  dynamic opening zombie : Stage

-- The channel, and the connection with what a page load changes. `reads` and `writes` tell whether the
-- socket is in the sets that `select` waits for.
pub record Dynamic : Type 0 where
  pub input : List ℕ
  pub output : List ℕ
  pub auth_done : Bool
  pub path : Option (List ℕ)
  pub host_port : ℕ
  pub kind : Stage
  pub reads : Bool
  pub writes : Bool
  pub peer : Peer

-- The results -1, 0 and 1 of the decoders.
pub data Answer : Type 0 where
  refused more granted : Answer

pub data SocksStop : Type 0 where
  no_nul : SocksStop
  page_stopped : Stopped → SocksStop

-- `NI_MAXHOST`
abbrev pub ni_maxhost : ℕ
ni_maxhost = 1025

pub data Scan : Type 0 where
  found missing too_long : Scan

-- The loop that looks for `need` more NULs from byte `i` on.
pub scan_nuls : ℕ → ℕ → List ℕ → Scan
scan_nuls need i [] = missing
scan_nuls need i (b ∷ bs) =
    let rest = scan_nuls (if b == 0 then need - 1 else need) (i + 1) bs in
    if b == 0 && need == 1 then found else if ltb 1024 i then too_long else rest

-- SOCKS4A has an address 0.0.0.x and a second string.
pub is_socks4a : List ℕ → Bool
is_socks4a p =
    get_or p 4 0 == 0 && (get_or p 5 0 == 0 && (get_or p 6 0 == 0 && not (get_or p 7 0 == 0)))

-- The reply of SOCKS 4: 0, 90, and a port and an address that are ignored.
pub finish_socks4 : ℕ → ℕ → Dynamic → Answer × Dynamic
finish_socks4 command port c =
    if not (command == 1) then (refused, record c { host_port = port }) else (
      granted,
      record c { host_port = port; output = c.output ++ 0 ∷ 90 ∷ 0 ∷ 0 ∷ 0 ∷ 0 ∷ 0 ∷ 0 ∷ [] },
    )

-- The name of the host, for SOCKS4A.
pub take_host : ℕ → ℕ → Dynamic → Outcome SocksStop (Answer × Dynamic)
take_host command port c =
    let host = c_string c.input in
    if ltb (length c.input) (length host + 1)
    then stop no_nul
    else if ltb ni_maxhost (length host + 1)
    then ok (refused, c)
    else ok (
        finish_socks4 command port
          (record c { path = some host; input = drop (length host + 1) c.input }))

-- The first method that needs no authentication.
pub has_noauth : List ℕ → Bool
has_noauth [] = false
has_noauth (m ∷ ms) = m == 0 || has_noauth ms

-- `ver | nmethods | methods`
pub take_methods : Dynamic → Answer × Dynamic
take_methods c =
    let nmethods = get_or c.input 1 0 in
    if ltb (length c.input) 2
    then (more, c)
    else if ltb (length c.input) (nmethods + 2)
    then (more, c)
    else if not (has_noauth (take nmethods (drop 2 c.input)))
    then (refused, c)
    else (
      more,
      record c {
        input = drop (nmethods + 2) c.input;
        output = c.output ++ 5 ∷ 0 ∷ [];
        writes = true;
        auth_done = true;
      },
    )

-- The reply of SOCKS 5, with an IPv4 address and a port that are ignored.
abbrev pub socks5_reply : List ℕ
socks5_reply = 5 ∷ 0 ∷ 0 ∷ 1 ∷ 0 ∷ 0 ∷ 0 ∷ 0 ∷ 0 ∷ 0 ∷ []

-- How long the address is, for the types IPv4, name and IPv6.
pub address_length : ℕ → List ℕ → Option ℕ
address_length atyp p =
    if atyp == 1
    then some 4
    else if atyp == 3
    then some (get_or p 4 0)
    else if atyp == 4
    then some 16
    else none

-- The fields of the channel that its opening tells, and the peer of its socket: an address, with a port
-- where there is one.
pub record Forward : Type 0 where
  pub self : ℕ
  pub local_window_max : ℕ
  pub local_maxpacket : ℕ
  pub remote_ipaddr : List ℕ
  pub remote_port : Option ℕ

-- `packet_put_cstring`
pub packet_put_cstring : List ℕ → Session → Session
packet_put_cstring s session = packet_put_bytes s (packet_put_int (length s) session)

-- "direct-tcpip"
abbrev pub direct_tcpip : List ℕ
direct_tcpip =
    b'd' ∷ b'i' ∷ b'r' ∷ b'e' ∷ b'c' ∷ b't' ∷ b'-' ∷ b't' ∷ b'c' ∷ b'p' ∷ b'i' ∷ b'p' ∷ []

-- "127.0.0.1"
abbrev pub loopback : List ℕ
loopback = b'1' ∷ b'2' ∷ b'7' ∷ b'.' ∷ b'0' ∷ b'.' ∷ b'0' ∷ b'.' ∷ b'1' ∷ []

-- The originator; a made-up one where the socket has none.
pub packet_put_originator : Forward → Session → Session
packet_put_originator forward s = elim forward.remote_port [
  | none ↦ packet_put_int 65535 (packet_put_cstring loopback s)
  | some port ↦ packet_put_int port (packet_put_cstring forward.remote_ipaddr s)
]

-- `SSH2_MSG_CHANNEL_OPEN` for `path` and `host_port`. (The name of the channel for the log is left out.)
pub open_message : Forward → List ℕ → ℕ → Session → Session
open_message forward path host_port s =
    let s1 = packet_put_cstring direct_tcpip (packet_start 90 s) in
    let s2 =
      packet_put_int forward.local_maxpacket
        (packet_put_int forward.local_window_max (packet_put_int forward.self s1)) in
    packet_put_originator forward (packet_put_int host_port (packet_put_cstring path s2))

-- `inet_ntoa` and `inet_ntop` write an address as text.
module _ (ntoa : List ℕ → List ℕ) (ntop : List ℕ → Option (List ℕ)) where
  pub take_strings : Dynamic → Outcome SocksStop (Answer × Dynamic)
  take_strings c =
      let command = get_or c.input 1 0 in
      let port = from_bytes 0 (take 2 (drop 2 c.input)) in
      let p = drop 8 c.input in
      let len = length (c_string p) + 1 in
      let c' = record c { input = drop len p; path = none } in
      if ltb (length p) len
      then stop no_nul
      else if is_socks4a c.input
      then take_host command port c'
      else ok
          (finish_socks4 command port (record c' { path = some (ntoa (take 4 (drop 4 c.input))) }))

  pub scanned : Scan → Dynamic → Outcome SocksStop (Answer × Dynamic)
  scanned found c = take_strings c
  scanned missing c = ok (more, c)
  scanned too_long c = ok (refused, c)

  pub channel_decode_socks4 : Dynamic → Outcome SocksStop (Answer × Dynamic)
  channel_decode_socks4 c =
      if ltb (length c.input) 8
      then ok (more, c)
      else scanned (scan_nuls (if is_socks4a c.input then 2 else 1) 8 (drop 8 c.input)) c

  -- The text of the address of a request.
  pub path_text : ℕ → List ℕ → Option (List ℕ)
  path_text atyp address =
      if atyp == 3
      then (if ltb (length address) ni_maxhost then some (c_string address) else none)
      else ntop address

  pub set_path : Option (List ℕ) → ℕ → Dynamic → Answer × Dynamic
  set_path none port c = (refused, record c { path = none })
  set_path (some text) port c =
      (granted, record c { path = some text; host_port = port; output = c.output ++ socks5_reply })

  -- The address and the port, once they are there.
  pub take_address : ℕ → Option ℕ → Dynamic → Answer × Dynamic
  take_address atyp none c = (refused, c)
  take_address atyp (some addrlen) c =
      let start = if atyp == 3 then 5 else 4 in
      let address = take addrlen (drop start c.input) in
      if ltb (length c.input) (start + addrlen + 2)
      then (more, c)
      else set_path (path_text atyp address)
          (from_bytes 0 (take 2 (drop (start + addrlen) c.input)))
          (record c { input = drop (start + addrlen + 2) c.input })

  abbrev stopped_page : Dynamic → Outcome Stopped Peer → Outcome SocksStop (Answer × Dynamic)
  stopped_page c (ok p) = ok (refused, record c { peer = p })
  stopped_page c (stop e) = stop (page_stopped e)
  stopped_page c spin = spin

  module _ (crypto : Crypto) (sites : Sites) where
    -- A request that is not for a connection. The channel is refused in any case.
    pub extra_command : Dynamic → Outcome SocksStop (Answer × Dynamic)
    extra_command c =
        stopped_page c (socks_command crypto sites (get_or c.input 1 0) c.input c.peer)

    pub channel_decode_socks5 : Dynamic → Outcome SocksStop (Answer × Dynamic)
    channel_decode_socks5 c =
        let atyp = get_or c.input 3 0 in
        if not c.auth_done
        then ok (take_methods c)
        else if ltb (length c.input) 5
        then ok (more, c)
        else if not (get_or c.input 1 0 == 1) || not (get_or c.input 2 0 == 0)
        then extra_command c
        else ok (take_address atyp (address_length atyp c.input) c)

    pub decode : Dynamic → Outcome SocksStop (Answer × Dynamic)
    decode c =
        if get_or c.input 0 0 == 4
        then channel_decode_socks4 c
        else if get_or c.input 0 0 == 5
        then channel_decode_socks5 c
        else ok (refused, c)

    module _ (forward : Forward) where
      pub port_open_helper : Dynamic → Dynamic
      port_open_helper c = record c {
        peer = record (c.peer) {
          session =
              packet_send2 crypto
                (open_message forward (path_of c.path) c.host_port (c.peer.session));
        };
      }
        where
          path_of : Option (List ℕ) → List ℕ
          path_of none = []
          path_of (some path) = path

      pub settle : Answer × Dynamic → Dynamic
      settle (refused, c) = record c { kind = zombie }
      settle (more, c) = record c { reads = true }
      settle (granted, c) = port_open_helper (record c { kind = opening })

      pub channel_pre_dynamic : Dynamic → Outcome SocksStop Dynamic
      channel_pre_dynamic c =
          if ltb (length c.input) 3
          then ok (record c { reads = true })
          else decode c >>= λ r. ok (settle r)

      -- A round of the loop: what has come since the last one, which may be nothing, if the socket
      -- was waited for, and then the preparation of the next `select`. A channel of another kind is
      -- not for these functions.
      pub dynamic_round : List ℕ → Dynamic → Outcome SocksStop Dynamic
      dynamic_round buf c =
          let input = if c.reads then c.input ++ buf else c.input in
          elim c.kind [
            | dynamic ↦
                channel_pre_dynamic (record c { input = input; reads = false; writes = false })
            | opening ↦ ok c
            | zombie ↦ ok c
          ]

      pub dynamic_rounds : List (List ℕ) → Dynamic → Outcome SocksStop Dynamic
      dynamic_rounds [] c = ok c
      dynamic_rounds (buf ∷ bufs) c = dynamic_round buf c >>= λ d. dynamic_rounds bufs d

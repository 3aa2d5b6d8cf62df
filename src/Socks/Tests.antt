-- ===== src/Socks/Tests.antt =====
-- Exchanges of a browser with the client, in reads.
use csbu_flo.Bufaux.{from_bytes}
use csbu_flo.Socks.Page.{channel_pre_dynamic-page}
use csbu_flo.Notify.Agreement.{OnPage}
use csbu_flo.Notify.{Peer}
use csbu_flo.Socks.Total.{Decoded, channel_decode_socks4-Decoded}
use csbu_flo.Url.{default_url, set_url, scan_url, c_string}
use csbu_flo.Socks.Chunks.{at}
use csbu_flo.Socks.{
  Answer, Dynamic, Forward, channel_decode_socks4, loopback, granted, scanned, scan_nuls,
  is_socks4a, take_strings, take_host, finish_socks4,
}
use csbu_flo.Notify.Tests.{sites, peer}
use csbu_flo.Packet.Tests.{aes}
use csbu_flo.Base.{arith, List, ℕ, Option, ◌∷◌, [], some, ◌≡◌, none, ok, true, false, refl}

-- Addresses as they stand; what they look like is of no interest here.
abbrev ntoa : List ℕ → List ℕ
ntoa address = address

abbrev ntop : List ℕ → Option (List ℕ)
ntop address = some address

abbrev forward : Forward
forward = record {
  self = 3;
  local_window_max = 2097152;
  local_maxpacket = 32768;
  remote_ipaddr = loopback;
  remote_port = none;
}

abbrev accepted : Dynamic
accepted = at none 0 peer false true false [] []

-- The name of the host "ab", port 443, in reads of 1, 4, 5 and 2 bytes.
abbrev https_chunks : List (List ℕ)
https_chunks =
    (5 ∷ []) ∷ (1 ∷ 0 ∷ 5 ∷ 1 ∷ []) ∷ (0 ∷ 3 ∷ 2 ∷ b'a' ∷ b'b' ∷ []) ∷ (1 ∷ 187 ∷ []) ∷ []

-- SOCKS 4A, with no user and the host "a", port 80.
abbrev socks4a_asked : Dynamic
socks4a_asked =
    at none 0 peer false false false [] (4 ∷ 1 ∷ 0 ∷ 80 ∷ 0 ∷ 0 ∷ 0 ∷ 1 ∷ 0 ∷ b'a' ∷ 0 ∷ [])

channel_decode_socks4-Decoded_example :
    (r : Answer × Dynamic) × (channel_decode_socks4 ntoa ntop socks4a_asked ≡ ok r)
    × Decoded socks4a_asked r
channel_decode_socks4-Decoded_example = channel_decode_socks4-Decoded ntoa ntop socks4a_asked

socks4a_granted :
    channel_decode_socks4 ntoa ntop socks4a_asked
    ≡ ok (
      granted,
      record (at none 80 peer false false false (0 ∷ 90 ∷ 0 ∷ 0 ∷ 0 ∷ 0 ∷ 0 ∷ 0 ∷ []) []) {
        path = some (b'a' ∷ []);
      },
    )
unfolding channel_decode_socks4 at scanned scan_nuls is_socks4a take_strings c_string take_host
    finish_socks4 from_bytes
socks4a_granted = refl

-- Of the URL "ab" only the space is still to come; the page of the default URL is started.
url_cut : (q : Peer) × OnPage sites default_url q
unfolding set_url scan_url
url_cut =
    let (q, _, page) =
      channel_pre_dynamic-page ntoa ntop aes sites forward none 0 peer
        (5 ∷ 6 ∷ 0 ∷ b'a' ∷ b'b' ∷ []) [] refl (omega arith) refl refl in
    (q, page)

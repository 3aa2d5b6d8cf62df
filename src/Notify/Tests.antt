-- ===== src/Notify/Tests.antt =====
-- A client and a server that have just connected, and a table with one site.
use csbu_flo.Base.{
  ℕ, ◌≡◌, refl, true, false, none, List, [], ◌∷◌, replicate, ok, arith, inr, ◌++◌, some, ap, ◌%◌,
  get_or-replicate_within,
}
use csbu_flo.Base.Int.{pos, negsuc}
use csbu_flo.Packet.Tests.{aes, session}
use csbu_flo.Url.{set_url, scan_url, c_string}
use csbu_flo.Packet.{packet_send2}
use csbu_flo.Hashmap.{url_part, default_hash, find_pair, str_eq}
use csbu_flo.WritePoll.{ssh}
use csbu_flo.Notify.{Sites, Peer, notify_url, receive, socks_command}
use csbu_flo.Notify.Agreement.{OnPage, socks_command-OnPage, Traced, cluster_of}

abbrev pub sites : Sites
sites = record {
  clusters = replicate 5000 (record { key = b'a' ∷ b'b' ∷ []; value = pos 1 } ∷ []);
  straces = [] ∷ (record { size = pos 9; time = pos 0; sprob = 0; expected = 0 } ∷ []) ∷ [];
}

abbrev pub peer : Peer
peer = record {
  stmode = ssh;
  onload_flag = true;
  unload_flag = false;
  paddingdone_flag = false;
  sent_tend = true;
  urlack = false;
  server_entering_normal = false;
  trans_padded = false;
  first_client = true;
  trans_padded_remaining = 0;
  received_sofar = 0;
  st_idle_start = 0;
  tend_set = false;
  ts_start = 0;
  ts_end = 0;
  url = [];
  cursor = record {
    cluster_id = negsuc 0;
    st_index = negsuc 0;
    cur_item = none;
    transcript_end = true;
    first_sent = false;
    first_expected = 0;
  };
  locked = false;
  session = session;
}

abbrev request : List ℕ
request = 5 ∷ 6 ∷ 0 ∷ b'a' ∷ b'b' ∷ b' ' ∷ []

-- Its cluster is the second, in whatever bucket.
request-Traced : Traced sites (cluster_of sites (set_url request 3))
unfolding cluster_of set_url scan_url c_string url_part find_pair str_eq
request-Traced =
    let slot = default_hash (some (b'a' ∷ b'b' ∷ [])) % 5000 in
    inr (
      1,
      ap (find_pair (b'a' ∷ b'b' ∷ [])) (
          get_or-replicate_within 5000 slot (record { key = b'a' ∷ b'b' ∷ []; value = pos 1 } ∷ [])
            [] (omega arith)),
      omega arith,
    )

socks_command-OnPage_example :
    (payload : List ℕ) × (c' s' : Peer) × (socks_command aes sites 6 request peer ≡ ok c')
    × (c'.session
        ≡ packet_send2 aes (record session { outgoing_packet = replicate 5 0 ++ 203 ∷ payload }))
    × (receive aes sites 70 (notify_url payload) peer ≡ ok (none, s'))
    × OnPage sites (set_url request 3) c'
    × OnPage sites (set_url request 3) s'
socks_command-OnPage_example =
    socks_command-OnPage aes sites 70 request peer peer refl
      (omega arith, (omega arith, (omega arith, (omega arith, (omega arith, (omega arith, tt))))))
      request-Traced

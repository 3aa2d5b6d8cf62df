-- ===== src/Notify/Agreement.antt =====
-- When the browser starts a page, client and server come to the same URL, cluster and mode.
use csbu_flo.Base.{
  ℕ, ◌-◌, ◌%◌, ◌<◌, ◌≡◌, ◌≢◌, refl, sym, ap, ap₂, subst, ◌∙◌, inl, inr, ◌⊎◌, true, false, some,
  none, List, [], ◌∷◌, ◌++◌, map, length, drop, get_or, ok, arith, All, Bool-cases, if◌then◌else◌,
  replicate, lt→ltb, if_both,
}
use native.Mathlib.Nat.{mod-eq_of_lt}
use csbu_flo.Base.Int.{ℤ, pos, negsuc, ◌==ℤ◌, ==ℤ_iff}
use csbu_flo.Hashmap.{url_part, default_hash, find_pair, hmsize}
use csbu_flo.Hashmap.Lookup.{hm_lookup_fits}
use csbu_flo.Packet.{Crypto, Session, put_u32, packet_send2}
use csbu_flo.Packet.Size.{message_body, length-put_u32, message_packet}
use csbu_flo.Trace.{StPair}
use csbu_flo.Cursor.{set_first_sent}
use csbu_flo.Cursor.Walk.{set_first_sent_same}
use csbu_flo.Url.{set_url, c_string}
use csbu_flo.Url.Roundtrip.{
  IsUrlText, set_url-IsUrlText, set_url-roundtrip, url_part_short, All-set_url,
}
use csbu_flo.WritePoll.{is_ssh, ssh, csbuflo, supertrace}
use csbu_flo.Notify.{
  Sites, Peer, flag_l, flag_type, notify_url, set_cluster_id, enter_csbuflo, fresh_page,
  start_supertrace, packet_send_notify, notify, enter_supertrace, receive_url, receive, start_page,
  socks_command,
}

abbrev pub IsByte : ℕ → Type 0
IsByte b = b < 256

-- The cluster of a URL: the lookup does not overrun.
unfoldable pub cluster_of : Sites → List ℕ → ℤ
cluster_of sites u =
    find_pair (url_part (c_string u))
      (get_or sites.clusters (default_hash (some (url_part (c_string u))) % hmsize) [])

abbrev located : Sites → Peer → Peer
located sites p = record p {
  cursor = record (p.cursor) {
    cluster_id = cluster_of sites p.url;
    st_index = if cluster_of sites p.url ==ℤ negsuc 0 then p.cursor.st_index else pos 0;
  };
}

set_cluster_id_found :
    (sites : Sites) (p : Peer) → IsUrlText p.url → set_cluster_id sites p ≡ ok (located sites p)
unfolding set_cluster_id cluster_of
set_cluster_id_found sites p t =
    let short : length (url_part (c_string p.url)) < 257 =
      subst (λ u. length (url_part (c_string u)) < 257) (sym t.spelled)
        (omega (arith, url_part_short t.word t.no_space, t.short)) in
    rw (hm_lookup_fits sites.clusters (c_string p.url) short) refl

-- The peer is on the page at `u`: in CSBuFLO mode if the page has no cluster, and otherwise in
-- supertrace mode, at the start of the trace.
pub record OnPage (sites : Sites) (u : List ℕ) (p : Peer) : Type 0 where
  pub same_url : p.url ≡ u
  pub cluster : p.cursor.cluster_id ≡ cluster_of sites u
  pub mode :
      ((cluster_of sites u ≡ negsuc 0) × (p.stmode ≡ csbuflo))
      ⊎ ((cluster_of sites u ≢ negsuc 0) × (p.stmode ≡ supertrace) × (p.cursor.st_index ≡ pos 0))
  pub loading : p.onload_flag ≡ false
  pub not_over : (p.cursor.transcript_end ≡ false) × (p.sent_tend ≡ false)

-- No cluster, or one with a trace.
abbrev pub Traced : Sites → ℤ → Type 0
Traced sites id = (id ≡ negsuc 0) ⊎ ((n : ℕ) × (id ≡ pos n) × (n < length sites.straces))

known_id : (id : ℤ) → (id ==ℤ negsuc 0) ≡ false → id ≢ negsuc 0
known_id id known e = let known' = (==ℤ_iff id (negsuc 0)).1 e in cc

module _ (crypto : Crypto) where
  -- The payload of the notification that carries a URL.
  abbrev url_payload : List ℕ → Session → List ℕ
  url_payload u s = drop 6 (packet_send_notify crypto (length u) flag_l u s).outgoing_packet

  bytes_kept : (u : List ℕ) → All IsByte u → map (λ c. c % 256) u ≡ u
  bytes_kept [] h = refl
  bytes_kept (c ∷ u) h = ap₂ (λ (x : ℕ) (xs : List ℕ). x ∷ xs) (mod-eq_of_lt h.0) (bytes_kept u h.1)

  -- The server reads the URL that the client sends.
  url_payload-url :
      (u : List ℕ) (s : Session) → IsUrlText u → All IsByte u → set_url (url_payload u s) 4 ≡ u
  unfolding packet_send_notify flag_type
  url_payload-url u s t bytes =
      ap (λ p. set_url p 4)
        (message_body 203 (length u) u (crypto.noise s.p_send.seqnr (300 - length u)) s
          ∙ ap
              (λ v.
                put_u32 (length u)
                ++ (v ++ map (λ c. c % 256) (crypto.noise s.p_send.seqnr (300 - length u))))
              (bytes_kept u bytes))
      ∙ set_url-roundtrip (put_u32 (length u)) u _ 4 t (length-put_u32 crypto (length u))

  received : Sites → Peer → Peer
  received sites q =
      if cluster_of sites q.url ==ℤ negsuc 0
      then enter_csbuflo q
      else enter_supertrace crypto sites q

  received-OnPage :
      (sites : Sites) (u : List ℕ) (s : Peer)
      → OnPage sites u (received sites (located sites (fresh_page u s)))
  unfolding received enter_csbuflo enter_supertrace notify fresh_page
  received-OnPage sites u s = elim (Bool-cases (cluster_of sites u ==ℤ negsuc 0)) [
    | inl unknown ↦ rw unknown (record {
      same_url = refl;
      cluster = refl;
      mode = inl ((==ℤ_iff (cluster_of sites u) (negsuc 0)).0 unknown, refl);
      loading = refl;
      not_over = (refl, refl);
    })
    | inr known ↦ rw known record {
      same_url = refl;
      cluster = (same u s _).0;
      mode = inr (known_id (cluster_of sites u) known, refl, (same u s _).1);
      loading = refl;
      not_over = ((same u s _).2, refl);
    }
  ]
    where
      same :
          (u : List ℕ) (s : Peer) (pairs : List StPair)
          → let c = record (s.cursor) {
            cluster_id = cluster_of sites u;
            st_index = pos 0;
            transcript_end = false;
          } in
            ((set_first_sent pairs c).cluster_id ≡ cluster_of sites u)
            × ((set_first_sent pairs c).st_index ≡ pos 0)
            × ((set_first_sent pairs c).transcript_end ≡ false)
      same u s pairs = set_first_sent_same pairs (record (s.cursor) {
        cluster_id = cluster_of sites u;
        st_index = pos 0;
        transcript_end = false;
      })

  sent_page : Sites → Peer → Peer
  sent_page sites q =
      record (if cluster_of sites q.url ==ℤ negsuc 0 then enter_csbuflo q else start_supertrace q) {
        locked = true;
      }

  sent_page-OnPage :
      (sites : Sites) (u : List ℕ) (c : Peer)
      → OnPage sites u
          (sent_page sites (located sites (notify crypto (length u) flag_l (fresh_page u c))))
  unfolding sent_page enter_csbuflo start_supertrace notify fresh_page
  sent_page-OnPage sites u c = elim (Bool-cases (cluster_of sites u ==ℤ negsuc 0)) [
    | inl unknown ↦ rw unknown (record {
      same_url = refl;
      cluster = refl;
      mode = inl ((==ℤ_iff (cluster_of sites u) (negsuc 0)).0 unknown, refl);
      loading = refl;
      not_over = (refl, refl);
    })
    | inr known ↦ rw known (record {
      same_url = refl;
      cluster = refl;
      mode = inr (known_id (cluster_of sites u) known, refl, refl);
      loading = refl;
      not_over = (refl, refl);
    })
  ]

  fresh_length : (u : List ℕ) (c : Peer) → length (fresh_page u c).url ≡ length u
  unfolding fresh_page
  fresh_length u c = refl

  fresh_text :
      (u : List ℕ) (n : ℕ) (c : Peer)
      → IsUrlText u
      → IsUrlText (notify crypto n flag_l (fresh_page u c)).url × IsUrlText (fresh_page u c).url
  unfolding notify fresh_page
  fresh_text u n c t = (t, t)

  client_run :
      (sites : Sites) (request : List ℕ) (c : Peer)
      → c.stmode ≡ ssh
      → IsUrlText (set_url request 3)
      → socks_command crypto sites 6 request c
        ≡ ok (
            sent_page sites (
              located sites (
                notify crypto
                  (length (set_url request 3))
                  flag_l
                  (fresh_page (set_url request 3) c))))
  unfolding socks_command start_page sent_page
  client_run sites request c mode t =
      let u = set_url request 3 in
      let plain : is_ssh c.stmode ≡ true = ap is_ssh mode in
      rw
        (
          plain,
          fresh_length u c,
          set_cluster_id_found sites (notify crypto (length u) flag_l (fresh_page u c))
              (fresh_text u (length u) c t).0,
        )
        refl

  server_run :
      (sites : Sites) (now : ℕ) (payload u : List ℕ) (s : Peer)
      → set_url payload 4 ≡ u
      → IsUrlText u
      → Traced sites (cluster_of sites u)
      → receive crypto sites now (notify_url payload) s
        ≡ ok (none, received sites (located sites (fresh_page u s)))
  unfolding receive receive_url received fresh_page
  server_run sites now payload u s read t (inl unknown) =
      rw (read, set_cluster_id_found sites (fresh_page u s) (fresh_text u 0 s t).1, unknown) refl
  server_run sites now payload u s read t (inr (n, known, within)) =
      rw
        (
          read,
          set_cluster_id_found sites (fresh_page u s) (fresh_text u 0 s t).1,
          known,
          lt→ltb n (length sites.straces) within,
        )
        refl

  -- The message in which the client sends a URL.
  packet_send_notify-payload :
      (u : List ℕ) (s : Session)
      → packet_send_notify crypto (length u) flag_l u s
        ≡ record s { outgoing_packet = replicate 5 0 ++ 203 ∷ url_payload u s }
  unfolding packet_send_notify flag_type
  packet_send_notify-payload u s =
      message_packet 203 (length u) u (crypto.noise s.p_send.seqnr (300 - length u)) s

  client_session :
      (sites : Sites) (u : List ℕ) (c : Peer)
      → (sent_page sites (located sites (notify crypto (length u) flag_l (fresh_page u c)))).session
        ≡ packet_send2 crypto (record (c.session) {
          outgoing_packet = replicate 5 0 ++ 203 ∷ url_payload u c.session;
        })
  unfolding sent_page notify fresh_page enter_csbuflo start_supertrace
  client_session sites u c =
      if_both
        (λ (q : Peer).
          (record q { locked = true }).session
          ≡ packet_send2 crypto (record (c.session) {
            outgoing_packet = replicate 5 0 ++ 203 ∷ url_payload u c.session;
          }))
        (cluster_of sites u ==ℤ negsuc 0) _ _
        (ap (packet_send2 crypto) (packet_send_notify-payload u c.session))
        (ap (packet_send2 crypto) (packet_send_notify-payload u c.session))

  -- The client's part.
  pub start_page-OnPage :
      (sites : Sites) (request : List ℕ) (c : Peer)
      → c.stmode ≡ ssh
      → (c' : Peer) × (socks_command crypto sites 6 request c ≡ ok c')
        × OnPage sites (set_url request 3) c'
  start_page-OnPage sites request c mode =
      let u = set_url request 3 in
      (
        sent_page sites (located sites (notify crypto (length u) flag_l (fresh_page u c))),
        client_run sites request c mode (set_url-IsUrlText request 3),
        sent_page-OnPage sites u c,
      )

  -- The browser asks the client in plain ssh for a page, in a request of bytes, and the cluster of its
  -- URL, if it has one, has a trace. Then the client sends a message of type 203, and the server, in
  -- whatever mode, gets the payload of this message, both with the same cluster table and traces.
  -- Neither fails, and then both are on the same page: they have the URL that the request names, its
  -- cluster, and the same mode, CSBuFLO if there is no cluster and otherwise supertrace from the start
  -- of the trace.
  pub socks_command-OnPage :
      (sites : Sites) (now : ℕ) (request : List ℕ) (c s : Peer)
      → c.stmode ≡ ssh
      → All IsByte request
      → Traced sites (cluster_of sites (set_url request 3))
      → (payload : List ℕ) × (c' s' : Peer) × (socks_command crypto sites 6 request c ≡ ok c')
        × (c'.session
            ≡ packet_send2 crypto
                (record (c.session) { outgoing_packet = replicate 5 0 ++ 203 ∷ payload }))
        × (receive crypto sites now (notify_url payload) s ≡ ok (none, s'))
        × OnPage sites (set_url request 3) c'
        × OnPage sites (set_url request 3) s'
  socks_command-OnPage sites now request c s mode bytes traced =
      let u = set_url request 3 in
      let t = set_url-IsUrlText request 3 in
      let kept = All-set_url IsByte request 3 (omega arith) (ground arith) bytes in
      let payload = url_payload u c.session in
      (
        payload,
        sent_page sites (located sites (notify crypto (length u) flag_l (fresh_page u c))),
        received sites (located sites (fresh_page u s)),
        client_run sites request c mode t,
        client_session sites u c,
        server_run sites now payload u s (url_payload-url u c.session t kept) t traced,
        sent_page-OnPage sites u c,
        received-OnPage sites u s,
      )

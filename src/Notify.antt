-- ===== src/Notify.antt =====
-- How the two sides agree on the mode: the notifications of packet.c (`packet_send_notify` and their
-- part of `packet_read_poll_seqnr`), the SOCKS commands of channels.c by which the browser starts and
-- ends a page, and the flags of misc.c that they set.
-- A notification is sent as the message that `packet_send` gets; the log files are left out.
pub mod Agreement
pub mod Tests
use csbu_flo.Base.{
  ℕ, zero, suc, ◌+◌, ◌-◌, ◌%◌, ◌^◌, Bool, true, false, not, ◌&&◌, ◌||◌, Option, none, some, List,
  [], ◌∷◌, ◌++◌, length, drop, get_or, ltb, leb, ◌==◌, if◌then◌else◌, Outcome, ok, stop, spin,
  ◌>>=◌, add64,
}
use csbu_flo.Base.Int.{ℤ, pos, negsuc, ◌==ℤ◌, pos_part}
use csbu_flo.Hashmap.{Hashmap, Overrun, hm_lookup}
use csbu_flo.Trace.{StPair}
use csbu_flo.Cursor.{Cursor, set_first_sent}
use csbu_flo.Packet.{Crypto, Session, packet_start, packet_put_int, packet_put_bytes, packet_send2}
use csbu_flo.Url.{set_url, c_string}
use csbu_flo.WritePoll.{is_ssh, Mode, ssh, csbuflo, supertrace}

-- `clusters` and `straces` of misc.c, after both files have been read.
pub record Sites : Type 0 where
  pub clusters : Hashmap
  pub straces : List (List StPair)

-- The static variables of misc.c that tell where a page load stands, and the connection.
-- `locked` is the lock file, which the client keeps while a page is loaded.
pub record Peer : Type 0 where
  pub stmode : Mode
  pub onload_flag : Bool
  pub unload_flag : Bool
  pub paddingdone_flag : Bool
  pub sent_tend : Bool
  pub urlack : Bool
  pub server_entering_normal : Bool
  pub trans_padded : Bool
  pub first_client : Bool
  pub trans_padded_remaining : ℕ
  pub received_sofar : ℕ
  pub st_idle_start : ℕ
  pub tend_set : Bool
  pub ts_start : ℕ
  pub ts_end : ℕ
  pub url : List ℕ
  pub cursor : Cursor
  pub locked : Bool
  pub session : Session

pub data Flag : Type 0 where
  flag_u flag_o flag_k flag_t flag_s flag_p flag_l flag_n : Flag

pub flag_type : Flag → ℕ
flag_type flag_o = 200
flag_type flag_u = 201
flag_type flag_p = 202
flag_type flag_l = 203
flag_type flag_s = 204
flag_type flag_t = 205
flag_type flag_n = 206
flag_type flag_k = 207

-- What `packet_read_poll2` returns, with the payload of the notification that has one. The message
-- types 4 (debug) and 3 (unimplemented) are consumed; `other 0` is no packet.
pub data Message : Type 0 where
  ignore sync onload unload tend normal paddingdone got_urlack debug unimplemented disconnect :
      Message
  notify_url : List ℕ → Message
  other : ℕ → Message

pub data Stopped : Type 0 where
  overran disconnected : Stopped

-- Neither padding nor a notification.
abbrev pub is_real : Message → Bool
is_real debug = true
is_real unimplemented = true
is_real disconnect = true
is_real (other t) = not (t == 0)
is_real _ = false

-- The time at which the last data of the interval came.
pub mark_end : ℕ → Peer → Peer
mark_end cur_ts p =
    if not p.tend_set && ltb p.ts_start cur_ts || p.tend_set && leb p.ts_end p.ts_start
    then record p { tend_set = true; ts_end = cur_ts }
    else p

abbrev looked_up : Outcome Overrun ℤ → Outcome Stopped ℤ
looked_up (ok id) = ok id
looked_up (stop e) = stop overran
looked_up spin = spin

pub set_cluster_id : Sites → Peer → Outcome Stopped Peer
set_cluster_id sites p =
    looked_up (hm_lookup (some sites.clusters) (some (c_string p.url))) >>= λ id. ok (record p {
      cursor = record (p.cursor) {
        cluster_id = id;
        st_index = if id ==ℤ negsuc 0 then p.cursor.st_index else pos 0;
      };
    })

-- `straces[cluster_id]->pairs`, for an index that has a trace, as the rounds of the loops take it to
-- have. A page with an index that has none is not entered: there `receive_url` stops.
abbrev pub pairs_of : Sites → Peer → List StPair
pairs_of sites p = get_or sites.straces (pos_part p.cursor.cluster_id) []

abbrev pub has_trace : Sites → ℤ → Bool
has_trace sites (pos n) = ltb n (length sites.straces)
has_trace sites (negsuc _) = false

-- A page without a cluster is sent in CSBuFLO mode.
pub enter_csbuflo : Peer → Peer
enter_csbuflo p = record p { paddingdone_flag = false; unload_flag = true; stmode = csbuflo }

-- `set_url`, and the flags of the last page.
pub fresh_page : List ℕ → Peer → Peer
fresh_page url p = record p {
  url = url;
  onload_flag = false;
  cursor = record (p.cursor) { transcript_end = false };
  sent_tend = false;
}

-- The client's part of a page with a cluster.
pub start_supertrace : Peer → Peer
start_supertrace p = record p {
  received_sofar = 0;
  first_client = true;
  trans_padded = false;
  trans_padded_remaining = 0;
  stmode = supertrace;
  st_idle_start = 0;
}

module _ (crypto : Crypto) where
  open crypto use {noise}

  -- After the count, the URL filled up to 300 bytes, or `nbytes` random bytes. (Random data is drawn
  -- as for the padding.)
  pub packet_send_notify : ℕ → Flag → List ℕ → Session → Session
  packet_send_notify nbytes flag_l url s =
      packet_put_bytes (noise s.p_send.seqnr (300 - nbytes))
        (packet_put_bytes url (packet_put_int nbytes (packet_start (flag_type flag_l) s)))
  packet_send_notify nbytes flag url s =
      packet_put_bytes (noise s.p_send.seqnr nbytes)
        (packet_put_int nbytes (packet_start (flag_type flag) s))

  -- `packet_send_notify(nbytes, flag); packet_send();`
  unfoldable pub notify : ℕ → Flag → Peer → Peer
  notify nbytes flag p = record p {
    session = packet_send2 crypto (packet_send_notify nbytes flag p.url p.session);
  }

  -- A page with a cluster: the server waits for what the trace says that the client sends first.
  pub enter_supertrace : Sites → Peer → Peer
  enter_supertrace sites p =
      let cursor = set_first_sent (pairs_of sites p) p.cursor in
      notify 4 flag_k (record p {
        trans_padded = false;
        trans_padded_remaining = 0;
        stmode = supertrace;
        st_idle_start = 0;
        cursor = cursor;
        received_sofar = cursor.first_expected;
      })

  -- `set_first_sent` reads the trace of the cluster, outside of `straces` if there is none.
  pub receive_url : Sites → List ℕ → Peer → Outcome Stopped Peer
  receive_url sites payload p = set_cluster_id sites (fresh_page (set_url payload 4) p) >>= λ q.
      if q.cursor.cluster_id ==ℤ negsuc 0
      then ok (enter_csbuflo q)
      else if has_trace sites q.cursor.cluster_id
      then ok (enter_supertrace sites q)
      else stop overran

  -- One round of the loop: the message is handled, or its type returned to the caller.
  pub receive : Sites → ℕ → Message → Peer → Outcome Stopped (Option ℕ × Peer)
  receive sites now m p = handle m (if is_real m then mark_end now p else p)
    where
      handle : Message → Peer → Outcome Stopped (Option ℕ × Peer)
      handle onload q = ok (none, record q { onload_flag = true })
      handle unload q = ok (none, record q { paddingdone_flag = false; unload_flag = true })
      handle tend q = ok (none, record q { cursor = record (q.cursor) { transcript_end = true } })
      handle normal q = ok (none, normal_received q.stmode q)
        where
          normal_received : Mode → Peer → Peer
          normal_received ssh q = record q { server_entering_normal = false; locked = false }
          normal_received _ q = record q { server_entering_normal = true }
      handle paddingdone q = ok (none, record q { paddingdone_flag = true })
      handle got_urlack q = ok (none, record q { urlack = true })
      handle (notify_url payload) q = receive_url sites payload q >>= λ r. ok (none, r)
      handle disconnect q = stop disconnected
      handle (other t) q = ok (some t, q)
      handle _ q = ok (none, q)

  -- channels.c: command 0x06 of the browser, a URL from byte 3 of the request on.
  pub start_page : Sites → List ℕ → Peer → Outcome Stopped Peer
  start_page sites request p =
      let p' = fresh_page (set_url request 3) p in
      set_cluster_id sites (notify (length p'.url) flag_l p') >>= λ q.
      ok
        (record (if q.cursor.cluster_id ==ℤ negsuc 0 then enter_csbuflo q else start_supertrace q) {
          locked = true;
        })

  -- channels.c: a SOCKS5 request of the browser with one of the three extra commands, a load event,
  -- an unload event and a URL. Others change nothing here.
  pub socks_command : Sites → ℕ → List ℕ → Peer → Outcome Stopped Peer
  socks_command sites command request p =
      if command == 4
      then ok (notify 4 flag_o (record p { onload_flag = true }))
      else if command == 5
      then ok (notify 4 flag_u (record p { unload_flag = true }))
      else if command == 6 && is_ssh p.stmode
      then start_page sites request p
      else ok p

-- ===== src/Socks/Page.antt =====
-- The extra command of SOCKS 5 that announces a page.
use csbu_flo.Url.{set_url}
use csbu_flo.WritePoll.{ssh}
use csbu_flo.Socks.Chunks.{at}
use csbu_flo.Socks.{
  Forward, channel_pre_dynamic, decode, channel_decode_socks5, extra_command, settle, zombie,
}
use csbu_flo.Notify.{Sites, Peer}
use csbu_flo.Packet.{Crypto}
use csbu_flo.Notify.Agreement.{OnPage, start_page-OnPage}
use csbu_flo.Base.{
  arith, List, ℕ, Option, ◌≡◌, ◌≤◌, length, get_or, true, false, ok, ltb-false, refl,
}

module _ (ntoa : List ℕ → List ℕ) (ntop : List ℕ → Option (List ℕ)) (crypto : Crypto)
    (sites : Sites) (forward : Forward) where
  -- Once authentication is done, a request of 5 bytes or more with the command 6, in plain ssh, starts
  -- the page of the URL that stands behind its third byte, and ends the channel without a reply.
  pub channel_pre_dynamic-page :
      (path : Option (List ℕ)) (host_port : ℕ) (p : Peer) (request output : List ℕ)
      → p.stmode ≡ ssh
      → 5 ≤ length request
      → get_or request 0 0 ≡ 5
      → get_or request 1 0 ≡ 6
      → (q : Peer) × (channel_pre_dynamic ntoa ntop crypto sites forward
            (at path host_port p true false false output request)
          ≡ ok (record {
            input = request;
            output = output;
            auth_done = true;
            path = path;
            host_port = host_port;
            kind = zombie;
            reads = false;
            writes = false;
            peer = q;
          }))
        × OnPage sites (set_url request 3) q
  unfolding channel_pre_dynamic decode channel_decode_socks5 extra_command settle at
  channel_pre_dynamic-page path host_port p request output mode long version command =
      let (q, run, page) = start_page-OnPage crypto sites request p mode in
      (
        q,
        rw
            (
              ltb-false (length request) 3 (omega (arith, long)),
              version,
              ltb-false (length request) 5 long,
              command,
              run,
            )
            refl,
        page,
      )

-- ===== src/Socks/Connect.antt =====
-- A whole exchange of SOCKS 5, however its bytes are cut into reads.
use csbu_flo.Socks.Chunks.{opened}
use csbu_flo.Socks.{Forward, Dynamic, dynamic_rounds, SocksStop, channel_pre_dynamic}
use csbu_flo.Notify.{Sites, Peer}
use csbu_flo.Packet.{Crypto}
use csbu_flo.Base.{List, ℕ, Option, Outcome}

module _ (ntoa : List ℕ → List ℕ) (ntop : List ℕ → Option (List ℕ)) (crypto : Crypto)
    (sites : Sites) (forward : Forward) (path : Option (List ℕ)) (host_port : ℕ) (peer : Peer) where
  abbrev rounds : List (List ℕ) → Dynamic → Outcome SocksStop Dynamic
  rounds = dynamic_rounds ntoa ntop crypto sites forward

  abbrev pre : Dynamic → Outcome SocksStop Dynamic
  pre = channel_pre_dynamic ntoa ntop crypto sites forward

  abbrev open_at : List ℕ → List ℕ → ℕ → Dynamic
  open_at = opened ntoa ntop crypto sites forward path host_port peer

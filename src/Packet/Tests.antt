-- ===== src/Packet/Tests.antt =====
-- A session with a cipher of 16-byte blocks and a MAC of 20 bytes.
use csbu_flo.Base.{false, [], ◌∷◌, ◌++◌, replicate, arith, length-append, length-replicate}
use csbu_flo.Packet.{Crypto, Session}

abbrev pub aes : Crypto
aes = record {
  block_size = 16;
  mac_len = 20;
  seal = λ seqnr packet. packet ++ replicate 20 seqnr;
  noise = λ seed n. replicate n 7;
  block_fits = (omega arith, omega arith);
  length-seal = λ seqnr packet.
      omega (arith, length-append packet (replicate 20 seqnr), length-replicate 20 seqnr);
  length-noise = λ seed n. length-replicate n 7;
}

abbrev pub session : Session
session = record {
  output = 10 ∷ 11 ∷ 12 ∷ [];
  outgoing_packet = [];
  p_send = record { seqnr = 3; packets = 3; blocks = 9; bytes = 144 };
  extra_pad = 0;
  rekeying = false;
  outgoing = [];
}

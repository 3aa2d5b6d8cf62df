-- ===== src/Socks/Chunks.antt =====
-- A request of SOCKS 5 as its bytes come: each decoder against a part of its message and the whole.
use csbu_flo.Bufaux.Roundtrip.{u16_value}
use csbu_flo.Bufaux.{put_u16, from_bytes}
use csbu_flo.Notify.{Sites, Peer}
use csbu_flo.Packet.{Crypto}
use mathlib.Core.List.{append-nil}
use csbu_flo.Socks.{
  Dynamic, Forward, channel_pre_dynamic, decode, channel_decode_socks5, take_methods, settle,
  take_address, address_length, set_path, path_text, has_noauth, dynamic, socks5_reply,
  port_open_helper, opening, granted, more, Answer,
}
use csbu_flo.Socks.Requests.{
  Target, ipv4, name, ipv6, type_of, address_of, IsTarget, address_field, socks5_greeting,
  socks5_request,
}
use csbu_flo.Base.{
  arith, List, ℕ, Option, ◌++◌, ◌≡◌, ◌<◌, length, Bool, get_or, true, ◌+◌, false, sym,
  get_or-append, ok, dec_lt, ◌∙◌, ◌∷◌, [], ap, lt→ltb, ltb-false, refl, suc, length-append,
  take_own, drop_at, ◌≤◌, drop_own, some, ◌^◌, take, drop, ltb, drop-drop, drop_all,
}

-- What a part of a message has in its place `i`.
part_at : (b t w : List ℕ) (i : ℕ) → b ++ t ≡ w → i < length b → get_or b i 0 ≡ get_or w i 0
part_at b t w i e h = sym (get_or-append b t i 0 h) ∙ ap (λ x. get_or x i 0) e

-- The channel before it is opened, where the bytes `b` have come.
unfoldable pub at : Option (List ℕ) → ℕ → Peer → Bool → Bool → Bool → List ℕ → List ℕ → Dynamic
at path host_port peer auth_done reads writes output b = record {
  input = b;
  output = output;
  auth_done = auth_done;
  path = path;
  host_port = host_port;
  kind = dynamic;
  reads = reads;
  writes = writes;
  peer = peer;
}

module _ (ntoa : List ℕ → List ℕ) (ntop : List ℕ → Option (List ℕ)) (crypto : Crypto)
    (sites : Sites) (forward : Forward) (path : Option (List ℕ)) (host_port : ℕ) (peer : Peer) where
  pub greeting_part :
      (methods b t output : List ℕ)
      → b ++ t ≡ socks5_greeting methods
      → length b < length methods + 2
      → channel_pre_dynamic ntoa ntop crypto sites forward
          (at path host_port peer false false false output b)
        ≡ ok (at path host_port peer false true false output b)
  unfolding channel_pre_dynamic decode channel_decode_socks5 take_methods settle at socks5_greeting
  greeting_part methods b t output e short = elim (dec_lt (length b) 3) [
    | yes h ↦ rw (lt→ltb (length b) 3 h) refl
    | no h ↦
        rw
          (
            ltb-false (length b) 3 (omega (arith, h)),
            part_at b t _ 0 e (omega (arith, h)),
            part_at b t _ 1 e (omega (arith, h)),
            ltb-false (length b) 2 (omega (arith, h)),
            lt→ltb (length b) (length methods + 2) short,
          )
          refl
  ]

  pub greeting_whole :
      (methods more_bytes output : List ℕ)
      → has_noauth methods ≡ true
      → channel_pre_dynamic ntoa ntop crypto sites forward
          (at path host_port peer false false false output (socks5_greeting methods ++ more_bytes))
        ≡ ok (at path host_port peer true true true (output ++ 5 ∷ 0 ∷ []) more_bytes)
  unfolding channel_pre_dynamic decode channel_decode_socks5 take_methods settle at socks5_greeting
      has_noauth
  greeting_whole [] more_bytes output h = cc
  greeting_whole (m ∷ ms) more_bytes output h =
      rw
        (
          ltb-false (suc (suc (suc (length (ms ++ more_bytes))))) 3 (omega arith),
          ltb-false (suc (suc (suc (length (ms ++ more_bytes))))) 2 (omega arith),
          ltb-false (suc (suc (suc (length (ms ++ more_bytes))))) (suc (length ms) + 2)
              (omega (arith, length-append ms more_bytes)),
          take_own ms more_bytes,
          h,
        )
        (ap (λ x. ok (at path host_port peer true true true (output ++ 5 ∷ 0 ∷ []) x))
          (drop_at (5 ∷ suc (length ms) ∷ m ∷ (ms ++ more_bytes)) (suc (length ms) + 2)
              (suc (suc (suc (length ms)))) (omega arith)
            ∙ drop_own ms more_bytes))

  -- A request whose address and port have not all come.
  address_waits :
      (target : Target) (port : ℕ) (c : Dynamic)
      → IsTarget target
      → length c.input < length (socks5_request target port)
      → take_address ntoa ntop (type_of target) (some (length (address_of target))) c ≡ (more, c)
  unfolding take_address socks5_request address_field type_of address_of put_u16
  address_waits (ipv4 a) port c v short =
      let few : length c.input < 4 + length a + 2 =
        omega (arith, short, length-append a (put_u16 port)) in
      rw (lt→ltb _ _ few) refl
  address_waits (ipv6 a) port c v short =
      let few : length c.input < 4 + length a + 2 =
        omega (arith, short, length-append a (put_u16 port)) in
      rw (lt→ltb _ _ few) refl
  address_waits (name a) port c v short =
      let few : length c.input < 5 + length a + 2 =
        omega (arith, short, length-append a (put_u16 port)) in
      rw (lt→ltb _ _ few) refl

  -- The channel when its opening has been sent.
  unfoldable pub opened : List ℕ → List ℕ → ℕ → Dynamic
  opened output text port = port_open_helper ntoa ntop crypto sites forward (record {
    input = [];
    output = output;
    auth_done = true;
    path = some text;
    host_port = port;
    kind = opening;
    reads = false;
    writes = false;
    peer = peer;
  })

  unfoldable pub granted_at : List ℕ → List ℕ → ℕ → Answer × Dynamic
  granted_at output text port = (
    granted,
    record (at path host_port peer true false false (output ++ socks5_reply) []) {
      path = some text;
      host_port = port;
    },
  )

  -- What stands behind the first `start` bytes of a request.
  address_read :
      (a front : List ℕ) (port : ℕ)
      → port < 2 ^ 16
      → (take (length a) (drop (length front) (front ++ (a ++ put_u16 port))) ≡ a)
        × (from_bytes 0 (take 2 (drop (length front + length a) (front ++ (a ++ put_u16 port))))
            ≡ port)
        × (drop (length front + length a + 2) (front ++ (a ++ put_u16 port)) ≡ [])
        × (ltb (length (front ++ (a ++ put_u16 port))) (length front + length a + 2) ≡ false)
  unfolding put_u16
  address_read a front port small =
      let behind = drop_own front (a ++ put_u16 port) in
      let size : length (front ++ (a ++ put_u16 port)) ≡ length front + length a + 2 =
        omega (arith, length-append front (a ++ put_u16 port), length-append a (put_u16 port)) in
      let left : drop (length front + length a) (front ++ (a ++ put_u16 port)) ≡ put_u16 port =
        sym (drop-drop (length a) (length front) _)
        ∙ ap (drop (length a)) behind
        ∙ drop_own a (put_u16 port) in
      (
        ap (take (length a)) behind ∙ take_own a (put_u16 port),
        ap (λ x. from_bytes 0 (take 2 x)) left ∙ u16_value port small,
        drop_all (front ++ (a ++ put_u16 port)) (length front + length a + 2) (omega (arith, size)),
        ltb-false _ _ (omega (arith, size)),
      )

  address_whole :
      (target : Target) (port : ℕ) (output text : List ℕ)
      → port < 2 ^ 16
      → path_text ntoa ntop (type_of target) (address_of target) ≡ some text
      → take_address ntoa ntop
          (type_of target)
          (some (length (address_of target)))
          (at path host_port peer true false false output (socks5_request target port))
        ≡ granted_at output text port
  unfolding take_address socks5_request address_field type_of address_of set_path granted_at at
  address_whole (ipv4 a) port output text small known =
      let (address, number, left, enough) = address_read a (5 ∷ 1 ∷ 0 ∷ 1 ∷ []) port small in
      rw (enough, address, number, left, known) refl
  address_whole (ipv6 a) port output text small known =
      let (address, number, left, enough) = address_read a (5 ∷ 1 ∷ 0 ∷ 4 ∷ []) port small in
      rw (enough, address, number, left, known) refl
  address_whole (name a) port output text small known =
      let (address, number, left, enough) =
        address_read a (5 ∷ 1 ∷ 0 ∷ 3 ∷ length a ∷ []) port small in
      rw (enough, address, number, left, known) refl

  address_known :
      (target : Target) (port : ℕ) (b t : List ℕ)
      → IsTarget target
      → b ++ t ≡ socks5_request target port
      → 5 ≤ length b
      → address_length (get_or b 3 0) b ≡ some (length (address_of target))
  unfolding address_length socks5_request address_field type_of address_of IsTarget
  address_known (ipv4 a) port b t v e h = rw (part_at b t _ 3 e (omega (arith, h)), v) refl
  address_known (ipv6 a) port b t v e h = rw (part_at b t _ 3 e (omega (arith, h)), v) refl
  address_known (name a) port b t v e h =
      rw (part_at b t _ 3 e (omega (arith, h)), part_at b t _ 4 e (omega (arith, h))) refl

  pub request_part :
      (target : Target) (port : ℕ) (b t output : List ℕ)
      → IsTarget target
      → b ++ t ≡ socks5_request target port
      → length b < length (socks5_request target port)
      → channel_pre_dynamic ntoa ntop crypto sites forward
          (at path host_port peer true false false output b)
        ≡ ok (at path host_port peer true true false output b)
  unfolding channel_pre_dynamic decode channel_decode_socks5 settle at socks5_request
  request_part target port b t output v e short = elim (dec_lt (length b) 5) [
    | yes few ↦ elim (dec_lt (length b) 3) [
      | yes h ↦ rw (lt→ltb (length b) 3 h) refl
      | no h ↦
          rw
            (
              ltb-false (length b) 3 (omega (arith, h)),
              part_at b t _ 0 e (omega (arith, h)),
              lt→ltb (length b) 5 few,
            )
            refl
    ]
    | no h ↦
        rw
          (
            ltb-false (length b) 3 (omega (arith, h)),
            part_at b t _ 0 e (omega (arith, h)),
            part_at b t _ 1 e (omega (arith, h)),
            part_at b t _ 2 e (omega (arith, h)),
            ltb-false (length b) 5 (omega (arith, h)),
            address_known target port b t v e (omega (arith, h)),
            part_at b t _ 3 e (omega (arith, h)),
          )
          (ap (λ x. ok (settle ntoa ntop crypto sites forward x))
            (address_waits target port (at path host_port peer true false false output b) v short))
  ]

  pub request_whole :
      (target : Target) (port : ℕ) (output text : List ℕ)
      → IsTarget target
      → port < 2 ^ 16
      → path_text ntoa ntop (type_of target) (address_of target) ≡ some text
      → channel_pre_dynamic ntoa ntop crypto sites forward
          (at path host_port peer true false false output (socks5_request target port))
        ≡ ok (opened (output ++ socks5_reply) text port)
  unfolding channel_pre_dynamic decode channel_decode_socks5 settle at socks5_request opened
      granted_at put_u16
  request_whole target port output text v small known =
      let p = socks5_request target port in
      let size : 5 ≤ length p =
        omega (arith, length-append (address_field target) (put_u16 port)) in
      rw
        (
          ltb-false (length p) 3 (omega (arith, size)),
          ltb-false (length p) 5 size,
          address_known target port p [] v (append-nil p) size,
        )
        (ap (λ x. ok (settle ntoa ntop crypto sites forward x))
          (address_whole target port output text small known))

-- ===== src/Socks/Total.antt =====
-- A request of SOCKS 4 is answered whatever the browser sends: the two calls of `fatal` are not reached.
use csbu_flo.Socks.{
  scan_nuls, found, too_long, Dynamic, finish_socks4, take_host, Answer, SocksStop, more, no_nul,
  refused, granted, ni_maxhost, take_strings, is_socks4a, channel_decode_socks4, scanned, Scan,
  missing,
}
use csbu_flo.Url.{c_string}
use csbu_flo.Base.{
  arith, List, ℕ, length, ◌+◌, ◌≡◌, ◌≤◌, drop, ◌∷◌, Bool-cases, [], ◌==◌, inl, inr, and_left, sym,
  true, ◌&&◌, ap, ◌⊎◌, if◌then◌else◌, ◌-◌, if_cases, ltb, false, Outcome, and_false, if_at_false,
  some, not, stop, ◌++◌, ◌∙◌, if_at_true, ok, refl, ltb-false, length-drop, Option, subst, drop_at,
  suc, take,
}

-- A NUL stands in the bytes.
HasNul : List ℕ → Type 0
HasNul bs = length (c_string bs) + 1 ≤ length bs

HasNul-cons : (b : ℕ) (bs : List ℕ) → HasNul bs → HasNul (b ∷ bs)
unfolding HasNul c_string
HasNul-cons b bs h = elim (Bool-cases (b == 0)) [
  | inl zero_byte ↦ rw zero_byte (omega (arith, h))
  | inr other ↦ rw other (omega (arith, h))
]

HasNul-zero : (b : ℕ) (bs : List ℕ) → b == 0 ≡ true → HasNul (b ∷ bs)
unfolding HasNul c_string
HasNul-zero b bs h = rw h (omega arith)

-- Where the loop ends well, it does so at the first byte or further on.
scan-step :
    (need i b : ℕ) (bs : List ℕ)
    → scan_nuls need i (b ∷ bs) ≡ found
    → ((b == 0 && need == 1) ≡ true)
      ⊎ (scan_nuls (if b == 0 then need - 1 else need) (i + 1) bs ≡ found)
unfolding scan_nuls
scan-step need i b bs =
    let later = scan_nuls (if b == 0 then need - 1 else need) (i + 1) bs in
    let Goal : Type 0 = ((b == 0 && need == 1) ≡ true) ⊎ (later ≡ found) in
    if_cases (λ x. x ≡ found → Goal) (b == 0 && need == 1) found
      (if ltb 1024 i then too_long else later) (λ hit _. inl hit)
      (λ _. if_cases (λ x. x ≡ found → Goal) (ltb 1024 i) too_long later (λ _ e. cc) (λ _ e. inr e))

scan-zero :
    (i b : ℕ) (bs : List ℕ)
    → b == 0 ≡ true
    → scan_nuls 2 i (b ∷ bs) ≡ found
    → scan_nuls 1 (i + 1) bs ≡ found
scan-zero i b bs zero_byte h = elim (scan-step 2 i b bs h) [
  | inl hit ↦ absurd (false_is_true (sym (and_false (b == 0)) ∙ hit))
  | inr later ↦ ap (λ n. scan_nuls n (i + 1) bs) (sym (if_at_true 1 2 zero_byte)) ∙ later
]
  where
    false_is_true : (false ≡ true) → ⊥
    false_is_true e = cc

scan-other :
    (need i b : ℕ) (bs : List ℕ)
    → b == 0 ≡ false
    → scan_nuls need i (b ∷ bs) ≡ found
    → scan_nuls need (i + 1) bs ≡ found
scan-other need i b bs other h = elim (scan-step need i b bs h) [
  | inl hit ↦ cc (and_left (b == 0) (need == 1) hit, other)
  | inr later ↦
      let same : (if b == 0 then need - 1 else need) ≡ need =
        if_at_false (λ x. x ≡ need) (need - 1) need other refl in
      ap (λ n. scan_nuls n (i + 1) bs) (sym same) ∙ later
]

-- It has found one NUL.
scan-one : (i : ℕ) (bs : List ℕ) → scan_nuls 1 i bs ≡ found → HasNul bs
unfolding scan_nuls
scan-one i [] h = cc
scan-one i (b ∷ bs) h = elim (Bool-cases (b == 0)) [
  | inl zero_byte ↦ HasNul-zero b bs zero_byte
  | inr other ↦ HasNul-cons b bs (scan-one (i + 1) bs (scan-other 1 i b bs other h))
]

-- It has found two: one more behind the first string.
scan-two :
    (i : ℕ) (bs : List ℕ)
    → scan_nuls 2 i bs ≡ found
    → HasNul bs × HasNul (drop (length (c_string bs) + 1) bs)
unfolding scan_nuls c_string
scan-two i [] h = cc
scan-two i (b ∷ bs) h = elim (Bool-cases (b == 0)) [
  | inl zero_byte ↦ (
    HasNul-zero b bs zero_byte,
    rw zero_byte (scan-one (i + 1) bs (scan-zero i b bs zero_byte h)),
  )
  | inr other ↦
      let both = scan-two (i + 1) bs (scan-other 2 i b bs other h) in
      (
        HasNul-cons b bs both.0,
        rw other (
            subst HasNul
              (drop_at (b ∷ bs) (suc (length (c_string bs) + 1)) (suc (length (c_string bs)) + 1)
                (omega arith))
              both.1),
      )
]

-- What the decoder has done: nothing; or it has refused, and answered nothing; or it has taken a request
-- off the input, noted where to connect and given the reply.
pub Decoded : Dynamic → Answer × Dynamic → Type 0
Decoded c (more, d) = d ≡ c
Decoded c (refused, d) = d.output ≡ c.output
Decoded c (granted, d) =
    ((text : List ℕ) × (d.path ≡ some text))
    × (d.output ≡ c.output ++ 0 ∷ 90 ∷ 0 ∷ 0 ∷ 0 ∷ 0 ∷ 0 ∷ 0 ∷ [])
    × (length d.input + 9 ≤ length c.input)

Returns : Dynamic → Outcome SocksStop (Answer × Dynamic) → Type 0
Returns c o = (r : Answer × Dynamic) × (o ≡ ok r) × Decoded c r

finish-Decoded :
    (command port : ℕ) (c d : Dynamic) (text : List ℕ)
    → d.path ≡ some text
    → d.output ≡ c.output
    → length d.input + 9 ≤ length c.input
    → Decoded c (finish_socks4 command port d)
unfolding finish_socks4 Decoded
finish-Decoded command port c d text path output few =
    if_cases (λ r. Decoded c r) (not (command == 1)) _ _ (λ _. output)
      (λ _. ((text, path), ap (λ x. x ++ 0 ∷ 90 ∷ 0 ∷ 0 ∷ 0 ∷ 0 ∷ 0 ∷ 0 ∷ []) output, few))

take_host-Returns :
    (command port : ℕ) (c d : Dynamic)
    → d.output ≡ c.output
    → length d.input + 9 ≤ length c.input
    → HasNul d.input
    → Returns c (take_host command port d)
unfolding take_host Returns HasNul Decoded
take_host-Returns command port c d output few nul =
    let host = c_string d.input in
    if_at_false (λ o. Returns c o) (stop no_nul) _ (ltb-false _ _ nul)
      (if_cases (λ o. Returns c o) (ltb ni_maxhost (length host + 1)) _ _
        (λ _. ((refused, d), refl, output))
        (λ _. (
          _,
          refl,
          finish-Decoded command port c _ host refl output
              (omega (arith, few, length-drop (length host + 1) d.input)),
        )))

module _ (ntoa : List ℕ → List ℕ) (ntop : List ℕ → Option (List ℕ)) where
  -- Where the scan has found the NULs that the request needs.
  take_strings-Returns :
      (c : Dynamic)
      → ltb (length c.input) 8 ≡ false
      → scan_nuls (if is_socks4a c.input then 2 else 1) 8 (drop 8 c.input) ≡ found
      → Returns c (take_strings ntoa ntop c)
  unfolding take_strings HasNul Returns
  take_strings-Returns c long nuls =
      let p = drop 8 c.input in
      let size : 8 ≤ length c.input = ground arith in
      let few : HasNul p → length (drop (length (c_string p) + 1) p) + 9 ≤ length c.input = λ h.
        omega (arith, h, size, length-drop 8 c.input, length-drop (length (c_string p) + 1) p) in
      elim (Bool-cases (is_socks4a c.input)) [
        | inl two ↦
            let both = scan-two 8 p (ap (λ n. scan_nuls n 8 p) (sym (if_at_true 2 1 two)) ∙ nuls) in
            if_at_false (λ o. Returns c o) (stop no_nul) _ (ltb-false _ _ both.0)
              (subst (λ o. Returns c o) (sym (if_at_true _ _ two))
                (take_host-Returns _ _ c _ refl (few both.0) both.1))
        | inr one ↦
            let nul =
              scan-one 8 p
                (ap (λ n. scan_nuls n 8 p) (sym (if_at_false (λ n. n ≡ 1) 2 1 one refl)) ∙ nuls) in
            if_at_false (λ o. Returns c o) (stop no_nul) _ (ltb-false _ _ nul)
              (if_at_false (λ o. Returns c o) _ _ one
                (
                  _,
                  refl,
                  finish-Decoded _ _ c _ (ntoa (take 4 (drop 4 c.input))) refl refl (few nul),
                ))
      ]

  -- Whatever has come, the decoder of SOCKS 4 returns, without a call of `fatal`. While it waits for more
  -- it leaves the channel as it is, and a request that it refuses gets no answer. One that it grants has
  -- been taken off the input, 9 bytes or more, the place to connect to is known, and the reply is given.
  pub channel_decode_socks4-Decoded :
      (c : Dynamic)
      → (r : Answer × Dynamic) × (channel_decode_socks4 ntoa ntop c ≡ ok r) × Decoded c r
  unfolding channel_decode_socks4 scanned Returns Decoded
  channel_decode_socks4-Decoded c =
      if_cases (λ o. Returns c o) (ltb (length c.input) 8) _ _ (λ _. ((more, c), refl, refl))
        (λ long.
          by_scan long (scan_nuls (if is_socks4a c.input then 2 else 1) 8 (drop 8 c.input)) refl)
    where
      by_scan :
          ltb (length c.input) 8 ≡ false
          → (scan : Scan)
          → scan_nuls (if is_socks4a c.input then 2 else 1) 8 (drop 8 c.input) ≡ scan
          → Returns c (scanned ntoa ntop scan c)
      by_scan long found e = take_strings-Returns c long e
      by_scan long missing e = ((more, c), refl, refl)
      by_scan long too_long e = ((refused, c), refl, refl)

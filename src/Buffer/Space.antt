-- ===== src/Buffer/Space.antt =====
-- `buffer_append_space` and `buffer_check_alloc`: the loop ends within its fuel, the space follows
-- the bytes held, and the check answers as the append does.
use csbu_flo.Base.{
  ℕ, suc, ◌+◌, ◌≤◌, ◌<◌, min, ◌≡◌, refl, sym, ◌∙◌, Bool, true, false, List, take, drop, leb, arith,
  Outcome, ok, stop, spin, add32, roundup, ltb-false, leb-false, le→leb, lt→ltb, dec_lt, Option,
  some, none,
}
use csbu_flo.Buffer.{
  Buffer, BufferError, alloc_not_supported, buffer_max_chunk, buffer_max_len, buffer_allocsz,
  buffer_compact, grow, append_restart, buffer_append_space, check_restart, buffer_check_alloc,
}
use csbu_flo.Buffer.Holds.{
  IsValid, Holds, bytes-drop-take, rewind-Holds, buffer_compact-Holds, grow-Holds,
}

-- `len` bytes of room at `p`, right behind the bytes `xs`.
pub record Room (xs : List ℕ) (len p : ℕ) (b : Buffer) : Type 0 where
  pub valid : IsValid b
  pub starts : b.offset ≤ p
  pub ends : b.end ≡ p + len
  pub before : drop b.offset (take p b.buf) ≡ xs

-- What an attempt to find room comes to: room, or the stop for a buffer that is too large.
abbrev pub Finds : List ℕ → ℕ → Outcome BufferError (ℕ × Buffer) → Type 0
Finds xs len (ok (p, b)) = Room xs len p b
Finds xs len (stop e) = e ≡ alloc_not_supported
Finds xs len spin = ⊥

pub compact_still :
    (b : Buffer) → b.offset ≤ min b.alloc buffer_max_chunk → buffer_compact b ≡ (false, b)
unfolding buffer_compact
compact_still b h = ground arith

pub compact_moves :
    (b : Buffer)
    → min b.alloc buffer_max_chunk < b.offset
    → ((buffer_compact b).0 ≡ true) × ((buffer_compact b).1.offset ≡ 0)
unfolding buffer_compact
compact_moves b h = ground arith

abbrev pub new_alloc : Buffer → ℕ → ℕ
new_alloc b len = roundup (add32 b.alloc len) buffer_allocsz

-- One round from the label `restart` on, in its four cases.
module _ (b : Buffer) (len : ℕ) where
  round_fits :
      (fuel : ℕ)
      → add32 b.end len < b.alloc
      → append_restart (suc fuel) b len ≡ ok (b.end, record b { end = add32 b.end len })
  unfolding append_restart
  round_fits fuel h = rw (lt→ltb _ _ h)

  module _ (full : b.alloc ≤ add32 b.end len) where
    round_moves :
        (fuel : ℕ)
        → (buffer_compact b).0 ≡ true
        → append_restart (suc fuel) b len ≡ append_restart fuel (buffer_compact b).1 len
    unfolding append_restart
    round_moves fuel h = rw (ltb-false _ _ full, h)

    module _ (still : b.offset ≤ min b.alloc buffer_max_chunk) where
      round_grows :
          (fuel : ℕ)
          → new_alloc b len ≤ buffer_max_len
          → append_restart (suc fuel) b len ≡ append_restart fuel (grow b (new_alloc b len)) len
      unfolding append_restart
      round_grows fuel h = rw (ltb-false _ _ full, compact_still b still, ltb-false _ _ h)

      round_refuses :
          (fuel : ℕ)
          → buffer_max_len < new_alloc b len
          → append_restart (suc fuel) b len ≡ stop alloc_not_supported
      unfolding append_restart
      round_refuses fuel h = rw (ltb-false _ _ full, compact_still b still, lt→ltb _ _ h)

module _ {xs : List ℕ} (len : ℕ) (le : len ≤ buffer_max_chunk) where
  restart_fits :
      (fuel : ℕ) {b : Buffer}
      → Holds b xs
      → b.end + len < b.alloc
      → Finds xs len (append_restart (suc fuel) b len)
  restart_fits fuel {b} h fits = rw (round_fits b len fuel (omega (arith, h.valid))) record {
    valid = omega (arith, h.valid);
    starts = h.valid.ordered;
    ends = omega (arith, h.valid);
    before = sym (bytes-drop-take b) ∙ h.contents;
  }

  restart_grows :
      (fuel : ℕ) {b : Buffer}
      → Holds b xs
      → b.offset ≤ min b.alloc buffer_max_chunk
      → Finds xs len (append_restart (suc (suc fuel)) b len)
  unfolding grow
  restart_grows fuel {b} h still = elim (dec_lt (b.end + len) b.alloc) [
    | yes fits ↦ restart_fits (suc fuel) h fits
    | no full ↦ elim (dec_lt buffer_max_len (new_alloc b len)) [
      | yes large ↦ rw (round_refuses b len (omega (arith, h.valid)) still (suc fuel) large) refl
      | no small ↦ rw (round_grows b len (omega (arith, h.valid)) still (suc fuel) (omega arith)) (
          restart_fits fuel (grow-Holds h (new_alloc b len) (omega (arith, h.valid)) (omega arith))
            (omega (arith, h.valid)))
    ]
  ]

  -- Two rounds, or three if the first moves the bytes to the front.
  restart-Finds : {b : Buffer} → Holds b xs → Finds xs len (append_restart 3 b len)
  restart-Finds {b} h = elim (dec_lt (b.end + len) b.alloc) [
    | yes fits ↦ restart_fits 2 h fits
    | no full ↦ elim (dec_lt (min b.alloc buffer_max_chunk) b.offset) [
      | yes moves ↦
          rw (round_moves b len (omega (arith, h.valid)) 2 (compact_moves b moves).0)
            (restart_grows 0 (buffer_compact-Holds h) (omega (arith, (compact_moves b moves).1)))
      | no still ↦ restart_grows 1 h (omega arith)
    ]
  ]

  pub append_space-Finds : {b : Buffer} → Holds b xs → Finds xs len (buffer_append_space b len)
  unfolding buffer_append_space
  append_space-Finds h = rw (ltb-false _ _ le) (restart-Finds (rewind-Holds h))

-- What the check answers for an outcome of the append.
abbrev pub found {ℓ} : {A : Type ℓ} → Outcome BufferError A → Bool
found (ok r) = true
found (stop e) = false
found spin = false

abbrev pub Answers : List ℕ → Bool → Option (Bool × Buffer) → Type 0
Answers xs a none = ⊥
Answers xs a (some (t, b)) = (t ≡ a) × Holds b xs

-- One round of the check, in its three cases.
module _ (b : Buffer) (len fuel : ℕ) where
  check_fits : add32 b.end len < b.alloc → check_restart (suc fuel) b len ≡ some (true, b)
  unfolding check_restart
  check_fits h = rw (lt→ltb _ _ h)

  module _ (full : b.alloc ≤ add32 b.end len) where
    check_moves :
        (buffer_compact b).0 ≡ true
        → check_restart (suc fuel) b len ≡ check_restart fuel (buffer_compact b).1 len
    unfolding check_restart
    check_moves h = rw (ltb-false _ _ full, h)

    check_answers :
        b.offset ≤ min b.alloc buffer_max_chunk
        → check_restart (suc fuel) b len ≡ some (leb (new_alloc b len) buffer_max_len, b)
    unfolding check_restart
    check_answers still = rw (ltb-false _ _ full, compact_still b still)

module _ {xs : List ℕ} (len : ℕ) (le : len ≤ buffer_max_chunk) where
  check_still :
      (fuel spare : ℕ) {b : Buffer}
      → Holds b xs
      → b.offset ≤ min b.alloc buffer_max_chunk
      → Answers xs (found (append_restart (suc (suc spare)) b len)) (check_restart (suc fuel) b len)
  unfolding grow
  check_still fuel spare {b} h still = elim (dec_lt (b.end + len) b.alloc) [
    | yes fits ↦
        rw
          (
            round_fits b len (suc spare) (omega (arith, h.valid)),
            check_fits b len fuel (omega (arith, h.valid)),
          )
          (refl, h)
    | no full ↦
        rw (check_answers b len fuel (omega (arith, h.valid)) still)
          (elim (dec_lt buffer_max_len (new_alloc b len)) [
            | yes large ↦
                rw
                  (
                    round_refuses b len (omega (arith, h.valid)) still (suc spare) large,
                    leb-false _ _ large,
                  )
                  (refl, h)
            | no small ↦
                rw
                  (
                    round_grows b len (omega (arith, h.valid)) still (suc spare) (omega arith),
                    round_fits (grow b (new_alloc b len)) len spare (omega (arith, h.valid)),
                    le→leb (new_alloc b len) buffer_max_len (omega arith),
                  )
                  (refl, h)
          ])
  ]

  check_restart-Answers :
      {b : Buffer}
      → Holds b xs
      → Answers xs (found (append_restart 3 b len)) (check_restart 2 b len)
  check_restart-Answers {b} h = elim (dec_lt (b.end + len) b.alloc) [
    | yes fits ↦
        rw
          (round_fits b len 2 (omega (arith, h.valid)), check_fits b len 1 (omega (arith, h.valid)))
          (refl, h)
    | no full ↦ elim (dec_lt (min b.alloc buffer_max_chunk) b.offset) [
      | yes moves ↦
          rw
            (
              round_moves b len (omega (arith, h.valid)) 2 (compact_moves b moves).0,
              check_moves b len 1 (omega (arith, h.valid)) (compact_moves b moves).0,
            )
            (check_still 0 0 (buffer_compact-Holds h) (omega (arith, (compact_moves b moves).1)))
      | no still ↦ check_still 1 1 h (omega arith)
    ]
  ]

  -- The check rewinds and compacts, keeps the bytes, and foretells whether room will be found.
  pub check_alloc-Answers :
      {b : Buffer}
      → Holds b xs
      → Answers xs (found (buffer_append_space b len)) (buffer_check_alloc b len)
  unfolding buffer_append_space buffer_check_alloc
  check_alloc-Answers h = rw (ltb-false _ _ le) (check_restart-Answers (rewind-Holds h))

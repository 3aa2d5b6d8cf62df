-- ===== src/Buffer/Ops.antt =====
-- Each operation of a buffer, on the bytes that it holds.
use csbu_flo.Base.{
  ℕ, ◌+◌, ◌-◌, ◌≤◌, ◌<◌, ◌≡◌, refl, sym, ap, ◌∙◌, ◌⊎◌, inl, inr, Bool, true, false, List, ◌++◌,
  take, drop, length, arith, Outcome, ok, stop, spin, ◌>>=◌, Option, some, none, ltb-false, lt→ltb,
  add32, sub32, drop-append_le, drop-drop, take-take, take_at, drop_at, length-take, drop-take,
}
use csbu_flo.Buffer.{
  Buffer, BufferError, alloc_not_supported, buffer_max_chunk, overwrite, slice, buffer_append_space,
  buffer_append, buffer_check_alloc, buffer_len, buffer_get_ret, buffer_consume_ret,
  buffer_consume_end_ret,
}
use csbu_flo.Buffer.Holds.{
  Holds, bytes-drop-take, length-bytes_of, take-overwrite, length-overwrite,
}
use csbu_flo.Buffer.Space.{Room, Finds, found, Answers, append_space-Finds, check_alloc-Answers}

-- Writing into the room that was found appends.
Room-Holds :
    (xs more : List ℕ) (p : ℕ) (b : Buffer)
    → Room xs (length more) p b
    → Holds (record b { buf = overwrite b.buf p more }) (xs ++ more)
Room-Holds xs more p b r = record {
  valid = omega (arith, r.valid, length-overwrite b.buf more p);
  contents =
      bytes-drop-take (record b { buf = overwrite b.buf p more })
      ∙ ap (drop b.offset) (
          take_at _ b.end (p + length more) r.ends
          ∙ take-overwrite b.buf more p (omega (arith, r.valid, r.ends)))
      ∙ drop-append_le b.offset (take p b.buf) more
          (omega (arith, r.starts, r.valid, r.ends, length-take p b.buf))
      ∙ ap (λ q. q ++ more) r.before;
}

-- `buffer_append` appends, or stops the process.
abbrev pub Appended : List ℕ → Outcome BufferError Buffer → Type 0
Appended xs (ok b) = Holds b xs
Appended xs (stop e) = e ≡ alloc_not_supported
Appended xs _ = ⊥

pub buffer_append-Appended :
    (xs more : List ℕ) (b : Buffer)
    → Holds b xs
    → length more ≤ buffer_max_chunk
    → Appended (xs ++ more) (buffer_append b more)
      × (found (buffer_append b more) ≡ found (buffer_append_space b (length more)))
unfolding buffer_append
buffer_append-Appended xs more b h le =
    go (buffer_append_space b (length more)) (append_space-Finds (length more) le h)
  where
    go :
        (o : Outcome BufferError (ℕ × Buffer))
        → Finds xs (length more) o
        → let w = o >>= λ r. ok (record (r.1) { buf = overwrite r.1.buf r.0 more }) in
          Appended (xs ++ more) w × (found w ≡ found o)
    go (ok (p, c)) r = (Room-Holds xs more p c r, refl)
    go (stop e) r = (r, refl)
    go spin r = elim r [ ]

-- The append and the check together: the check is asked first, as channels do.
append_as_checked :
    (xs more : List ℕ) (o : Outcome BufferError Buffer) (a : Bool) (r : Option (Bool × Buffer))
    → Appended (xs ++ more) o
    → found o ≡ a
    → Answers xs a r
    → ((b c : Buffer) × (r ≡ some (true, c)) × Holds c xs × (o ≡ ok b) × Holds b (xs ++ more))
      ⊎ ((c : Buffer) × (r ≡ some (false, c)) × Holds c xs × (o ≡ stop alloc_not_supported))
append_as_checked xs more (ok b) a (some (t, c)) done fo an =
    inl (b, c, same t an.0, an.1, refl, done)
  where
    same : (t : Bool) → t ≡ a → ◌≡◌ {A = Option (Bool × Buffer)} (some (t, c)) (some (true, c))
    same t e = rw (e ∙ sym fo) refl
append_as_checked xs more (stop e) a (some (t, c)) done fo an =
    inr (c, rw (an.0 ∙ sym fo) refl, an.1, cc)
append_as_checked xs more spin a r done fo an = elim done [ ]
append_as_checked xs more o a none done fo an = elim an [ ]

-- For data of at most BUFFER_MAX_CHUNK bytes: either `buffer_check_alloc` answers 1 and
-- `buffer_append` adds the data behind the bytes held, or it answers 0 and `buffer_append` stops with
-- "alloc not supported". The check itself changes no byte held.
pub buffer_append_lem :
    (xs more : List ℕ) (b : Buffer)
    → Holds b xs
    → length more ≤ buffer_max_chunk
    → ((b' c : Buffer) × (buffer_check_alloc b (length more) ≡ some (true, c))
        × Holds c xs
        × (buffer_append b more ≡ ok b')
        × Holds b' (xs ++ more))
      ⊎ ((c : Buffer) × (buffer_check_alloc b (length more) ≡ some (false, c))
          × Holds c xs
          × (buffer_append b more ≡ stop alloc_not_supported))
buffer_append_lem xs more b h le =
    let (appended, same) = buffer_append-Appended xs more b h le in
    append_as_checked xs more (buffer_append b more) (found (buffer_append_space b (length more)))
      (buffer_check_alloc b (length more)) appended same (check_alloc-Answers (length more) le h)

module _ {b : Buffer} {xs : List ℕ} (h : Holds b xs) where
  pub buffer_len-length : buffer_len b ≡ length xs
  unfolding buffer_len
  buffer_len-length = omega (arith, h.valid, length-bytes_of h.valid, ap length h.contents)

  -- The bytes behind the first `n`.
  advance-Holds :
      (n : ℕ) → n ≤ b.end - b.offset → Holds (record b { offset = add32 b.offset n }) (drop n xs)
  advance-Holds n le = record {
    valid = omega (arith, h.valid);
    contents =
        take_at _ _ (b.end - b.offset - n) (omega (arith, h.valid))
        ∙ ap (take (b.end - b.offset - n)) (
            drop_at b.buf (add32 b.offset n) (b.offset + n) (omega (arith, h.valid))
            ∙ sym (drop-drop n b.offset b.buf))
        ∙ sym (drop-take n (b.end - b.offset) (drop b.offset b.buf))
        ∙ ap (drop n) h.contents;
  }

  first_bytes : (n : ℕ) → n ≤ b.end - b.offset → slice b.buf b.offset n ≡ take n xs
  first_bytes n le =
      sym (take-take n (b.end - b.offset) (drop b.offset b.buf) le) ∙ ap (take n) h.contents

  retreat-Holds :
      (n : ℕ)
      → n ≤ b.end - b.offset
      → Holds (record b { end = sub32 b.end n }) (take (length xs - n) xs)
  retreat-Holds n le = record {
    valid = omega (arith, h.valid);
    contents =
        take_at _ _ (length xs - n)
          (omega (arith, h.valid, length-bytes_of h.valid, ap length h.contents))
        ∙ first_bytes (length xs - n)
            (omega (arith, h.valid, length-bytes_of h.valid, ap length h.contents));
  }

  size : length xs ≡ b.end - b.offset
  size = sym (ap length h.contents) ∙ length-bytes_of h.valid

  within : {n : ℕ} → n ≤ length xs → n ≤ b.end - b.offset
  within le = omega (arith, size)

  bound : {n : ℕ} → n ≤ length xs → n ≤ sub32 b.end b.offset
  bound le = omega (arith, size, h.valid)

  -- `buffer_get_ret` hands out the first `n` bytes and drops them; with fewer bytes held it fails.
  pub get_ret-take :
      (n : ℕ)
      → (n ≤ length xs
          → (b' : Buffer) × (buffer_get_ret b n ≡ some (take n xs, b')) × Holds b' (drop n xs))
        × (length xs < n → buffer_get_ret b n ≡ none)
  unfolding buffer_get_ret
  get_ret-take n = (
    λ le. (
      record b { offset = add32 b.offset n },
      rw (ltb-false (sub32 b.end b.offset) n (bound le), first_bytes n (within le)) refl,
      advance-Holds n (within le),
    ),
    λ lt. rw (lt→ltb (sub32 b.end b.offset) n (omega (arith, size, h.valid))),
  )

  pub consume_ret-drop :
      (n : ℕ)
      → (n ≤ length xs → (b' : Buffer) × (buffer_consume_ret b n ≡ some b') × Holds b' (drop n xs))
        × (length xs < n → buffer_consume_ret b n ≡ none)
  unfolding buffer_consume_ret
  consume_ret-drop n = (
    λ le. (
      record b { offset = add32 b.offset n },
      rw (ltb-false (sub32 b.end b.offset) n (bound le)) refl,
      advance-Holds n (within le),
    ),
    λ lt. rw (lt→ltb (sub32 b.end b.offset) n (omega (arith, size, h.valid))),
  )

  pub consume_end_ret-take :
      (n : ℕ)
      → (n ≤ length xs
          → (b' : Buffer) × (buffer_consume_end_ret b n ≡ some b')
            × Holds b' (take (length xs - n) xs))
        × (length xs < n → buffer_consume_end_ret b n ≡ none)
  unfolding buffer_consume_end_ret
  consume_end_ret-take n = (
    λ le. (
      record b { end = sub32 b.end n },
      rw (ltb-false (sub32 b.end b.offset) n (bound le)) refl,
      retreat-Holds n (within le),
    ),
    λ lt. rw (lt→ltb (sub32 b.end b.offset) n (omega (arith, size, h.valid))),
  )

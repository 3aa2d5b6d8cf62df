-- ===== src/Buffer/Holds.antt =====
-- A well-formed buffer and the bytes that it holds, and what keeps both: `rewind`, `buffer_compact`,
-- `grow`.
use csbu_flo.Base.{
  ℕ, ◌+◌, ◌-◌, ◌≤◌, ◌<◌, min, ◌≡◌, refl, sym, ap, ◌∙◌, inl, inr, List, [], ◌++◌, take, drop,
  replicate, length, ltb, ◌==◌, Bool-cases, arith, sub32, length-append, length-take, length-drop,
  length-replicate, take-append_le, take-append_add, take_all, drop-append_le, drop-take, take_at,
}
use csbu_flo.Buffer.{
  Buffer, buffer_max_chunk, buffer_max_len, overwrite, slice, buffer_init, buffer_clear,
  buffer_compact, rewind, grow, bytes_of,
}

-- The positions lie in the memory, with room behind the end, and memory stays below the limit.
pub record IsValid (b : Buffer) : Type 0 where
  pub memory : length b.buf ≡ b.alloc
  pub ordered : b.offset ≤ b.end
  pub inside : b.end < b.alloc
  pub small : b.alloc ≤ buffer_max_len

pub record Holds (b : Buffer) (xs : List ℕ) : Type 0 where
  pub valid : IsValid b
  pub contents : bytes_of b ≡ xs

pub length-slice : (mem : List ℕ) (i n : ℕ) → i + n ≤ length mem → length (slice mem i n) ≡ n
length-slice mem i n h = omega (arith, length-take n (drop i mem), length-drop i mem)

pub length-overwrite :
    (mem bytes : List ℕ) (i : ℕ)
    → i + length bytes ≤ length mem
    → length (overwrite mem i bytes) ≡ length mem
length-overwrite mem bytes i h = omega (
  arith,
  length-append (take i mem) (bytes ++ drop (i + length bytes) mem),
  length-append bytes (drop (i + length bytes) mem),
  length-take i mem,
  length-drop (i + length bytes) mem,
)

-- The bytes before the place that is written, and those written.
pub take-overwrite :
    (mem bytes : List ℕ) (i : ℕ)
    → i ≤ length mem
    → take (i + length bytes) (overwrite mem i bytes) ≡ take i mem ++ bytes
take-overwrite mem bytes i h =
    take_at _ _ _ (omega (arith, length-take i mem))
    ∙ take-append_add (length bytes) (take i mem) (bytes ++ drop (i + length bytes) mem)
    ∙ ap (λ r. take i mem ++ r)
        (take-append_le (length bytes) bytes (drop (i + length bytes) mem) (omega arith)
          ∙ take_all bytes)

pub length-bytes_of : {b : Buffer} → IsValid b → length (bytes_of b) ≡ b.end - b.offset
length-bytes_of {b} v = length-slice b.buf b.offset (b.end - b.offset) (omega arith)

-- The same bytes, by the end first.
pub bytes-drop-take : (b : Buffer) → bytes_of b ≡ drop b.offset (take b.end b.buf)
bytes-drop-take b = sym (drop-take b.offset b.end b.buf)

pub buffer_init-Holds : Holds buffer_init []
unfolding buffer_init
buffer_init-Holds = record {
  valid = omega (arith, length-replicate {A = ℕ} 4096 0);
  contents = refl;
}

pub buffer_clear-Holds : {b : Buffer} → IsValid b → Holds (buffer_clear b) []
unfolding buffer_clear
buffer_clear-Holds v = record { valid = omega (arith, v); contents = refl }

module _ {b : Buffer} {xs : List ℕ} (h : Holds b xs) where
  pub rewind-Holds : Holds (rewind b) xs
  unfolding rewind
  rewind-Holds = elim (Bool-cases (b.offset == b.end)) [
    | inl e ↦ rw e record {
      valid = omega (arith, h.valid);
      contents = take_at (drop b.offset b.buf) 0 (b.end - b.offset) (ground arith) ∙ h.contents;
    }
    | inr e ↦ rw e h
  ]

  -- The moved data stays the same, whether or not the buffer moves it.
  pub buffer_compact-Holds : Holds (buffer_compact b).1 xs
  unfolding buffer_compact
  buffer_compact-Holds = elim (Bool-cases (ltb (min b.alloc buffer_max_chunk) b.offset)) [
    | inl e ↦ rw e record {
      valid = omega (arith, h.valid, length-overwrite b.buf moved 0, length-moved);
      contents =
          take_at (moved ++ rest) (sub32 b.end b.offset - 0) (length moved)
            (omega (arith, length-moved))
          ∙ take-append_le (length moved) moved rest (omega arith)
          ∙ take_all moved
          ∙ take_at (drop b.offset b.buf) (sub32 b.end b.offset) (b.end - b.offset)
              (omega (arith, h.valid))
          ∙ h.contents;
    }
    | inr e ↦ rw e h
  ]
    where
      moved : List ℕ
      moved = slice b.buf b.offset (sub32 b.end b.offset)

      rest : List ℕ
      rest = drop (0 + length moved) b.buf

      length-moved : length moved ≡ b.end - b.offset
      length-moved =
          length-slice b.buf b.offset (sub32 b.end b.offset) (omega (arith, h.valid))
          ∙ omega (arith, h.valid)

  pub grow-Holds : (n : ℕ) → b.alloc ≤ n → n ≤ buffer_max_len → Holds (grow b n) xs
  unfolding grow
  grow-Holds n le small = record {
    valid = record {
      memory = omega (
        arith,
        h.valid,
        length-append b.buf (replicate (n - b.alloc) 0),
        length-replicate {A = ℕ} (n - b.alloc) 0,
      );
      ordered = h.valid.ordered;
      inside = omega (arith, h.valid);
      small = small;
    };
    contents =
        ap (take (b.end - b.offset)) (drop-append_le b.offset b.buf _ (omega (arith, h.valid)))
        ∙ take-append_le _ (drop b.offset b.buf) _
            (omega (arith, h.valid, length-drop b.offset b.buf))
        ∙ h.contents;
  }

-- ===== src/Buffer.antt =====
-- buffer.c: the byte buffers that hold what was read and what waits to be written.
-- A buffer is its memory, `alloc` bytes, and the positions of the first byte held and of the end.
-- Memory that `malloc` or `realloc` hands out has unspecified bytes: zeros stand for them.
mod Holds
mod Tests
mod Space
mod Ops
mod Queue
use csbu_flo.Base.{
  ℕ, zero, suc, ◌+◌, ◌-◌, min, Bool, true, false, Option, none, some, List, ◌++◌, take, drop,
  replicate, length, ltb, leb, ◌==◌, if◌then◌else◌, Outcome, ok, stop, spin, ◌>>=◌, add32, sub32,
  roundup,
}

pub record Buffer : Type 0 where
  pub buf : List ℕ
  pub alloc : ℕ
  pub offset : ℕ
  pub end : ℕ

pub data BufferError : Type 0 where
  len_not_supported alloc_not_supported buffer_error : BufferError

abbrev pub buffer_max_chunk : ℕ
buffer_max_chunk = 0x100000

abbrev pub buffer_max_len : ℕ
buffer_max_len = 0xa00000

abbrev pub buffer_allocsz : ℕ
buffer_allocsz = 0x8000

-- `memcpy` of `bytes` to position `i`; past the end of the memory nothing is kept.
abbrev pub overwrite : List ℕ → ℕ → List ℕ → List ℕ
overwrite mem i bytes = take i mem ++ (bytes ++ drop (i + length bytes) mem)

-- The bytes `[i, i + n)`.
abbrev pub slice : List ℕ → ℕ → ℕ → List ℕ
slice mem i n = take n (drop i mem)

pub buffer_init : Buffer
buffer_init = record { buf = replicate 4096 0; alloc = 4096; offset = 0; end = 0 }

pub buffer_clear : Buffer → Buffer
buffer_clear b = record b { offset = 0; end = 0 }

-- The result says whether data was moved.
pub buffer_compact : Buffer → Bool × Buffer
buffer_compact b =
    if ltb (min b.alloc buffer_max_chunk) b.offset
    then (
      true,
      record b {
        buf = overwrite b.buf 0 (slice b.buf b.offset (sub32 b.end b.offset));
        offset = 0;
        end = sub32 b.end b.offset;
      },
    )
    else (false, b)

-- `if (buffer->offset == buffer->end)`: an empty buffer starts again at its beginning.
pub rewind : Buffer → Buffer
rewind b = if b.offset == b.end then record b { offset = 0; end = 0 } else b

-- `xrealloc`.
pub grow : Buffer → ℕ → Buffer
grow b newlen = record b { buf = b.buf ++ replicate (newlen - b.alloc) 0; alloc = newlen }

-- From the label `restart` on. The result is the position of the space.
pub append_restart : ℕ → Buffer → ℕ → Outcome BufferError (ℕ × Buffer)
append_restart zero b len = spin
append_restart (suc fuel) b len =
    if ltb (add32 b.end len) b.alloc
    then ok (b.end, record b { end = add32 b.end len })
    else let (moved, b') = buffer_compact b in
      let again = append_restart fuel b' len in
      let newlen = roundup (add32 b'.alloc len) buffer_allocsz in
      let retry = append_restart fuel (grow b' newlen) len in
      if moved then again else if ltb buffer_max_len newlen then stop alloc_not_supported else retry

-- Three rounds are enough: `append_space-Finds` of Buffer/Space.
pub buffer_append_space : Buffer → ℕ → Outcome BufferError (ℕ × Buffer)
buffer_append_space b len =
    if ltb buffer_max_chunk len then stop len_not_supported else append_restart 3 (rewind b) len

pub buffer_append : Buffer → List ℕ → Outcome BufferError Buffer
buffer_append b bytes = buffer_append_space b (length bytes) >>= λ r.
    ok (record (r.1) { buf = overwrite r.1.buf r.0 bytes })

pub check_restart : ℕ → Buffer → ℕ → Option (Bool × Buffer)
check_restart zero b len = none
check_restart (suc fuel) b len =
    if ltb (add32 b.end len) b.alloc
    then some (true, b)
    else let (moved, b') = buffer_compact b in
      let again = check_restart fuel b' len in
      if moved
      then again
      else some (leb (roundup (add32 b'.alloc len) buffer_allocsz) buffer_max_len, b')

-- The answer and the buffer, which it may rewind and compact.
pub buffer_check_alloc : Buffer → ℕ → Option (Bool × Buffer)
buffer_check_alloc b len = check_restart 2 (rewind b) len

pub buffer_len : Buffer → ℕ
buffer_len b = sub32 b.end b.offset

-- `none` is the return value -1.
pub buffer_get_ret : Buffer → ℕ → Option (List ℕ × Buffer)
buffer_get_ret b len =
    if ltb (sub32 b.end b.offset) len
    then none
    else some (slice b.buf b.offset len, record b { offset = add32 b.offset len })

pub buffer_get : Buffer → ℕ → Outcome BufferError (List ℕ × Buffer)
buffer_get b len = elim (buffer_get_ret b len) [ none ↦ stop buffer_error | some r ↦ ok r ]

pub buffer_consume_ret : Buffer → ℕ → Option Buffer
buffer_consume_ret b bytes =
    if ltb (sub32 b.end b.offset) bytes
    then none
    else some (record b { offset = add32 b.offset bytes })

pub buffer_consume : Buffer → ℕ → Outcome BufferError Buffer
buffer_consume b bytes = elim (buffer_consume_ret b bytes) [
  | none ↦ stop buffer_error
  | some b' ↦ ok b'
]

pub buffer_consume_end_ret : Buffer → ℕ → Option Buffer
buffer_consume_end_ret b bytes =
    if ltb (sub32 b.end b.offset) bytes then none else some (record b { end = sub32 b.end bytes })

pub buffer_consume_end : Buffer → ℕ → Outcome BufferError Buffer
buffer_consume_end b bytes = elim (buffer_consume_end_ret b bytes) [
  | none ↦ stop buffer_error
  | some b' ↦ ok b'
]

-- What `buffer_ptr` and `buffer_len` give access to: the bytes held.
abbrev pub bytes_of : Buffer → List ℕ
bytes_of b = slice b.buf b.offset (b.end - b.offset)

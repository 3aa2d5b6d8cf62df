-- ===== src/Buffer/Queue.antt =====
-- A buffer behaves as the queue of the bytes that it holds, over any sequence of calls.
use csbu_flo.Base.{
  ℕ, ◌-◌, ◌≤◌, ◌≡◌, refl, ap, ◌⊎◌, inl, inr, List, [], ◌∷◌, ◌++◌, take, drop, length, ltb, arith,
  Outcome, ok, stop, spin, ◌>>=◌, Option, some, none, ltb-false, lt→ltb, dec_lt, if◌then◌else◌,
}
use csbu_flo.Buffer.{
  Buffer, BufferError, alloc_not_supported, buffer_max_chunk, buffer_append, buffer_len,
  buffer_get_ret, buffer_consume_ret, buffer_consume_end_ret, buffer_clear,
}
use csbu_flo.Buffer.Holds.{Holds, buffer_clear-Holds}
use csbu_flo.Buffer.Ops.{
  Appended, buffer_append-Appended, buffer_len-length, get_ret-take, consume_ret-drop,
  consume_end_ret-take,
}

-- A client's calls, and what it sees of each.
pub data Call : Type 0 where
  append : List ℕ → Call
  get consume consume_end : ℕ → Call
  clear measure : Call

pub data Reply : Type 0 where
  done failed : Reply
  bytes : List ℕ → Reply
  size : ℕ → Reply

abbrev or_failed : Buffer → Option Buffer → Reply × Buffer
or_failed b none = (failed, b)
or_failed b (some b') = (done, b')

abbrev got : Buffer → Option (List ℕ × Buffer) → Reply × Buffer
got b none = (failed, b)
got b (some (xs, b')) = (bytes xs, b')

unfoldable pub call_buffer : Buffer → Call → Outcome BufferError (Reply × Buffer)
call_buffer b (append xs) = buffer_append b xs >>= λ b'. ok (done, b')
call_buffer b (get n) = ok (got b (buffer_get_ret b n))
call_buffer b (consume n) = ok (or_failed b (buffer_consume_ret b n))
call_buffer b (consume_end n) = ok (or_failed b (buffer_consume_end_ret b n))
call_buffer b clear = ok (done, buffer_clear b)
call_buffer b measure = ok (size (buffer_len b), b)

-- The queue, first byte first.
unfoldable pub call_queue : List ℕ → Call → Reply × List ℕ
call_queue q (append xs) = (done, q ++ xs)
call_queue q (get n) = if ltb (length q) n then (failed, q) else (bytes (take n q), drop n q)
call_queue q (consume n) = if ltb (length q) n then (failed, q) else (done, drop n q)
call_queue q (consume_end n) =
    if ltb (length q) n then (failed, q) else (done, take (length q - n) q)
call_queue q clear = (done, [])
call_queue q measure = (size (length q), q)

unfoldable pub run_buffer : Buffer → List Call → Outcome BufferError (List Reply)
run_buffer b [] = ok []
run_buffer b (c ∷ cs) = call_buffer b c >>= λ r. run_buffer r.1 cs >>= λ replies. ok (r.0 ∷ replies)

unfoldable pub run_queue : List ℕ → List Call → List Reply
run_queue q [] = []
run_queue q (c ∷ cs) = let (r, q') = call_queue q c in r ∷ run_queue q' cs

-- No append is larger than BUFFER_MAX_CHUNK.
abbrev pub InChunks : List Call → Type 0
InChunks [] = Unit
InChunks (append xs ∷ cs) = (length xs ≤ buffer_max_chunk) × InChunks cs
InChunks (_ ∷ cs) = InChunks cs

abbrev Agrees : Reply × List ℕ → Outcome BufferError (Reply × Buffer) → Type 0
Agrees (r, q) (ok (s, b)) = (s ≡ r) × Holds b q
Agrees p (stop e) = e ≡ alloc_not_supported
Agrees p spin = ⊥

call-Agrees :
    (c : Call) (b : Buffer) (q : List ℕ)
    → Holds b q
    → InChunks (c ∷ [])
    → Agrees (call_queue q c) (call_buffer b c)
unfolding call_buffer call_queue
call-Agrees (append xs) b q h le = go (buffer_append b xs) (buffer_append-Appended q xs b h le.0).0
  where
    go :
        (o : Outcome BufferError Buffer)
        → Appended (q ++ xs) o
        → Agrees (done, q ++ xs) (o >>= λ b'. ok (done, b'))
    go (ok b') r = (refl, r)
    go (stop e) r = r
    go spin r = elim r [ ]
call-Agrees (get n) b q h le = elim (dec_lt (length q) n) [
  | yes short ↦ rw (lt→ltb _ _ short, (get_ret-take h n).1 short) (refl, h)
  | no enough ↦
      let (b', e, h') = (get_ret-take h n).0 (omega arith) in
      rw (ltb-false (length q) n (omega arith), e) (refl, h')
]
call-Agrees (consume n) b q h le = elim (dec_lt (length q) n) [
  | yes short ↦ rw (lt→ltb _ _ short, (consume_ret-drop h n).1 short) (refl, h)
  | no enough ↦
      let (b', e, h') = (consume_ret-drop h n).0 (omega arith) in
      rw (ltb-false (length q) n (omega arith), e) (refl, h')
]
call-Agrees (consume_end n) b q h le = elim (dec_lt (length q) n) [
  | yes short ↦ rw (lt→ltb _ _ short, (consume_end_ret-take h n).1 short) (refl, h)
  | no enough ↦
      let (b', e, h') = (consume_end_ret-take h n).0 (omega arith) in
      rw (ltb-false (length q) n (omega arith), e) (refl, h')
]
call-Agrees clear b q h le = (refl, buffer_clear-Holds h.valid)
call-Agrees measure b q h le = (ap size (buffer_len-length h), h)

InChunks-head : (c : Call) (cs : List Call) → InChunks (c ∷ cs) → InChunks (c ∷ []) × InChunks cs
InChunks-head (append xs) cs h = ((h.0, tt), h.1)
InChunks-head (get n) cs h = (tt, h)
InChunks-head (consume n) cs h = (tt, h)
InChunks-head (consume_end n) cs h = (tt, h)
InChunks-head clear cs h = (tt, h)
InChunks-head measure cs h = (tt, h)

-- A run of calls on a buffer, each append of at most BUFFER_MAX_CHUNK bytes, returns what the same
-- calls on the queue of the bytes held return, unless an append stops the process because the memory
-- would become too large. (So the loop for more room never runs out of fuel.)
pub run_buffer-refines :
    (cs : List Call) (b : Buffer) (q : List ℕ)
    → Holds b q
    → InChunks cs
    → (run_buffer b cs ≡ ok (run_queue q cs)) ⊎ (run_buffer b cs ≡ stop alloc_not_supported)
unfolding run_buffer run_queue
run_buffer-refines [] b q h le = inl refl
run_buffer-refines (c ∷ cs) b q h le =
    let (first, rest) = InChunks-head c cs le in
    go (call_queue q c) (call_buffer b c) (call-Agrees c b q h first)
      (λ b' q' h'. run_buffer-refines cs b' q' h' rest)
  where
    go :
        (p : Reply × List ℕ) (o : Outcome BufferError (Reply × Buffer))
        → Agrees p o
        → ((b' : Buffer) (q' : List ℕ)
            → Holds b' q'
            → (run_buffer b' cs ≡ ok (run_queue q' cs))
              ⊎ (run_buffer b' cs ≡ stop alloc_not_supported))
        → let w = o >>= λ r. run_buffer r.1 cs >>= λ replies. ok (r.0 ∷ replies) in
          (w ≡ ok (p.0 ∷ run_queue p.1 cs)) ⊎ (w ≡ stop alloc_not_supported)
    go (r, q') (ok (s, b')) (e, h') next = elim (next b' q' h') [
      | inl same ↦ inl (rw (same, e) refl)
      | inr stopped ↦ inr (rw stopped refl)
    ]
    go p (stop x) e next = inr (ap stop e)
    go p spin e next = elim e [ ]

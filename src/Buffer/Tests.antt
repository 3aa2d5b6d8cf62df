-- ===== src/Buffer/Tests.antt =====
-- A fresh buffer and the calls of a client.
use csbu_flo.Base.{◌≡◌, refl, ◌⊎◌, true, false, some, List, [], ◌∷◌, ok, stop, arith}
use csbu_flo.Buffer.{Buffer, alloc_not_supported, buffer_init, buffer_append, buffer_check_alloc}
use csbu_flo.Buffer.Holds.{Holds, buffer_init-Holds}
use csbu_flo.Buffer.Ops.{buffer_append_lem}
use csbu_flo.Buffer.Queue.{
  Call, append, get, consume_end, measure, done, failed, bytes, size, run_buffer, run_queue,
  call_queue, run_buffer-refines,
}

abbrev client : List Call
client = append (1 ∷ 2 ∷ 3 ∷ []) ∷ get 1 ∷ consume_end 1 ∷ get 2 ∷ append (4 ∷ []) ∷ measure ∷ []

run_queue_test : run_queue [] client ≡ done ∷ bytes (1 ∷ []) ∷ done ∷ failed ∷ done ∷ size 2 ∷ []
unfolding run_queue call_queue
run_queue_test = refl

run_buffer-refines_example :
    (run_buffer buffer_init client ≡ ok (run_queue [] client))
    ⊎ (run_buffer buffer_init client ≡ stop alloc_not_supported)
run_buffer-refines_example =
    run_buffer-refines client buffer_init [] buffer_init-Holds (omega arith, (omega arith, tt))

buffer_append_example :
    ((b' c : Buffer) × (buffer_check_alloc buffer_init 2 ≡ some (true, c))
      × Holds c []
      × (buffer_append buffer_init (8 ∷ 9 ∷ []) ≡ ok b')
      × Holds b' (8 ∷ 9 ∷ []))
    ⊎ ((c : Buffer) × (buffer_check_alloc buffer_init 2 ≡ some (false, c))
        × Holds c []
        × (buffer_append buffer_init (8 ∷ 9 ∷ []) ≡ stop alloc_not_supported))
buffer_append_example =
    buffer_append_lem [] (8 ∷ 9 ∷ []) buffer_init buffer_init-Holds (omega arith)

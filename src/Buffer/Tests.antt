-- ===== src/Buffer/Tests.antt =====
-- Runs of lmodem_buffer.c, and the theorems at concrete buffers.
use light_modem.Base.{
  ℕ, ◌-◌, List, [], ◌∷◌, ◌≡◌, refl, done, load, store, arith, if◌then◌else◌, ltb, take, min, length,
}
use light_modem.Buffer.{Buffer, init, write, read, nb_to_copy, get_remaining_capacity}
use light_modem.Buffer.Laws.{IsValid, appended, write_lem, read_lem, contents, advanced}
use light_modem.Buffer.Queue.{Op, put, get, run, run_queue, view, run_refines}

abbrev small : Buffer
small = init (0 ∷ 0 ∷ 0 ∷ 0 ∷ []) 4

abbrev bytes : List ℕ
bytes = 7 ∷ 8 ∷ 9 ∷ 10 ∷ []

write_three :
    write bytes 3 small
    ≡ done
        (3, record { buffer = 7 ∷ 8 ∷ 9 ∷ 0 ∷ []; read_offset = 0; write_offset = 3; max_size = 4 })
unfolding init write nb_to_copy get_remaining_capacity load store
write_three = refl

-- Four bytes are room enough for four, and none is copied.
write_four : write bytes 4 small ≡ done (0, small)
unfolding init write nb_to_copy get_remaining_capacity load store
write_four = refl

small-IsValid : IsValid small
unfolding init
small-IsValid = record {
  read-le-write = omega arith;
  write-le-max = omega arith;
  in_storage = omega arith;
  small = omega arith;
}

abbrev calls : List Op
calls = put (7 ∷ 8 ∷ []) ∷ get 1 ∷ put (9 ∷ 10 ∷ []) ∷ get 5 ∷ []

run_refines_example :
    (b' : Buffer) × (run calls small ≡ done (run_queue calls (view small), b')) × IsValid b'
run_refines_example =
    run_refines calls small small-IsValid
      (omega arith, (omega arith, (omega arith, (omega arith, tt))))

write_lem_example : write bytes 4 small ≡ (
    if ltb 4 (small.max_size - small.write_offset)
    then done (4, appended small (take 4 bytes))
    else done (0, small))
write_lem_example = write_lem bytes 4 small small-IsValid (omega arith) (omega arith)

read_lem_example :
    read 9 small ≡ done (take 9 (contents small), advanced small (min 9 (length (contents small))))
read_lem_example = read_lem 9 small small-IsValid (omega arith)

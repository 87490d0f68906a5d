-- ===== src/Tests/Pipe.antt =====
-- Runs of a pipe whose counters are about to wrap round, and its theorems on them.
use os_project.Prelude.{◌≡◌, refl, true, false, [], ◌∷◌, update, arith}
use os_project.Pipe.{Pipe, put, taken, write_bytes, read_bytes, read_once, wrote, read}
use os_project.Pipe.Queue.{IsPipe}
use os_project.Pipe.Stream.{
  Refines, queue_of, queue_write, queue_read, write_answer, read_answer, write_bytes-Refines,
  read_once-Refines,
}

abbrev pub wrapping : Pipe
wrapping = record {
  bytes = λ i. 0;
  nread = 4294967295;
  nwrite = 4294967295;
  readopen = true;
  writeopen = true;
}

wrapping-IsPipe : IsPipe wrapping
wrapping-IsPipe = record {
  bound = omega arith;
  small_read = omega arith;
  small_write = omega arith;
}

write_bytes-Refines_example :
    Refines
      (write_answer (write_bytes false (7 ∷ 8 ∷ []) wrapping))
      (queue_write false (7 ∷ 8 ∷ []) (queue_of wrapping))
write_bytes-Refines_example = write_bytes-Refines false (7 ∷ 8 ∷ []) wrapping wrapping-IsPipe

-- Two bytes are in the pipe.
abbrev two_bytes : Pipe
two_bytes = record wrapping { bytes = update (update (λ i. 0) 511 7) 0 8; nwrite = 1 }

holds_them : write_bytes false (7 ∷ 8 ∷ []) wrapping ≡ wrote two_bytes
unfolding write_bytes put
holds_them = refl

two_bytes-IsPipe : IsPipe two_bytes
two_bytes-IsPipe = record {
  bound = omega arith;
  small_read = omega arith;
  small_write = omega arith;
}

reads_them : read_once false 5 two_bytes ≡ read (7 ∷ 8 ∷ []) (record two_bytes { nread = 1 })
unfolding read_once read_bytes taken
reads_them = refl

read_once-Refines_example :
    Refines (read_answer (read_once false 5 two_bytes)) (queue_read false 5 (queue_of two_bytes))
read_once-Refines_example = read_once-Refines false 5 two_bytes two_bytes-IsPipe

-- ===== src/Pipe/Examples.antt =====
-- A pipe of project3_filesystem/pipe.c whose counters are about to wrap around.
use ele3021_os.Pipe.Fifo.{piperead-pipewrite, pipewrite-Wrote, Wrote}
use ele3021_os.Pipe.Contents.{contents, bytes_from, IsPipe}
use ele3021_os.Pipe.{done, pipewrite, piperead, Pipe}
use ele3021_os.Prelude.{refl, ◌≡◌, [], false, arith, ◌∷◌, true, List, ℕ}

abbrev old_pipe : Pipe
old_pipe = record {
  data_ = λ i. 0;
  nread = 4294967295;
  nwrite = 4294967295;
  readopen = true;
  writeopen = true;
  woken = [];
}

abbrev three_bytes : List ℕ
three_bytes = 7 ∷ 8 ∷ 9 ∷ []

old_pipe-IsPipe : IsPipe old_pipe
old_pipe-IsPipe = record { nread = omega arith; nwrite = omega arith; room = omega arith }

old_pipe_empty : contents old_pipe ≡ []
unfolding bytes_from
old_pipe_empty = refl

abbrev held_pipe : Pipe
held_pipe = record old_pipe { nwrite = 1 }

held_pipe-IsPipe : IsPipe held_pipe
held_pipe-IsPipe = record { nread = omega arith; nwrite = omega arith; room = omega arith }

pipewrite-Wrote_example :
    Wrote false old_pipe three_bytes
      (pipewrite false three_bytes old_pipe).0
      (pipewrite false three_bytes old_pipe).1
    × IsPipe (pipewrite false three_bytes old_pipe).1
pipewrite-Wrote_example = pipewrite-Wrote false old_pipe three_bytes old_pipe-IsPipe

piperead-pipewrite_example :
    ((pipewrite false three_bytes old_pipe).0 ≡ done 3)
    × ((piperead false 10 (pipewrite false three_bytes old_pipe).1).0 ≡ done 3)
    × ((piperead false 10 (pipewrite false three_bytes old_pipe).1).1 ≡ three_bytes)
piperead-pipewrite_example =
    piperead-pipewrite false 10 old_pipe three_bytes old_pipe-IsPipe old_pipe_empty (omega arith)
      (omega arith) (omega arith)

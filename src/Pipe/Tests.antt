-- ===== src/Pipe/Tests.antt =====
-- Runs of the model of kernel/proc/pipe.c on a small pool.
use drunix_os.Base.{◌≡◌, refl, false, none, some, List, [], ◌∷◌, arith}
use drunix_os.Pipe.Pool.{
  AllocAnswer, pipe_alloc-pipe_get, PipeBuf, opened_pipe, pipe_alloc, alloc_from, pipe_free,
  pipe_get,
}

abbrev closed_pipe : PipeBuf
closed_pipe = record {
  buf = [];
  read_idx = 3;
  write_idx = 5;
  count = 2;
  read_open = 0;
  write_open = 0;
  in_use = false;
}

abbrev one_open : List PipeBuf
one_open = opened_pipe closed_pipe ∷ closed_pipe ∷ []

-- The second pipe is taken, and after it is given back there is none at its index.
second_pipe : pipe_alloc one_open ≡ some (1, opened_pipe closed_pipe ∷ opened_pipe closed_pipe ∷ [])
unfolding pipe_alloc alloc_from
second_pipe = refl

freed_pipe : pipe_get (pipe_free one_open 0) 0 ≡ none
unfolding pipe_get pipe_free
freed_pipe = refl

pipe_alloc-pipe_get_example : AllocAnswer one_open
pipe_alloc-pipe_get_example = pipe_alloc-pipe_get one_open (omega arith)

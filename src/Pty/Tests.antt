-- ===== src/Pty/Tests.antt =====
-- Runs of the model of kernel/proc/pty.c on small inputs.
use drunix_os.Pty.Trip.{master_write-slave_read, to_slave_trip}
use drunix_os.Pty.History.{reads, writes, start, then_pass, History, history_fifo}
use drunix_os.Pty.Fifo.{IsValid}
use drunix_os.Pty.Ring.{
  take_one, take_one, drain, put, fill, read_pass, returned, write_loop, PtyRing, write_pass,
}
use drunix_os.Pty.Fifo.{contents}
use drunix_os.Pty.Pool.{Pty, alloc_master, alloc_from, master_write}
use drunix_os.Pty.Life.{release_master_early, shared_then_released}
use drunix_os.Base.{
  ℕ, ◌≡◌, refl, true, false, none, some, List, [], ◌∷◌, ◌++◌, arith, replicate, get_elem?,
  length-replicate,
}

abbrev empty_ring : PtyRing
empty_ring = record { buf = replicate 1024 0; head = 1023; tail = 1023; count = 0; closed = false }

empty_ring-IsValid : IsValid empty_ring
empty_ring-IsValid = record {
  storage = omega (arith, length-replicate {A = ℕ} 1024 0);
  tail_in = omega arith;
  fits = omega arith;
  head_at = refl;
}

abbrev free_pty : Pty
free_pty = record {
  in_use = false;
  master_open = 0;
  slave_open = 0;
  to_slave = empty_ring;
  to_master = empty_ring;
}

abbrev open_pty : Pty
open_pty = record {
  in_use = true;
  master_open = 2;
  slave_open = 0;
  to_slave = empty_ring;
  to_master = empty_ring;
}

abbrev a_pool : List Pty
a_pool = open_pty ∷ free_pty ∷ free_pty ∷ free_pty ∷ []

abbrev written : PtyRing
written = (write_pass empty_ring (7 ∷ 8 ∷ [])).1

abbrev half_read : PtyRing
half_read = (read_pass written 1).1

-- Two bytes are written, one is read.
a_history : History empty_ring (7 ∷ 8 ∷ []) (7 ∷ []) half_read
unfolding write_pass write_loop fill put read_pass drain take_one
a_history =
    then_pass (then_pass {sent' = 7 ∷ 8 ∷ []} start (writes (7 ∷ 8 ∷ []) refl refl refl))
      (reads 1 refl refl refl)

history_fifo_example :
    IsValid half_read × (contents empty_ring ++ (7 ∷ 8 ∷ []) ≡ (7 ∷ []) ++ contents half_read)
history_fifo_example = history_fifo a_history empty_ring-IsValid

master_write-slave_read_example :
    to_slave_trip a_pool 0 (7 ∷ 8 ∷ []) 16
    ≡ some (returned, [], returned, contents empty_ring ++ (7 ∷ 8 ∷ []))
master_write-slave_read_example =
    master_write-slave_read a_pool 0 open_pty (7 ∷ 8 ∷ []) 16 refl refl empty_ring-IsValid
      (omega arith) (omega arith) (omega arith)

-- The second entry is the lowest free one of the pool.
second_given : alloc_master a_pool ≡ (some 1, (alloc_master a_pool).1)
unfolding alloc_master alloc_from
second_given = refl

release_master_early_example :
    ((p : Pty) × (get_elem? (shared_then_released (alloc_master a_pool).1 1) 1 ≡ some p)
      × (p.master_open ≡ 1))
    × (master_write (shared_then_released (alloc_master a_pool).1 1) 1 (65 ∷ []) ≡ none)
    × ((alloc_master (shared_then_released (alloc_master a_pool).1 1)).0 ≡ some 1)
release_master_early_example =
    release_master_early a_pool (alloc_master a_pool).1 1 (65 ∷ []) second_given

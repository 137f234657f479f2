-- ===== src/Commit/Tests.antt =====
-- Runs of the model of kernel/mm/commit.c on small inputs.
use drunix_os.Commit.Account.{pages_for_bytes, reserve}
use drunix_os.Commit.Admit.{reserve-Answer, Answer}
use drunix_os.Base.{◌≡◌, refl, true, some, arith}

reserve-Answer_example : Answer 10 3 5000 (reserve 10 (some 3) 5000)
reserve-Answer_example = reserve-Answer 10 3 5000 (omega arith) (omega arith)

two_pages : reserve 10 (some 3) 5000 ≡ (true, some 5)
unfolding reserve pages_for_bytes
two_pages = refl

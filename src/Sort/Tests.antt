-- ===== src/Sort/Tests.antt =====
-- Runs of the model of kernel/lib/ksort.c on small arrays.
use drunix_os.Base.{ℕ, ◌≡◌, refl, some, [], ◌∷◌, arith, ltb, ◌>>=◌, get_or}
use drunix_os.Sort.Heap.{Elems, k_sort, build, extract, sift_down, larger, swap}
use drunix_os.Sort.Sift.{IsOrder}
use drunix_os.Sort.Sorted.{IsSortOf, k_sort-IsSortOf}

ltb-IsOrder : IsOrder ltb
ltb-IsOrder = record { asym = λ x y h. ground arith; through = λ x y z h h'. ground arith }

abbrev four : Elems ℕ
four k = get_or (3 ∷ 9 ∷ 1 ∷ 4 ∷ []) k 0

first_of_four :
    (k_sort ltb 4 four 4 >>= λ b. some (b 0 ∷ b 1 ∷ b 2 ∷ b 3 ∷ [])) ≡ some (1 ∷ 3 ∷ 4 ∷ 9 ∷ [])
unfolding k_sort build extract sift_down larger swap
first_of_four = refl

k_sort-IsSortOf_example : IsSortOf ltb 4 four (k_sort ltb 4 four 4)
k_sort-IsSortOf_example = k_sort-IsSortOf ltb ltb-IsOrder 4 four 4 (omega arith) (omega arith)

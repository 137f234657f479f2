-- ===== src/Sort/Sorted.antt =====
-- `k_sort` of kernel/lib/ksort.c sorts.
use drunix_os.Base.{
  ℕ, zero, suc, ◌+◌, ◌-◌, ◌/◌, ◌%◌, ◌^◌, ◌≤◌, ◌<◌, ◌≡◌, refl, ap, ◌∙◌, inl, inr, Bool, false,
  Option, some, arith, dec_lt, ℕ_discrete, ltb, Bool-cases, ◌>>=◌,
}
use drunix_os.Sort.Heap.{Elems, swap, build, extract, k_sort}
use drunix_os.Sort.Shuffle.{
  Shuffled, Shuffled-refl, Shuffled-trans, Shuffled-widen, swap-Shuffled, swap_second, swap_else,
}
use drunix_os.Sort.Sift.{IsOrder, Child, IsHeap, IsSifting, Sifted, sift_down-Sifted, not_less_self}

-- The array is a rearrangement of the elements of `a` below `n`, in which none is less than one before it.
pub record IsSortOf {A : Type 0} (less : A → A → Bool) (n : ℕ) (a : Elems A)
    (out : Option (Elems A)) : Type 0 where
  pub result : Elems A
  pub ends : out ≡ some result
  pub sorted : (i j : ℕ) → i < j → j < n → less (result j) (result i) ≡ false
  pub shuffled : Shuffled n a result

module _ {A : Type 0} (less : A → A → Bool) (order : IsOrder less) where
  half-Child : (k : ℕ) → Child (k / 2) (suc k)
  half-Child k = elim (ℕ_discrete (k % 2) 0) [
    | yes even ↦ inl (omega arith)
    | no odd ↦ inr (omega arith)
  ]

  -- The root of a heap is not less than any of its elements.
  heap_top :
      (m : ℕ) (a : Elems A) (end k : ℕ)
      → IsHeap less 0 end a
      → k ≤ m
      → k ≤ end
      → less (a 0) (a k) ≡ false
  heap_top m a end zero h p q = not_less_self less order (a 0)
  heap_top zero a end (suc k) h p q = absurd (omega arith)
  heap_top (suc m) a end (suc k) h p q =
      order.through (a 0) (a (k / 2)) (a (suc k))
        (heap_top m a end (k / 2) h (omega arith) (omega arith))
        (h.kids (k / 2) (suc k) (omega arith) (half-Child k) q)

  build-Sifted :
      (rounds : ℕ) (a : Elems A) (i end : ℕ)
      → i ≤ end + 1
      → end < 2 ^ 31
      → end < rounds
      → IsHeap less i end a
      → Sifted less order 0 end a (build less rounds a i end)
  unfolding build
  build-Sifted rounds a zero end inside small enough h = record {
    result = a;
    ends = refl;
    heap = h;
    shuffled = Shuffled-refl (end + 1) a;
  }
  build-Sifted rounds a (suc i) end inside small enough h =
      let s : IsSifting less i i end a = record {
        kids = λ p c low other kid fits. h.kids p c (omega arith) kid fits;
        over = λ p c low kid kid_c fits. elim kid [
          | inl k ↦ absurd (omega arith)
          | inr k ↦ absurd (omega arith)
        ];
      } in
      let r =
        sift_down-Sifted less order rounds a i i end (omega arith) (omega arith) small (omega arith)
          s in
      let rest = build-Sifted rounds r.result i end (omega arith) small enough r.heap in
      record {
        result = rest.result;
        ends = ap (λ o. o >>= λ b. build less rounds b i end) r.ends ∙ rest.ends;
        heap = rest.heap;
        shuffled = Shuffled-trans (end + 1) a r.result rest.result r.shuffled rest.shuffled;
      }

  -- Past `end`, no element is less than one before it.
  abbrev IsDone : ℕ → ℕ → Elems A → Type 0
  IsDone end n a = (i j : ℕ) → i < j → end < j → j < n → less (a j) (a i) ≡ false

  -- The root goes to the end, and the rest is to be sifted.
  swapped-IsSifting :
      (a : Elems A) (end : ℕ)
      → IsHeap less 0 (suc end) a
      → IsSifting less 0 0 end (swap a 0 (suc end))
  swapped-IsSifting a end h = record {
    kids = λ p c low other kid fits.
        let c_p : p < c = elim kid [ inl k ↦ omega arith | inr k ↦ omega arith ] in
        rw
          (
            swap_else a 0 (suc end) p other (λ e. omega arith),
            swap_else a 0 (suc end) c (λ e. omega arith) (λ e. omega arith),
          )
          (h.kids p c low kid (omega arith));
    over = λ p c low kid kid_c fits. elim kid [
      | inl k ↦ absurd (omega arith)
      | inr k ↦ absurd (omega arith)
    ];
  }

  moved_back :
      (a b : Elems A) (end : ℕ)
      → Shuffled (end + 1) (swap a 0 (suc end)) b
      → Shuffled (suc end + 1) a b
  moved_back a b end s =
      Shuffled-trans (suc end + 1) a (swap a 0 (suc end)) b
        (swap-Shuffled (suc end + 1) 0 (suc end) a (omega arith) (omega arith))
        (Shuffled-widen (end + 1) (suc end + 1) (swap a 0 (suc end)) b (omega arith) s)

  -- One more element is in its place.
  extracted-IsDone :
      (a b : Elems A) (end n : ℕ)
      → IsHeap less 0 (suc end) a
      → IsDone (suc end) n a
      → Shuffled (end + 1) (swap a 0 (suc end)) b
      → IsDone end n b
  extracted-IsDone a b end n h done s i j before past inside =
      let t = moved_back a b end s in
      elim (ℕ_discrete j (suc end)) [
        | yes last ↦
            let top : b j ≡ a 0 =
              s.moved j
              ∙ ap (swap a 0 (suc end)) (s.outside j (omega arith) ∙ last)
              ∙ swap_second a 0 (suc end) (λ e. omega arith) in
            let where_from = t.inside i (omega arith) in
            rw (top, t.moved i)
              (heap_top (suc end) a (suc end) (t.from i) h (omega arith) (omega arith))
        | no later ↦
            let own : b j ≡ a j = t.moved j ∙ ap a (t.outside j (omega arith)) in
            let source : t.from i < j = elim (dec_lt i (suc end + 1)) [
              | yes low ↦ let f = t.inside i low in omega arith
              | no high ↦ let f = t.outside i (omega arith) in omega arith
            ] in
            rw (own, t.moved i) (done (t.from i) j source (omega arith) inside)
      ]

  extract-IsSortOf :
      (rounds : ℕ) (a : Elems A) (end n : ℕ)
      → end < n
      → end < 2 ^ 31
      → end ≤ rounds
      → IsHeap less 0 end a
      → IsDone end n a
      → IsSortOf less n a (extract less rounds a end)
  unfolding extract
  extract-IsSortOf rounds a zero n inside small enough h done = record {
    result = a;
    ends = refl;
    sorted = λ i j p q. done i j p (omega arith) q;
    shuffled = Shuffled-refl n a;
  }
  extract-IsSortOf rounds a (suc end) n inside small enough h done =
      let r =
        sift_down-Sifted less order rounds (swap a 0 (suc end)) 0 0 end (omega arith) (omega arith)
          (omega arith) (omega arith) (swapped-IsSifting a end h) in
      let d = extracted-IsDone a r.result end n h done r.shuffled in
      let rest =
        extract-IsSortOf rounds r.result end n (omega arith) (omega arith) (omega arith) r.heap d in
      record {
        result = rest.result;
        ends = ap (λ o. o >>= λ b. extract less rounds b end) r.ends ∙ rest.ends;
        sorted = rest.sorted;
        shuffled =
            Shuffled-trans n a r.result rest.result
              (Shuffled-widen (suc end + 1) n a r.result (omega arith)
                (moved_back a r.result end r.shuffled))
              rest.shuffled;
      }

  -- With as many rounds a sifting as there are elements, at most 2^31 of them, k_sort ends and leaves them
  -- rearranged so that none is less than one before it; what is past them is not touched.
  pub k_sort-IsSortOf :
      (rounds : ℕ) (a : Elems A) (n : ℕ)
      → n ≤ 2 ^ 31
      → n ≤ rounds
      → IsSortOf less n a (k_sort less rounds a n)
  unfolding k_sort
  k_sort-IsSortOf rounds a n small enough = elim (Bool-cases (ltb n 2)) [
    | inl few ↦ simp few (record {
      result = a;
      ends = refl;
      sorted = λ i j p q. absurd (ground arith);
      shuffled = Shuffled-refl n a;
    })
    | inr many ↦
        let two : 2 ≤ n = ground arith in
        let leaves : IsHeap less ((n - 2) / 2 + 1) (n - 1) a = record {
          kids = λ p c low kid fits. elim kid [
            | inl k ↦ absurd (omega arith)
            | inr k ↦ absurd (omega arith)
          ];
        } in
        let b =
          build-Sifted rounds a ((n - 2) / 2 + 1) (n - 1) (omega arith) (omega arith) (omega arith)
            leaves in
        let e =
          extract-IsSortOf rounds b.result (n - 1) n (omega arith) (omega arith) (omega arith)
            b.heap (λ i j p q r. absurd (omega arith)) in
        let same : n - 1 + 1 ≡ n = omega arith in
        simp many (record {
          result = e.result;
          ends = ap (λ o. o >>= λ c. extract less rounds c (n - 1)) b.ends ∙ e.ends;
          sorted = e.sorted;
          shuffled = Shuffled-trans n a b.result e.result (rw same at b.shuffled) e.shuffled;
        })
  ]

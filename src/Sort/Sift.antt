-- ===== src/Sort/Sift.antt =====
-- `sift_down` of kernel/lib/ksort.c makes a heap of what is a heap but for its root.
use drunix_os.Base.{
  ℕ, zero, suc, ◌+◌, ◌*◌, ◌^◌, ◌≤◌, ◌<◌, ◌≡◌, refl, sym, ◌≢◌, ◌⊎◌, inl, inr, Bool, true, false,
  Option, some, arith, ℕ_discrete, ltb, leb, Bool-cases,
}
use drunix_os.Sort.Heap.{Elems, swap, left_child, larger, sift_down}
use drunix_os.Sort.Shuffle.{
  Shuffled, Shuffled-refl, Shuffled-trans, swap-Shuffled, swap_first, swap_second, swap_else,
}

-- What the caller's comparison must be: no two elements are each less than the other, and what is not less
-- than an element is not less than one before it.
pub record IsOrder {A : Type 0} (less : A → A → Bool) : Type 0 where
  pub asym : (x y : A) → less x y ≡ true → less y x ≡ false
  pub through : (x y z : A) → less x y ≡ false → less y z ≡ false → less x z ≡ false

abbrev pub Child : ℕ → ℕ → Type 0
Child p c = (c ≡ 2 * p + 1) ⊎ (c ≡ 2 * p + 2)

module _ {A : Type 0} (less : A → A → Bool) where
  -- From the index `low` on and up to `end`, no parent is less than its child.
  pub record IsHeap (low end : ℕ) (a : Elems A) : Type 0 where
    pub kids : (p c : ℕ) → low ≤ p → Child p c → c ≤ end → less (a p) (a c) ≡ false

  -- The same but at `root`, whose children are not more than its parent.
  pub record IsSifting (low root end : ℕ) (a : Elems A) : Type 0 where
    pub kids : (p c : ℕ) → low ≤ p → p ≢ root → Child p c → c ≤ end → less (a p) (a c) ≡ false
    pub over :
        (p c : ℕ) → low ≤ p → Child p root → Child root c → c ≤ end → less (a p) (a c) ≡ false

module _ {A : Type 0} (less : A → A → Bool) (order : IsOrder less) where
  pub not_less_self : (x : A) → less x x ≡ false
  not_less_self x = elim (Bool-cases (less x x)) [
    | inr no_less ↦ no_less
    | inl bad ↦ order.asym x x bad
  ]

  -- The child that is taken.
  larger-Child :
      (a : Elems A) (root end : ℕ)
      → end < 2 ^ 31
      → 2 * root + 1 ≤ end
      → (left_child root ≡ 2 * root + 1)
        × Child root (larger less a (left_child root) end)
        × (larger less a (left_child root) end ≤ end)
        × ((d : ℕ)
            → Child root d
            → d ≤ end
            → less (a (larger less a (left_child root) end)) (a d) ≡ false)
  unfolding larger
  larger-Child a root end small there =
      let l : left_child root ≡ 2 * root + 1 = omega arith in
      let c = 2 * root + 1 in
      rw l (elim (Bool-cases (leb (c + 1) end)) [
        | inr one ↦ simp one (
          refl,
          inl refl,
          there,
          λ d kid fits. elim kid [
            | inl e ↦ rw e (not_less_self (a c))
            | inr e ↦ absurd (ground arith)
          ],
        )
        | inl two ↦ elim (Bool-cases (less (a c) (a (c + 1)))) [
          | inr left ↦
              simp (two, left)
                (
                  refl,
                  inl refl,
                  there,
                  λ d kid fits. elim kid [
                    | inl e ↦ rw e (not_less_self (a c))
                    | inr e ↦ let e' : d ≡ c + 1 = omega arith in rw e' left
                  ],
                )
          | inl right ↦
              simp (two, right)
                (
                  refl,
                  inr (omega arith),
                  ground arith,
                  λ d kid fits. elim kid [
                    | inl e ↦ rw e (order.asym (a c) (a (c + 1)) right)
                    | inr e ↦ let e' : d ≡ c + 1 = omega arith in rw e' (not_less_self (a (c + 1)))
                  ],
                )
        ]
      ])

  -- Where the root is not less than its larger child, the whole is a heap.
  settled :
      (low root end child : ℕ) (a : Elems A)
      → IsSifting less low root end a
      → ((d : ℕ) → Child root d → d ≤ end → less (a child) (a d) ≡ false)
      → less (a root) (a child) ≡ false
      → IsHeap less low end a
  settled low root end child a s best fine = record {
    kids = λ p c from kid fits. elim (ℕ_discrete p root) [
      | no other ↦ s.kids p c from other kid fits
      | yes here ↦
          let kid' : Child root c = rw here at kid in
          rw here (order.through (a root) (a child) (a c) fine (best c kid' fits))
    ];
  }

  -- After an exchange with the larger child, the sifting goes on there.
  swap-IsSifting :
      (low root end child : ℕ) (a : Elems A)
      → low ≤ root
      → IsSifting less low root end a
      → Child root child
      → child ≤ end
      → ((d : ℕ) → Child root d → d ≤ end → less (a child) (a d) ≡ false)
      → less (a root) (a child) ≡ true
      → IsSifting less low child end (swap a root child)
  swap-IsSifting low root end child a from s kid fits best lower =
      let apart : root ≢ child = λ e. elim kid [ inl k ↦ omega arith | inr k ↦ omega arith ] in
      let first = swap_first a root child in
      let second = swap_second a root child apart in
      record {
        kids = λ p c low_p other kid_p fits_c.
            let c_root : c ≢ p = λ e. elim kid_p [ inl k ↦ omega arith | inr k ↦ omega arith ] in
            elim (ℕ_discrete p root) [
              | yes here ↦
                  let kid' : Child root c = rw here at kid_p in
                  rw (here, first)
                    (elim (ℕ_discrete c child) [
                      | yes mine ↦ rw (mine, second) (order.asym (a root) (a child) lower)
                      | no sibling ↦
                          let away : c ≢ root =
                            λ e. elim kid' [ inl k ↦ omega arith | inr k ↦ omega arith ] in
                          rw (swap_else a root child c away sibling) (best c kid' fits_c)
                    ])
              | no p_else ↦
                  let c_else : c ≢ child =
                    λ e. p_else (one_parent p root child (rw e at kid_p) kid) in
                  rw (swap_else a root child p p_else other) (elim (ℕ_discrete c root) [
                    | yes mine ↦
                        let kid' : Child p root = rw mine at kid_p in
                        rw (mine, first) (s.over p child low_p kid' kid fits)
                    | no c_away ↦
                        rw (swap_else a root child c c_away c_else)
                          (s.kids p c low_p p_else kid_p fits_c)
                  ])
            ];
        over = λ p c low_p kid_p kid_c fits_c.
            let here : p ≡ root = one_parent p root child kid_p kid in
            let c_away : c ≢ root = λ e. elim kid_c [
              | inl k ↦ elim kid [ inl k' ↦ omega arith | inr k' ↦ omega arith ]
              | inr k ↦ elim kid [ inl k' ↦ omega arith | inr k' ↦ omega arith ]
            ] in
            let c_else : c ≢ child =
              λ e. elim kid_c [ inl k ↦ omega arith | inr k ↦ omega arith ] in
            let deep : low ≤ child = elim kid [ inl k ↦ omega arith | inr k ↦ omega arith ] in
            rw (here, first, swap_else a root child c c_away c_else)
              (s.kids child c deep (λ e. apart (sym e)) kid_c fits_c);
      }
    where
      one_parent : (p q c : ℕ) → Child p c → Child q c → p ≡ q
      one_parent p q c k k' = elim k [
        | inl e ↦ elim k' [ inl e' ↦ omega arith | inr e' ↦ omega arith ]
        | inr e ↦ elim k' [ inl e' ↦ omega arith | inr e' ↦ omega arith ]
      ]

  -- The sifting ends within its rounds, with a heap of the same elements.
  pub record Sifted (low end : ℕ) (a : Elems A) (out : Option (Elems A)) : Type 0 where
    pub result : Elems A
    pub ends : out ≡ some result
    pub heap : IsHeap less low end result
    pub shuffled : Shuffled (end + 1) a result

  pub sift_down-Sifted :
      (rounds : ℕ) (a : Elems A) (low root end : ℕ)
      → low ≤ root
      → root ≤ end
      → end < 2 ^ 31
      → end < root + rounds
      → IsSifting less low root end a
      → Sifted low end a (sift_down less rounds a root end)
  unfolding sift_down
  sift_down-Sifted zero a low root end from inside small enough s = absurd (omega arith)
  sift_down-Sifted (suc rounds) a low root end from inside small enough s =
      elim (Bool-cases (ltb end (left_child root))) [
        | inl leaf ↦ simp leaf (record {
          result = a;
          ends = refl;
          heap = record {
            kids = λ p c low_p kid fits. elim (ℕ_discrete p root) [
              | no other ↦ s.kids p c low_p other kid fits
              | yes here ↦ elim kid [
                | inl k ↦ absurd (ground arith)
                | inr k ↦ absurd (ground arith)
              ]
            ];
          };
          shuffled = Shuffled-refl (end + 1) a;
        })
        | inr deeper ↦
            let there : 2 * root + 1 ≤ end = ground arith in
            let (l, kid, fits, best) = larger-Child a root end small there in
            let child = larger less a (left_child root) end in
            let below : root < child = elim kid [ inl k ↦ omega arith | inr k ↦ omega arith ] in
            elim (Bool-cases (less (a root) (a child))) [
              | inr fine ↦
                  simp (deeper, fine)
                    (record {
                      result = a;
                      ends = refl;
                      heap = settled low root end child a s best fine;
                      shuffled = Shuffled-refl (end + 1) a;
                    })
              | inl lower ↦
                  let next = swap-IsSifting low root end child a from s kid fits best lower in
                  let r =
                    sift_down-Sifted rounds (swap a root child) low child end (omega arith) fits
                      small (omega arith) next in
                  simp (deeper, lower)
                    (record {
                      result = r.result;
                      ends = r.ends;
                      heap = r.heap;
                      shuffled =
                          Shuffled-trans (end + 1) a (swap a root child) r.result
                            (swap-Shuffled (end + 1) root child a (omega arith) (omega arith))
                            r.shuffled;
                    })
            ]
      ]

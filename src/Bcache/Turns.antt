-- ===== src/Bcache/Turns.antt =====
-- When the search of `acquire_slot` in kernel/blk/bcache.c ends, and when it does not.
use drunix_os.Base.{
  ℕ, zero, suc, ◌≤◌, ◌<◌, ◌≡◌, refl, sym, ap, ◌∙◌, ◌⊎◌, inl, inr, Bool, true, false, ◌||◌, some,
  List, [], ◌∷◌, ◌++◌, arith, Bool-cases, append_assoc, length, get_elem?, length-append,
}
use drunix_os.Bcache.Disk.{Io, disk_write_block}
use drunix_os.Bcache.Cache.{
  Cache, Slot, Victim, found, spinning, flushed, hunt, touch, tail, prev, reorder,
}
use drunix_os.Bcache.Hunt.{is_usable, hunt_usable, hunt-flushed, hunt_stuck, flushed_fails}
use drunix_os.Bcache.Order.{
  occurs-split, occurs, distinct, snoc, snoc-cases, tail-snoc, tail-cons, occurs-snoc, occurs-cons,
  distinct-cons, distinct-snoc, prev-snoc, touch-snoc,
}

tail_behind :
    (front back : List ℕ) (i y : ℕ) → tail (y ∷ (front ++ (i ∷ back))) ≡ tail (front ++ (i ∷ back))
tail_behind [] back i y = tail-cons y i back
tail_behind (k ∷ front) back i y = tail-cons y k (front ++ (i ∷ back))

or-cases : (a b : Bool) → (a || b) ≡ true → (a ≡ true) ⊎ (b ≡ true)
or-cases true b h = inl refl
or-cases false b h = inr h

neither : (a b : Bool) → (a || b) ≡ false → (a ≡ false) × (b ≡ false)
neither true b h = absurd (cc)
neither false b h = (refl, h)

module _ {S X : Type 0} (io : Io S X) where
  -- A candidate that is dirty and that the disk does not take.
  abbrev pub IsStuck : Slot X → Type 0
  IsStuck s =
      (is_usable s ≡ false)
      × ((disk : S) → (disk_write_block io disk s.dev s.lba s.block).0 ≡ false)

  -- A candidate that can be reused at once, or that any disk takes.
  abbrev pub IsReady : Slot X → Type 0
  IsReady s =
      (is_usable s ≡ true) ⊎ ((disk : S) → (disk_write_block io disk s.dev s.lba s.block).0 ≡ true)

  flushed-status :
      (c : Cache S X) (i : ℕ) (s : Slot X)
      → (flushed io c i s).0 ≡ (disk_write_block io c.disk s.dev s.lba s.block).0
  unfolding flushed
  flushed-status c i s = elim (Bool-cases (disk_write_block io c.disk s.dev s.lba s.block).0) [
    | inl ok ↦ simp ok refl
    | inr bad ↦ simp bad refl
  ]

  -- The search goes on with the candidate moved to the front.
  hunt_turn :
      (rounds : ℕ) (c : Cache S X) (l : List ℕ) (i : ℕ) (s : Slot X)
      → c.order ≡ snoc l i
      → distinct c.order ≡ true
      → get_elem? c.slots i ≡ some s
      → is_usable s ≡ false
      → (flushed io c i s).0 ≡ false
      → (next : Cache S X) × (next.slots ≡ c.slots)
        × (next.order ≡ i ∷ l)
        × (distinct (i ∷ l) ≡ true)
        × (hunt io (suc rounds) c (some i) ≡ hunt io rounds next (tail l))
  hunt_turn rounds c l i s is apart at u bad =
      let d : distinct (i ∷ l) ≡ true = sym (distinct-snoc l i) ∙ ap distinct (sym is) ∙ apart in
      let out : occurs i l ≡ false = ground (arith, distinct-cons i l) in
      let next = (flushed io c i s).1 in
      let e = flushed_fails io c i s bad in
      let order : next.order ≡ c.order = ap (λ (x : Cache S X). x.order) e in
      let moved : touch next.order i ≡ i ∷ l =
        ap (λ o. touch o i) (order ∙ is) ∙ touch-snoc l i out in
      let link : prev c.order i ≡ tail l = ap (λ o. prev o i) is ∙ prev-snoc l i out in
      (
        reorder next (touch next.order i),
        ap (λ (x : Cache S X). x.slots) e,
        moved,
        d,
        hunt_stuck io rounds c i s at u bad
            ∙ ap (λ p. hunt io rounds (reorder next (touch next.order i)) p) link,
      )

  hunt_round :
      (rounds : ℕ) (c : Cache S X) (l : List ℕ) (i : ℕ)
      → c.order ≡ snoc l i
      → 1 ≤ length l
      → distinct c.order ≡ true
      → ((j : ℕ)
          → occurs j c.order ≡ true
          → (s : Slot X) × (get_elem? c.slots j ≡ some s) × IsStuck s)
      → (hunt io rounds c (some i)).0 ≡ spinning
  hunt_round zero c l i is two apart all = unfold hunt in refl
  hunt_round (suc rounds) c l i is two apart all =
      let mine : occurs i c.order ≡ true = ap (occurs i) is ∙ ground (arith, occurs-snoc i l i) in
      let (s, at, stuck) = all i mine in
      let (u, fails) = stuck in
      let bad : (flushed io c i s).0 ≡ false = flushed-status c i s ∙ fails c.disk in
      let (next, slots, order, d, step) = hunt_turn rounds c l i s is apart at u bad in
      elim (snoc-cases l) [
        | inl empty ↦ absurd (omega (arith, ap (λ (t : List ℕ). length t) empty))
        | inr (m, k, e) ↦
            let at_k : tail l ≡ some k = ap tail e ∙ tail-snoc m k in
            let again =
              hunt_round rounds next (i ∷ m) k (order ∙ ap (λ t. i ∷ t) e) (omega arith)
                (ap distinct order ∙ d)
                (λ j there.
                  let was : occurs j c.order ≡ true =
                    ap (occurs j) is
                    ∙ occurs-snoc j l i
                    ∙ ground (arith, occurs-cons j i l, ap (occurs j) order) in
                  let (t, at', same_stuck) = all j was in
                  (t, ap (λ (x : List (Slot X)). get_elem? x j) slots ∙ at', same_stuck)) in
            ap (λ (x : Victim × Cache S X). x.0) (step ∙ ap (λ p. hunt io rounds next p) at_k)
            ∙ again
      ]

  -- Where every slot is dirty and no disk takes its block, the search goes round the slots without end,
  -- whatever the rounds it is given.
  pub hunt-spins :
      (rounds : ℕ) (c : Cache S X)
      → 2 ≤ length c.order
      → distinct c.order ≡ true
      → ((j : ℕ)
          → occurs j c.order ≡ true
          → (s : Slot X) × (get_elem? c.slots j ≡ some s) × IsStuck s)
      → (hunt io rounds c (tail c.order)).0 ≡ spinning
  hunt-spins rounds c two apart all = elim (snoc-cases c.order) [
    | inl empty ↦ absurd (omega (arith, ap (λ (t : List ℕ). length t) empty))
    | inr (l, i, e) ↦
        let many = ap (λ (t : List ℕ). length t) e in
        rw (ap tail e ∙ tail-snoc l i)
          (hunt_round rounds c l i e (omega (arith, many, length-append l (i ∷ []))) apart all)
  ]

  hunt_here :
      (rounds : ℕ) (c : Cache S X) (i : ℕ) (s : Slot X)
      → get_elem? c.slots i ≡ some s
      → (is_usable s ≡ true) ⊎ ((flushed io c i s).0 ≡ true)
      → (hunt io (suc rounds) c (some i)).0 ≡ found i
  hunt_here rounds c i s at now = elim (Bool-cases (is_usable s)) [
    | inl u ↦ ap (λ (x : Victim × Cache S X). x.0) (hunt_usable io rounds c i s at u)
    | inr u ↦ elim now [
      | inl bad ↦ absurd (cc)
      | inr ok ↦ ap (λ (x : Victim × Cache S X). x.0) (hunt-flushed io rounds c i s at u ok)
    ]
  ]

  hunt_reaches :
      (rounds : ℕ) (c : Cache S X) (front back : List ℕ) (i : ℕ) (s : Slot X)
      → c.order ≡ front ++ (i ∷ back)
      → length back < rounds
      → distinct c.order ≡ true
      → ((j : ℕ) → occurs j c.order ≡ true → (t : Slot X) × (get_elem? c.slots j ≡ some t))
      → get_elem? c.slots i ≡ some s
      → IsReady s
      → (k : ℕ) × ((hunt io rounds c (tail c.order)).0 ≡ found k)
  hunt_reaches zero c front back i s is more apart all at ready = absurd (omega arith)
  hunt_reaches (suc rounds) c front back i s is more apart all at ready = elim (snoc-cases back) [
    | inl empty ↦
        let last : tail c.order ≡ some i =
          ap tail (is ∙ ap (λ t. front ++ (i ∷ t)) empty) ∙ tail-snoc front i in
        let now : (is_usable s ≡ true) ⊎ ((flushed io c i s).0 ≡ true) = elim ready [
          | inl u ↦ inl u
          | inr takes ↦ inr (flushed-status c i s ∙ takes c.disk)
        ] in
        (i, ap (λ p. (hunt io (suc rounds) c p).0) last ∙ hunt_here rounds c i s at now)
    | inr (m, y, e) ↦
        let l = front ++ (i ∷ m) in
        let is' : c.order ≡ snoc l y =
          is ∙ ap (λ t. front ++ (i ∷ t)) e ∙ sym (append_assoc front (i ∷ m) (y ∷ [])) in
        let last : tail c.order ≡ some y = ap tail is' ∙ tail-snoc l y in
        let mine : occurs y c.order ≡ true =
          ap (occurs y) is' ∙ ground (arith, occurs-snoc y l y) in
        let (t, at') = all y mine in
        elim (Bool-cases (is_usable t || (flushed io c y t).0)) [
          | inl now ↦ (
            y,
            ap (λ p. (hunt io (suc rounds) c p).0) last
                ∙ hunt_here rounds c y t at' (or-cases (is_usable t) (flushed io c y t).0 now),
          )
          | inr never ↦
              let (u, bad) = neither (is_usable t) (flushed io c y t).0 never in
              let (next, slots, order, d, step) = hunt_turn rounds c l y t is' apart at' u bad in
              let (k, found_k) =
                hunt_reaches rounds next (y ∷ front) m i s order
                  (omega (arith, ap (λ (x : List ℕ). length x) e, length-append m (y ∷ [])))
                  (ap distinct order ∙ d)
                  (λ j there.
                    let was : occurs j c.order ≡ true =
                      ap (occurs j) is'
                      ∙ occurs-snoc j l y
                      ∙ ground (arith, occurs-cons j y l, ap (occurs j) order) in
                    let (r, at'') = all j was in
                    (r, ap (λ (x : List (Slot X)). get_elem? x j) slots ∙ at''))
                  (ap (λ (x : List (Slot X)). get_elem? x i) slots ∙ at) ready in
              let same : tail next.order ≡ tail l = ap tail order ∙ tail_behind front m i y in
              (
                k,
                ap (λ p. (hunt io (suc rounds) c p).0) last
                    ∙ ap (λ (x : Victim × Cache S X). x.0)
                        (step ∙ ap (λ p. hunt io rounds next p) (sym same))
                    ∙ found_k,
              )
        ]
  ]

  -- Where one slot can be reused, or the disk takes its block, the search finds a slot in at most as many
  -- rounds as there are slots.
  pub hunt_finds :
      (rounds : ℕ) (c : Cache S X) (i : ℕ) (s : Slot X)
      → length c.order ≤ rounds
      → distinct c.order ≡ true
      → ((j : ℕ) → occurs j c.order ≡ true → (t : Slot X) × (get_elem? c.slots j ≡ some t))
      → occurs i c.order ≡ true
      → get_elem? c.slots i ≡ some s
      → IsReady s
      → (k : ℕ) × ((hunt io rounds c (tail c.order)).0 ≡ found k)
  hunt_finds rounds c i s enough apart all there at ready =
      let (front, back, e) = occurs-split i c.order there in
      hunt_reaches rounds c front back i s e
        (omega (arith, ap (λ (x : List ℕ). length x) e, length-append front (i ∷ back))) apart all
        at ready

-- ===== src/Pty/Life.antt =====
-- The life of a pseudo-terminal of kernel/proc/pty.c: allocation and references.
use drunix_os.Base.{
  ℕ, zero, suc, ◌+◌, ◌<◌, ◌≡◌, get_elem?-set_ne, get_elem?-set_self, set-set, dec_lt, refl, sym, ap,
  ◌∙◌, ◌⊎◌, inl, inr, true, false, Option, none, some, List, [], ◌∷◌, arith, Bool-cases, subst,
  get_elem?, set,
}
use drunix_os.Pty.Pool.{
  Pty, opened, alloc_from, alloc_master, at_entry, get_master_entry, get_master, close_rings_if,
  drop_if, release_master_entry, release_master, live_entry, master_write,
}

-- What an allocation from index `i` on gives: the lowest free entry, opened, or nothing.
abbrev AllocFrom : List Pty → ℕ → Option ℕ × List Pty → Type 0
AllocFrom pool i r =
    ((r ≡ (none, pool)) × ((j : ℕ) (p : Pty) → get_elem? pool j ≡ some p → p.in_use ≡ true))
    ⊎ ((k : ℕ) × (q : Pty) × (get_elem? pool k ≡ some q)
        × (q.in_use ≡ false)
        × (r ≡ (some (i + k), set pool k (opened q)))
        × ((j : ℕ) (p : Pty) → j < k → get_elem? pool j ≡ some p → p.in_use ≡ true))

alloc_from-free :
    (p : Pty) (pool : List Pty) (i : ℕ)
    → p.in_use ≡ false
    → alloc_from (p ∷ pool) i ≡ (some i, opened p ∷ pool)
unfolding alloc_from
alloc_from-free p pool i free = simp free refl

alloc_from-used :
    (p : Pty) (pool : List Pty) (i : ℕ)
    → p.in_use ≡ true
    → alloc_from (p ∷ pool) i ≡ ((alloc_from pool (i + 1)).0, p ∷ (alloc_from pool (i + 1)).1)
unfolding alloc_from
alloc_from-used p pool i used = simp used refl

-- An entry in use is in use wherever it stands in the pool, if the later ones are.
all_used_cons :
    (p : Pty) (pool : List Pty) (j : ℕ) (q : Pty)
    → p.in_use ≡ true
    → ((j' : ℕ) → j ≡ suc j' → get_elem? pool j' ≡ some q → q.in_use ≡ true)
    → get_elem? (p ∷ pool) j ≡ some q
    → q.in_use ≡ true
all_used_cons p pool zero q used rest e =
    let same : p ≡ q = cc in subst (λ (x : Pty). x.in_use ≡ true) same used
all_used_cons p pool (suc j) q used rest e = rest j refl e

alloc_from-nil : (i : ℕ) → alloc_from [] i ≡ (none, [])
unfolding alloc_from
alloc_from-nil i = refl

AllocFrom-cons :
    (p : Pty) (pool : List Pty) (i : ℕ) (r : Option ℕ × List Pty)
    → p.in_use ≡ true
    → AllocFrom pool (i + 1) r
    → AllocFrom (p ∷ pool) i (r.0, p ∷ r.1)
AllocFrom-cons p pool i r used (inl (same, all)) =
    inl (
      ap (λ t. (t.0, p ∷ t.1)) same,
      λ j q e. all_used_cons p pool j q used (λ j' z f. all j' q f) e,
    )
AllocFrom-cons p pool i r used (inr (k, q, at, free, same, below)) = inr (
  suc k,
  q,
  at,
  free,
  ap (λ t. (t.0, p ∷ t.1)) same ∙ ap (λ (n : ℕ). (some n, p ∷ set pool k (opened q))) (omega arith),
  λ j t h e. all_used_cons p pool j t used (λ j' z f. below j' t (omega arith) f) e,
)

alloc_from-AllocFrom : (pool : List Pty) (i : ℕ) → AllocFrom pool i (alloc_from pool i)
alloc_from-AllocFrom [] i = inl (alloc_from-nil i, λ j p e. absurd (cc))
alloc_from-AllocFrom (p ∷ pool) i = elim (Bool-cases p.in_use) [
  | inr free ↦ inr (
    zero,
    p,
    refl,
    free,
    alloc_from-free p pool i free ∙ ap (λ (n : ℕ). (some n, opened p ∷ pool)) (omega arith),
    λ j q h e. absurd (omega arith),
  )
  | inl used ↦
      rw (alloc_from-used p pool i used)
        (AllocFrom-cons p pool i (alloc_from pool (i + 1)) used (alloc_from-AllocFrom pool (i + 1)))
]

-- What the allocation of a pair gives: nothing where all entries are in use, or the lowest free one.
abbrev pub Lowest : List Pty → Option ℕ × List Pty → Type 0
Lowest pool r =
    ((r ≡ (none, pool)) × ((j : ℕ) (p : Pty) → get_elem? pool j ≡ some p → p.in_use ≡ true))
    ⊎ ((k : ℕ) × (q : Pty) × (get_elem? pool k ≡ some q)
        × (q.in_use ≡ false)
        × (r ≡ (some k, set pool k (opened q)))
        × ((j : ℕ) (p : Pty) → j < k → get_elem? pool j ≡ some p → p.in_use ≡ true))

Lowest-AllocFrom : (pool : List Pty) (r : Option ℕ × List Pty) → AllocFrom pool 0 r → Lowest pool r
Lowest-AllocFrom pool r (inl nothing) = inl nothing
Lowest-AllocFrom pool r (inr (k, q, at, free, same, below)) =
    inr
      (k, q, at, free, same ∙ ap (λ (n : ℕ). (some n, set pool k (opened q))) (omega arith), below)

-- `pty_alloc_master` opens the entry of lowest index that is not in use, with one reference at the
-- master's end, none at the slave's, and empty rings, and changes no other; it fails, and changes
-- nothing, only where all are in use.
pub alloc_master-Lowest : (pool : List Pty) → Lowest pool (alloc_master pool)
unfolding alloc_master
alloc_master-Lowest pool = Lowest-AllocFrom pool (alloc_from pool 0) (alloc_from-AllocFrom pool 0)

at_entry-at :
    (pool : List Pty) (idx : ℕ) (change : Pty → Pty) (p : Pty)
    → get_elem? pool idx ≡ some p
    → at_entry pool idx change ≡ set pool idx (change p)
unfolding at_entry
at_entry-at pool idx change p at = rw (at_entry, at) refl

-- The pool after `pty_alloc_master` gave out an entry, a second reference of its master's end was taken, and
-- one of the two was released, with no slave's end opened in between.
unfoldable pub shared_then_released : List Pty → ℕ → List Pty
shared_then_released pool k = release_master (get_master pool k) k

-- What the three calls make of a free entry.
abbrev left_over : Pty → Pty
left_over q = record (opened q) { in_use = false }

released-left_over : (q : Pty) → release_master_entry (get_master_entry (opened q)) ≡ left_over q
unfolding release_master_entry get_master_entry opened drop_if close_rings_if
released-left_over q = refl

shared_then_released-set :
    (pool : List Pty) (k : ℕ) (q : Pty)
    → get_elem? pool k ≡ some q
    → shared_then_released (set pool k (opened q)) k ≡ set pool k (left_over q)
unfolding shared_then_released get_master release_master
shared_then_released-set pool k q at =
    let one = get_elem?-set_self pool k q (opened q) at in
    let two =
      get_elem?-set_self (set pool k (opened q)) k (opened q) (get_master_entry (opened q)) one in
    at_entry-at (at_entry (set pool k (opened q)) k get_master_entry) k release_master_entry
      (get_master_entry (opened q))
      (rw (at_entry-at (set pool k (opened q)) k get_master_entry (opened q) one) two)
    ∙ ap (λ (l : List Pty). set l k (release_master_entry (get_master_entry (opened q))))
        (at_entry-at (set pool k (opened q)) k get_master_entry (opened q) one
          ∙ set-set pool k (opened q) (get_master_entry (opened q)))
    ∙ set-set pool k (get_master_entry (opened q)) _
    ∙ ap (λ (p : Pty). set pool k p) (released-left_over q)

-- A write is refused where the entry is not in use.
refused :
    (pool : List Pty) (k : ℕ) (p : Pty) (bytes : List ℕ)
    → get_elem? pool k ≡ some p
    → p.in_use ≡ false
    → master_write pool k bytes ≡ none
unfolding master_write live_entry
refused pool k p bytes at free = rw (master_write, live_entry, at) (simp free refl)

-- The entry that was given up too early is the lowest free one again.
alloc_master_again :
    (pool : List Pty) (k : ℕ) (q : Pty)
    → get_elem? pool k ≡ some q
    → ((j : ℕ) (p : Pty) → j < k → get_elem? pool j ≡ some p → p.in_use ≡ true)
    → (alloc_master (set pool k (left_over q))).0 ≡ some k
alloc_master_again pool k q at below = pick (alloc_master-Lowest (set pool k (left_over q)))
  where
    back : get_elem? (set pool k (left_over q)) k ≡ some (left_over q)
    back = get_elem?-set_self pool k q (left_over q) at

    pick :
        Lowest (set pool k (left_over q)) (alloc_master (set pool k (left_over q)))
        → (alloc_master (set pool k (left_over q))).0 ≡ some k
    pick (inl (same, all)) = absurd (let bad = all k (left_over q) back in cc)
    pick (inr (k', q', at', free, same, below')) = ap (λ t. t.0) same ∙ elim (dec_lt k' k) [
      | yes before ↦
          let here : get_elem? pool k' ≡ some q' =
            sym (get_elem?-set_ne pool k k' (left_over q) (λ e. omega arith)) ∙ at' in
          absurd (let used = below k' q' before here in cc)
      | no n ↦ elim (dec_lt k k') [
        | yes past ↦ absurd (let used = below' k (left_over q) past back in cc)
        | no m ↦ ap (λ (i : ℕ). some i) (omega arith)
      ]
    ]

-- Once `pty_alloc_master` gives an entry, a second reference of its master's end is taken, and one of the two
-- is released while no slave's end is open: one reference remains, but a write through it is refused, and the
-- next `pty_alloc_master` gives the same entry out again.
pub release_master_early :
    (pool pool' : List Pty) (k : ℕ) (bytes : List ℕ)
    → alloc_master pool ≡ (some k, pool')
    → ((p : Pty) × (get_elem? (shared_then_released pool' k) k ≡ some p) × (p.master_open ≡ 1))
      × (master_write (shared_then_released pool' k) k bytes ≡ none)
      × ((alloc_master (shared_then_released pool' k)).0 ≡ some k)
release_master_early pool pool' k bytes given = given_out (alloc_master-Lowest pool)
  where
    given_out :
        Lowest pool (alloc_master pool)
        → ((p : Pty) × (get_elem? (shared_then_released pool' k) k ≡ some p) × (p.master_open ≡ 1))
          × (master_write (shared_then_released pool' k) k bytes ≡ none)
          × ((alloc_master (shared_then_released pool' k)).0 ≡ some k)
    given_out (inl (same, all)) = absurd (cc)
    given_out (inr (k', q, at, free, same, below)) =
        let index : k' ≡ k = ground arith in
        let pool_is : pool' ≡ set pool k' (opened q) = ground arith in
        let at_k : get_elem? pool k ≡ some q = rw index at at in
        let whole : shared_then_released pool' k ≡ set pool k (left_over q) =
          rw (pool_is, index) (shared_then_released-set pool k q at_k) in
        let back = get_elem?-set_self pool k q (left_over q) at_k in
        rw whole (
          (left_over q, back, unfold opened in refl),
          refused (set pool k (left_over q)) k (left_over q) bytes back refl,
          alloc_master_again pool k q at_k (λ j p h e. below j p (omega arith) e),
        )

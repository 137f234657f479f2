-- ===== src/Pipe/Pool.antt =====
-- The pool of kernel/proc/pipe.c, kernel/proc/pipe.h. An index below 0 is refused like one past the pool.
use drunix_os.Base.{
  get_elem?-length, ℕ, zero, suc, ◌+◌, ◌≤◌, ◌<◌, ◌≡◌, ◌≢◌, ◌⊎◌, Option-cases, get_elem?-set_ne,
  refl, sym, ap, ◌∙◌, inl, inr, Bool, true, false, not, Option, none, some, List, [], ◌∷◌, arith,
  ltb, leb, if◌then◌else◌, Bool-cases, ◌>>=◌, subst, >>=-eq-some, length, get_elem?, set,
  get_elem?-set_self,
}

-- `MAX_PIPES`
abbrev pub max_pipes : ℕ
max_pipes = 8

-- `pipe_buf_t`, without the queue of waiters.
pub record PipeBuf : Type 0 where
  pub buf : List ℕ
  pub read_idx : ℕ
  pub write_idx : ℕ
  pub count : ℕ
  pub read_open : ℕ
  pub write_open : ℕ
  pub in_use : Bool

abbrev pub opened_pipe : PipeBuf → PipeBuf
opened_pipe p = record p {
  read_idx = 0;
  write_idx = 0;
  count = 0;
  read_open = 1;
  write_open = 1;
  in_use = true;
}

-- The loop of `pipe_alloc` from index `i` on: the index and the pool, or none for -1.
unfoldable pub alloc_from : List PipeBuf → ℕ → Option (ℕ × List PipeBuf)
alloc_from [] i = none
alloc_from (p ∷ pool) i =
    let rest = alloc_from pool (i + 1) in
    if not p.in_use then some (i, opened_pipe p ∷ pool) else (rest >>= λ r. some (r.0, p ∷ r.1))

unfoldable pub pipe_alloc : List PipeBuf → Option (ℕ × List PipeBuf)
pipe_alloc pool = alloc_from pool 0

unfoldable pub pipe_free : List PipeBuf → ℕ → List PipeBuf
pipe_free pool idx = elim (get_elem? pool idx) [
  | none ↦ pool
  | some p ↦ if ltb idx max_pipes then set pool idx (record p { in_use = false }) else pool
]

unfoldable pub pipe_get : List PipeBuf → ℕ → Option PipeBuf
pipe_get pool idx =
    if leb max_pipes idx
    then none
    else get_elem? pool idx >>= λ p. if p.in_use then some p else none

-- What the scan of an allocation does, where it finds a pipe.
record Allocated (pool : List PipeBuf) (i j : ℕ) (next : List PipeBuf) : Type 0 where
  pub place : ℕ
  pub at : j ≡ i + place
  pub old : PipeBuf
  pub was : get_elem? pool place ≡ some old
  pub unused : old.in_use ≡ false
  pub now : next ≡ set pool place (opened_pipe old)
  pub first : (k : ℕ) (p : PipeBuf) → k < place → get_elem? pool k ≡ some p → p.in_use ≡ true

first_of :
    (p : PipeBuf) (pool : List PipeBuf) (place : ℕ)
    → p.in_use ≡ true
    → ((k : ℕ) (q : PipeBuf) → k < place → get_elem? pool k ≡ some q → q.in_use ≡ true)
    → (k : ℕ) (q : PipeBuf) → k < suc place
    → get_elem? (p ∷ pool) k ≡ some q
    → q.in_use ≡ true
first_of p pool place taken rest zero q below e =
    let same : p ≡ q = cc in subst (λ (x : PipeBuf). x.in_use ≡ true) same taken
first_of p pool place taken rest (suc k) q below e = rest k q (omega arith) e

alloc_from-Allocated :
    (pool : List PipeBuf) (i j : ℕ) (next : List PipeBuf)
    → alloc_from pool i ≡ some (j, next)
    → Allocated pool i j next
unfolding alloc_from
alloc_from-Allocated [] i j next h = absurd (cc)
alloc_from-Allocated (p ∷ pool) i j next h = elim (Bool-cases p.in_use) [
  | inr free ↦
      let made : (i, opened_pipe p ∷ pool) ≡ (j, next) =
        some_injective (i, opened_pipe p ∷ pool) (j, next) (simp free at h) in
      record {
        place = 0;
        at = sym (ap (λ (x : ℕ × List PipeBuf). x.0) made) ∙ omega arith;
        old = p;
        was = refl;
        unused = free;
        now = sym (ap (λ (x : ℕ × List PipeBuf). x.1) made);
        first = λ k q below e. absurd (omega arith);
      }
  | inl taken ↦
      let (r, found, whole) = >>=-eq-some (alloc_from pool (i + 1)) _ (simp taken at h) in
      let made : (r.0, p ∷ r.1) ≡ (j, next) = some_injective (r.0, p ∷ r.1) (j, next) whole in
      let a = alloc_from-Allocated pool (i + 1) r.0 r.1 found in
      record {
        place = suc a.place;
        at = sym (ap (λ (x : ℕ × List PipeBuf). x.0) made) ∙ a.at ∙ omega arith;
        old = a.old;
        was = a.was;
        unused = a.unused;
        now = sym (ap (λ (x : ℕ × List PipeBuf). x.1) made) ∙ ap (λ l. p ∷ l) a.now;
        first = λ k q below e. first_of p pool a.place taken a.first k q below e;
      }
]
  where
    some_injective : (x y : ℕ × List PipeBuf) → some x ≡ some y → x ≡ y
    some_injective x y e = cc

alloc_from-none :
    (pool : List PipeBuf) (i : ℕ)
    → alloc_from pool i ≡ none
    → (k : ℕ) (p : PipeBuf) → get_elem? pool k ≡ some p
    → p.in_use ≡ true
unfolding alloc_from
alloc_from-none [] i h k p e = absurd (cc)
alloc_from-none (q ∷ pool) i h k p e = elim (Bool-cases q.in_use) [
  | inr free ↦ absurd (no_pipe _ (simp free at h))
  | inl taken ↦
      first_of q pool k taken
        (λ k' p' below e'.
          alloc_from-none pool (i + 1) (none_inside (alloc_from pool (i + 1)) (simp taken at h)) k'
            p' e')
        k p (omega arith) e
]
  where
    no_pipe : (r : ℕ × List PipeBuf) → some r ≢ none
    no_pipe r e = cc

    none_inside :
        (r : Option (ℕ × List PipeBuf))
        → ◌>>=◌ {B = ℕ × List PipeBuf} r (λ s. some (s.0, q ∷ s.1)) ≡ none
        → r ≡ none
    none_inside none e = refl
    none_inside (some s) e = absurd (no_pipe _ e)

-- `fresh` is what a pipe `old` should be once it is opened: in use, with a reference at each end, no byte in
-- its buffer, and both indices at the start of the buffer, whose bytes are not touched.
pub record IsOpenedFrom (old fresh : PipeBuf) : Type 0 where
  pub used : fresh.in_use ≡ true
  pub reader : fresh.read_open ≡ 1
  pub writer : fresh.write_open ≡ 1
  pub empty : fresh.count ≡ 0
  pub read_start : fresh.read_idx ≡ 0
  pub write_start : fresh.write_idx ≡ 0
  pub storage : fresh.buf ≡ old.buf

-- What an allocation from a pool gives: none where every pipe is in use, or the first pipe that is not, which
-- is then found at its index.
abbrev pub AllocAnswer : List PipeBuf → Type 0
AllocAnswer pool =
    ((pipe_alloc pool ≡ none)
      × ((k : ℕ) (p : PipeBuf) → get_elem? pool k ≡ some p → p.in_use ≡ true))
    ⊎ ((j : ℕ) × (next : List PipeBuf) × (old : PipeBuf) × (fresh : PipeBuf) × (pipe_alloc pool
          ≡ some (j, next))
        × (get_elem? pool j ≡ some old)
        × (old.in_use ≡ false)
        × ((k : ℕ) (p : PipeBuf) → k < j → get_elem? pool k ≡ some p → p.in_use ≡ true)
        × (pipe_get next j ≡ some fresh)
        × IsOpenedFrom old fresh
        × ((k : ℕ) → k ≢ j → get_elem? next k ≡ get_elem? pool k))

-- An allocation from a pool of at most 8 pipes fails only if every pipe is in use. Else it gives the first
-- pipe that is not in use, which is then found at its index, in use, with a reference at each end, no byte in
-- its buffer and both indices at 0; all others are as they were.
pub pipe_alloc-pipe_get : (pool : List PipeBuf) → length pool ≤ max_pipes → AllocAnswer pool
unfolding pipe_alloc pipe_get
pipe_alloc-pipe_get pool small = elim (Option-cases (alloc_from pool 0)) [
  | inl bad ↦ inl (bad, alloc_from-none pool 0 bad)
  | inr ((j, next), made) ↦
      let a = alloc_from-Allocated pool 0 j next made in
      let here : j ≡ a.place = a.at ∙ omega arith in
      let inside = get_elem?-length pool a.place a.old a.was in
      let low : leb max_pipes a.place ≡ false = ground arith in
      let found = get_elem?-set_self pool a.place a.old (opened_pipe a.old) a.was in
      inr (
        j,
        next,
        a.old,
        opened_pipe a.old,
        made,
        rw here a.was,
        a.unused,
        λ k p below e. a.first k p (omega arith) e,
        rw (here, a.now) (simp low (rw found refl)),
        record {
          used = refl;
          reader = refl;
          writer = refl;
          empty = refl;
          read_start = refl;
          write_start = refl;
          storage = refl;
        },
        λ k apart.
            rw a.now
              (get_elem?-set_ne pool a.place k (opened_pipe a.old) (λ e. apart (omega arith))),
      )
]

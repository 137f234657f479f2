-- ===== src/Bcache/Cache/Slots.antt =====
-- The slots of kernel/blk/bcache.c, and their order of use.
use drunix_os.Base.{
  ℕ, zero, suc, ◌+◌, ◌%◌, ◌^◌, Bool, false, ◌&&◌, Option, none, some, List, [], ◌∷◌, ◌++◌, ◌==◌,
  if◌then◌else◌,
}

-- `BCACHE_SLOTS`
abbrev pub cache_slots : ℕ
cache_slots = 64

-- `bcache_slot_t`; `block` is the field `data`, as its sectors. The links are in the cache's order.
pub record Slot (X : Type 0) : Type 0 where
  pub dev : ℕ
  pub lba : ℕ
  pub valid : Bool
  pub dirty : Bool
  pub block : List X

-- `bcache_stats_t`
pub record Stats : Type 0 where
  pub hits : ℕ
  pub misses : ℕ
  pub writebacks : ℕ
  pub write_through : ℕ
  pub evictions : ℕ

abbrev pub inc : ℕ → ℕ
inc n = (n + 1) % 2 ^ 32

-- Order: `lru_detach`, `lru_touch`, `lru_demote`, the head, the tail and the link `prev`.
unfoldable pub detach : List ℕ → ℕ → List ℕ
detach [] i = []
detach (j ∷ order) i = if j == i then order else j ∷ detach order i

unfoldable pub touch : List ℕ → ℕ → List ℕ
touch order i = i ∷ detach order i

unfoldable pub demote : List ℕ → ℕ → List ℕ
demote order i = detach order i ++ (i ∷ [])

unfoldable pub tail : List ℕ → Option ℕ
tail [] = none
tail (i ∷ []) = some i
tail (i ∷ j ∷ order) = tail (j ∷ order)

unfoldable pub prev : List ℕ → ℕ → Option ℕ
prev [] i = none
prev (j ∷ []) i = none
prev (j ∷ k ∷ order) i = if k == i then some j else prev (k ∷ order) i

-- How the search for a slot to reuse ends; `spinning` is fuel that ran out.
pub data Victim : Type 0 where
  found : ℕ → Victim
  absent spinning : Victim

-- Success, the status -1, or a loop without end.
pub data Status : Type 0 where
  done failed hangs : Status

module _ {X : Type 0} where
  unfoldable pub is_for : Slot X → ℕ → ℕ → Bool
  is_for s dev lba = s.valid && s.dev == dev && s.lba == lba

  -- The loop of `find_slot` from index `i` on.
  unfoldable pub find_from : List (Slot X) → ℕ → ℕ → ℕ → Option ℕ
  find_from [] dev lba i = none
  find_from (s ∷ slots) dev lba i =
      if is_for s dev lba then some i else find_from slots dev lba (i + 1)

  abbrev pub find_slot : List (Slot X) → ℕ → ℕ → Option ℕ
  find_slot slots dev lba = find_from slots dev lba 0

  -- The slot after `acquire_slot` has taken it.
  abbrev pub claimed : Slot X → ℕ → ℕ → Slot X
  claimed s dev lba = record s { dev = dev; lba = lba; valid = false; dirty = false }

  abbrev pub dropped : Slot X → Slot X
  dropped s = record s { dev = 0; valid = false; dirty = false }

  abbrev pub blank : Slot X → Slot X
  blank s = record s { dev = 0; lba = 0; valid = false; dirty = false }

  -- The loop of `bcache_init` over the slots; the links of a slot are part of the order.
  unfoldable pub blank_all : List (Slot X) → List (Slot X)
  blank_all [] = []
  blank_all (s ∷ slots) = blank s ∷ blank_all slots

-- Slots pushed to the front one by one, from index `i` on.
unfoldable pub push_each : ℕ → ℕ → List ℕ → List ℕ
push_each zero i order = order
push_each (suc n) i order = push_each n (i + 1) (i ∷ order)

abbrev pub no_stats : Stats
no_stats = record { hits = 0; misses = 0; writebacks = 0; write_through = 0; evictions = 0 }

-- ===== src/Bcache/Cache.antt =====
-- The state and the operations of kernel/blk/bcache.c.
mod Slots
unfoldable pub use Slots.*
use drunix_os.Base.{
  ℕ, zero, suc, ◌+◌, ◌-◌, ◌*◌, ◌/◌, ◌%◌, ◌^◌, ◌≤◌, ◌<◌, min, ◌≡◌, refl, sym, ap, ◌∙◌, ◌≢◌, ◌↔◌, ◌⊎◌,
  inl, inr, Bool, true, false, not, ◌&&◌, ◌||◌, Option, none, some, List, [], ◌∷◌, ◌++◌, arith,
  dec_lt, ℕ_discrete, ltb, leb, ◌==◌, if◌then◌else◌, ==_iff, Bool-cases, Option-cases, ◌>>=◌,
  append_assoc, append-nil, subst, >>=-eq-some, length, get_elem?, get_or, set, length-append,
  length-set, reverse_onto, length-reverse_onto, get_elem?-set_self, get_elem?-set_ne,
  get_or-set_self, get_or-set_ne, replicate, length-replicate, get_or-replicate, all_below,
  all_below_sound, bit_and, bit_or, bit_xor,
}
use drunix_os.Bcache.Disk.{Io, block_sectors, disk_read_block, disk_write_block}

-- The variables of the file and the disks. The order is the list from `g_lru_head` along the links to
-- `g_lru_tail`, as indices of slots.
pub record Cache (S X : Type 0) : Type 0 where
  pub slots : List (Slot X)
  pub order : List ℕ
  pub stats : Stats
  pub disk : S

module _ {S X : Type 0} where
  abbrev pub put_slot : Cache S X → ℕ → Slot X → Cache S X
  put_slot c i s = record c { slots = set c.slots i s }

  abbrev pub reorder : Cache S X → List ℕ → Cache S X
  reorder c order = record c { order = order }

  unfoldable pub init : Cache S X → Cache S X
  init c = record c {
    slots = blank_all c.slots;
    order = push_each (length c.slots) 0 [];
    stats = no_stats;
  }

  unfoldable pub reset_stats : Cache S X → Cache S X
  reset_stats c = record c { stats = no_stats }

  -- The end of `acquire_slot`, for a slot to reuse.
  unfoldable pub claim : Cache S X → ℕ → ℕ → ℕ → Cache S X
  claim c i dev lba = elim (get_elem? c.slots i) [
    | none ↦ c
    | some s ↦ record c {
      slots = set c.slots i (claimed s dev lba);
      order = touch c.order i;
      stats = if s.valid then record c.stats { evictions = inc c.stats.evictions } else c.stats;
    }
  ]

  -- The block of a slot.
  abbrev pub block_of : Cache S X → ℕ → Option (List X)
  block_of c i = get_elem? c.slots i >>= λ s. some s.block

  -- The new block of a slot, dirty or not.
  unfoldable pub fill_slot : Cache S X → ℕ → List X → Bool → Cache S X
  fill_slot c i block dirty = elim (get_elem? c.slots i) [
    | none ↦ c
    | some s ↦ put_slot c i (record s { valid = true; dirty = dirty; block = block })
  ]

  unfoldable pub invalidate : Cache S X → ℕ → ℕ → Cache S X
  invalidate c dev lba = elim (find_slot c.slots dev lba) [
    | none ↦ c
    | some i ↦ elim (get_elem? c.slots i) [
      | none ↦ c
      | some s ↦ record c { slots = set c.slots i (dropped s); order = demote c.order i }
    ]
  ]

module _ {S X : Type 0} (io : Io S X) where
  -- What the write of a slot leaves; a status of `true` is 0.
  unfoldable pub flushed : Cache S X → ℕ → Slot X → Bool × Cache S X
  flushed c i s =
      let (ok, disk) = disk_write_block io c.disk s.dev s.lba s.block in
      if ok
      then (
        true,
        record c {
          slots = set c.slots i (record s { dirty = false });
          stats = record c.stats { writebacks = inc c.stats.writebacks };
          disk = disk;
        },
      )
      else (false, record c { disk = disk })

  unfoldable pub slot_writeback : Cache S X → ℕ → Slot X → Bool × Cache S X
  slot_writeback c i s = if not s.valid || not s.dirty then (true, c) else flushed c i s

  -- The loop of `acquire_slot` over candidates, by rounds.
  unfoldable pub hunt : ℕ → Cache S X → Option ℕ → Victim × Cache S X
  hunt zero c at = (spinning, c)
  hunt (suc rounds) c none = (absent, c)
  hunt (suc rounds) c (some i) = elim (get_elem? c.slots i) [
    | none ↦ (absent, c)
    | some s ↦
        let (ok, next) = slot_writeback c i s in
        let rest = hunt rounds (reorder next (touch next.order i)) (prev c.order i) in
        if not s.valid || not s.dirty then (found i, c) else if ok then (found i, next) else rest
  ]

  unfoldable pub acquire_slot : ℕ → Cache S X → ℕ → ℕ → Victim × Cache S X
  acquire_slot rounds c dev lba = elim (find_slot c.slots dev lba) [
    | some i ↦ (found i, reorder c (touch c.order i))
    | none ↦
        let (victim, next) = hunt rounds c (tail c.order) in
        elim victim [
          | found i ↦ (found i, claim next i dev lba)
          | absent ↦ (absent, next)
          | spinning ↦ (spinning, next)
        ]
  ]

  -- A slot that was claimed and filled from the disk, or given up.
  unfoldable pub load : Cache S X → ℕ → ℕ → ℕ → Status × Cache S X × Option (List X)
  load c i dev lba = elim (get_elem? c.slots i) [
    | none ↦ (failed, c, none)
    | some s ↦ elim (disk_read_block io c.disk dev lba) [
      | none ↦
          (failed, record c { slots = set c.slots i (dropped s); order = demote c.order i }, none)
      | some block ↦ (
        done,
        record c {
          slots = set c.slots i (record s { valid = true; dirty = false; block = block });
          stats = record c.stats { misses = inc c.stats.misses };
        },
        some block,
      )
    ]
  ]

  -- `bcache_read`; a device of 0 is the null pointer, and the block is what is copied to `buf`.
  unfoldable pub read : ℕ → Cache S X → ℕ → ℕ → Status × Cache S X × Option (List X)
  read rounds c dev lba =
      let missed =
        let (victim, next) = acquire_slot rounds c dev lba in
        elim victim as (λ _. Status × Cache S X × Option (List X)) [
          | found i ↦ load next i dev lba
          | absent ↦ (failed, next, none)
          | spinning ↦ (hangs, next, none)
        ] in
      let hit : ℕ → Status × Cache S X × Option (List X) = λ i. (
        done,
        record c { order = touch c.order i; stats = record c.stats { hits = inc c.stats.hits } },
        block_of c i,
      ) in
      if dev == 0
      then (failed, c, none)
      else elim (find_slot c.slots dev lba) [ none ↦ missed | some i ↦ hit i ]

  unfoldable pub write : ℕ → Cache S X → ℕ → ℕ → List X → Status × Cache S X
  write rounds c dev lba block =
      let (victim, next) = acquire_slot rounds c dev lba in
      let answer = elim victim as (λ _. Status × Cache S X) [
        | found i ↦ (done, fill_slot next i block true)
        | absent ↦ (failed, next)
        | spinning ↦ (hangs, next)
      ] in
      if dev == 0 then (failed, c) else answer

  unfoldable pub write_through : Cache S X → ℕ → ℕ → List X → Status × Cache S X
  write_through c dev lba block =
      let (ok, disk) = disk_write_block io c.disk dev lba block in
      let next : Cache S X = record c {
        stats = record c.stats { write_through = inc c.stats.write_through };
        disk = disk;
      } in
      if dev == 0
      then (failed, c)
      else if not ok
      then (failed, record c { disk = disk })
      else elim (find_slot next.slots dev lba) [
        | none ↦ (done, next)
        | some i ↦ (done, reorder (fill_slot next i block false) (touch next.order i))
      ]

  -- The loop of `bcache_sync` over the slots from index `i` on, by the slots left; a device of 0
  -- stands for all devices.
  unfoldable pub sync_from : ℕ → Cache S X → ℕ → ℕ → Bool × Cache S X
  sync_from zero c dev i = (true, c)
  sync_from (suc n) c dev i = elim (get_elem? c.slots i) [
    | none ↦ (true, c)
    | some s ↦
        let (ok, next) = flushed c i s in
        let (all_ok, last) = sync_from n next dev (i + 1) in
        let skip = sync_from n c dev (i + 1) in
        if not s.valid || not s.dirty
        then skip
        else if not (dev == 0) && not (s.dev == dev)
        then skip
        else (ok && all_ok, last)
  ]

  unfoldable pub sync : Cache S X → ℕ → Bool × Cache S X
  sync c dev = sync_from (length c.slots) c dev 0

-- ===== src/Blk/Inside.antt =====
-- Partitions of kernel/drivers/blkdev.c stay inside their disks.
use drunix_os.Blk.Slots.{alloc_slot-is_free}
use drunix_os.Blk.Table.{
  blkdev_max, part_entry, register_part, zero_entry, empty_table, disk_entry, is_known, alloc_slot,
  name_is_valid, kind_disk, Ops, is_free, kind_part, register_disk, DevEntry, put_entry,
}
use drunix_os.Base.{
  get_elem?-set_ne, get_elem?-set_self, ℕ, zero, suc, ◌+◌, ◌-◌, ◌%◌, ◌^◌, ◌≤◌, ◌<◌, ◌≡◌, refl, sym,
  ◌∙◌, inl, inr, true, false, not, ◌||◌, Option, none, some, List, [], ◌∷◌, arith, ℕ_discrete, ltb,
  leb, ◌==◌, Bool-cases, Option-cases, subst, length, get_elem?, set, replicate,
}

-- The entry at the index is a disk in use that holds the sectors from `start` up to `start + sectors`.
abbrev pub OnDisk : List DevEntry → ℕ → ℕ → ℕ → Type 0
OnDisk table index start sectors =
    (disk : DevEntry) × (get_elem? table index ≡ some disk)
    × (is_free disk ≡ false)
    × (disk.info.kind ≡ kind_disk)
    × (start + sectors ≤ disk.info.sectors)

-- Every partition in use lies on a disk in use, and devices have less than 2 ^ 32 sectors.
pub record IsValid (table : List DevEntry) : Type 0 where
  pub proper :
      (i : ℕ) (e : DevEntry)
      → get_elem? table i ≡ some e
      → is_free e ≡ false
      → (e.info.sectors < 2 ^ 32)
        × (e.info.kind ≡ kind_part
            → OnDisk table e.info.parent_index e.info.start_sector e.info.sectors)

-- A write into a free slot moves no disk.
OnDisk-set :
    (table : List DevEntry) (idx : ℕ) (old new : DevEntry) (index start sectors : ℕ)
    → get_elem? table idx ≡ some old
    → is_free old ≡ true
    → OnDisk table index start sectors
    → OnDisk (set table idx new) index start sectors
OnDisk-set table idx old new index start sectors at free (disk, here, used, kind, inside) =
    elim (ℕ_discrete idx index) [
      | yes same ↦
          let at' = rw same at at in
          let one : old ≡ disk = cc in let free' = rw one at free in absurd (ground arith)
      | no apart ↦ (disk, get_elem?-set_ne table idx index new apart ∙ here, used, kind, inside)
    ]

-- A write of a proper entry into a free slot keeps the table valid.
set-IsValid :
    (table : List DevEntry) (idx : ℕ) (old new : DevEntry)
    → IsValid table
    → get_elem? table idx ≡ some old
    → is_free old ≡ true
    → new.info.sectors < 2 ^ 32
    → (new.info.kind ≡ kind_part
        → OnDisk table new.info.parent_index new.info.start_sector new.info.sectors)
    → IsValid (set table idx new)
set-IsValid table idx old new v at free size on = record {
  proper = λ i e here used. elim (ℕ_discrete idx i) [
    | yes same ↦
        let here' = rw (← same) at here in
        let stored = get_elem?-set_self table idx old new at in
        let is_new : new ≡ e = cc in
        subst
          (λ (t : DevEntry).
            (t.info.sectors < 2 ^ 32)
            × (t.info.kind ≡ kind_part
                → OnDisk (set table idx new) t.info.parent_index t.info.start_sector
                    t.info.sectors))
          is_new
          (
            size,
            λ k.
                OnDisk-set table idx old new new.info.parent_index new.info.start_sector
                  new.info.sectors at free (on k),
          )
    | no apart ↦
        let (small, kept) =
          v.proper i e (sym (get_elem?-set_ne table idx i new apart) ∙ here) used in
        (
          small,
          λ k.
              OnDisk-set table idx old new e.info.parent_index e.info.start_sector e.info.sectors at
                free (kept k),
        )
  ];
}

pub put_entry-full :
    (table : List DevEntry) (entry : ℕ → DevEntry)
    → alloc_slot table 0 ≡ none
    → put_entry table entry ≡ (false, table)
unfolding put_entry
put_entry-full table entry full = rw (put_entry, full) refl

pub put_entry-room :
    (table : List DevEntry) (entry : ℕ → DevEntry) (idx : ℕ)
    → alloc_slot table 0 ≡ some idx
    → put_entry table entry ≡ (true, set table idx (entry idx))
unfolding put_entry
put_entry-room table entry idx found = rw (put_entry, found) refl

put_entry-IsValid :
    (table : List DevEntry) (entry : ℕ → DevEntry)
    → IsValid table
    → ((idx : ℕ)
        → ((entry idx).info.sectors < 2 ^ 32)
          × ((entry idx).info.kind ≡ kind_part
              → OnDisk table
                  (entry idx).info.parent_index
                  (entry idx).info.start_sector
                  (entry idx).info.sectors))
    → IsValid (put_entry table entry).1
put_entry-IsValid table entry v proper = elim (Option-cases (alloc_slot table 0)) [
  | inl full ↦ rw (put_entry-full table entry full) v
  | inr (idx, found) ↦
      let (j, old, e, at, free) = alloc_slot-is_free table 0 idx found in
      let e' : j ≡ idx = omega arith in
      rw (put_entry-room table entry idx found)
        (set-IsValid table idx old (entry idx) v (rw e' at at) free (proper idx).0 (proper idx).1)
]

register_disk-IsValid :
    (table : List DevEntry) (name : List ℕ) (major minor sectors : ℕ) (ops : Option Ops)
    → IsValid table
    → sectors < 2 ^ 32
    → IsValid (register_disk table name major minor sectors ops).1
unfolding register_disk
register_disk-IsValid table name major minor sectors none v h = v
register_disk-IsValid table name major minor sectors (some ops) v h =
    elim (Bool-cases (not (name_is_valid name) || sectors == 0 || is_known table name)) [
      | inl bad ↦ simp bad v
      | inr fine ↦ simp fine (
          put_entry-IsValid table (λ idx. disk_entry name major minor sectors ops) v
            (λ idx. unfold disk_entry in (h, λ k. absurd (omega (arith, k)))))
    ]

register_part-IsValid :
    (table : List DevEntry) (name : List ℕ) (parent_index number start sectors : ℕ)
    → IsValid table
    → IsValid (register_part table name parent_index number start sectors).1
unfolding register_part
register_part-IsValid table name parent_index number start sectors v =
    elim (Option-cases (get_elem? table parent_index)) [
      | inl out ↦ rw (register_part, out) v
      | inr (disk, at) ↦
          rw (register_part, at)
            (elim (Bool-cases (not (name_is_valid name) || sectors == 0 || is_known table name)) [
              | inl bad ↦ simp bad v
              | inr fine ↦ elim (Bool-cases (is_free disk || not (disk.info.kind == kind_disk))) [
                | inl no_disk ↦ simp (fine, no_disk) v
                | inr on_disk ↦
                    elim (Bool-cases
                      (leb disk.info.sectors start || ltb (disk.info.sectors - start) sectors)) [
                        | inl past ↦ simp (fine, on_disk, past) v
                        | inr within ↦
                            let used : is_free disk ≡ false = ground arith in
                            let (small, kept) = v.proper parent_index disk at used in
                            let size : sectors < 2 ^ 32 = ground arith in
                            simp (fine, on_disk, within)
                              (put_entry-IsValid table
                                (part_entry disk.info name parent_index number start sectors) v
                                (λ idx.
                                  unfold part_entry in
                                  (size, λ k. (disk, at, used, ground arith, ground arith))))
                      ]
              ]
            ])
    ]

empty_table-free :
    (n i : ℕ) (e : DevEntry) → get_elem? (replicate n zero_entry) i ≡ some e → is_free e ≡ true
unfolding is_free
empty_table-free zero i e h = absurd (cc)
empty_table-free (suc n) zero e h =
    let same : zero_entry ≡ e = cc in
    subst (λ (t : DevEntry). (length t.info.name == 0) ≡ true) same refl
empty_table-free (suc n) (suc i) e h = empty_table-free n i e h

empty_table-IsValid : IsValid empty_table
empty_table-IsValid = record {
  proper =
      λ i e here used. let free = empty_table-free blkdev_max i e here in absurd (ground arith);
}

-- A registration; that of `blkdev_register` is the disk's with 2 ^ 32 - 1 sectors.
pub data Call : Type 0 where
  disk : List ℕ → ℕ → ℕ → ℕ → Option Ops → Call
  part : List ℕ → ℕ → ℕ → ℕ → ℕ → Call

-- The number of sectors is a `uint32_t`.
unfoldable pub step : List DevEntry → Call → List DevEntry
step table (disk name major minor sectors ops) =
    (register_disk table name major minor (sectors % 2 ^ 32) ops).1
step table (part name parent_index number start sectors) =
    (register_part table name parent_index number start sectors).1

unfoldable pub run : List DevEntry → List Call → List DevEntry
run table [] = table
run table (c ∷ cs) = run (step table c) cs

step-IsValid : (table : List DevEntry) (c : Call) → IsValid table → IsValid (step table c)
unfolding step
step-IsValid table (disk name major minor sectors ops) v =
    register_disk-IsValid table name major minor (sectors % 2 ^ 32) ops v (omega arith)
step-IsValid table (part name parent_index number start sectors) v =
    register_part-IsValid table name parent_index number start sectors v

-- A valid table stays valid under any registrations.
run-IsValid : (table : List DevEntry) (cs : List Call) → IsValid table → IsValid (run table cs)
unfolding run
run-IsValid table [] v = v
run-IsValid table (c ∷ cs) v = run-IsValid (step table c) cs (step-IsValid table c v)

-- After any registrations in the table that `blkdev_reset` leaves, every partition in use lies on
-- a disk in use.
pub run-empty_table-IsValid : (cs : List Call) → IsValid (run empty_table cs)
run-empty_table-IsValid cs = run-IsValid empty_table cs empty_table-IsValid

-- ===== src/Blk/Table.antt =====
-- The registry of kernel/drivers/blkdev.c, and part_translate of kernel/drivers/blkdev_part.c.
use drunix_os.Base.{
  ℕ, ◌+◌, ◌-◌, ◌%◌, ◌^◌, Bool, true, false, not, ◌&&◌, ◌||◌, Option, none, some, List, [], ◌∷◌, ltb,
  leb, ◌==◌, if◌then◌else◌, ◌>>=◌, length, get_elem?, set, replicate,
}

-- `BLKDEV_MAX`; the table is a list of so many entries.
abbrev pub blkdev_max : ℕ
blkdev_max = 16

-- `BLKDEV_NAME_MAX`
abbrev pub name_max : ℕ
name_max = 12

-- `blkdev_kind_t`
abbrev pub kind_disk : ℕ
kind_disk = 1

abbrev pub kind_part : ℕ
kind_part = 2

abbrev pub no_parent : ℕ
no_parent = 0xffffffff

-- A pointer to a `blkdev_ops_t`: a driver's, or that of the partition at an index.
pub data Ops : Type 0 where
  driver part_ops : ℕ → Ops

-- `blkdev_info_t`; a name is its characters before the NUL.
pub record DevInfo : Type 0 where
  pub name : List ℕ
  pub kind : ℕ
  pub sector_size : ℕ
  pub sectors : ℕ
  pub readonly : ℕ
  pub major : ℕ
  pub minor : ℕ
  pub parent_index : ℕ
  pub start_sector : ℕ
  pub partition_number : ℕ

-- `blkdev_entry_t`
pub record DevEntry : Type 0 where
  pub info : DevInfo
  pub ops : Option Ops

abbrev pub zero_entry : DevEntry
zero_entry = record {
  info = record {
    name = [];
    kind = 0;
    sector_size = 0;
    sectors = 0;
    readonly = 0;
    major = 0;
    minor = 0;
    parent_index = 0;
    start_sector = 0;
    partition_number = 0;
  };
  ops = none;
}

-- `blkdev_table[i].info.name[0] == 0`
unfoldable pub is_free : DevEntry → Bool
is_free e = length e.info.name == 0

unfoldable pub name_equals : List ℕ → List ℕ → Bool
name_equals [] [] = true
name_equals [] (b ∷ bs) = false
name_equals (a ∷ xs) [] = false
name_equals (a ∷ xs) (b ∷ bs) = (a == b) && name_equals xs bs

unfoldable pub name_is_valid : List ℕ → Bool
name_is_valid name = not (length name == 0) && ltb (length name) name_max

-- `blkdev_reset`
abbrev pub empty_table : List DevEntry
empty_table = replicate blkdev_max zero_entry

-- The loop of `blkdev_alloc_slot` from index `i` on.
unfoldable pub alloc_slot : List DevEntry → ℕ → Option ℕ
alloc_slot [] i = none
alloc_slot (e ∷ es) i = if is_free e then some i else alloc_slot es (i + 1)

-- The loop of `blkdev_find_index` from index `i` on.
unfoldable pub find_index : List DevEntry → List ℕ → ℕ → Option ℕ
find_index [] name i = none
find_index (e ∷ es) name i =
    if not (is_free e) && name_equals e.info.name name then some i else find_index es name (i + 1)

abbrev pub is_known : List DevEntry → List ℕ → Bool
is_known table name = elim (find_index table name 0) [ none ↦ false | some i ↦ true ]

-- The write of an entry into the first free slot, where there is one; a status of `true` is 0.
unfoldable pub put_entry : List DevEntry → (ℕ → DevEntry) → Bool × List DevEntry
put_entry table entry = elim (alloc_slot table 0) [
  | none ↦ (false, table)
  | some idx ↦ (true, set table idx (entry idx))
]

unfoldable pub disk_entry : List ℕ → ℕ → ℕ → ℕ → Ops → DevEntry
disk_entry name major minor sectors ops = record {
  info = record {
    name = name;
    kind = kind_disk;
    sector_size = 512;
    sectors = sectors;
    readonly = 0;
    major = major;
    minor = minor;
    parent_index = no_parent;
    start_sector = 0;
    partition_number = 0;
  };
  ops = some ops;
}

unfoldable pub register_disk :
    List DevEntry → List ℕ → ℕ → ℕ → ℕ → Option Ops → Bool × List DevEntry
register_disk table name major minor sectors none = (false, table)
register_disk table name major minor sectors (some ops) =
    if not (name_is_valid name) || sectors == 0 || is_known table name
    then (false, table)
    else put_entry table (λ idx. disk_entry name major minor sectors ops)

-- `blkdev_part_ops_for_index` gives a table for every index of a slot.
unfoldable pub part_entry : DevInfo → List ℕ → ℕ → ℕ → ℕ → ℕ → ℕ → DevEntry
part_entry parent name parent_index number start sectors idx = record {
  info = record {
    name = name;
    kind = kind_part;
    sector_size = 512;
    sectors = sectors;
    readonly = parent.readonly;
    major = parent.major;
    minor = (parent.minor + number) % 2 ^ 32;
    parent_index = parent_index;
    start_sector = start;
    partition_number = number;
  };
  ops = some (part_ops idx);
}

unfoldable pub register_part : List DevEntry → List ℕ → ℕ → ℕ → ℕ → ℕ → Bool × List DevEntry
register_part table name parent_index number start sectors = elim (get_elem? table parent_index) [
  | none ↦ (false, table)
  | some parent ↦
      if not (name_is_valid name) || sectors == 0 || is_known table name
      then (false, table)
      else if is_free parent || not (parent.info.kind == kind_disk)
      then (false, table)
      else if leb parent.info.sectors start || ltb (parent.info.sectors - start) sectors
      then (false, table)
      else put_entry table (part_entry parent.info name parent_index number start sectors)
]

unfoldable pub register : List DevEntry → List ℕ → Option Ops → Bool × List DevEntry
register table name ops = register_disk table name 0 0 0xffffffff ops

unfoldable pub get : List DevEntry → List ℕ → Option Ops
get table name = find_index table name 0 >>= λ idx. get_elem? table idx >>= λ e. e.ops

unfoldable pub ops_at : List DevEntry → ℕ → Option Ops
ops_at table index = get_elem? table index >>= λ e. if is_free e then none else e.ops

unfoldable pub count : List DevEntry → ℕ
count [] = 0
count (e ∷ es) = if is_free e then count es else count es + 1

unfoldable pub info_for_index : List DevEntry → ℕ → Option DevInfo
info_for_index table index = get_elem? table index >>= λ e. if is_free e then none else some e.info

-- `blkdev_info_at`: the entry in use with so many in use before it.
unfoldable pub info_at : List DevEntry → ℕ → Option DevInfo
info_at [] index = none
info_at (e ∷ es) index =
    let next = info_at es (index - 1) in
    let same = info_at es index in
    if is_free e then same else if index == 0 then some e.info else next

-- The rest of `part_translate`, once the entry is known.
unfoldable pub on_parent : List DevEntry → DevInfo → ℕ → Option (Ops × ℕ)
on_parent table info lba =
    if not (info.kind == kind_part) || leb info.sectors lba
    then none
    else ops_at table info.parent_index >>= λ ops. some (ops, (info.start_sector + lba) % 2 ^ 32)

-- The parent's operations and the sector of the parent for a sector of a partition.
unfoldable pub translate : List DevEntry → ℕ → ℕ → Option (Ops × ℕ)
translate table part_index lba =
    info_for_index table part_index >>= λ info. on_parent table info lba

-- ===== src/Blk/Sectors.antt =====
-- Sectors of the partitions of kernel/drivers/blkdev_part.c are sectors of their disks.
use drunix_os.Blk.Inside.{IsValid}
use drunix_os.Blk.Table.{
  on_parent, ops_at, info_for_index, translate, kind_disk, Ops, is_free, kind_part, DevEntry,
}
use drunix_os.Base.{
  ℕ, ◌+◌, ◌%◌, ◌^◌, ◌<◌, ◌≡◌, inl, inr, false, not, ◌||◌, some, List, arith, leb, ◌==◌, Bool-cases,
  >>=-eq-some, get_elem?,
}

-- The sector of a partition, as a sector of the disk and with the disk's operations.
abbrev pub OnSector : List DevEntry → ℕ → ℕ → Ops → ℕ → Type 0
OnSector table index lba ops sector =
    (e d : DevEntry) × (get_elem? table index ≡ some e)
    × (get_elem? table e.info.parent_index ≡ some d)
    × (d.info.kind ≡ kind_disk)
    × (d.ops ≡ some ops)
    × (sector ≡ e.info.start_sector + lba)
    × (sector < d.info.sectors)

ops_at-used :
    (table : List DevEntry) (index : ℕ) (d : DevEntry)
    → get_elem? table index ≡ some d
    → is_free d ≡ false
    → ops_at table index ≡ d.ops
unfolding ops_at
ops_at-used table index d at used = ground arith

part-OnSector :
    (table : List DevEntry) (index lba sector : ℕ) (ops : Ops) (e : DevEntry)
    → IsValid table
    → get_elem? table index ≡ some e
    → is_free e ≡ false
    → on_parent table e.info lba ≡ some (ops, sector)
    → OnSector table index lba ops sector
unfolding on_parent
part-OnSector table index lba sector ops e v at used h =
    elim (Bool-cases (not (e.info.kind == kind_part) || leb e.info.sectors lba)) [
      | inl bad ↦ absurd (ground arith)
      | inr fine ↦
          let (d, there, on, kind, inside) = (v.proper index e at used).1 (ground arith) in
          let (size, any) = v.proper e.info.parent_index d there on in
          let (o, given, result) =
            >>=-eq-some (ops_at table e.info.parent_index) _ (rw fine at h) in
          let own = ops_at-used table e.info.parent_index d there on in
          let whole : e.info.start_sector + lba < d.info.sectors = ground arith in
          let small : (e.info.start_sector + lba) % 2 ^ 32 ≡ e.info.start_sector + lba =
            omega arith in
          (e, d, at, there, kind, ground arith, ground arith, ground arith)
    ]

-- What `part_translate` gives for a sector of a partition of a valid table is a sector of the disk that
-- holds the partition, its own one that is `start_sector` further, and the disk's operations.
pub translate_inside :
    (table : List DevEntry) (index lba sector : ℕ) (ops : Ops)
    → IsValid table
    → translate table index lba ≡ some (ops, sector)
    → OnSector table index lba ops sector
unfolding translate info_for_index
translate_inside table index lba sector ops v h =
    let (info, found, rest) = >>=-eq-some (info_for_index table index) _ h in
    let (e, at, taken) = >>=-eq-some (get_elem? table index) _ found in
    let used : is_free e ≡ false = ground arith in
    let mine : info ≡ e.info = ground arith in
    part-OnSector table index lba sector ops e v at used (rw mine at rest)

-- ===== src/Blk/Tests.antt =====
-- Runs of the model of kernel/drivers/blkdev.c on small inputs.
use drunix_os.Blk.Sectors.{translate_inside, OnSector}
use drunix_os.Blk.Inside.{step, run-empty_table-IsValid, part, disk, run, Call, IsValid}
use drunix_os.Blk.Table.{
  on_parent, name_equals, part_entry, disk_entry, put_entry, alloc_slot, find_index, name_is_valid,
  register_part, register_disk, is_free, ops_at, empty_table, info_for_index, driver, DevEntry,
  translate,
}
use drunix_os.Base.{true, ◌≡◌, refl, some, List, [], ◌∷◌}

-- A disk of 1000 sectors, and a partition of it from sector 100 on.
abbrev two_calls : List Call
two_calls =
    disk (115 ∷ 100 ∷ 97 ∷ []) 8 0 1000 (some (driver 0))
    ∷ part (115 ∷ 100 ∷ 97 ∷ 49 ∷ []) 0 1 100 900
    ∷ []

abbrev devices : List DevEntry
devices = run empty_table two_calls

run-empty_table-IsValid_example : IsValid (run empty_table two_calls)
run-empty_table-IsValid_example = run-empty_table-IsValid two_calls

part_sector : translate devices 1 899 ≡ some (driver 0, 999)
unfolding translate on_parent info_for_index ops_at is_free run step register_disk register_part
    name_is_valid find_index alloc_slot put_entry disk_entry part_entry name_equals
part_sector = refl

translate_inside_example : OnSector devices 1 899 (driver 0) 999
translate_inside_example =
    translate_inside devices 1 899 999 (driver 0) run-empty_table-IsValid_example part_sector

abbrev with_disk : List DevEntry
with_disk = (register_disk empty_table (115 ∷ []) 8 0 1000 (some (driver 3))).1

registered : register_disk empty_table (115 ∷ []) 8 0 1000 (some (driver 3)) ≡ (true, with_disk)
unfolding register_disk name_is_valid find_index is_free alloc_slot put_entry
registered = refl

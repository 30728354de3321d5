-- ===== src/Boot/Partition/Tests.antt =====
-- The search in a sector with the signature, whose second entry is of Linux and begins at 0x10203.
use pepin_os.Base.{◌≡◌, refl, ◌⊎◌, ◌==◌, if◌then◌else◌}
use pepin_os.Drivers.Ide.{Drive, ide_read_sector, ide_select_sector}
use pepin_os.Boot.Partition.{
  IsSigned, First, scan_entries, mbr_find_partition, mbr_find_partition_lem,
}

-- The word 233 has the type of the second entry in its low byte: 0x1BE + 16 + 4 is 466.
abbrev disk : Drive
disk lba w =
    if w == 255
    then 0xAA55
    else if w == 233
    then 0x83
    else if w == 235
    then 0x0203
    else if w == 236
    then 0x0001
    else 0

mbr_find_partition_lem_example :
    (IsSigned disk × First disk 4 0 (mbr_find_partition disk (λ _. 0)))
    ⊎ ((¬ IsSigned disk) × (mbr_find_partition disk (λ _. 0) ≡ 0))
mbr_find_partition_lem_example = mbr_find_partition_lem disk (λ _. 0)

second_entry : mbr_find_partition disk (λ _. 0) ≡ 0x10203
unfolding mbr_find_partition scan_entries ide_read_sector ide_select_sector
second_entry = refl

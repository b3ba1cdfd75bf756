-- ===== src/Mydisk/Tests.antt =====
-- The theorem of egos-2000/library/file/file0.c applied to the memory store.
use operating_systems_compon.Base.{◌≡◌, some, arith}
use operating_systems_compon.Treedisk.Store.{
  Block, null_block, Ram, ramdisk, ramdisk-IsStore, ramdisk-IsWritable,
}
use operating_systems_compon.Mydisk.{mydisk_write, IsWritten, mydisk_write-IsWritten}

abbrev empty_disk : Ram
empty_disk b = null_block

abbrev some_block : Block
some_block word = word

mydisk_write-IsWritten_example :
    (s' : Ram) × (mydisk_write ramdisk empty_disk 3 5 some_block ≡ some s')
    × IsWritten ramdisk empty_disk s' 3 5 some_block
mydisk_write-IsWritten_example =
    mydisk_write-IsWritten ramdisk-IsStore ramdisk-IsWritable empty_disk 3 5 some_block
      (omega arith) (omega arith)

-- ===== src/Servers/Files/Tests.antt =====
-- Reads from a small disk through the file server egos-2000/apps/system/sys_file.c.
use operating_systems_compon.Base.{ℕ, ◌≡◌, refl, minus_one, Option, none, some}
use operating_systems_compon.Treedisk.Store.{ramdisk}
use operating_systems_compon.Treedisk.Tests.{disk, disk-read}
use operating_systems_compon.Servers.Files.{BlockRead, file_read, reply_to, serve}

read_block : Option BlockRead
read_block = file_read ramdisk (λ j. 0) disk 0 0 (λ j. 9)

result_of : Option BlockRead → ℕ
result_of none = minus_one
result_of (some r) = r.result

block_of : Option BlockRead → ℕ → ℕ
block_of none j = 0
block_of (some r) j = r.block j

-- The read succeeds, and byte 512 of the caller's block is as it was.
read_result : result_of read_block ≡ 0
unfolding read_block result_of file_read serve reply_to
read_result = rw disk-read refl

read_end : block_of read_block 512 ≡ 9
unfolding read_block block_of file_read serve reply_to
read_end = rw disk-read refl

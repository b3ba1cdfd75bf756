-- ===== src/Servers/Files.antt =====
-- The file server egos-2000/apps/system/sys_file.c over the tree file system, and `file_read` of
-- egos-2000/library/syscall/servers.c, which sends a request to it and waits for the reply.
mod Tests
use operating_systems_compon.Base.{
  ℕ, ◌/◌, ◌%◌, ◌^◌, Bool, true, false, Option, none, some, ◌==◌, ltb, minus_one, if◌then◌else◌,
  ◌>>=◌,
}
use operating_systems_compon.Mmu.{Page}
use operating_systems_compon.Treedisk.{Outcome, ok, failed, panic, treedisk_read}
use operating_systems_compon.Treedisk.Store.{Block, InodeStore}

-- `FILE_READ`.
abbrev pub file_read_request : ℕ
file_read_request = 1

-- `struct file_request` without the block.
pub record FileRequest : Type 0 where
  pub kind : ℕ
  pub ino : ℕ
  pub offset : ℕ

-- `struct file_reply`: is the status FILE_OK, and the bytes of the block?
pub record FileReply : Type 0 where
  pub status_ok : Bool
  pub block : Page

-- What `file_read` leaves: the caller's block and the returned number, -1 as an unsigned word.
pub record BlockRead : Type 0 where
  pub block : Page
  pub result : ℕ

-- The bytes of a block, whose words are stored with the low byte first.
pub bytes_of : Block → Page
bytes_of b j = b (j / 4) / 256 ^ (j % 4) % 256

-- The reply to a read; where it fails, the bytes that stand in the buffer are sent.
pub reply_to : (buf : Page) → Outcome Block → Option FileReply
reply_to buf (ok b) = some (record { status_ok = true; block = bytes_of b })
reply_to buf failed = some (record { status_ok = false; block = buf })
reply_to buf panic = none

module _ {St : Type 0} (below : InodeStore St) where
  -- A round of the loop of the file server; `none` is the FATAL stop.
  pub serve : (buf : Page) → St → FileRequest → Option FileReply
  serve buf s req =
      if req.kind == file_read_request
      then reply_to buf (treedisk_read below 0 s req.ino req.offset)
      else none

  -- `file_read`: the request goes to the file server and its reply comes back; 512 bytes are copied to
  -- the block of the caller, also where the status is not FILE_OK.
  pub file_read : (buf : Page) → St → (file_ino offset : ℕ) → (block : Page) → Option BlockRead
  file_read buf s file_ino offset block = do
    reply ← serve buf s (record { kind = file_read_request; ino = file_ino; offset = offset })
    some (record {
      block = λ j. if ltb j 512 then reply.block j else block j;
      result = if reply.status_ok then 0 else minus_one;
    })

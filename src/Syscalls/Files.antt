-- ===== src/Syscalls/Files.antt =====
-- `sys$2_read` and `sys$3_write`, with `VFS::read` and `VFS::write`, kernel/src/interrupts/syscalls.cpp
-- and kernel/src/virtual_filesystem.cpp. The driver of the file is a function of its state, the
-- offset and the count, since the call is virtual; a missing file is a null pointer, which
-- `sys$2_read` follows: it has no result then.
pub mod Reads
mod Examples
use lensor_os.Prelude.{
  ℕ, ◌-◌, ◌%◌, ◌^◌, Bool, true, false, Option, none, some, if◌then◌else◌, leb, ltb,
}
use lensor_os.Prelude.Words.{add64, sub64}
use lensor_os.Process.{Process, ProcessState, sleeping, valid_address}
use lensor_os.Storage.Pipe.{Outcome, moved, failed, retry}

-- The size and the cursor of `FileMetadata`.
pub record FileMetadata : Type 0 where
  pub offset : ℕ
  pub file_size : ℕ

-- How a call ends: with a value, or in the scheduler, which does not come back.
pub data Answer : Type 0 where
  returned : ℕ → Answer
  yielded : Answer

pub record Call (D : Type 0) : Type 0 where
  pub answer : Answer
  pub file : FileMetadata
  pub process : Process
  pub driver : D

-- `-1` as the call's `int`.
abbrev pub int_minus_one : ℕ
int_minus_one = 2 ^ 32 - 1

-- The count that `sys$2_read` passes on. The sum wraps.
unfoldable pub clip : ℕ → FileMetadata → ℕ
clip byte_count f =
    if ltb f.file_size (add64 f.offset byte_count) then sub64 f.file_size f.offset else byte_count

module _ {D : Type 0} where
  -- What follows the transfer in both calls.
  unfoldable pub finish : Outcome → FileMetadata → Process → D → Call D
  finish (moved n) f p d = record {
    answer = returned (n % 2 ^ 32);
    file = record f { offset = add64 f.offset n };
    process = p;
    driver = d;
  }
  finish failed f p d = record {
    answer = returned int_minus_one;
    file = f;
    process = p;
    driver = d;
  }
  finish retry f p d = record {
    answer = yielded;
    file = f;
    process = record p { state = sleeping };
    driver = d;
  }

module _ {D : Type 0} (drive : ℕ → ℕ → D → Outcome × D) where
  -- `VFS::read` and `VFS::write`, at the offset of the call and that of the cursor.
  unfoldable pub vfs_transfer : FileMetadata → ℕ → ℕ → D → Outcome × D
  vfs_transfer f byte_count byte_offset d = drive (add64 byte_offset f.offset) byte_count d

  unfoldable pub sys_read_file : ℕ → FileMetadata → Process → D → Call D
  unfolding finish clip vfs_transfer
  sys_read_file byte_count f p d =
      if leb f.file_size f.offset
      then record { answer = returned 0; file = f; process = p; driver = d }
      else let (outcome, d') = vfs_transfer f (clip byte_count f) 0 d in finish outcome f p d'

  unfoldable pub sys_read :
      ℕ
      → ℕ
      → Option FileMetadata
      → Process
      → D
      → Option (Answer × Option FileMetadata × Process × D)
  sys_read buffer byte_count file p d =
      if valid_address buffer p
      then elim file [
        | none ↦ none
        | some f ↦
            let c = sys_read_file byte_count f p d in
            some (c.answer, some c.file, c.process, c.driver)
      ]
      else some (returned 0, file, p, d)

  -- `sys$3_write`; `VFS::write` answers -1 for a missing file.
  unfoldable pub sys_write_file : ℕ → FileMetadata → Process → D → Call D
  unfolding finish vfs_transfer
  sys_write_file byte_count f p d =
      let (outcome, d') = vfs_transfer f byte_count 0 d in finish outcome f p d'

  unfoldable pub sys_write :
      ℕ → ℕ → Option FileMetadata → Process → D → Answer × Option FileMetadata × Process × D
  sys_write buffer byte_count file p d =
      if valid_address buffer p
      then elim file [
        | none ↦ (returned int_minus_one, none, p, d)
        | some f ↦
            let c = sys_write_file byte_count f p d in (c.answer, some c.file, c.process, c.driver)
      ]
      else (returned 0, file, p, d)

-- ===== src/Storage/Fifo.antt =====
-- `FIFOBuffer<N>` of kernel/src/storage/filesystem_drivers/socket.h. `N` is the argument `size`; the
-- sum in the guard of `write` is one of `usz`.
pub mod Laws
pub mod Stream
use lensor_os.Prelude.{
  ℕ, ◌+◌, ◌-◌, Bool, List, [], ◌∷◌, ◌++◌, ltb, if◌then◌else◌, ◌==◌, length, take, replicate,
}
use lensor_os.Prelude.Words.{add64, minus_two}
use lensor_os.Process.Table.{Table, wake_all}
use lensor_os.Storage.Bytes.{overwrite, shift_down}
use lensor_os.Storage.Pipe.{Outcome, moved, retry}

pub record FifoBuffer : Type 0 where
  pub bytes : List ℕ
  pub offset : ℕ
  pub waiting_until_read : List ℕ
  pub waiting_until_write : List ℕ

-- What a call returns and leaves, as for a pipe.
pub record Result : Type 0 where
  pub outcome : Outcome
  pub out : List ℕ
  pub fifo : FifoBuffer
  pub table : Table

module _ (size : ℕ) where
  -- A new buffer, and what `clear` makes of one.
  abbrev pub clear : FifoBuffer
  clear = record {
    bytes = replicate size 0;
    offset = 0;
    waiting_until_read = [];
    waiting_until_write = [];
  }

  -- `write`: the caller's buffer has `byte_count` bytes at least.
  unfoldable pub write : ℕ → ℕ → List ℕ → FifoBuffer → Table → Result
  write pid byte_count buffer f t =
      if ltb size (add64 f.offset byte_count)
      then record {
        outcome = retry;
        out = [];
        fifo = record f { waiting_until_read = f.waiting_until_read ++ (pid ∷ []) };
        table = t;
      }
      else record {
        outcome = moved byte_count;
        out = [];
        fifo = record f {
          bytes = overwrite f.bytes f.offset (take byte_count buffer);
          offset = add64 f.offset byte_count;
          waiting_until_write = [];
        };
        table = wake_all f.waiting_until_write minus_two t;
      }

-- `read`
unfoldable pub read : ℕ → ℕ → FifoBuffer → Table → Result
read pid byte_count f t =
    let count = if ltb f.offset byte_count then f.offset else byte_count in
    if f.offset == 0
    then record {
      outcome = retry;
      out = [];
      fifo = record f { waiting_until_write = f.waiting_until_write ++ (pid ∷ []) };
      table = t;
    }
    else record {
      outcome = moved count;
      out = take count f.bytes;
      fifo = record f {
        bytes = shift_down count f.bytes;
        offset = f.offset - count;
        waiting_until_read = [];
      };
      table = wake_all f.waiting_until_read minus_two t;
    }

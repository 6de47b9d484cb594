-- ===== src/Storage/Pipe.antt =====
-- The pipe driver, kernel/src/storage/filesystem_drivers/pipe.h and pipe.cpp. A pipe buffer lives at
-- an address; a read or write takes the process that is scheduled and the table of processes, in
-- which it wakes those that wait. `open` only panics, so no pipe has a name.
pub mod Stream
pub mod Wake
pub mod Driver
mod Examples
use lensor_os.Prelude.{
  ℕ, zero, suc, ◌+◌, ◌-◌, Bool, true, false, ◌&&◌, not, Option, none, some, List, [], ◌∷◌, ◌++◌,
  leb, ltb, if◌then◌else◌, ◌==◌, length, take, drop, replicate,
}
use lensor_os.Prelude.Words.{minus_one, minus_two}
use lensor_os.Event.Queue.{contains, update}
use lensor_os.Process.Table.{Table, wake_all}
use lensor_os.Storage.Bytes.{overwrite, shift_down}

abbrev pub pipe_bufsz : ℕ
pipe_bufsz = 512

pub record PipeBuffer : Type 0 where
  pub bytes : List ℕ
  pub offset : ℕ
  pub read_closed : Bool
  pub write_closed : Bool
  pub waiting_to_write : List ℕ
  pub waiting_to_read : List ℕ

-- A new buffer, and what `clear` makes of one.
abbrev pub clear_buffer : PipeBuffer
clear_buffer = record {
  bytes = replicate pipe_bufsz 0;
  offset = 0;
  read_closed = false;
  write_closed = false;
  waiting_to_write = [];
  waiting_to_read = [];
}

pub data EndType : Type 0 where
  read_end : EndType
  write_end : EndType

pub record PipeEnd : Type 0 where
  pub buffer : ℕ
  pub end : EndType

-- The `ssz` that a read or write returns: a count, -1, or -2, at which the caller is to block and
-- to try again.
pub data Outcome : Type 0 where
  moved : ℕ → Outcome
  failed : Outcome
  retry : Outcome

-- What a call returns and what it leaves: the bytes put into the caller's buffer, the pipe, and the
-- processes.
pub record Result : Type 0 where
  pub outcome : Outcome
  pub out : List ℕ
  pub pipe : PipeBuffer
  pub table : Table

abbrev pub result : Outcome → List ℕ → PipeBuffer → Table → Result
result o bs p t = record { outcome = o; out = bs; pipe = p; table = t }

-- `read` of a pipe by process `pid`.
unfoldable pub read_buffer : ℕ → ℕ → PipeBuffer → Table → Result
read_buffer pid byte_count p t =
    let count = if ltb p.offset byte_count then p.offset else byte_count in
    if p.offset == 0
    then (if p.write_closed
        then result failed [] p t
        else result retry [] (record p { waiting_to_read = p.waiting_to_read ++ (pid ∷ []) }) t)
    else result (moved count) (take count p.bytes)
        (record p {
          bytes = shift_down count p.bytes;
          offset = p.offset - count;
          waiting_to_write = [];
        })
        (wake_all p.waiting_to_write minus_two t)

-- `write` to a pipe by process `pid`; the bytes are those of the caller's buffer, of which there are
-- `byte_count` at least.
unfoldable pub write_buffer : ℕ → ℕ → List ℕ → PipeBuffer → Table → Result
write_buffer pid byte_count buffer p t =
    let count = if ltb pipe_bufsz byte_count then pipe_bufsz else byte_count in
    if byte_count == 0
    then result (moved 0) [] p t
    else if ltb pipe_bufsz (p.offset + count)
    then result retry [] (record p { waiting_to_write = p.waiting_to_write ++ (pid ∷ []) }) t
    else result (moved count) []
        (record p {
          bytes = overwrite p.bytes p.offset (take count buffer);
          offset = p.offset + count;
          waiting_to_read = [];
        })
        (wake_all p.waiting_to_read minus_two t)

-- The driver: its buffers by address, and the free ones with the back of the vector first.
pub record PipeDriver : Type 0 where
  pub buffers : ℕ → PipeBuffer
  pub free_buffers : List ℕ
  pub counter : ℕ

abbrev pub store : ℕ → PipeBuffer → PipeDriver → PipeDriver
store address p d = record d { buffers = update d.buffers address p }

-- The metadata of an open file, and the pipe end that is its driver data: either may be null.
abbrev pub Meta : Type 0
Meta = Option (Option PipeEnd)

-- `PipeDriver::read`, with the driver and the table of processes that it leaves.
unfoldable pub read : Meta → ℕ → ℕ → PipeDriver → Table → Outcome × List ℕ × PipeDriver × Table
read none pid byte_count d t = (failed, [], d, t)
read (some none) pid byte_count d t = (failed, [], d, t)
read (some (some e)) pid byte_count d t =
    let r = read_buffer pid byte_count (d.buffers e.buffer) t in
    (r.outcome, r.out, store e.buffer r.pipe d, r.table)

-- `PipeDriver::write`.
unfoldable pub write : Meta → ℕ → ℕ → List ℕ → PipeDriver → Table → Outcome × PipeDriver × Table
write none pid byte_count buffer d t = (failed, d, t)
write (some none) pid byte_count buffer d t = (failed, d, t)
write (some (some e)) pid byte_count buffer d t =
    let r = write_buffer pid byte_count buffer (d.buffers e.buffer) t in
    (r.outcome, store e.buffer r.pipe d, r.table)

-- The end of `close`: a buffer with both ends closed is cleared and becomes free, unless it is.
unfoldable pub release : ℕ → PipeDriver → PipeDriver
release address d =
    let p = d.buffers address in
    if not (p.read_closed && p.write_closed)
    then d
    else if contains d.free_buffers address
    then d
    else record d {
      buffers = update d.buffers address clear_buffer;
      free_buffers = address ∷ d.free_buffers;
    }

-- `close` of one end of the buffer at an address: the processes that wait for the other side to do
-- something with this end are woken with -1.
unfoldable pub close_end : EndType → ℕ → PipeDriver → Table → PipeDriver × Table
close_end read_end address d t =
    let p = d.buffers address in
    if p.read_closed then (d, t) else (
      release address (store address (record p { read_closed = true; waiting_to_write = [] }) d),
      wake_all p.waiting_to_write minus_one t,
    )
close_end write_end address d t =
    let p = d.buffers address in
    if p.write_closed then (d, t) else (
      release address (store address (record p { write_closed = true; waiting_to_read = [] }) d),
      wake_all p.waiting_to_read minus_one t,
    )

-- `PipeDriver::close` of a file whose driver data is a pipe end; null metadata is ignored.
unfoldable pub close : Option PipeEnd → PipeDriver → Table → PipeDriver × Table
close none d t = (d, t)
close (some e) d t = close_end e.end e.buffer d t

-- `lay_pipe`, by cases on the free buffers: one of them is used again, or `new` gives one at an
-- address that it chooses. The address of the buffer, and the driver.
unfoldable pub lay_from : List ℕ → ℕ → PipeDriver → ℕ × PipeDriver
lay_from [] fresh d = (fresh, store fresh clear_buffer d)
lay_from (a ∷ rest) fresh d = (a, record d { free_buffers = rest })

unfoldable pub lay_pipe : ℕ → PipeDriver → PipeEnd × PipeEnd × PipeDriver
lay_pipe fresh d =
    let (a, d') = lay_from d.free_buffers fresh d in
    (
      record { buffer = a; end = read_end },
      record { buffer = a; end = write_end },
      record d' { counter = d.counter + 1 },
    )

-- ===== src/Syscalls/Pipes.antt =====
-- `sys$12_repfd` and `sys$13_pipe`, kernel/src/interrupts/syscalls.cpp.
mod Examples
use lensor_os.Prelude.{
  ℕ, zero, suc, ◌+◌, ◌≡◌, ◌≢◌, ◌⊎◌, ◌∙◌, refl, sym, ap, Bool, true, false, Option, none, some, List,
  arith, if◌then◌else◌, ◌==◌, Bool-cases, Option-cases, inl, inr,
}
use lensor_os.Prelude.Words.{minus_one}
use lensor_os.Event.Queue.{contains, update}
use lensor_os.Process.{Process, valid_address}
use lensor_os.Storage.Pipe.{PipeEnd, read_end, write_end, Meta, PipeDriver, lay_pipe, clear_buffer}
use lensor_os.Storage.Pipe.Driver
use lensor_os.Storage.Pipe.Driver.{Laid, lay_pipe_lem}
use lensor_os.Storage.VirtualFilesystem.{
  Vfs, Change, FileDescriptors, procfd_to_fd, file, file_of, add_file, dup2,
}
use lensor_os.Storage.VirtualFilesystem.Tables.{IsSound, add_file-IsSound, file_of-Opened}

-- What the calls reach: the table of files, the process that is scheduled, the pipe driver, and the
-- driver data of each metadata.
pub record System : Type 0 where
  pub vfs : Vfs
  pub process : Process
  pub pipes : PipeDriver
  pub ends : ℕ → Meta

-- The addresses that `new` gives to the pipe buffer and to the metadata of the two ends.
pub record Allocated : Type 0 where
  pub buffer : ℕ
  pub read_meta : ℕ
  pub write_meta : ℕ

-- `FileDescriptors::Process`
abbrev pub process_fd : FileDescriptors → ℕ
process_fd none = minus_one
process_fd (some (procfd, _)) = procfd

-- `sys$12_repfd`, which ignores whether `dup2` succeeded; the outer `none` is a fault. The metadata
-- that are destroyed come with the system.
unfoldable pub sys_repfd : ℕ → ℕ → System → Option (System × List ℕ)
sys_repfd fd replaced s = elim (dup2 fd replaced s.vfs s.process) [
  | none ↦ none
  | some (_, c) ↦ some (record s { vfs = c.vfs; process = c.process }, c.destroyed)
]

-- What `sys$13_pipe` does with a valid pointer: the descriptors of the two ends, and the system.
unfoldable pub make_pipe : Allocated → System → (ℕ × ℕ) × System
make_pipe new s =
    let (r, w, pipes) = lay_pipe new.buffer s.pipes in
    let (read_fds, c) = add_file (some new.read_meta) s.vfs s.process in
    let (write_fds, c') = add_file (some new.write_meta) c.vfs c.process in
    (
      (process_fd read_fds, process_fd write_fds),
      record {
        vfs = c'.vfs;
        process = c'.process;
        pipes = pipes;
        ends = update (update s.ends new.read_meta (some (some r))) new.write_meta (some (some w));
      },
    )

-- `sys$13_pipe`: at `none` it returns -1, else it returns 0 with the two descriptors in `fds`.
unfoldable pub sys_pipe : ℕ → Allocated → System → Option (ℕ × ℕ) × System
sys_pipe fds new s =
    let (made, s') = make_pipe new s in
    if valid_address fds s.process then (some made, s') else (none, s)

-- What the descriptors `r` and `w` of a new pipe are.
pub record Piped (new : Allocated) (s : System) (r w : ℕ) (s' : System) : Type 0 where
  pub distinct : r ≢ w
  pub fresh : (procfd_to_fd s.process r ≡ none) × (procfd_to_fd s.process w ≡ none)
  pub reads : file_of s'.vfs s'.process r ≡ some new.read_meta
  pub writes : file_of s'.vfs s'.process w ≡ some new.write_meta
  pub others : (j : ℕ) → j ≢ r → j ≢ w → file_of s'.vfs s'.process j ≡ file_of s.vfs s.process j
  pub buffer : ℕ
  pub reads_from : s'.ends new.read_meta ≡ some (some (record { buffer = buffer; end = read_end }))
  pub writes_to : s'.ends new.write_meta ≡ some (some (record { buffer = buffer; end = write_end }))
  pub laid : Laid s.pipes buffer s'.pipes
  pub sound : IsSound s'.vfs s'.process

sys_pipe_valid :
    (fds : ℕ) (new : Allocated) (s : System)
    → IsSound s.vfs s.process
    → Driver.IsSound s.pipes
    → contains s.pipes.free_buffers new.buffer ≡ false
    → new.read_meta ≢ new.write_meta
    → valid_address fds s.process ≡ true
    → (r : ℕ) × (w : ℕ) × (s' : System) × (sys_pipe fds new s ≡ (some (r, w), s'))
      × Piped new s r w s'
unfolding sys_pipe make_pipe lay_pipe
sys_pipe_valid fds new s h d unused apart allowed =
    let (o, h1) = add_file-IsSound s.vfs s.process new.read_meta h in
    let first = add_file (some new.read_meta) s.vfs s.process in
    let (o', h2) = add_file-IsSound first.1.vfs first.1.process new.write_meta h1 in
    let second = add_file (some new.write_meta) first.1.vfs first.1.process in
    let (_, _, same, laid) = lay_pipe_lem new.buffer s.pipes d unused in
    let leads = file_of-Opened s.vfs s.process new.read_meta first h o in
    let leads' = file_of-Opened first.1.vfs first.1.process new.write_meta second h1 o' in
    let distinct : o.procfd ≢ o'.procfd = ground (arith, o.reads o'.procfd, o'.fresh) in
    let other : new.read_meta == new.write_meta ≡ false = ground arith in
    let self : (x : ℕ) → x == x ≡ true = λ x. ground arith in
    (
      o.procfd,
      o'.procfd,
      (make_pipe new s).1,
      rw (sys_pipe, make_pipe, allowed, o.returned, o'.returned) refl,
      record {
        distinct = distinct;
        fresh = (o.fresh, ground (arith, o.reads o'.procfd, o'.fresh));
        reads = ground (arith, leads o.procfd, leads' o.procfd);
        writes = ground (arith, leads' o'.procfd);
        others = λ j a b. ground (arith, leads j, leads' j);
        buffer = (lay_pipe new.buffer s.pipes).0.buffer;
        reads_from = rw (other, self new.read_meta) refl;
        writes_to =
            rw (self new.write_meta)
              (ap (λ b. some (some (record { buffer = b; end = write_end }))) (sym same));
        laid = laid;
        sound = h2;
      },
    )

-- In a sound state, with a new buffer that is not on the free list and two new metadata that are
-- distinct: at a valid address sys$13_pipe returns two distinct descriptors that were free, one
-- leads to the read end and the other to the write end of one buffer, which is clear, every other
-- descriptor leads where it led, and the tables and the driver are sound; at any other address it
-- returns -1 and changes nothing.
pub sys_pipe-Piped :
    (fds : ℕ) (new : Allocated) (s : System)
    → IsSound s.vfs s.process
    → Driver.IsSound s.pipes
    → contains s.pipes.free_buffers new.buffer ≡ false
    → new.read_meta ≢ new.write_meta
    → ((valid_address fds s.process ≡ true)
        × (r : ℕ) × (w : ℕ) × (s' : System) × (sys_pipe fds new s ≡ (some (r, w), s'))
        × Piped new s r w s')
      ⊎ ((valid_address fds s.process ≡ false) × (sys_pipe fds new s ≡ (none, s)))
unfolding sys_pipe
sys_pipe-Piped fds new s h d unused apart = elim (Bool-cases (valid_address fds s.process)) [
  | inl allowed ↦
      let (r, w, s', e, piped) = sys_pipe_valid fds new s h d unused apart allowed in
      inl (allowed, r, w, s', e, piped)
  | inr refused ↦ inr (refused, rw (sys_pipe, refused) refl)
]

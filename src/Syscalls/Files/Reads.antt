-- ===== src/Syscalls/Files/Reads.antt =====
-- The cursor of a file under reads, and the end of file that it stands for.
use lensor_os.Prelude.{
  ℕ, ◌+◌, ◌-◌, ◌≡◌, ◌≤◌, ◌<◌, refl, true, false, List, [], ◌∷◌, arith, if◌then◌else◌, leb,
  Bool-cases, inl, inr, sym, subst,
}
use lensor_os.Prelude.Words.{add64, u64_mod}
use lensor_os.Process.{Process}
use lensor_os.Storage.Pipe.{Outcome, moved, failed, retry}
use lensor_os.Syscalls.Files.{FileMetadata, returned, vfs_transfer, finish, clip, sys_read_file}

-- The bytes that a transfer moved.
abbrev pub bytes_moved : Outcome → ℕ
bytes_moved (moved n) = n
bytes_moved failed = 0
bytes_moved retry = 0

-- A driver moves no more bytes than it is asked to.
abbrev pub IsBounded : {D : Type 0} → (ℕ → ℕ → D → Outcome × D) → Type 0
IsBounded {D = D} drive = (offset n : ℕ) (d : D) → bytes_moved (drive offset n d).0 ≤ n

-- The cursor stands within the file, whose size is a `u64`.
abbrev pub Within : FileMetadata → Type 0
Within f = (f.offset ≤ f.file_size) × (f.file_size < u64_mod)

clip_fits :
    (f : FileMetadata) (n : ℕ)
    → Within f
    → f.offset + n < u64_mod
    → f.offset + clip n f ≤ f.file_size
unfolding clip
clip_fits f n w h = ground arith

module _ {D : Type 0} where
  finish_offset :
      (o : Outcome) (f : FileMetadata) (p : Process) (d : D)
      → f.offset + bytes_moved o < u64_mod
      → (finish o f p d).file.offset ≡ f.offset + bytes_moved o
  unfolding finish
  finish_offset (moved n) f p d h = omega arith
  finish_offset failed f p d h = omega arith
  finish_offset retry f p d h = omega arith

  finish_size :
      (o : Outcome) (f : FileMetadata) (p : Process) (d : D)
      → (finish o f p d).file.file_size ≡ f.file_size
  unfolding finish
  finish_size (moved n) f p d = refl
  finish_size failed f p d = refl
  finish_size retry f p d = refl

module _ {D : Type 0} (drive : ℕ → ℕ → D → Outcome × D) where
  -- What the driver moves in one call.
  abbrev pub delivered : ℕ → FileMetadata → D → ℕ
  delivered n f d =
      if leb f.file_size f.offset then 0 else bytes_moved (vfs_transfer drive f (clip n f) 0 d).0

  read_at_end :
      (f : FileMetadata) (n : ℕ) (p : Process) (d : D)
      → leb f.file_size f.offset ≡ true
      → sys_read_file drive n f p d
        ≡ record { answer = returned 0; file = f; process = p; driver = d }
  unfolding sys_read_file
  read_at_end f n p d h = rw h refl

  read_before_end :
      (f : FileMetadata) (n : ℕ) (p : Process) (d : D)
      → leb f.file_size f.offset ≡ false
      → let r = vfs_transfer drive f (clip n f) 0 d in
        sys_read_file drive n f p d ≡ finish r.0 f p r.1
  unfolding sys_read_file
  read_before_end f n p d h = rw h refl

  -- A read whose count does not wrap, of a driver that moves no more than it is asked, moves the
  -- cursor by the bytes that the driver moves, and never past the end of the file; the size stays.
  pub read_moves :
      (f : FileMetadata) (n : ℕ) (p : Process) (d : D)
      → IsBounded drive
      → Within f
      → f.offset + n < u64_mod
      → let c = sys_read_file drive n f p d in
        (c.file.offset ≡ f.offset + delivered n f d)
        × (c.file.offset ≤ f.file_size)
        × (c.file.file_size ≡ f.file_size)
  unfolding vfs_transfer
  read_moves f n p d b w h = elim (Bool-cases (leb f.file_size f.offset)) [
    | inl e ↦ rw (read_at_end f n p d e, e) (omega arith, w.0, refl)
    | inr e ↦
        let r = vfs_transfer drive f (clip n f) 0 d in
        let fits = clip_fits f n w h in
        let bound : bytes_moved r.0 ≤ clip n f = b (add64 0 f.offset) (clip n f) d in
        let cursor = finish_offset r.0 f p r.1 (omega arith) in
        rw (read_before_end f n p d e, e) (cursor, omega arith, finish_size r.0 f p r.1)
  ]

-- A count with which the sum wraps is passed on unclipped, though it is more than the file has left.
pub clip_wraps :
    (f : FileMetadata) (n : ℕ)
    → Within f
    → n < u64_mod
    → u64_mod ≤ f.offset + n
    → (clip n f ≡ n) × (f.file_size - f.offset < n)
unfolding clip
clip_wraps f n w small h = (ground arith, omega arith)

-- What happens around a file: a read of it, or anything else that changes its driver.
pub data Step (D : Type 0) : Type 0 where
  reads : ℕ → Step D
  elsewhere : (D → D) → Step D

-- The counts of the reads are small enough for sums with the size of the file.
abbrev pub CountsFit : {D : Type 0} → ℕ → List (Step D) → Type 0
CountsFit size [] = Unit
CountsFit size (reads n ∷ steps) = (size + n < u64_mod) × CountsFit size steps
CountsFit size (elsewhere g ∷ steps) = CountsFit size steps

module _ {D : Type 0} (drive : ℕ → ℕ → D → Outcome × D) (p : Process) where
  -- The bytes that the reads of a run deliver, and the file at its end.
  abbrev pub run_reads : List (Step D) → FileMetadata → D → ℕ × FileMetadata
  run_reads [] f d = (0, f)
  run_reads (reads n ∷ steps) f d =
      let c = sys_read_file drive n f p d in
      let rest = run_reads steps c.file c.driver in (delivered drive n f d + rest.0, rest.1)
  run_reads (elsewhere g ∷ steps) f d = run_reads steps f (g d)

  -- Over any run of reads of an open file whose cursor stands within it, of a driver that moves no
  -- more than it is asked and with counts that do not wrap when the size of the file is added,
  -- whatever else changes the driver's state in between, the bytes that the reads deliver are no more
  -- than the file's size less the cursor that the run begins with, and the cursor ends where they end.
  pub run_reads_total :
      (steps : List (Step D)) (f : FileMetadata) (d : D)
      → IsBounded drive
      → Within f
      → CountsFit f.file_size steps
      → let r = run_reads steps f d in
        (r.1.offset ≡ f.offset + r.0) × (f.offset + r.0 ≤ f.file_size)
  run_reads_total [] f d b w h = (omega arith, omega (arith, w.0))
  run_reads_total (elsewhere g ∷ steps) f d b w h = run_reads_total steps f (g d) b w h
  run_reads_total (reads n ∷ steps) f d b w h =
      let c = sys_read_file drive n f p d in
      let (moved_to, inside, kept) = read_moves drive f n p d b w (omega (arith, w.0, h.0)) in
      let w' : Within c.file = (omega arith, omega (arith, w.1)) in
      let ih =
        run_reads_total steps c.file c.driver b w'
          (subst (λ s. CountsFit s steps) (sym kept) h.1) in
      (omega (arith, ih.0), omega (arith, ih.1))

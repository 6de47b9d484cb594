-- ===== src/Storage/VirtualFilesystem/Tables.antt =====
-- Descriptors that are added, duplicated and closed keep naming the files they should.
use lensor_os.Prelude.{
  ℕ, ◌≡◌, ◌≢◌, ◌⊎◌, refl, none, some, [], arith, if◌then◌else◌, ◌==◌, Option-cases, inl, inr, sym,
  subst,
}
use lensor_os.Containers.SparseVector.{push_back}
use lensor_os.Containers.SparseVector.Invariant.{IsValid}
use lensor_os.Containers.SparseVector.Laws.{push_back_lem}
use lensor_os.Process.{Process}
use lensor_os.Storage.VirtualFilesystem.{
  Vfs, Change, unchanged, FileDescriptors, procfd_to_fd, file, file_of, add_file, dup,
}

-- No two descriptors of the process share an entry of the table.
abbrev pub Unshared : Process → Type 0
Unshared p = (i j fd : ℕ) → procfd_to_fd p i ≡ some fd → procfd_to_fd p j ≡ some fd → i ≡ j

-- Both tables are well formed, and every descriptor of the process names an entry of its own of the
-- table, where a file is open.
pub record IsSound (v : Vfs) (p : Process) : Type 0 where
  pub files : IsValid v.files
  pub descriptors : IsValid p.file_descriptors
  pub opens : (procfd fd : ℕ) → procfd_to_fd p procfd ≡ some fd → file v fd ≢ none
  pub unshared : Unshared p

-- What a new descriptor of the file `f` means: it was free, it names `f` now, and every other
-- descriptor names what it named.
pub record Opened (v : Vfs) (p : Process) (f : ℕ) (r : FileDescriptors × Change) : Type 0 where
  pub procfd : ℕ
  pub fd : ℕ
  pub returned : r.0 ≡ some (procfd, fd)
  pub fresh : procfd_to_fd p procfd ≡ none
  pub fresh_fd : file v fd ≡ none
  pub reads :
      (j : ℕ) → procfd_to_fd r.1.process j ≡ (if procfd == j then some fd else procfd_to_fd p j)
  pub stored : (j : ℕ) → file r.1.vfs j ≡ (if fd == j then some f else file v j)
  pub destroyed : r.1.destroyed ≡ []
  pub files_valid : IsValid r.1.vfs.files
  pub descriptors_valid : IsValid r.1.process.file_descriptors

add_file_lem : (v : Vfs) (p : Process) (f : ℕ) → IsSound v p → Opened v p f (add_file (some f) v p)
unfolding procfd_to_fd file add_file
add_file_lem v p f s =
    let (_, added) = push_back_lem v.files f s.files in
    let (_, mapped) =
      push_back_lem p.file_descriptors (push_back (some f) v.files).0 s.descriptors in
    record {
      procfd = _;
      fd = _;
      returned = refl;
      fresh = mapped.vacant;
      fresh_fd = added.vacant;
      reads = mapped.reads;
      stored = added.reads;
      destroyed = refl;
      files_valid = added.valid;
      descriptors_valid = mapped.valid;
    }

-- What a descriptor leads to after a file is added.
pub file_of-Opened :
    (v : Vfs) (p : Process) (f : ℕ) (r : FileDescriptors × Change)
    → IsSound v p
    → (o : Opened v p f r) → (j : ℕ)
    → file_of r.1.vfs r.1.process j ≡ (if o.procfd == j then some f else file_of v p j)
unfolding file_of procfd_to_fd
file_of-Opened v p f r s o j = elim (Option-cases (procfd_to_fd p j)) [
  | inl e ↦ ground (arith, o.reads j, o.stored o.fd)
  | inr (fd, e) ↦ ground (arith, o.reads j, o.stored o.fd, o.stored fd, o.fresh_fd, s.opens j fd e)
]

-- In a sound state, a file that is added gets descriptors that were free; they lead to the file,
-- every other descriptor leads where it led, nothing is destroyed, and the state is sound again.
pub add_file-IsSound :
    (v : Vfs) (p : Process) (f : ℕ)
    → IsSound v p
    → Opened v p f (add_file (some f) v p)
      × IsSound (add_file (some f) v p).1.vfs (add_file (some f) v p).1.process
add_file-IsSound v p f s =
    let o = add_file_lem v p f s in
    (
      o,
      record {
        files = o.files_valid;
        descriptors = o.descriptors_valid;
        opens = λ procfd fd e. ground (arith, o.reads procfd, o.stored fd, s.opens procfd fd);
        unshared = λ i j fd e e'. ground (
          arith,
          o.reads i,
          o.reads j,
          o.fresh_fd,
          s.opens i fd,
          s.opens j fd,
          s.unshared i j fd,
        );
      },
    )

dup_found :
    (v : Vfs) (p : Process) (procfd f : ℕ)
    → file_of v p procfd ≡ some f
    → dup procfd v p ≡ add_file (some f) v p
unfolding dup file_of
dup_found v p procfd f h = ground arith

-- `dup` of a descriptor that is open gives a new one of the same file, and keeps the state sound;
-- of any other it gives `Invalid` and changes nothing.
pub dup-IsSound :
    (v : Vfs) (p : Process) (procfd : ℕ)
    → IsSound v p
    → ((f : ℕ) × (file_of v p procfd ≡ some f)
        × Opened v p f (dup procfd v p)
        × IsSound (dup procfd v p).1.vfs (dup procfd v p).1.process)
      ⊎ ((file_of v p procfd ≡ none) × (dup procfd v p ≡ (none, unchanged v p)))
unfolding dup file_of
dup-IsSound v p procfd s = elim (Option-cases (file_of v p procfd)) [
  | inl n ↦ inr (n, ground arith)
  | inr (f, h) ↦
      let e = sym (dup_found v p procfd f h) in
      let (opened, sound) = add_file-IsSound v p f s in
      inl (f, h, subst (Opened v p f) e opened, subst (λ r. IsSound r.1.vfs r.1.process) e sound)
]

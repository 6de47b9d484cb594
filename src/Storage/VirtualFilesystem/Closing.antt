-- ===== src/Storage/VirtualFilesystem/Closing.antt =====
-- Descriptors that are closed or replaced.
use lensor_os.Prelude.{
  ℕ, ◌≡◌, ◌≢◌, ◌<◌, ◌⊎◌, refl, true, false, none, some, [], ◌∷◌, arith, if◌then◌else◌, ◌==◌, length,
  Option-cases, inl, inr,
}
use lensor_os.Containers.SparseVector.{SparseVector, at, erase, replace}
use lensor_os.Containers.SparseVector.Invariant.{lt_of_get_elem?}
use lensor_os.Containers.SparseVector.Laws.{erase_lem, replace_lem, slot_of_at}
use lensor_os.Process.{Process}
use lensor_os.Storage.VirtualFilesystem.{
  Vfs, Change, unchanged, procfd_to_fd, file, file_of, held, released, free_fd, close, dup2,
  replace_file,
}
use lensor_os.Storage.VirtualFilesystem.Tables.{IsSound}

-- What `close` of an open descriptor means: it is free, every other descriptor of the process leads
-- where it led, and the metadata is destroyed unless an entry of the table still holds it.
pub record Closed (v : Vfs) (p : Process) (procfd f : ℕ) (c : Change) : Type 0 where
  pub reads : (j : ℕ) → procfd_to_fd c.process j ≡ (if procfd == j then none else procfd_to_fd p j)
  pub leads : (j : ℕ) → file_of c.vfs c.process j ≡ (if procfd == j then none else file_of v p j)
  pub destroyed : c.destroyed ≡ (if held f c.vfs.files.els then [] else f ∷ [])
  pub sound : IsSound c.vfs c.process

freed :
    (v : Vfs) (p : Process) (procfd fd f : ℕ) (ds fs : SparseVector ℕ)
    → erase procfd p.file_descriptors ≡ some (true, ds)
    → erase fd v.files ≡ some (true, fs)
    → free_fd f fd procfd v p
      ≡ some (record {
        vfs = record v { files = fs };
        process = record p { file_descriptors = ds };
        destroyed = released f (record v { files = fs });
      })
unfolding free_fd
freed v p procfd fd f ds fs d e = ground arith

free_fd_lem :
    (v : Vfs) (p : Process) (procfd fd f : ℕ)
    → IsSound v p
    → procfd_to_fd p procfd ≡ some fd
    → file v fd ≡ some f
    → (c : Change) × (free_fd f fd procfd v p ≡ some c) × Closed v p procfd f c
unfolding free_fd procfd_to_fd file file_of released
free_fd_lem v p procfd fd f s e g =
    let (ds, d_eq, d_at, d_valid, _) = erase_lem p.file_descriptors procfd fd s.descriptors e in
    let (fs, f_eq, f_at, f_valid, _) = erase_lem v.files fd f s.files g in
    (
      record {
        vfs = record v { files = fs };
        process = record p { file_descriptors = ds };
        destroyed = released f (record v { files = fs });
      },
      freed v p procfd fd f ds fs d_eq f_eq,
      record {
        reads = d_at;
        leads = λ j. elim (Option-cases (procfd_to_fd p j)) [
          | inl n ↦ ground (arith, d_at j)
          | inr (k, m) ↦ ground (arith, d_at j, f_at k, s.unshared procfd j k)
        ];
        destroyed = refl;
        sound = record {
          files = f_valid;
          descriptors = d_valid;
          opens = λ i k h. ground (arith, d_at i, f_at k, s.opens i k, s.unshared i procfd fd);
          unshared = λ i j k h h'. ground (arith, d_at i, d_at j, s.unshared i j k);
        };
      },
    )

file_of_parts :
    (v : Vfs) (p : Process) (procfd f : ℕ)
    → file_of v p procfd ≡ some f
    → (fd : ℕ) × (procfd_to_fd p procfd ≡ some fd) × (file v fd ≡ some f)
unfolding file_of
file_of_parts v p procfd f h = elim (Option-cases (procfd_to_fd p procfd)) [
  | inl n ↦ ground arith
  | inr (fd, e) ↦ (fd, e, ground arith)
]

close_found :
    (v : Vfs) (p : Process) (procfd fd f : ℕ) (c : Change)
    → procfd_to_fd p procfd ≡ some fd
    → file v fd ≡ some f
    → free_fd f fd procfd v p ≡ some c
    → close procfd v p ≡ some (true, c)
unfolding close
close_found v p procfd fd f c e g h = ground arith

-- In a sound state, `close` of an open descriptor succeeds
-- and frees it; of any other it returns false and changes nothing.
pub close-IsSound :
    (v : Vfs) (p : Process) (procfd : ℕ)
    → IsSound v p
    → ((f : ℕ) × (file_of v p procfd ≡ some f)
        × (c : Change) × (close procfd v p ≡ some (true, c))
        × Closed v p procfd f c)
      ⊎ ((file_of v p procfd ≡ none) × (close procfd v p ≡ some (false, unchanged v p)))
unfolding close file_of
close-IsSound v p procfd s = elim (Option-cases (file_of v p procfd)) [
  | inl n ↦ inr (n, ground arith)
  | inr (f, h) ↦
      let (fd, e, g) = file_of_parts v p procfd f h in
      let (c, free, closed) = free_fd_lem v p procfd fd f s e g in
      inl (f, h, c, close_found v p procfd fd f c e g free, closed)
]

-- What `dup2` means: the descriptors are those that they were, `replaced` leads to the file `f`, every
-- other descriptor of the process leads where it led, and the file that `replaced` led to is
-- destroyed unless an entry of the table still holds it.
pub record Replaced (v : Vfs) (p : Process) (replaced f old : ℕ) (c : Change) : Type 0 where
  pub same : c.process ≡ p
  pub leads :
      (j : ℕ) → file_of c.vfs c.process j ≡ (if replaced == j then some f else file_of v p j)
  pub destroyed : c.destroyed ≡ (if held old c.vfs.files.els then [] else old ∷ [])
  pub sound : IsSound c.vfs c.process

lt_of_at : (v : SparseVector ℕ) (i a : ℕ) → at v i ≡ some a → i < length v.els
unfolding at
lt_of_at v i a e = lt_of_get_elem? v.els i (some a) (slot_of_at v i a e)

replaced_file :
    (v : Vfs) (p : Process) (fd f old : ℕ) (fs : SparseVector ℕ)
    → replace fd (some f) v.files ≡ some (true, fs)
    → file v fd ≡ some old
    → replace_file fd f v p
      ≡ some (
        true,
        record {
          vfs = record v { files = fs };
          process = p;
          destroyed = released old (record v { files = fs });
        },
      )
unfolding replace_file
replaced_file v p fd f old fs e g = ground arith

replace_file_lem :
    (v : Vfs) (p : Process) (replaced fd f old : ℕ)
    → IsSound v p
    → procfd_to_fd p replaced ≡ some fd
    → file v fd ≡ some old
    → (c : Change) × (replace_file fd f v p ≡ some (true, c)) × Replaced v p replaced f old c
unfolding procfd_to_fd file file_of released
replace_file_lem v p replaced fd f old s e g =
    let (fs, f_eq, f_at, f_valid) = replace_lem v.files fd f s.files (lt_of_at v.files fd old g) in
    (
      _,
      replaced_file v p fd f old fs f_eq g,
      record {
        same = refl;
        leads = λ j. elim (Option-cases (procfd_to_fd p j)) [
          | inl n ↦ ground arith
          | inr (k, m) ↦ ground (arith, f_at k, s.unshared replaced j k)
        ];
        destroyed = refl;
        sound = record {
          files = f_valid;
          descriptors = s.descriptors;
          opens = λ i k h. ground (arith, f_at k, s.opens i k);
          unshared = s.unshared;
        };
      },
    )

-- In a sound state, `dup2` of two distinct open descriptors succeeds and makes the second lead to the
-- file of the first.
pub dup2-IsSound :
    (v : Vfs) (p : Process) (procfd replaced f old : ℕ)
    → IsSound v p
    → procfd ≢ replaced
    → file_of v p procfd ≡ some f
    → file_of v p replaced ≡ some old
    → (c : Change) × (dup2 procfd replaced v p ≡ some (true, c)) × Replaced v p replaced f old c
unfolding dup2
dup2-IsSound v p procfd replaced f old s ne h k =
    let (fd, e, g) = file_of_parts v p procfd f h in
    let (to, e', g') = file_of_parts v p replaced old k in
    let (c, done, means) = replace_file_lem v p replaced to f old s e' g' in
    (c, ground arith, means)

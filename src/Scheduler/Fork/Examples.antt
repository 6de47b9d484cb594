-- ===== src/Scheduler/Fork/Examples.antt =====
-- A fork of a process whose descriptors have a hole.
use lensor_os.Prelude.{
  ℕ, zero, suc, ◌≡◌, ◌≢◌, ◌∙◌, refl, sym, subst, true, none, some, [], ◌∷◌, arith,
}
use lensor_os.Containers.SparseVector
use lensor_os.Containers.SparseVector.{
  SparseVector, slot, at, push_back, allocate, erase, pairs, pairs_from,
}
use lensor_os.Containers.SparseVector.Invariant.{has}
use lensor_os.Process.{Process}
use lensor_os.Samples.{user, no_files}
use lensor_os.Storage.VirtualFilesystem.{Vfs, file, procfd_to_fd, add_file}
use lensor_os.Storage.VirtualFilesystem.Tables.{IsSound}
use lensor_os.Scheduler.Fork.{push_garbage, copy_descriptors, erase_all, erase_garbage, copy_files}
use lensor_os.Scheduler.Fork.Copied.{Copied, copy_files-Copied}

-- Descriptor 0 has been closed; descriptor 1 is the second entry of the table.
abbrev original : Process
original = record user { file_descriptors = record { els = none ∷ some 1 ∷ []; idxs = 0 ∷ [] } }

abbrev two_open : Vfs
two_open = record no_files { files = record { els = some 7 ∷ some 8 ∷ []; idxs = [] } }

no_hole : (i : ℕ) → slot two_open.files i ≢ some none
no_hole zero h = cc
no_hole (suc zero) h = cc
no_hole (suc (suc i)) h = cc

one_hole : (i : ℕ) → slot original.file_descriptors i ≡ some none → has i (0 ∷ []) ≡ true
one_hole zero h = refl
one_hole (suc zero) h = cc
one_hole (suc (suc i)) h = cc

one_descriptor : (i fd : ℕ) → procfd_to_fd original i ≡ some fd → (i ≡ 1) × (fd ≡ 1)
unfolding procfd_to_fd at
one_descriptor zero fd h = cc
one_descriptor (suc zero) fd h = (refl, cc)
one_descriptor (suc (suc i)) fd h = cc

original-IsSound : IsSound two_open original
unfolding file at
original-IsSound = record {
  files = record {
    holes = λ i h. ground arith;
    listed = λ i h. absurd (no_hole i h);
    distinct = tt;
  };
  descriptors = record {
    holes = λ i h.
        let e : i ≡ 0 = ground arith in
        subst (λ j. slot original.file_descriptors j ≡ some none) (sym e) refl;
    listed = one_hole;
    distinct = (refl, tt);
  };
  opens = λ i fd h.
      let (_, e) = one_descriptor i fd h in subst (λ s. file two_open s ≢ none) (sym e) (λ n. cc);
  unshared = λ i j fd h h'. (one_descriptor i fd h).0 ∙ sym (one_descriptor j fd h').0;
}

copy_files-Copied_example :
    (v' : Vfs) × (child : Process) × (copy_files original two_open
        (record user { file_descriptors = SparseVector.empty })
      ≡ some (v', child))
    × Copied two_open original user v' child
copy_files-Copied_example = copy_files-Copied original two_open user original-IsSound

fork_keeps_the_hole :
    copy_files original two_open user
    ≡ some (
      record no_files { files = record { els = some 7 ∷ some 8 ∷ some 8 ∷ []; idxs = [] } },
      record user { file_descriptors = record { els = none ∷ some 2 ∷ []; idxs = 0 ∷ [] } },
    )
unfolding copy_files erase_garbage erase_all copy_descriptors push_garbage file add_file push_back
    allocate erase pairs pairs_from at
fork_keeps_the_hole = refl

-- ===== src/Scheduler/Fork.antt =====
-- The copying of file descriptors in `CopyUserspaceProcess`, kernel/src/scheduler.cpp.
pub mod Garbage
pub mod Copying
pub mod Copied
mod Examples
use lensor_os.Prelude.{
  ℕ, zero, suc, ◌+◌, Bool, Option, none, some, List, [], ◌∷◌, ◌++◌, ltb, length, if◌then◌else◌,
}
use lensor_os.Containers.SparseVector
use lensor_os.Containers.SparseVector.{SparseVector}
use lensor_os.Process.{Process}
use lensor_os.Storage.VirtualFilesystem.{Vfs, file, add_file}

-- The loop that pushes garbage until the vector has the size of the descriptor. Each round adds an
-- element or takes an index off the free list, so it makes no more than both allow.
unfoldable pub push_garbage : ℕ → ℕ → ℕ → SparseVector ℕ → List ℕ → SparseVector ℕ × List ℕ
push_garbage zero procfd sysfd v garbage = (v, garbage)
push_garbage (suc n) procfd sysfd v garbage =
    let (i, _, v') = SparseVector.push_back (some sysfd) v in
    if ltb (length v.els) procfd
    then push_garbage n procfd sysfd v' (garbage ++ (i ∷ []))
    else (v, garbage)

-- The loop over the descriptors of the original.
unfoldable pub copy_descriptors : List (ℕ × ℕ) → Vfs → Process → List ℕ → Vfs × Process × List ℕ
copy_descriptors [] v p garbage = (v, p, garbage)
copy_descriptors ((procfd, sysfd) ∷ rest) v p garbage =
    let (descriptors, garbage') =
      push_garbage (length p.file_descriptors.idxs + procfd) procfd sysfd p.file_descriptors
        garbage in
    let (_, added) = add_file (file v sysfd) v (record p { file_descriptors = descriptors }) in
    copy_descriptors rest added.vfs added.process garbage'

unfoldable pub erase_all : List ℕ → SparseVector ℕ → Option (SparseVector ℕ)
erase_all [] v = some v
erase_all (fd ∷ fds) v = elim (SparseVector.erase fd v) [
  | none ↦ none
  | some (_, v') ↦ erase_all fds v'
]

-- The loop over the garbage.
unfoldable pub erase_garbage : Vfs × Process × List ℕ → Option (Vfs × Process)
erase_garbage (v, child, garbage) = elim (erase_all garbage child.file_descriptors) [
  | none ↦ none
  | some descriptors ↦ some (v, record child { file_descriptors = descriptors })
]

unfoldable pub copy_files : Process → Vfs → Process → Option (Vfs × Process)
copy_files original v child =
    erase_garbage (copy_descriptors (SparseVector.pairs original.file_descriptors) v child [])

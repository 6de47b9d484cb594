-- ===== src/Storage/VirtualFilesystem.antt =====
-- The table of open files, kernel/src/virtual_filesystem.h and virtual_filesystem.cpp. A
-- `shared_ptr<FileMetadata>` is the address of the metadata; its count is the number of entries of
-- `Files` that hold it. A descriptor `Invalid` is `none`; a fault of the tables is `none` around the
-- result. `FilesystemDriver::open` is a field of its mount, since the call is virtual.
pub mod Tables
pub mod Closing
pub mod Opening
mod Examples
use lensor_os.Prelude.{
  ℕ, zero, suc, Bool, true, false, not, ◌&&◌, Option, none, some, List, [], ◌∷◌, ◌++◌,
  if◌then◌else◌, ◌==◌, leb, length, drop,
}
use lensor_os.Containers.SparseVector
use lensor_os.Containers.SparseVector.{SparseVector}
use lensor_os.Process.{Process}

pub record MountPoint : Type 0 where
  pub path : List ℕ
  pub open_file : List ℕ → Option ℕ

pub record Vfs : Type 0 where
  pub files : SparseVector ℕ
  pub mounts : List MountPoint

-- `FileDescriptors`: the descriptor in the process and the one in the table.
abbrev pub FileDescriptors : Type 0
FileDescriptors = Option (ℕ × ℕ)

-- What an operation leaves: the table, the process, and the metadata that were destroyed, whose
-- driver closes them.
pub record Change : Type 0 where
  pub vfs : Vfs
  pub process : Process
  pub destroyed : List ℕ

abbrev pub unchanged : Vfs → Process → Change
unchanged v p = record { vfs = v; process = p; destroyed = [] }

unfoldable pub procfd_to_fd : Process → ℕ → Option ℕ
procfd_to_fd p procfd = SparseVector.at p.file_descriptors procfd

-- `file(SysFD)`
unfoldable pub file : Vfs → ℕ → Option ℕ
file v fd = SparseVector.at v.files fd

-- `file(ProcFD)` of the process that is scheduled.
unfoldable pub file_of : Vfs → Process → ℕ → Option ℕ
unfolding procfd_to_fd
file_of v p procfd = elim (procfd_to_fd p procfd) [ none ↦ none | some fd ↦ file v fd ]

-- `valid(Process*, ProcFD)`
unfoldable pub valid : Process → ℕ → Bool
valid p procfd = elim (procfd_to_fd p procfd) [ none ↦ false | some fd ↦ true ]

-- Whether an entry of the table still holds the metadata.
unfoldable pub held : ℕ → List (Option ℕ) → Bool
held f [] = false
held f (none ∷ els) = held f els
held f (some g ∷ els) = if g == f then true else held f els

-- The metadata that the loss of one reference to `f` destroys.
unfoldable pub released : ℕ → Vfs → List ℕ
released f v = if held f v.files.els then [] else f ∷ []

-- `free_fd`, where `f` is what the table holds at `fd`.
unfoldable pub free_fd : ℕ → ℕ → ℕ → Vfs → Process → Option Change
free_fd f fd procfd v p = elim (SparseVector.erase procfd p.file_descriptors) [
  | none ↦ none
  | some (_, descriptors) ↦ elim (SparseVector.erase fd v.files) [
    | none ↦ none
    | some (_, files) ↦
        let v' : Vfs = record v { files = files } in
        some (record {
          vfs = v';
          process = record p { file_descriptors = descriptors };
          destroyed = released f v';
        })
  ]
]

-- `close(Process*, ProcFD)` of a process that is there.
unfoldable pub close : ℕ → Vfs → Process → Option (Bool × Change)
close procfd v p = elim (procfd_to_fd p procfd) [
  | none ↦ some (false, unchanged v p)
  | some fd ↦ elim (file v fd) [
    | none ↦ some (false, unchanged v p)
    | some f ↦ elim (free_fd f fd procfd v p) [ none ↦ none | some c ↦ some (true, c) ]
  ]
]

-- `add_file`. A null pointer is not stored, and its index 0 is taken for a descriptor.
unfoldable pub add_file : Option ℕ → Vfs → Process → FileDescriptors × Change
add_file f v p =
    let (fd, _, files) = SparseVector.push_back f v.files in
    let (procfd, _, descriptors) = SparseVector.push_back (some fd) p.file_descriptors in
    (
      some (procfd, fd),
      record {
        vfs = record v { files = files };
        process = record p { file_descriptors = descriptors };
        destroyed = [];
      },
    )

unfoldable pub dup : ℕ → Vfs → Process → FileDescriptors × Change
dup procfd v p = elim (procfd_to_fd p procfd) [
  | none ↦ (none, unchanged v p)
  | some fd ↦ elim (file v fd) [ none ↦ (none, unchanged v p) | some f ↦ add_file (some f) v p ]
]

-- `Files.replace` drops the reference that the entry held.
unfoldable pub replace_file : ℕ → ℕ → Vfs → Process → Option (Bool × Change)
replace_file fd f v p = elim (SparseVector.replace fd (some f) v.files) [
  | none ↦ none
  | some (_, files) ↦
      let v' : Vfs = record v { files = files } in
      some (
        true,
        record {
          vfs = v';
          process = p;
          destroyed = elim (file v fd) [ none ↦ [] | some old ↦ released old v' ];
        },
      )
]

unfoldable pub dup2 : ℕ → ℕ → Vfs → Process → Option (Bool × Change)
dup2 procfd replaced v p = elim (procfd_to_fd p procfd) [
  | none ↦ some (false, unchanged v p)
  | some fd ↦ elim (procfd_to_fd p replaced) [
    | none ↦ some (false, unchanged v p)
    | some replaced_fd ↦
        if procfd == replaced then some (true, unchanged v p) else elim (file v fd) [
          | none ↦ some (false, unchanged v p)
          | some f ↦ replace_file replaced_fd f v p
        ]
  ]
]

-- `std::string_view::starts_with`
unfoldable pub starts_with : List ℕ → List ℕ → Bool
starts_with path [] = true
starts_with [] (c ∷ prefix) = false
starts_with (b ∷ path) (c ∷ prefix) = if b == c then starts_with path prefix else false

-- The loop of `open` over the mounts.
unfoldable pub open_on : List ℕ → List MountPoint → Option ℕ
open_on path [] = none
open_on path (m ∷ ms) =
    let rest = open_on path ms in
    if starts_with path m.path
    then elim (m.open_file (drop (length m.path) path)) [ none ↦ rest | some f ↦ some f ]
    else rest

-- Character 47 is the slash.
unfoldable pub starts_with_slash : List ℕ → Bool
starts_with_slash [] = false
starts_with_slash (c ∷ path) = c == 47

unfoldable pub open_path : List ℕ → Vfs → Process → FileDescriptors × Change
open_path path v p =
    if leb (length path) 1
    then (none, unchanged v p)
    else if not (starts_with_slash path)
    then (none, unchanged v p)
    else elim (open_on path v.mounts) [
      | none ↦ (none, unchanged v p)
      | some f ↦ add_file (some f) v p
    ]

-- ===== src/Storage/VirtualFilesystem/Examples.antt =====
-- Runs on a small table of files.
use lensor_os.Prelude.{ℕ, ◌≡◌, ◌⊎◌, refl, true, false, none, some, List, [], ◌∷◌, arith, All}
use lensor_os.Containers.SparseVector.{at, push_back, allocate}
use lensor_os.Samples.{two_files, two_user, two_files-IsSound}
use lensor_os.Storage.VirtualFilesystem.{
  Change, unchanged, file, file_of, add_file, dup, dup2, close, open_path, starts_with_slash,
}
use lensor_os.Storage.VirtualFilesystem.Tables.{IsSound, Opened, dup-IsSound}
use lensor_os.Storage.VirtualFilesystem.Closing.{Closed, Replaced, close-IsSound, dup2-IsSound}
use lensor_os.Storage.VirtualFilesystem.Opening.{First, Passes, open_path-First}

descriptors_lead : (file_of two_files two_user 0 ≡ some 7) × (file_of two_files two_user 1 ≡ some 8)
unfolding file_of file at add_file push_back allocate
descriptors_lead = (refl, refl)

dup-IsSound_example :
    ((f : ℕ) × (file_of two_files two_user 1 ≡ some f)
      × Opened two_files two_user f (dup 1 two_files two_user)
      × IsSound (dup 1 two_files two_user).1.vfs (dup 1 two_files two_user).1.process)
    ⊎ ((file_of two_files two_user 1 ≡ none)
        × (dup 1 two_files two_user ≡ (none, unchanged two_files two_user)))
dup-IsSound_example = dup-IsSound two_files two_user 1 two_files-IsSound

close-IsSound_example :
    ((f : ℕ) × (file_of two_files two_user 0 ≡ some f)
      × (c : Change) × (close 0 two_files two_user ≡ some (true, c))
      × Closed two_files two_user 0 f c)
    ⊎ ((file_of two_files two_user 0 ≡ none)
        × (close 0 two_files two_user ≡ some (false, unchanged two_files two_user)))
close-IsSound_example = close-IsSound two_files two_user 0 two_files-IsSound

dup2-IsSound_example :
    (c : Change) × (dup2 0 1 two_files two_user ≡ some (true, c))
    × Replaced two_files two_user 1 7 8 c
unfolding file_of file at add_file push_back allocate
dup2-IsSound_example =
    dup2-IsSound two_files two_user 0 1 7 8 two_files-IsSound (omega arith) refl refl

-- "/m/a"
abbrev path : List ℕ
path = 47 ∷ 109 ∷ 47 ∷ 97 ∷ []

open_path-First_example :
    ((f : ℕ) × First path f two_files.mounts
      × Opened two_files two_user f (open_path path two_files two_user))
    ⊎ (All (Passes path) two_files.mounts
        × (open_path path two_files two_user ≡ (none, unchanged two_files two_user)))
unfolding starts_with_slash
open_path-First_example =
    open_path-First path two_files two_user two_files-IsSound (omega arith) refl

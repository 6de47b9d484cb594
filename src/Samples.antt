-- ===== src/Samples.antt =====
-- Concrete processes and tables of files, on which the tests of several components run.
use lensor_os.Prelude.{ℕ, some, [], ◌∷◌, arith}
use lensor_os.Process.{Process, ProcessState, running}
use lensor_os.Containers.SparseVector.{at}
use lensor_os.Containers.SparseVector.Invariant.{IsValid}
use lensor_os.Storage.VirtualFilesystem.{Vfs, MountPoint, procfd_to_fd, add_file}
use lensor_os.Storage.VirtualFilesystem.Tables.{IsSound, add_file-IsSound}

-- A process with nothing but its number and its state.
abbrev pub bare : ℕ → ProcessState → Process
bare pid state = record {
  process_id = pid;
  state = state;
  memories = [];
  next_region_vaddr = 0;
  parent_process = 0;
  waiting_list = [];
  zombies = [];
  file_descriptors = record { els = []; idxs = [] };
  event_queues = [];
  rax = 0;
  cr3 = 0;
}

-- One mount, at "/m", that finds every file under the number 9.
abbrev mount_m : MountPoint
mount_m = record { path = 47 ∷ 109 ∷ []; open_file = λ _. some 9 }

abbrev pub no_files : Vfs
no_files = record { files = record { els = []; idxs = [] }; mounts = mount_m ∷ [] }

empty-IsValid : {A : Type 0} → IsValid {A = A} (record { els = []; idxs = [] })
empty-IsValid = record { holes = λ i h. ground arith; listed = λ i h. ground arith; distinct = tt }

-- A process with no descriptor, in a system with no open file.
pub bare-IsSound : (pid : ℕ) (state : ProcessState) → IsSound no_files (bare pid state)
unfolding procfd_to_fd at
bare-IsSound pid state = record {
  files = empty-IsValid;
  descriptors = empty-IsValid;
  opens = λ i fd h. ground arith;
  unshared = λ i j fd h h'. ground arith;
}

-- One open file, and two.
abbrev pub user : Process
user = bare 1 running

abbrev pub one_file : Vfs
one_file = (add_file (some 7) no_files user).1.vfs

abbrev pub one_user : Process
one_user = (add_file (some 7) no_files user).1.process

pub one_file-IsSound : IsSound one_file one_user
one_file-IsSound = (add_file-IsSound no_files user 7 (bare-IsSound 1 running)).1

abbrev pub two_files : Vfs
two_files = (add_file (some 8) one_file one_user).1.vfs

abbrev pub two_user : Process
two_user = (add_file (some 8) one_file one_user).1.process

pub two_files-IsSound : IsSound two_files two_user
two_files-IsSound = (add_file-IsSound one_file one_user 8 one_file-IsSound).1

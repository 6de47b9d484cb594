-- ===== src/Syscalls/Files/Examples.antt =====
-- Reads of a pipe's end, whose metadata gives it 512 bytes.
use lensor_os.Prelude.{ℕ, ◌+◌, ◌≡◌, ◌≤◌, refl, List, [], ◌∷◌, arith}
use lensor_os.Process.{running}
use lensor_os.Samples.{bare}
use lensor_os.Storage.Pipe.{Outcome, moved}
use lensor_os.Syscalls.Files.{FileMetadata, clip, sys_read_file, vfs_transfer, finish}
use lensor_os.Syscalls.Files.Reads.{Step, reads, elsewhere, IsBounded, run_reads, run_reads_total}

-- A driver that always has what is asked for, and counts its calls.
abbrev endless : ℕ → ℕ → ℕ → Outcome × ℕ
endless offset n calls = (moved n, calls + 1)

endless-IsBounded : IsBounded endless
endless-IsBounded offset n d = omega arith

abbrev pipe_end : FileMetadata
pipe_end = record { offset = 0; file_size = 512 }

abbrev steps : List (Step ℕ)
steps = reads 400 ∷ elsewhere (λ d. d) ∷ reads 400 ∷ reads 400 ∷ []

end_of_file_comes : (run_reads endless (bare 1 running) steps pipe_end 0).0 ≡ 512
unfolding sys_read_file vfs_transfer finish clip
end_of_file_comes = refl

run_reads_total_example :
    let r = run_reads endless (bare 1 running) steps pipe_end 0 in
    (r.1.offset ≡ pipe_end.offset + r.0) × (pipe_end.offset + r.0 ≤ pipe_end.file_size)
run_reads_total_example =
    run_reads_total endless (bare 1 running) steps pipe_end 0 endless-IsBounded
      (omega arith, omega arith) (omega arith, (omega arith, (omega arith, tt)))

abbrev read_some : FileMetadata
read_some = record { offset = 10; file_size = 512 }

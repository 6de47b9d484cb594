-- ===== src/Syscalls/Mapping/Examples.antt =====
-- A process with an empty page map that maps 100 bytes.
use lensor_os.Prelude.{ℕ, ◌≡◌, refl, true, Bool, [], arith, ltb, ◌||◌, not}
use lensor_os.Prelude.Words.{passes_up_to, passes_up_to_lem}
use lensor_os.Memory.Bitmap
use lensor_os.Memory.Physical.{Physical, request_pages, request_page, request_rounds, lock_page}
use lensor_os.Memory.Physical.Locks.{locked}
use lensor_os.Memory.Physical.Invariant.{request_pages-IsSound}
use lensor_os.Memory.Paging.{pointer}
use lensor_os.Memory.Paging.Tree.{Ready, Ready-run}
use lensor_os.Memory.Paging.Runs.{thrice}
use lensor_os.Memory.Paging.Unmapping.{UnmapsRun}
use lensor_os.Memory.Paging.Sample.{memory, tables, only_root, memory-IsSound, tables-IsTree}
use lensor_os.Process.{running}
use lensor_os.Samples.{bare}
use lensor_os.Syscalls.Mapping.{Space, place_at, sys_map, sys_unmap}
use lensor_os.Syscalls.Mapping.Memory.{MapsMemory, sys_map-MapsMemory, sys_unmap-sys_map}

abbrev space : Space
space = record { process = record (bare 1 running) { cr3 = 4096 }; tables = tables }

abbrev granted : Physical
granted = (request_pages 1 memory).1

free_test : ℕ → Bool
free_test j = ltb j 3 || not (locked granted j)

free_row : passes_up_to free_test 16 ≡ true
unfolding passes_up_to free_test request_pages request_page request_rounds lock_page Bitmap.put
    Bitmap.write_bit Bitmap.get Bitmap.test_bit Bitmap.bit_indexer
free_row = refl

granted_total : granted.total_pages ≡ 16
unfolding request_pages request_page request_rounds lock_page Bitmap.put Bitmap.write_bit Bitmap.get
    Bitmap.test_bit Bitmap.bit_indexer
granted_total = refl

granted_page : pointer (request_pages 1 memory).0 ≡ 8192
unfolding pointer request_pages request_page request_rounds Bitmap.get Bitmap.test_bit
    Bitmap.bit_indexer
granted_page = refl

three-Ready : Ready (thrice 1) granted
unfolding free_test
three-Ready =
    Ready-run 3 3 granted (request_pages-IsSound memory memory-IsSound 1)
      (omega (arith, granted_total))
      (λ j l u.
        let row = passes_up_to_lem free_test 16 j (omega arith) free_row in ground (arith, row))

sys_map-MapsMemory_example :
    MapsMemory 100 (pointer (request_pages 1 memory).0) space (sys_map 0xf8000000 100 space)
unfolding place_at
sys_map-MapsMemory_example =
    sys_map-MapsMemory 0xf8000000 100 space only_root tables-IsTree (omega arith) refl (omega arith)
      (omega (arith, granted_page)) (omega (arith, granted_page)) three-Ready

sys_unmap-sys_map_example :
    let (a, s1) = sys_map 0xf8000000 100 space in
    let s2 = sys_unmap a s1 in (s2.process.memories ≡ []) × UnmapsRun 4096 1 tables a s2.tables
unfolding place_at
sys_unmap-sys_map_example =
    sys_unmap-sys_map 0xf8000000 100 space only_root tables-IsTree (omega arith) refl (omega arith)
      (omega (arith, granted_page)) (omega (arith, granted_page)) three-Ready

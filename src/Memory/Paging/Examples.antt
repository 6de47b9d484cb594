-- ===== src/Memory/Paging/Examples.antt =====
-- Runs of `map_pages` and `unmap_pages` on an empty page map.
use lensor_os.Prelude.{◌≡◌, refl, true, arith}
use lensor_os.Memory.Paging.{present, flag, map_pages, unmap_pages}
use lensor_os.Memory.Paging.Tree.{Paths, IsTree, Ready, Ready-run}
use lensor_os.Memory.Paging.Runs.{thrice, MapsRun, map_pages-MapsRun}
use lensor_os.Memory.Paging.Unmapping.{UnmapsRun, unmap_pages-map_pages}
use lensor_os.Memory.Paging.Sample.{
  memory, tables, only_root, memory-IsSound, tables-IsTree, free_high,
}

six-Ready : Ready (thrice 2) memory
six-Ready = Ready-run 6 2 memory memory-IsSound (omega arith) free_high

seven_present : flag present 7 ≡ true
unfolding flag
seven_present = refl

-- Two pages, at 0xf8000000, mapped with the flags Present, ReadWrite and UserSuper.
map_pages-MapsRun_example :
    let s' = map_pages 4096 0xf8000000 36864 7 2 tables in
    MapsRun 4096 2 tables 0xf8000000 36864 s' × ((path' : Paths) × IsTree 4096 path' s')
map_pages-MapsRun_example =
    map_pages-MapsRun 2 4096 only_root tables 0xf8000000 36864 7 tables-IsTree (omega arith) refl
      (omega arith) refl (omega arith) seven_present six-Ready

unmap_pages-map_pages_example :
    UnmapsRun 4096 2 tables 0xf8000000
      (unmap_pages 4096 0xf8000000 2 (map_pages 4096 0xf8000000 36864 7 2 tables))
unmap_pages-map_pages_example =
    unmap_pages-map_pages 2 4096 only_root tables 0xf8000000 36864 7 tables-IsTree (omega arith)
      refl (omega arith) refl (omega arith) seven_present six-Ready

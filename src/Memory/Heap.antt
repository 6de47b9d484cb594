-- ===== src/Memory/Heap.antt =====
-- The heap of the kernel, kernel/src/memory/heap.h and heap.cpp: a store of segment headers by
-- address, with the globals. The pages that the heap grows by are requested, cleared and mapped in
-- the page tables; the debug output is left out. A pointer to a header is `none`
-- for `nullptr`; a `void*` is its number, 0 for `nullptr`.
pub mod Chain
pub mod Sound
pub mod Combine
pub mod Split
pub mod FirstFit
pub mod Expand
pub mod Growth
pub mod Granted
pub mod Supply
pub mod Malloc
pub mod Live
pub mod Free
pub mod Contract
pub mod Aligned
mod Examples
use lensor_os.Prelude.{
  ℕ, zero, suc, ◌+◌, ◌-◌, ◌*◌, ◌/◌, ◌%◌, ◌^◌, Bool, true, false, Option, none, some, List, [], ◌∷◌,
  ltb, leb, if◌then◌else◌, ◌==◌,
}
use lensor_os.Prelude.Words.{u64_mod, add64, sub64}
use lensor_os.Memory.Physical.{page_size, request_page}
use lensor_os.Memory.Paging.{PageTables, pointer, clear_table, map, map_pages}

pub record HeapSegmentHeader : Type 0 where
  pub last : Option ℕ
  pub next : Option ℕ
  pub length : ℕ
  pub free : Bool

-- `words` is what `aligned_new` stores in payloads; `tables` are the page tables and the allocator of
-- pages, `page_maps` the page maps of the processes in the queue, `active` the active one.
pub record Heap : Type 0 where
  pub headers : ℕ → HeapSegmentHeader
  pub words : ℕ → ℕ
  pub heap_start : ℕ
  pub heap_end : ℕ
  pub last_header : Option ℕ
  pub tables : PageTables
  pub page_maps : List ℕ
  pub active : ℕ

-- `HEAP_VIRTUAL_BASE`, 0xffffffffff000000.
abbrev pub heap_virtual_base : ℕ
heap_virtual_base = 2 ^ 64 - 2 ^ 24

abbrev pub heap_initial_pages : ℕ
heap_initial_pages = 1

-- `Present | ReadWrite`
abbrev pub heap_flags : ℕ
heap_flags = 3

abbrev pub heap_byte_align : ℕ
heap_byte_align = 16

-- `sizeof(HeapSegmentHeader)`: two pointers, a `u64` and a `bool` with its padding.
abbrev pub header_size : ℕ
header_size = 32

-- A map from addresses, changed at one of them.
abbrev pub write {ℓ} : {A : Type ℓ} → ℕ → A → (ℕ → A) → ℕ → A
write a v f b = if a == b then v else f b

abbrev pub put_header : ℕ → HeapSegmentHeader → Heap → Heap
put_header a v h = record h { headers = write a v h.headers }

-- `p->last = last`, where `p` is a pointer that may be `nullptr`: then nothing is written.
unfoldable pub set_last : Option ℕ → ℕ → Heap → Heap
set_last none last h = h
set_last (some p) last h = put_header p (record (h.headers p) { last = some last }) h

abbrev pub is_last : ℕ → Heap → Bool
is_last a h = elim h.last_header [ none ↦ false | some l ↦ a == l ]

-- `combine_forward`, with the segment that follows `this`.
unfoldable pub absorb : ℕ → ℕ → Heap → Heap
absorb this next h =
    let n = h.headers next in
    let moved = record h { last_header = if is_last next h then some this else h.last_header } in
    let linked = set_last n.next this moved in
    let t = linked.headers this in
    let n' = linked.headers next in
    put_header this
      (record t { length = add64 (add64 t.length n'.length) header_size; next = n'.next }) linked

unfoldable pub combine_forward : ℕ → Heap → Heap
combine_forward this h = elim (h.headers this).next [
  | none ↦ h
  | some next ↦ if (h.headers next).free then absorb this next h else h
]

unfoldable pub combine_backward : ℕ → Heap → Heap
combine_backward this h = elim (h.headers this).last [
  | none ↦ h
  | some last ↦ if (h.headers last).free then combine_forward last h else h
]

-- What `split` writes when its guards pass.
unfoldable pub insert_header : ℕ → ℕ → ℕ → Heap → Heap
insert_header this split_length leftover h =
    let t = h.headers this in
    let split = add64 (add64 this header_size) split_length in
    let linked : Heap = elim t.next [
      | none ↦ record h { last_header = some split }
      | some next ↦ set_last (some next) split h
    ] in
    let cut =
      put_header this (record (linked.headers this) { next = some split; length = split_length })
        linked in
    put_header split (record { last = some this; next = t.next; length = leftover; free = t.free })
      cut

-- `split` gives `nullptr` or `this`: the state after it, in the second case.
unfoldable pub split : ℕ → ℕ → Heap → Option Heap
split this split_length h =
    let length = (h.headers this).length in
    let leftover = sub64 (sub64 length split_length) header_size in
    if ltb length (add64 split_length header_size)
    then none
    else if ltb split_length heap_byte_align
    then none
    else if ltb leftover heap_byte_align
    then none
    else some (insert_header this split_length leftover h)

-- `Scheduler::map_pages_in_all_processes` for one page, over the page maps of the queue.
unfoldable pub map_in_all : List ℕ → ℕ → ℕ → PageTables → PageTables
map_in_all [] virtual physical t = t
map_in_all (root ∷ roots) virtual physical t =
    map_in_all roots virtual physical (map_pages root virtual physical heap_flags 1 t)

-- A page of the heap is mapped in the active page map.
abbrev pub map_active : ℕ → ℕ → PageTables → Heap → Heap
map_active virtual physical t h = record h { tables = map h.active virtual physical heap_flags t }

-- The rounds `i`, `i + 1`, … of the loop of `expand_heap` that requests, clears and maps pages from
-- `base` on; the first argument counts those left. When no page is granted the source clears and maps
-- the page at address 0, on which the headers of several pages would lie: `none`.
unfoldable pub map_rounds : ℕ → ℕ → ℕ → Heap → Option Heap
map_rounds zero i base h = some h
map_rounds (suc n) i base h =
    let requested = request_page h.tables.physical in
    let page = pointer requested.0 in
    let cleared = clear_table page (record (h.tables) { physical = requested.1 }) in
    let virtual = add64 base (i * page_size) in
    let mapped = map_active virtual page (map_in_all h.page_maps virtual page cleared) h in
    let rest = map_rounds n (i + 1) base mapped in if page == 0 then none else rest

-- `init_heap`, whose loop makes one round and does not clear the page.
unfoldable pub init_heap : Heap → Heap
init_heap h =
    let bytes = heap_initial_pages * page_size in
    let requested = request_page h.tables.physical in
    let mapped =
      map_active heap_virtual_base (pointer requested.0)
        (record (h.tables) { physical = requested.1 }) h in
    record mapped {
      headers =
          write heap_virtual_base
            (record { last = none; next = none; length = bytes - header_size; free = true })
            mapped.headers;
      heap_start = heap_virtual_base;
      heap_end = add64 heap_virtual_base bytes;
      last_header = some heap_virtual_base;
    }

-- `sLastHeader->next = extension`.
unfoldable pub set_next : Option ℕ → ℕ → Heap → Heap
set_next none next h = h
set_next (some p) next h = put_header p (record (h.headers p) { next = some next }) h

-- The byte count that `expand_heap` rounds its argument up to.
abbrev pub expansion : ℕ → ℕ
expansion bytes = (bytes / page_size + 1) * page_size % u64_mod

-- The new segment at the end, before it is combined with the one before it.
unfoldable pub append_segment : ℕ → Heap → Heap
append_segment bytes h =
    let extension = h.heap_end in
    let linked = set_next h.last_header extension h in
    record linked {
      headers =
          write extension
            (record {
              last = h.last_header;
              next = none;
              length = sub64 bytes header_size;
              free = true;
            })
            linked.headers;
      heap_end = add64 extension bytes;
      last_header = some extension;
    }

unfoldable pub expand_heap : ℕ → Heap → Option Heap
expand_heap bytes h = elim (map_rounds (expansion bytes / page_size) 0 h.heap_end h) [
  | none ↦ none
  | some mapped ↦ some (combine_backward h.heap_end (append_segment (expansion bytes) mapped))
]

-- How the loop of `malloc` ends: with a payload, past the last segment, or (on fuel) not at all.
pub data Search : Type 0 where
  taken : ℕ → Heap → Search
  missed : Search
  no_fuel : Search

unfoldable pub mark : ℕ → Bool → Heap → Heap
mark a free h = put_header a (record (h.headers a) { free = free }) h

unfoldable pub search : ℕ → ℕ → ℕ → Heap → Search
search zero bytes current h = no_fuel
search (suc fuel) bytes current h =
    let c = h.headers current in
    let payload = add64 current header_size in
    let onwards : Search = elim c.next [ none ↦ missed | some next ↦ search fuel bytes next h ] in
    if c.free
    then (if ltb bytes c.length
        then elim (split current bytes h) [
          | none ↦ onwards
          | some h' ↦ taken payload (mark current false h')
        ]
        else if c.length == bytes
        then taken payload (mark current false h)
        else onwards)
    else onwards

unfoldable pub round_up : ℕ → ℕ
round_up bytes =
    if ltb 0 (bytes % heap_byte_align)
    then add64 (bytes - bytes % heap_byte_align) heap_byte_align
    else bytes

-- A call in the heap that an expansion leaves.
abbrev pub and_then : (Heap → Option (ℕ × Heap)) → Option Heap → Option (ℕ × Heap)
and_then call none = none
and_then call (some h) = call h

-- `malloc` on fuel for its calls of itself; its loop has the bytes of the heap as fuel.
unfoldable pub malloc_rounds : ℕ → ℕ → Heap → Option (ℕ × Heap)
malloc_rounds zero bytes h = none
malloc_rounds (suc rounds) bytes h =
    let bytes' = round_up bytes in
    let again = and_then (malloc_rounds rounds bytes') (expand_heap bytes' h) in
    if bytes == 0
    then some (0, h)
    else elim (search (h.heap_end - h.heap_start) bytes' h.heap_start h) [
      | taken payload h' ↦ some (payload, h')
      | missed ↦ again
      | no_fuel ↦ none
    ]

unfoldable pub malloc : ℕ → Heap → Option (ℕ × Heap)
malloc bytes h = malloc_rounds 3 bytes h

-- `(address & HEAP_VIRTUAL_BASE) == HEAP_VIRTUAL_BASE`: the upper 40 bits are set.
abbrev pub looks_like_heap : ℕ → Bool
looks_like_heap a = a / 2 ^ 24 == 2 ^ 40 - 1

unfoldable pub free : ℕ → Heap → Heap
free a h =
    let segment = sub64 a header_size in
    if looks_like_heap a
    then combine_backward segment (combine_forward segment (mark segment true h))
    else h

-- The lowest multiple of `align` that leaves room for a pointer after `a`.
abbrev pub align_after : ℕ → ℕ → ℕ
align_after align a = let past = add64 a 8 in add64 past ((align - past % align) % align)

unfoldable pub aligned_new : ℕ → ℕ → Heap → Option (ℕ × Heap)
aligned_new size align h =
    if leb align heap_byte_align
    then malloc size h
    else elim (malloc (add64 (add64 size align) 8) h) [
      | none ↦ none
      | some (a, h') ↦
          let aligned = align_after align a in
          some (aligned, record h' { words = write (sub64 aligned 8) a h'.words })
    ]

unfoldable pub aligned_delete : ℕ → ℕ → Heap → Heap
aligned_delete a align h =
    if leb align heap_byte_align
    then free a h
    else if looks_like_heap a
    then free (h.words (sub64 a 8)) h
    else h

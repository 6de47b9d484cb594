-- ===== src/Syscalls/Seeking.antt =====
-- `sys$14_seek`, kernel/src/interrupts/syscalls.cpp. The offset, an `ssz`, is its 64 bits: it is
-- negative if the highest is set.
mod Examples
use lensor_os.Prelude.{
  ℕ, ◌+◌, ◌-◌, ◌%◌, ◌^◌, ◌≡◌, inl, inr, refl, ◌≤◌, ◌<◌, Bool, true, false, ◌&&◌, Option, none, some,
  if◌then◌else◌, ◌==◌, ltb, leb, Bool-cases,
}
use lensor_os.Prelude.Words.{u64_mod, add64, sub64}
use lensor_os.Syscalls.Files.{FileMetadata}
use lensor_os.Syscalls.Files.Reads.{Within}

abbrev pub seek_cur : ℕ
seek_cur = 0

abbrev pub seek_end : ℕ
seek_end = 1

abbrev pub seek_set : ℕ
seek_set = 2

abbrev pub negative : ℕ → Bool
negative offset = leb (2 ^ 63) offset

unfoldable pub seek : ℕ → ℕ → FileMetadata → ℕ × FileMetadata
seek offset whence f =
    if whence == seek_cur
    then (if offset == 0
        then (0, f)
        else if negative offset && ltb f.offset (sub64 0 offset)
        then (1, f)
        else if ltb f.file_size (add64 f.offset offset)
        then (1, f)
        else (0, record f { offset = add64 f.offset offset }))
    else if whence == seek_end
    then (if ltb 0 offset && ltb offset (2 ^ 63)
        then (1, f)
        else (0, record f { offset = add64 f.file_size offset }))
    else if whence == seek_set
    then (if negative offset
        then (1, f)
        else if leb f.file_size offset
        then (1, f)
        else (0, record f { offset = offset }))
    else (1, f)

-- A file that is not there is an error.
unfoldable pub sys_seek : Option FileMetadata → ℕ → ℕ → ℕ × Option FileMetadata
sys_seek none offset whence = (1, none)
sys_seek (some f) offset whence = let (r, f') = seek offset whence f in (r, some f')

-- The place that an offset counts from.
abbrev pub base : ℕ → FileMetadata → ℕ
base whence f =
    if whence == seek_cur then f.offset else if whence == seek_end then f.file_size else 0

-- A cursor that stands a signed offset from a place.
abbrev pub Moved : ℕ → ℕ → ℕ → Type 0
Moved from offset to =
    if negative offset then to + (u64_mod - offset) ≡ from else to ≡ from + offset

-- The place that a seek leads to: the offset from its base, within the file; from the start only
-- before the end.
abbrev pub Reaches : ℕ → ℕ → FileMetadata → ℕ → Type 0
Reaches offset whence f to =
    (whence ≤ seek_set)
    × Moved (base whence f) offset to
    × (if whence == seek_set then to < f.file_size else to ≤ f.file_size)

-- An offset from the end that leads before the start.
abbrev pub BeforeStart : ℕ → ℕ → FileMetadata → Type 0
BeforeStart offset whence f =
    (whence ≡ seek_end) × (negative offset ≡ true) × (f.file_size + offset < u64_mod)

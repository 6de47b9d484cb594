-- ===== src/Syscalls/Seeking/Examples.antt =====
-- Seeks in a file of ten bytes.
use lensor_os.Syscalls.Files.{FileMetadata}

abbrev ten_bytes : FileMetadata
ten_bytes = record { offset = 4; file_size = 10 }

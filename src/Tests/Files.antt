-- ===== src/Tests/Files.antt =====
-- The theorems on files, at a file that is written and read back in pieces.
use ps_payload_rust.Base.{◌≡◌, refl, true, [], Bytes, codes, drop, some, arith}
use ps_payload_rust.Base.Int.{pos}
use ps_payload_rust.Std.Utf8.{is_utf8}
use ps_payload_rust.Ps5.Effect.{World, and_then}
use ps_payload_rust.Ps5.Ownership.{owned}
use ps_payload_rust.Ps5.Fs.File.{File, read_to_end}
use ps_payload_rust.Ps5.Fs.Paths.{read_file, read_to_string, write_file}
use ps_payload_rust.Ps5.Fs.Runs.{Runs}
use ps_payload_rust.Ps5.Fs.Saved.{write_file-Runs}
use ps_payload_rust.Ps5.Fs.Loaded.{
  Counted, Loaded, read_to_end-Runs, read_file-write_file, read_to_string-Runs,
}
use ps_payload_rust.Tests.Disk.{Disk, disk, blank, disk-FileLaws}

abbrev notes_path : Bytes
notes_path = codes "/data/notes.txt"

abbrev notes : Bytes
notes = codes "first line, second line"

-- The file open, behind its first six bytes.
abbrev amid : World Disk
amid = record { os = record { content = notes; cursor = some 6 }; events = [] }

abbrev held_file : File
held_file = record { fd = pos 3 }

read_file-write_file_example :
    Runs []
      (Loaded disk notes_path (disk-FileLaws notes_path) [] notes)
      (and_then (write_file disk 30 notes_path notes blank) (λ _. read_file disk 30 notes_path))
read_file-write_file_example =
    read_file-write_file disk notes_path (disk-FileLaws notes_path) [] 30 notes blank (omega arith)
      (omega arith) refl

write_file-Runs_example :
    Runs []
      (λ _ v. (v.os.content ≡ notes) × (owned v.events ≡ some []))
      (write_file disk 30 notes_path notes blank)
write_file-Runs_example =
    write_file-Runs disk notes_path (disk-FileLaws notes_path) [] 30 notes blank (omega arith)
      (omega arith) refl

read_to_end-Runs_example :
    Runs []
      (Counted (λ s. Disk.content s) [] notes (codes "> ") (drop 6 notes))
      (read_to_end disk 30 held_file (codes "> ") amid)
read_to_end-Runs_example =
    read_to_end-Runs disk notes_path (disk-FileLaws notes_path) [] 30 held_file (codes "> ") 6 amid
      refl (omega arith) (omega arith) refl

read_to_string-Runs_example :
    Runs []
      (λ b v.
        Loaded disk notes_path (disk-FileLaws notes_path) [] notes b v × (is_utf8 notes ≡ true))
      (read_to_string disk 30 notes_path amid)
read_to_string-Runs_example =
    read_to_string-Runs disk notes_path (disk-FileLaws notes_path) [] 30 amid (omega arith) refl

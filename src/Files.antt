-- ===== src/Files.antt =====
-- `blockchain_write_to_file` and `blockchain_read_from_file` of src/blockchain.c, on the contents of
-- the files.
pub mod Roundtrip
use leocoin.Prelude.{
  ℕ, Bool, Option, none, some, List, bytes_eq, split_at?, length, ◌==◌, if◌then◌else◌,
}
use leocoin.Result.{
  Result, ok, err, fault, ◌>>=◌, ◌>>◌, Pointer, Out, given, non_null, writable, guard, Allocator,
  malloc, failure_file_io,
}
use leocoin.Endian.Memory.{Host}
use leocoin.Blockchain.{Blockchain}
use leocoin.Blockchain.Serialize.{blockchain_serialize}
use leocoin.Blockchain.Deserialize.{Heap, blockchain_deserialize}

-- The contents of the files, by name.
abbrev pub Disk : Type 0
Disk = List ℕ → Option (List ℕ)

abbrev pub store : Disk → List ℕ → List ℕ → Disk
store disk name bytes other = if bytes_eq other name then some bytes else disk other

-- What `fwrite` or `fread` moves, where it is asked for all of these bytes and stops after some.
abbrev pub moved : (stops_after : ℕ) → List ℕ → List ℕ
moved stops_after bytes = elim (split_at? stops_after bytes) [
  | none ↦ bytes
  | some (front, _) ↦ front
]

-- What a call of `fopen` answers, and where the transfer behind it stops.
pub record FileAccess : Type 0 where
  pub opens : Bool
  pub stops_after : ℕ

-- Everything before the file is opened.
unfoldable pub prepare_write :
    Allocator → Host → Pointer Blockchain → Pointer (List ℕ) → Result (List ℕ × List ℕ × ℕ)
prepare_write grants host blockchain outfile = do
  c ← non_null blockchain
  name ← non_null outfile
  (buffer, buffer_size) ← blockchain_serialize grants host (some c) given given
  ok (name, buffer, buffer_size)

-- `fopen` empties the file, and `fwrite` puts into it what it takes.
unfoldable pub write_out : FileAccess → Disk → List ℕ × List ℕ × ℕ → Disk × Result (Unit {0})
write_out access disk (name, buffer, buffer_size) =
    let written = moved access.stops_after buffer in
    if access.opens
    then (store disk name written, guard (length written == buffer_size) failure_file_io)
    else (disk, err failure_file_io)

unfoldable pub blockchain_write_to_file :
    Allocator
    → Host
    → FileAccess
    → Disk
    → Pointer Blockchain
    → Pointer (List ℕ)
    → Disk × Result (Unit {0})
unfolding prepare_write write_out
blockchain_write_to_file grants host access disk blockchain outfile =
    elim (prepare_write grants host blockchain outfile) [
      | ok file ↦ write_out access disk file
      | err code ↦ (disk, err code)
      | fault ↦ (disk, fault)
    ]

abbrev pub opened : Option (List ℕ) → Result (List ℕ)
opened none = err failure_file_io
opened (some contents) = ok contents

unfoldable pub blockchain_read_from_file :
    Allocator → Heap → Host → FileAccess → Disk → Out → Pointer (List ℕ) → Result Blockchain
blockchain_read_from_file grants heap host access disk blockchain infile = do
  writable blockchain
  name ← non_null infile
  contents ← opened (if access.opens then disk name else none)
  malloc grants (length contents)
  let buffer = moved access.stops_after contents
  guard (length buffer == length contents) failure_file_io
  blockchain_deserialize heap host given (some buffer) (length contents)

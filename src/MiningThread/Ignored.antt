-- ===== src/MiningThread/Ignored.antt =====
-- A file that `mine_blocks` of src/mining_thread.c writes does not keep it from going on.
use leocoin.Prelude.{
  ℕ, ◌≡◌, inl, inr, refl, Bool, true, false, some, List, length, Bool-cases, ◌==◌,
}
use leocoin.Result.{
  Result, ok, err, ReturnCode, given, guard, Allocator, failure_could_not_malloc, failure_file_io,
}
use leocoin.Endian.Memory.{Host}
use leocoin.Blockchain.{Blockchain}
use leocoin.Blockchain.Serialize.{blockchain_serialize}
use leocoin.Blockchain.Grows.{IsBounded, IsBuffer, buffered, refused, blockchain_serialize-IsBuffer}
use leocoin.Files.{
  Disk, store, moved, FileAccess, prepare_write, write_out, blockchain_write_to_file,
}
use leocoin.MiningThread.Loop.{ignore_result}

ignore_result-guard :
    (disk : Disk) (b : Bool) (code : ReturnCode) → ignore_result (disk, guard b code) ≡ ok disk
ignore_result-guard disk true code = refl
ignore_result-guard disk false code = refl

ignore_result-write_out :
    (access : FileAccess) (disk : Disk) (file : List ℕ × List ℕ × ℕ)
    → (disk' : Disk) × (ignore_result (write_out access disk file) ≡ ok disk')
unfolding write_out
ignore_result-write_out access disk (name, bytes, size) = elim (Bool-cases access.opens) [
  | inl opens ↦
      let written = moved access.stops_after bytes in
      let disk' = store disk name written in
      (disk', rw opens (ignore_result-guard disk' (length written == size) failure_file_io))
  | inr shut ↦ (disk, rw shut refl)
]

-- The loop goes on whatever becomes of the file.
pub write_to_file-ignored :
    (grants : Allocator) (host : Host) (access : FileAccess) (disk : Disk) (c : Blockchain)
    (name : List ℕ)
    → IsBounded grants
    → (disk' : Disk) × (ignore_result
          (blockchain_write_to_file grants host access disk (some c) (some name))
        ≡ ok disk')
unfolding blockchain_write_to_file prepare_write
write_to_file-ignored grants host access disk c name bounded =
    serialized _ refl (blockchain_serialize-IsBuffer grants host bounded c)
  where
    serialized :
        (r : Result (List ℕ × ℕ))
        → blockchain_serialize grants host (some c) given given ≡ r
        → IsBuffer r
        → (disk' : Disk) × (ignore_result
              (blockchain_write_to_file grants host access disk (some c) (some name))
            ≡ ok disk')
    serialized _ e (buffered bytes size small) =
        let prepared : prepare_write grants host (some c) (some name) ≡ ok (name, bytes, size) =
          rw e refl in
        let (disk', written) = ignore_result-write_out access disk (name, bytes, size) in
        (disk', rw (blockchain_write_to_file, prepared) written)
    serialized _ e refused =
        let prepared : prepare_write grants host (some c) (some name)
            ≡ err failure_could_not_malloc =
          rw e refl in
        (disk, rw (blockchain_write_to_file, prepared) refl)

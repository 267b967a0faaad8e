-- ===== src/Files/Roundtrip.antt =====
-- A chain that is written to a file is read from it.
use leocoin.Prelude.{
  ℕ, ◌<◌, ◌^◌, ◌≡◌, true, some, List, [], append-nil, length, bytes_eq_refl, split_at?-none, arith,
  ◌==◌,
}
use leocoin.Result.{ok, Allocator, given}
use leocoin.Endian.Memory.{Host}
use leocoin.Blockchain.{Blockchain, IsBlockchain}
use leocoin.Blockchain.Format.{blockchain_bytes}
use leocoin.Blockchain.Deserialize.{Heap}
use leocoin.Blockchain.Roundtrip.{Grants}
use leocoin.Blockchain.Codec.{blockchain_serialize_lem, blockchain_deserialize_lem}
use leocoin.Networking.DataBytes.{GrantsEvery}
use leocoin.Files.{
  Disk, store, moved, FileAccess, prepare_write, write_out, blockchain_write_to_file,
  blockchain_read_from_file,
}

moved-whole : (n : ℕ) (bytes : List ℕ) → length bytes < n → moved n bytes ≡ bytes
moved-whole n bytes h = rw (moved, split_at?-none n bytes h)

prepare_write_lem :
    (grants : Allocator) (host : Host) (c : Blockchain) (name : List ℕ)
    → IsBlockchain c
    → GrantsEvery grants
    → length (blockchain_bytes host c) < 2 ^ 64
    → prepare_write grants host (some c) (some name)
      ≡ ok (name, blockchain_bytes host c, length (blockchain_bytes host c))
unfolding prepare_write
prepare_write_lem grants host c name v g fits =
    rw (blockchain_serialize_lem grants host c v fits (λ n _. g n))

-- A chain that is written to a file, and of which `fwrite` takes everything, is in the file under
-- that name, and `blockchain_read_from_file` reads it back on a host of either byte order, where
-- `fread` delivers everything. The chain fits its types, and memory is granted.
pub blockchain_read_from_file-write_to_file :
    (grants : Allocator) (heap : Heap) (writer reader : Host) (writing reading : FileAccess)
    (disk : Disk) (c : Blockchain) (name : List ℕ)
    → IsBlockchain c
    → GrantsEvery grants
    → Grants heap
    → length (blockchain_bytes writer c) < 2 ^ 64
    → writing.opens ≡ true
    → length (blockchain_bytes writer c) < writing.stops_after
    → reading.opens ≡ true
    → length (blockchain_bytes writer c) < reading.stops_after
    → (disk' : Disk) × (blockchain_write_to_file grants writer writing disk (some c) (some name)
        ≡ (disk', ok tt))
      × (blockchain_read_from_file grants heap reader reading disk' given (some name) ≡ ok c)
unfolding blockchain_write_to_file write_out blockchain_read_from_file
blockchain_read_from_file-write_to_file grants heap writer reader writing reading disk c name v g
      all fits opens takes reopens delivers =
    let bytes = blockchain_bytes writer c in
    let same : (length bytes == length bytes) ≡ true = ground arith in
    let parsed =
      rw append-nil at
        (blockchain_deserialize_lem heap writer reader c [] (length bytes) v all (omega arith)) in
    (
      store disk name bytes,
      rw (
        blockchain_write_to_file,
        prepare_write_lem grants writer c name v g fits,
        opens,
        moved-whole writing.stops_after bytes takes,
        same,
      ),
      rw (
        reopens,
        bytes_eq_refl name,
        g (length bytes),
        moved-whole reading.stops_after bytes delivers,
        same,
        parsed,
      ),
    )

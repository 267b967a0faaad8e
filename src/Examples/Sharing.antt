-- ===== src/Examples/Sharing.antt =====
-- The theorems on files and on shared chains at concrete values.
use leocoin.Prelude.{ℕ, ◌≡◌, refl, true, List, [], ◌∷◌, leb, some, none, arith}
use leocoin.Result.{ok, fault, given}
use leocoin.Endian.Memory.{big_endian}
use leocoin.Sharing.{Sharing, server_switches, miner_round}
use leocoin.Sharing.DoubleFree.{miner_round_double_free}
use leocoin.Files.{Disk, FileAccess, blockchain_write_to_file, blockchain_read_from_file}
use leocoin.Files.Roundtrip.{blockchain_read_from_file-write_to_file}
use leocoin.Examples.Data.{host, grants_all, heap, chain, chain-IsBlockchain}
use leocoin.Examples.Chains.{length-chain}

-- The chain at address 7, which both threads have.
abbrev sharing : Sharing
sharing = record {
  allocated = λ a. leb a 7;
  shared = 7;
  version = 0;
  mined = 7;
  version_currently_mined = 0;
}

miner_round_double_free_example :
    (s' : Sharing) × (server_switches (8 ∷ 9 ∷ []) sharing ≡ ok s') × (miner_round s' ≡ fault)
miner_round_double_free_example =
    miner_round_double_free sharing 8 (9 ∷ []) refl refl (refl, (refl, tt)) (refl, tt)

abbrev whole_access : FileAccess
whole_access = record { opens = true; stops_after = 9000 }

-- No file, and a name.
abbrev empty_disk : Disk
empty_disk _ = none

abbrev name : List ℕ
name = b'c' ∷ []

blockchain_read_from_file-write_to_file_example :
    (disk' : Disk) × (blockchain_write_to_file grants_all host whole_access empty_disk
        (some chain)
        (some name)
      ≡ (disk', ok tt))
    × (blockchain_read_from_file grants_all heap big_endian whole_access disk' given (some name)
        ≡ ok chain)
blockchain_read_from_file-write_to_file_example =
    blockchain_read_from_file-write_to_file grants_all heap host big_endian whole_access
      whole_access empty_disk chain name chain-IsBlockchain (λ _. refl) (λ _ _. refl)
      (omega (arith, length-chain host)) refl (omega (arith, length-chain host)) refl
      (omega (arith, length-chain host))

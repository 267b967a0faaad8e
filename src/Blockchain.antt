-- ===== src/Blockchain.antt =====
-- The data of the program: include/cryptography.h, include/hash.h, include/transaction.h,
-- include/block.h and include/blockchain.h. A linked list of pointers to structs is the list of the
-- structs, and an array of bytes a list of numbers.
pub mod Serialize
pub mod Deserialize
pub mod Format
pub mod Roundtrip
pub mod Codec
pub mod Bounds
pub mod Cut
pub mod Overread
pub mod Grows
use leocoin.Prelude.{ℕ, ◌≤◌, ◌<◌, ◌^◌, ◌≡◌, List, [], length, All, replicate}

-- `MAX_SSH_KEY_LENGTH`, `MAX_SSH_SIGNATURE_LENGTH`, `SHA256_DIGEST_LENGTH`
abbrev pub max_ssh_key_length : ℕ
max_ssh_key_length = 4096

abbrev pub max_ssh_signature_length : ℕ
max_ssh_signature_length = 512

abbrev pub sha256_digest_length : ℕ
sha256_digest_length = 32

-- `AMOUNT_GENERATED_DURING_MINTING`, `GENESIS_BLOCK_PROOF_OF_WORK`
abbrev pub amount_generated_during_minting : ℕ
amount_generated_during_minting = 1

abbrev pub genesis_block_proof_of_work : ℕ
genesis_block_proof_of_work = 2017

-- `ssh_key_t` and `sha_256_t` are their arrays of bytes.
abbrev pub SshKey : Type 0
SshKey = List ℕ

abbrev pub Sha256 : Type 0
Sha256 = List ℕ

-- `sha_256_t h = {0}`
abbrev pub zero_hash : Sha256
zero_hash = replicate sha256_digest_length 0

-- `ssh_signature_t`
pub record SshSignature : Type 0 where
  pub len : ℕ
  pub bytes : List ℕ

-- `transaction_t`; a `time_t` is its 64 bits.
pub record Transaction : Type 0 where
  pub created_at : ℕ
  pub sender_public_key : SshKey
  pub recipient_public_key : SshKey
  pub amount : ℕ
  pub sender_signature : SshSignature

-- `block_t`
pub record Block : Type 0 where
  pub created_at : ℕ
  pub transaction_list : List Transaction
  pub proof_of_work : ℕ
  pub previous_block_hash : Sha256

-- `blockchain_t`; the field is the source's `num_leading_zero_bytes_required_in_block_hash`.
pub record Blockchain : Type 0 where
  pub block_list : List Block
  pub num_leading_zero_bytes : ℕ

-- The values that the types of the fields hold, with a signature that lies in its array.
pub record IsTransaction (t : Transaction) : Type 0 where
  pub created_at : t.created_at < 2 ^ 64
  pub sender_public_key : length t.sender_public_key ≡ max_ssh_key_length
  pub recipient_public_key : length t.recipient_public_key ≡ max_ssh_key_length
  pub amount : t.amount < 2 ^ 64
  pub signature_len : t.sender_signature.len ≤ max_ssh_signature_length
  pub signature_bytes : length t.sender_signature.bytes ≡ max_ssh_signature_length

pub record IsBlock (b : Block) : Type 0 where
  pub created_at : b.created_at < 2 ^ 64
  pub transaction_list : All IsTransaction b.transaction_list
  pub num_transactions : length b.transaction_list < 2 ^ 64
  pub proof_of_work : b.proof_of_work < 2 ^ 64
  pub previous_block_hash : length b.previous_block_hash ≡ sha256_digest_length

pub record IsBlockchain (c : Blockchain) : Type 0 where
  pub block_list : All IsBlock c.block_list
  pub num_blocks : length c.block_list < 2 ^ 64
  pub num_leading_zero_bytes : c.num_leading_zero_bytes < 2 ^ 64

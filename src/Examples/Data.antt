-- ===== src/Examples/Data.antt =====
-- The values that the examples share.
use leocoin.Prelude.{ℕ, ◌^◌, true, some, List, [], ◌∷◌, ltb, arith, replicate, length-replicate}
use leocoin.Result.{Allocator}
use leocoin.Endian.Memory.{Host, little_endian}
use leocoin.Blockchain.{
  Transaction, Block, Blockchain, IsTransaction, IsBlock, IsBlockchain, zero_hash,
}
use leocoin.Blockchain.Deserialize.{Heap}
use leocoin.Crypto.{OpenSsl, HashesTo32}
use leocoin.Networking.{CommandHeader, CommandRegisterPeer, command_prefix}

abbrev pub host : Host
host = little_endian

-- An allocator that grants everything, and one that grants objects of C.
abbrev pub grants_all : Allocator
grants_all _ = true

abbrev pub grants_objects : Allocator
grants_objects n = ltb n (2 ^ 63)

abbrev pub heap : Heap
heap _ _ = true

abbrev pub header : ℕ → CommandHeader
header c = record { prefix = command_prefix; command = c; command_len = 0 }

abbrev pub registration : CommandRegisterPeer
registration = record {
  header = header 2;
  sin6_family = 10;
  sin6_port = 12345;
  sin6_flowinfo = 7;
  addr = replicate 16 254;
  sin6_scope_id = 3;
}

-- A key, and the transaction that mints one coin for it.
abbrev pub key : List ℕ
key = replicate 4096 65

abbrev pub minting : Transaction
minting = record {
  created_at = 1700000000;
  sender_public_key = key;
  recipient_public_key = key;
  amount = 1;
  sender_signature = record { len = 256; bytes = replicate 512 9 };
}

abbrev pub genesis : Block
genesis = record {
  created_at = 1690000000;
  transaction_list = [];
  proof_of_work = 2017;
  previous_block_hash = zero_hash;
}

abbrev pub block : Block
block = record {
  created_at = 1700000001;
  transaction_list = minting ∷ [];
  proof_of_work = 5;
  previous_block_hash = zero_hash;
}

abbrev pub chain : Blockchain
chain = record { block_list = genesis ∷ block ∷ []; num_leading_zero_bytes = 3 }

pub minting-IsTransaction : IsTransaction minting
minting-IsTransaction = record {
  created_at = omega arith;
  sender_public_key = length-replicate {A = ℕ} 4096 65;
  recipient_public_key = length-replicate {A = ℕ} 4096 65;
  amount = omega arith;
  signature_len = omega arith;
  signature_bytes = length-replicate {A = ℕ} 512 9;
}

pub genesis-IsBlock : IsBlock genesis
genesis-IsBlock = record {
  created_at = omega arith;
  transaction_list = tt;
  num_transactions = omega arith;
  proof_of_work = omega arith;
  previous_block_hash = length-replicate {A = ℕ} 32 0;
}

pub block-IsBlock : IsBlock block
block-IsBlock = record {
  created_at = omega arith;
  transaction_list = (minting-IsTransaction, tt);
  num_transactions = omega arith;
  proof_of_work = omega arith;
  previous_block_hash = length-replicate {A = ℕ} 32 0;
}

pub chain-IsBlockchain : IsBlockchain chain
chain-IsBlockchain = record {
  block_list = (genesis-IsBlock, (block-IsBlock, tt));
  num_blocks = omega arith;
  num_leading_zero_bytes = omega arith;
}

-- OpenSSL with a hash of zeros, keys that are always read and signatures that are always right.
abbrev pub ssl : OpenSsl
ssl = record {
  PublicKey = Unit;
  PrivateKey = Unit;
  sha256 = λ _. replicate 32 0;
  bio_new_mem_buf = λ _. true;
  md_ctx_new = true;
  pem_read_public_key = λ _. some tt;
  pem_read_private_key = λ _. some tt;
  is_rsa = λ _. true;
  verify_init = true;
  verify_update = λ _. true;
  verify_final = λ _ _ _. true;
  sign_init = λ _. true;
  sign_update = λ _. true;
  sign_length = λ _ _. some 256;
  sign_final = λ _ _. some (replicate 256 9);
}

pub ssl-HashesTo32 : HashesTo32 ssl
ssl-HashesTo32 = record {
  length_sha256 = λ m. length-replicate {A = ℕ} 32 0;
  md_ctx_new = λ i. true;
}

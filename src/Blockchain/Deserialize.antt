-- ===== src/Blockchain/Deserialize.antt =====
-- `blockchain_deserialize` of src/blockchain.c.
use leocoin.Prelude.{ℕ, zero, suc, Bool, List, [], ◌∷◌, leb}
use leocoin.Result.{
  Result, guard, Pointer, Out, writable, failure_could_not_malloc, failure_signature_too_long,
}
use leocoin.Endian.Memory.{Host}
use leocoin.Buffer.{Parser, pure, ◌>>=◌, ◌>>◌, lift, run, check_room, take, field, read_u64}
use leocoin.Blockchain.{
  Transaction, Block, Blockchain, max_ssh_key_length, max_ssh_signature_length,
  sha256_digest_length,
}

-- What is allocated while a chain is read: by `blockchain_create`, `linked_list_create`, `calloc` for
-- a transaction, `linked_list_append` for a transaction and for a block, and `block_create`.
pub data Request : Type 0 where
  blockchain_struct : Request
  list_struct : Request
  transaction_struct : Request
  transaction_node : Request
  block_struct : Request
  block_node : Request

-- Whether a request is granted, which may differ from one place in the buffer to another.
abbrev pub Heap : Type 0
Heap = ℕ → Request → Bool

unfoldable pub allocate : Heap → Request → Parser (Unit {0})
allocate heap request c = lift (guard (heap c.offset request) failure_could_not_malloc) c

-- The signature's length is checked against `MAX_SSH_KEY_LENGTH`, and the room for that many bytes;
-- then the whole array is read.
unfoldable pub read_transaction : Heap → Host → ℕ → Parser Transaction
unfolding allocate
read_transaction heap host buffer_size = do
  allocate heap transaction_struct
  created_at ← read_u64 host buffer_size
  sender_public_key ← field buffer_size max_ssh_key_length
  recipient_public_key ← field buffer_size max_ssh_key_length
  amount ← read_u64 host buffer_size
  len ← read_u64 host buffer_size
  lift (guard (leb len max_ssh_key_length) failure_signature_too_long)
  check_room buffer_size len
  bytes ← take max_ssh_signature_length
  allocate heap transaction_node
  pure (record {
    created_at = created_at;
    sender_public_key = sender_public_key;
    recipient_public_key = recipient_public_key;
    amount = amount;
    sender_signature = record { len = len; bytes = bytes };
  })

-- The loops over the transactions and the blocks, on the rounds that are left.
unfoldable pub read_transactions : Heap → Host → ℕ → ℕ → Parser (List Transaction)
read_transactions heap host buffer_size zero = pure []
read_transactions heap host buffer_size (suc n) = do
  t ← read_transaction heap host buffer_size
  ts ← read_transactions heap host buffer_size n
  pure (t ∷ ts)

unfoldable pub read_block : Heap → Host → ℕ → Parser Block
unfolding allocate
read_block heap host buffer_size = do
  created_at ← read_u64 host buffer_size
  previous_block_hash ← field buffer_size sha256_digest_length
  proof_of_work ← read_u64 host buffer_size
  num_transactions ← read_u64 host buffer_size
  allocate heap list_struct
  transaction_list ← read_transactions heap host buffer_size num_transactions
  allocate heap block_struct
  allocate heap block_node
  pure (record {
    created_at = created_at;
    transaction_list = transaction_list;
    proof_of_work = proof_of_work;
    previous_block_hash = previous_block_hash;
  })

unfoldable pub read_blocks : Heap → Host → ℕ → ℕ → Parser (List Block)
read_blocks heap host buffer_size zero = pure []
read_blocks heap host buffer_size (suc n) = do
  b ← read_block heap host buffer_size
  bs ← read_blocks heap host buffer_size n
  pure (b ∷ bs)

unfoldable pub read_blockchain : Heap → Host → ℕ → Parser Blockchain
unfolding allocate
read_blockchain heap host buffer_size = do
  num_leading_zero_bytes ← read_u64 host buffer_size
  allocate heap blockchain_struct
  allocate heap list_struct
  num_blocks ← read_u64 host buffer_size
  block_list ← read_blocks heap host buffer_size num_blocks
  pure (record { block_list = block_list; num_leading_zero_bytes = num_leading_zero_bytes })

unfoldable pub blockchain_deserialize : Heap → Host → Out → Pointer (List ℕ) → ℕ → Result Blockchain
unfolding read_blockchain
blockchain_deserialize heap host blockchain buffer buffer_size =
    run (do lift (writable blockchain); read_blockchain heap host buffer_size) buffer

-- ===== src/Blockchain/Bounds.antt =====
-- How far `blockchain_deserialize` reads: up to 512 bytes past `buffer_size`, and it does.
use leocoin.Prelude.{ℕ, zero, suc, ◌+◌, ◌≤◌, ◌≡◌, ◌≢◌, some, List, leb, length, arith}
use leocoin.Result.{fault, Pointer, Out, failure_could_not_malloc, failure_buffer_too_small}
use leocoin.Endian.Memory.{Host}
use leocoin.Buffer.{Parser, ◌>>=◌, check_room, take, field, read_u64}
use leocoin.Buffer.Safety.{
  Inside-guard, Inside-then, IsSafe, IsSafe-pure, IsSafe-lift, IsSafe-bind, IsSafe-field,
  IsSafe-read_u64, take-Inside, run-ne-fault, guard-ne-fault, IsSafe-out,
}
use leocoin.Blockchain.Deserialize.{
  Heap, Request, allocate, read_transaction, read_transactions, read_block, read_blocks,
  read_blockchain, blockchain_deserialize,
}

module _ (heap : Heap) (host : Host) (total size : ℕ) (slack : size + 512 ≤ total) where
  IsSafe-allocate : (request : Request) → IsSafe total (allocate heap request)
  unfolding allocate
  IsSafe-allocate request = record {
    at = λ c h.
        (IsSafe-lift total _ (guard-ne-fault (heap c.offset request) failure_could_not_malloc)).at c
          h;
  }

  read : IsSafe total (read_u64 host size)
  read = IsSafe-read_u64 host total size (omega arith)

  array : (n : ℕ) → IsSafe total (field size n)
  array n = IsSafe-field total size n (omega arith)

  -- The array of the signature is read where only `len` bytes of it were checked.
  IsSafe-signature :
      {A : Type 0} (len : ℕ) (f : List ℕ → Parser A)
      → ((bytes : List ℕ) → IsSafe total (f bytes))
      → IsSafe total (check_room size len >>= λ _. (take 512 >>= f))
  unfolding check_room
  IsSafe-signature len f safe = record {
    at = λ c h.
        Inside-guard total (leb (c.offset + len) size) failure_buffer_too_small
          (λ _. take 512 >>= f) c
          λ room. Inside-then total (take 512 c) f (take-Inside total 512 c h (ground arith)) safe;
  }

  IsSafe-read_transaction : IsSafe total (read_transaction heap host size)
  unfolding read_transaction
  IsSafe-read_transaction = IsSafe-bind total _ _ (IsSafe-allocate Request.transaction_struct) λ _.
      IsSafe-bind total _ _ read λ _. IsSafe-bind total _ _ (array 4096) λ _.
        IsSafe-bind total _ _ (array 4096) λ _. IsSafe-bind total _ _ read λ _.
          IsSafe-bind total _ _ read λ len.
            IsSafe-bind total _ _ (IsSafe-lift total _ (guard-ne-fault _ _)) λ _.
              IsSafe-signature len _ λ bytes.
                IsSafe-bind total _ _ (IsSafe-allocate Request.transaction_node)
                  (λ _. IsSafe-pure total _)

  IsSafe-read_transactions : (n : ℕ) → IsSafe total (read_transactions heap host size n)
  unfolding read_transactions
  IsSafe-read_transactions zero = IsSafe-pure total _
  IsSafe-read_transactions (suc n) =
      let rest = IsSafe-read_transactions n in
      IsSafe-bind total _ _ IsSafe-read_transaction
        λ t. IsSafe-bind total _ _ rest (λ ts. IsSafe-pure total _)

  IsSafe-read_block : IsSafe total (read_block heap host size)
  unfolding read_block
  IsSafe-read_block = IsSafe-bind total _ _ read λ _. IsSafe-bind total _ _ (array 32) λ _.
      IsSafe-bind total _ _ read λ _. IsSafe-bind total _ _ read λ n.
        IsSafe-bind total _ _ (IsSafe-allocate Request.list_struct) λ _.
          IsSafe-bind total _ _ (IsSafe-read_transactions n) λ _.
            IsSafe-bind total _ _ (IsSafe-allocate Request.block_struct) λ _.
              IsSafe-bind total _ _ (IsSafe-allocate Request.block_node) (λ _. IsSafe-pure total _)

  IsSafe-read_blocks : (n : ℕ) → IsSafe total (read_blocks heap host size n)
  unfolding read_blocks
  IsSafe-read_blocks zero = IsSafe-pure total _
  IsSafe-read_blocks (suc n) =
      let rest = IsSafe-read_blocks n in
      IsSafe-bind total _ _ IsSafe-read_block
        λ b. IsSafe-bind total _ _ rest (λ bs. IsSafe-pure total _)

  IsSafe-read_blockchain : IsSafe total (read_blockchain heap host size)
  unfolding read_blockchain
  IsSafe-read_blockchain = IsSafe-bind total _ _ read λ _.
      IsSafe-bind total _ _ (IsSafe-allocate Request.blockchain_struct) λ _.
        IsSafe-bind total _ _ (IsSafe-allocate Request.list_struct) λ _.
          IsSafe-bind total _ _ read
            λ n. IsSafe-bind total _ _ (IsSafe-read_blocks n) (λ bs. IsSafe-pure total _)

-- Whatever the bytes, `blockchain_deserialize` reads at most 512 bytes past the `buffer_size` bytes
-- that it is told of: it does not fault where the memory goes on for 512 bytes behind them.
pub blockchain_deserialize_bounds :
    (heap : Heap) (host : Host) (out : Out) (buffer : Pointer (List ℕ)) (size : ℕ)
    → ((memory : List ℕ) → buffer ≡ some memory → size + 512 ≤ length memory)
    → blockchain_deserialize heap host out buffer size ≢ fault
unfolding blockchain_deserialize
blockchain_deserialize_bounds heap host out buffer size slack = run-ne-fault _ buffer λ memory e.
    IsSafe-out (length memory) out _ (IsSafe-read_blockchain heap host _ size (slack memory e))

-- ===== src/Transaction.antt =====
-- src/transaction.c.
use leocoin.Prelude.{
  ℕ, Bool, Option, none, some, List, ◌++◌, leb, if◌then◌else◌, length, replicate, split_at?,
}
use leocoin.Result.{
  Result, ok, err, fault, ◌>>=◌, ◌>>◌, guard, Pointer, Out, non_null, writable, Allocator, malloc,
  failure_openssl_function,
}
use leocoin.Endian.Memory.{Host, memory_of}
use leocoin.Blockchain.{SshKey, SshSignature, Transaction, max_ssh_signature_length}
use leocoin.Crypto.{OpenSsl}

-- The struct in memory up to `sender_signature`, which is what is signed, and the whole struct. The
-- compiler adds no padding: every field has a multiple of eight bytes.
unfoldable pub signed_memory : Host → Transaction → List ℕ
signed_memory host t =
    memory_of host 8 t.created_at
    ++ (t.sender_public_key ++ (t.recipient_public_key ++ memory_of host 8 t.amount))

unfoldable pub transaction_memory : Host → Transaction → List ℕ
transaction_memory host t =
    signed_memory host t ++ (memory_of host 8 t.sender_signature.len ++ t.sender_signature.bytes)

abbrev pub first : Option (List ℕ × List ℕ) → Result (List ℕ)
first none = fault
first (some (front, _)) = ok front

-- The first `n` bytes at a pointer: a fault where its object has fewer.
unfoldable pub bytes_at : ℕ → List ℕ → Result (List ℕ)
bytes_at n memory = first (split_at? n memory)

abbrev pub or_openssl : {A : Type 0} → Option A → Result A
or_openssl none = err failure_openssl_function
or_openssl (some a) = ok a

module _ (ssl : OpenSsl) (host : Host) where
  open ssl use {
    bio_new_mem_buf, md_ctx_new, pem_read_public_key, pem_read_private_key, is_rsa, verify_init,
    verify_update, verify_final, sign_init, sign_update, sign_length, sign_final,
  }

  -- `EVP_VerifyFinal` is given the array of the signature with its `len`.
  unfoldable pub transaction_verify_signature : Out → Pointer Transaction → Result Bool
  transaction_verify_signature is_valid_signature transaction = do
    writable is_valid_signature
    t ← non_null transaction
    guard (bio_new_mem_buf t.sender_public_key) failure_openssl_function
    public_key ← or_openssl (pem_read_public_key t.sender_public_key)
    guard md_ctx_new failure_openssl_function
    guard verify_init failure_openssl_function
    guard (verify_update (signed_memory host t)) failure_openssl_function
    signature ← bytes_at t.sender_signature.len t.sender_signature.bytes
    ok (verify_final public_key (signed_memory host t) signature)

  -- The array that a signature of these bytes leaves, over what stood there: a fault where they do
  -- not fit.
  unfoldable pub write_signature : List ℕ → SshSignature → Result SshSignature
  write_signature sig old =
      if leb (length sig) max_ssh_signature_length
      then (elim (split_at? (length sig) old.bytes) [
        | none ↦ fault
        | some (_, rest) ↦ ok (record { len = length sig; bytes = sig ++ rest })
      ])
      else fault

  unfoldable pub transaction_generate_signature :
      Pointer SshSignature → Pointer Transaction → Pointer SshKey → Result SshSignature
  unfolding write_signature
  transaction_generate_signature signature transaction sender_private_key = do
    old ← non_null signature
    t ← non_null transaction
    key ← non_null sender_private_key
    guard (bio_new_mem_buf key) failure_openssl_function
    private_key ← or_openssl (pem_read_private_key key)
    guard (is_rsa private_key) failure_openssl_function
    guard md_ctx_new failure_openssl_function
    guard (sign_init private_key) failure_openssl_function
    guard (sign_update (signed_memory host t)) failure_openssl_function
    sig_len ← or_openssl (sign_length private_key (signed_memory host t))
    sig ← or_openssl (sign_final private_key (signed_memory host t))
    write_signature sig old

  -- `now` is what `time(NULL)` returns.
  unfoldable pub transaction_create :
      Allocator
      → (now : ℕ) → Out
      → (sender_public_key recipient_public_key : Pointer SshKey) → (amount : ℕ)
      → (sender_private_key : Pointer SshKey) → Result Transaction
  unfolding transaction_generate_signature
  transaction_create grants now transaction sender recipient amount private_key = do
    writable transaction
    sender_key ← non_null sender
    recipient_key ← non_null recipient
    key ← non_null private_key
    malloc grants 8728
    let unsigned : Transaction = record {
      created_at = now;
      sender_public_key = sender_key;
      recipient_public_key = recipient_key;
      amount = amount;
      sender_signature = record { len = 0; bytes = replicate max_ssh_signature_length 0 };
    }
    signature ←
        transaction_generate_signature (some unsigned.sender_signature) (some unsigned) (some key)
    ok (record unsigned { sender_signature = signature })

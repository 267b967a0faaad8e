-- ===== src/MiningThread/Signed.antt =====
-- The transaction that `transaction_create` signs with a key has a signature that the other key of
-- the pair verifies.
use leocoin.Prelude.{
  ℕ, ◌≤◌, ◌≡◌, refl, true, some, List, ◌++◌, arith, leb, length, length-append, length-replicate,
  replicate, split_at?-append, split_at?-some, split_at?-sound, ap,
}
use leocoin.Result.{ok, given, Allocator}
use leocoin.Endian.Memory.{Host}
use leocoin.Blockchain.{SshKey, SshSignature, Transaction}
use leocoin.Crypto.{OpenSsl}
use leocoin.Transaction.{
  signed_memory, bytes_at, write_signature, transaction_generate_signature,
  transaction_verify_signature, transaction_create,
}

-- What OpenSSL documents of a pair of RSA keys of up to 4096 bits, while it has memory: both are
-- read, the one signs every message in at most 512 bytes, and the other verifies the signature.
pub record KeyPair (ssl : OpenSsl) (public private : SshKey) : Type 0 where
  pub public_key : ssl.PublicKey
  pub private_key : ssl.PrivateKey
  pub reads_public : ssl.pem_read_public_key public ≡ some public_key
  pub reads_private : ssl.pem_read_private_key private ≡ some private_key
  pub is_rsa : ssl.is_rsa private_key ≡ true
  pub bio_new_mem_buf : (key : SshKey) → ssl.bio_new_mem_buf key ≡ true
  pub md_ctx_new : ssl.md_ctx_new ≡ true
  pub verify_init : ssl.verify_init ≡ true
  pub verify_update : (m : List ℕ) → ssl.verify_update m ≡ true
  pub sign_init : ssl.sign_init private_key ≡ true
  pub sign_update : (m : List ℕ) → ssl.sign_update m ≡ true
  pub sign_length : (m : List ℕ) → (n : ℕ) × (ssl.sign_length private_key m ≡ some n)
  pub signs :
      (m : List ℕ) → (s : List ℕ) × (ssl.sign_final private_key m ≡ some s) × (length s ≤ 512)
  pub verifies :
      (m s : List ℕ)
      → ssl.sign_final private_key m ≡ some s
      → ssl.verify_final public_key m s ≡ true

module _ (ssl : OpenSsl) (host : Host) where
  -- A signature that fits the array is written at its start.
  write_signature_lem :
      (sig : List ℕ) (old : SshSignature)
      → length sig ≤ 512
      → length old.bytes ≡ 512
      → (rest : List ℕ) × (write_signature ssl host sig old
          ≡ ok (record { len = length sig; bytes = sig ++ rest }))
        × (length (sig ++ rest) ≡ 512)
  unfolding write_signature
  write_signature_lem sig old fits whole =
      let room : leb (length sig) 512 ≡ true = ground arith in
      let ((front, rest), cut) = split_at?-some (length sig) old.bytes (omega arith) in
      let (parts, size) = split_at?-sound (length sig) old.bytes front rest cut in
      (
        rest,
        rw (room, cut),
        omega (arith, ap length parts, length-append front rest, length-append sig rest),
      )

  -- The transaction before it is signed.
  abbrev pub unsigned : ℕ → SshKey → SshKey → ℕ → Transaction
  unsigned now sender recipient amount = record {
    created_at = now;
    sender_public_key = sender;
    recipient_public_key = recipient;
    amount = amount;
    sender_signature = record { len = 0; bytes = replicate 512 0 };
  }

  module _ {sender private : SshKey} (pair : KeyPair ssl sender private) where
    create_with :
        (grants : Allocator) (now : ℕ) (recipient : SshKey) (amount n : ℕ) (sig : List ℕ)
        (signature : SshSignature)
        → (let t = unsigned now sender recipient amount in
            ssl.sign_length pair.private_key (signed_memory host t) ≡ some n
            → ssl.sign_final pair.private_key (signed_memory host t) ≡ some sig
            → write_signature ssl host sig t.sender_signature ≡ ok signature
            → grants 8728 ≡ true
            → transaction_create ssl host grants now given
                (some sender)
                (some recipient)
                amount
                (some private)
              ≡ ok (record t { sender_signature = signature }))
    unfolding transaction_create transaction_generate_signature
    create_with grants now recipient amount n sig signature len made written g =
        let t = unsigned now sender recipient amount in
        rw (
          g,
          pair.bio_new_mem_buf private,
          pair.reads_private,
          pair.is_rsa,
          pair.md_ctx_new,
          pair.sign_init,
          pair.sign_update (signed_memory host t),
          len,
          made,
          written,
        )

    verify_with :
        (t : Transaction) (m sig rest : List ℕ)
        → signed_memory host t ≡ m
        → ssl.pem_read_public_key t.sender_public_key ≡ some pair.public_key
        → t.sender_signature ≡ record { len = length sig; bytes = sig ++ rest }
        → ssl.sign_final pair.private_key m ≡ some sig
        → transaction_verify_signature ssl host given (some t) ≡ ok true
    unfolding transaction_verify_signature bytes_at
    verify_with t m sig rest memory reads signature made = rw (
      memory,
      pair.bio_new_mem_buf t.sender_public_key,
      reads,
      pair.md_ctx_new,
      pair.verify_init,
      pair.verify_update m,
      signature,
      split_at?-append sig rest (length sig) refl,
      pair.verifies m sig made,
    )

    -- `transaction_create` returns the transaction with a signature that
    -- `transaction_verify_signature` finds valid.
    pub transaction_create_lem :
        (grants : Allocator) (now : ℕ) (recipient : SshKey) (amount : ℕ)
        → grants 8728 ≡ true
        → (signature : SshSignature) × (transaction_create ssl host grants now given
              (some sender)
              (some recipient)
              amount
              (some private)
            ≡ ok (record (unsigned now sender recipient amount) { sender_signature = signature }))
          × (transaction_verify_signature ssl host given (
                some
                  (record (unsigned now sender recipient amount) { sender_signature = signature }))
              ≡ ok true)
          × (signature.len ≤ 512)
          × (length signature.bytes ≡ 512)
    unfolding signed_memory
    transaction_create_lem grants now recipient amount g =
        let t = unsigned now sender recipient amount in
        let (n, len) = pair.sign_length (signed_memory host t) in
        let (sig, made, fits) = pair.signs (signed_memory host t) in
        let (rest, written, whole) =
          write_signature_lem sig t.sender_signature fits (length-replicate {A = ℕ} 512 0) in
        let signature : SshSignature = record { len = length sig; bytes = sig ++ rest } in
        (
          signature,
          create_with grants now recipient amount n sig signature len made written g,
          verify_with (record t { sender_signature = signature }) (signed_memory host t) sig rest
              refl pair.reads_public refl made,
          fits,
          whole,
        )

-- ===== src/Crypto.antt =====
-- What src/transaction.c and src/block.c use of OpenSSL: a parameter of the model.
use leocoin.Prelude.{ℕ, ◌≡◌, Bool, true, Option, List, length}

pub record OpenSsl : Type 1 where
  pub PublicKey : Type 0
  pub PrivateKey : Type 0
  -- `EVP_sha256` over the bytes that `EVP_DigestUpdate` is given one after the other.
  pub sha256 : List ℕ → List ℕ
  -- `BIO_new_mem_buf` and `EVP_MD_CTX_new` do not return NULL.
  pub bio_new_mem_buf : List ℕ → Bool
  pub md_ctx_new : Bool
  -- `PEM_read_bio_PUBKEY`, `PEM_read_bio_PrivateKey`, and the test for an RSA key.
  pub pem_read_public_key : List ℕ → Option PublicKey
  pub pem_read_private_key : List ℕ → Option PrivateKey
  pub is_rsa : PrivateKey → Bool
  -- `EVP_VerifyInit` and `EVP_VerifyUpdate` return more than 0; `EVP_VerifyFinal` returns 1.
  pub verify_init : Bool
  pub verify_update : List ℕ → Bool
  pub verify_final : PublicKey → (message signature : List ℕ) → Bool
  -- `EVP_DigestSignInit`, `EVP_DigestSignUpdate`, and the two calls of `EVP_DigestSignFinal`, for
  -- the length and for the signature.
  pub sign_init : PrivateKey → Bool
  pub sign_update : List ℕ → Bool
  pub sign_length : PrivateKey → List ℕ → Option ℕ
  pub sign_final : PrivateKey → List ℕ → Option (List ℕ)

-- SHA-256 has digests of 32 bytes, and memory is granted for its context.
pub record HashesTo32 (ssl : OpenSsl) : Type 0 where
  pub length_sha256 : (m : List ℕ) → length (ssl.sha256 m) ≡ 32
  pub md_ctx_new : ssl.md_ctx_new ≡ true

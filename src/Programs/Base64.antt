-- ===== src/Programs/Base64.antt =====
-- src/base64.c, and the checks of a key's length in src/miner.c.
use leocoin.Prelude.{
  ℕ, ◌+◌, ◌*◌, ◌/◌, ◌%◌, ◌^◌, Option, none, some, List, [], ◌∷◌, ◌++◌, leb, length, replicate,
  split_at?,
}
use leocoin.Result.{
  Result, ok, err, fault, ◌>>=◌, ◌>>◌, Pointer, non_null, guard, failure_openssl_function,
  failure_invalid_command_line_args,
}
use leocoin.Blockchain.{SshKey, max_ssh_key_length}
use leocoin.Programs.{CString}

-- `EVP_DecodeBlock`, of the text and its length as an `int` by its 32 bits: what it writes, or none
-- where its result is negative.
abbrev pub DecodeBlock : Type 0
DecodeBlock = CString → ℕ → Option (List ℕ)

abbrev pub decoded_by : Option (List ℕ) → Result (List ℕ)
decoded_by none = err failure_openssl_function
decoded_by (some bytes) = ok bytes

-- An array with its first bytes written, or a fault where it is too short.
unfoldable pub write_front : (array : List ℕ) → (bytes : List ℕ) → Result (List ℕ)
write_front array bytes = elim (split_at? (length bytes) array) [
  | none ↦ fault
  | some (_, rest) ↦ ok (bytes ++ rest)
]

-- The array `decoded` as the function leaves it.
unfoldable pub base64_decode :
    DecodeBlock
    → (encoded : Pointer CString) → (encoded_length : ℕ) → (decoded : Pointer (List ℕ))
    → Result (List ℕ)
unfolding write_front
base64_decode decode_block encoded encoded_length decoded = do
  text ← non_null encoded
  array ← non_null decoded
  bytes ← decoded_by (decode_block text (encoded_length % 2 ^ 32))
  write_front array (bytes ++ 0 ∷ [])

-- `(size_t)ceil(strlen(text) * 3 / 4) + 1`; `as_double` is the conversion to `double`, `ceil`, and the
-- conversion back.
abbrev pub decoded_length : (as_double : ℕ → ℕ) → (strlen : ℕ) → ℕ
decoded_length as_double strlen = (as_double (strlen * 3 % 2 ^ 64 / 4) + 1) % 2 ^ 64

-- A key of the command line or the environment, decoded into an array of zeros.
unfoldable pub read_key : DecodeBlock → (as_double : ℕ → ℕ) → CString → Result SshKey
unfolding base64_decode
read_key decode_block as_double text = do
  guard (leb (decoded_length as_double (length text)) max_ssh_key_length)
      failure_invalid_command_line_args
  base64_decode decode_block (some text) (length text) (some (replicate max_ssh_key_length 0))

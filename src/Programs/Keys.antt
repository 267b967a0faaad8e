-- ===== src/Programs/Keys.antt =====
-- The keys that src/miner.c reads stay in their arrays.
use leocoin.Prelude.{
  ℕ, ◌+◌, ◌*◌, ◌/◌, ◌%◌, ◌^◌, ◌≤◌, ◌<◌, ◌≡◌, ◌⊎◌, inl, inr, refl, ap, ◌∙◌, true, some, List, [],
  ◌∷◌, ◌++◌, append_assoc, arith, leb, length, length-append, length-replicate, replicate,
  Bool-cases, Option-cases, split_at?-some, split_at?-sound,
}
use leocoin.Result.{ok, err, failure_openssl_function, failure_invalid_command_line_args}
use leocoin.Blockchain.{SshKey}
use leocoin.Programs.{CString}
use leocoin.Programs.Base64.{DecodeBlock, write_front, base64_decode, decoded_length, read_key}

-- What OpenSSL documents of `EVP_DecodeBlock`: three bytes at most for four characters.
abbrev pub DecodesThreeOfFour : DecodeBlock → Type 0
DecodesThreeOfFour decode_block =
    (text : CString) (n : ℕ) (bytes : List ℕ)
    → n ≡ length text
    → decode_block text n ≡ some bytes
    → length bytes ≤ length text / 4 * 3

-- A `double` holds the numbers up to 2 ^ 53, and no larger number becomes one of them.
pub record IsDouble (as_double : ℕ → ℕ) : Type 0 where
  pub exact : (n : ℕ) → n < 2 ^ 53 → as_double n ≡ n
  pub large : (n : ℕ) → 2 ^ 53 ≤ n → n < 2 ^ 62 → (2 ^ 53 ≤ as_double n) × (as_double n ≤ 2 ^ 62)

-- An array of a key that holds a string.
pub record IsKeyString (key : SshKey) (text : List ℕ) : Type 0 where
  pub whole : length key ≡ 4096
  pub rest : List ℕ
  pub ends : key ≡ text ++ 0 ∷ rest

write_front_lem :
    (array bytes : List ℕ)
    → length bytes ≤ length array
    → (rest : List ℕ) × (write_front array bytes ≡ ok (bytes ++ rest))
      × (length (bytes ++ rest) ≡ length array)
unfolding write_front
write_front_lem array bytes fits =
    let ((front, rest), cut) = split_at?-some (length bytes) array fits in
    let (parts, size) = split_at?-sound (length bytes) array front rest cut in
    (
      rest,
      rw (write_front, cut) refl,
      omega (
        arith,
        ap (λ (xs : List ℕ). length xs) parts,
        length-append front rest,
        length-append bytes rest,
        size,
      ),
    )

-- A text whose length passes the check has room in the array when it is decoded.
decoded_length-fits :
    (as_double : ℕ → ℕ) (n : ℕ)
    → IsDouble as_double
    → n < 2 ^ 62
    → decoded_length as_double n ≤ 4096
    → (n / 4 * 3 + 1 ≤ 4096) × (n % 2 ^ 32 ≡ n)
decoded_length-fits as_double n d small passed =
    let product : n * 3 % 2 ^ 64 / 4 ≡ n * 3 / 4 = omega arith in
    let q = n * 3 / 4 in
    let passed' : (as_double q + 1) % 2 ^ 64 ≤ 4096 = rw product at passed in
    elim (Bool-cases (leb (2 ^ 53) q)) [
      | inl big ↦
          let huge : 2 ^ 53 ≤ q = ground arith in
          let (low, high) = d.large q huge (omega arith) in
          let sum : (as_double q + 1) % 2 ^ 64 ≡ as_double q + 1 = omega (arith, high) in
          absurd (omega (arith, passed', sum, low))
      | inr less ↦
          let fits : q < 2 ^ 53 = ground arith in
          let same = d.exact q fits in
          let passed'' : (q + 1) % 2 ^ 64 ≤ 4096 = rw same at passed' in
          let sum : (q + 1) % 2 ^ 64 ≡ q + 1 = omega (arith, fits) in
          let short : q + 1 ≤ 4096 = omega (arith, sum, passed'') in
          (omega (arith, short), omega (arith, short))
    ]

read_key_decoded :
    (decode_block : DecodeBlock) (as_double : ℕ → ℕ) (text : CString)
    → DecodesThreeOfFour decode_block
    → IsDouble as_double
    → length text < 2 ^ 62
    → leb (decoded_length as_double (length text)) 4096 ≡ true
    → (read_key decode_block as_double text ≡ err failure_openssl_function)
      ⊎ ((key : SshKey) × (bytes : List ℕ) × (read_key decode_block as_double text ≡ ok key)
          × (decode_block text (length text) ≡ some bytes)
          × IsKeyString key bytes)
unfolding read_key base64_decode
read_key_decoded decode_block as_double text three double small passed =
    let low : decoded_length as_double (length text) ≤ 4096 = ground arith in
    let (room, same) = decoded_length-fits as_double (length text) double small low in
    elim (Option-cases (decode_block text (length text))) [
      | inl negative ↦ inl (rw (passed, same, negative) refl)
      | inr (bytes, decoded) ↦
          let step : read_key decode_block as_double text
              ≡ write_front (replicate 4096 0) (bytes ++ 0 ∷ []) =
            rw (passed, same, decoded) refl in
          let most = three text (length text) bytes refl decoded in
          let size = length-append bytes (0 ∷ []) in
          let zeros = length-replicate {A = ℕ} 4096 0 in
          let (rest, written, whole) =
            write_front_lem (replicate 4096 0) (bytes ++ 0 ∷ [])
              (omega (arith, most, room, size, zeros)) in
          inr (
            (bytes ++ 0 ∷ []) ++ rest,
            bytes,
            step ∙ written,
            decoded,
            record { whole = whole ∙ zeros; rest = rest; ends = append_assoc bytes (0 ∷ []) rest },
          )
    ]

-- Reading a key is never a memory error, for any text that memory can hold: it returns the code for
-- invalid arguments where the check finds the text too long; where it passes, the code for OpenSSL
-- where `EVP_DecodeBlock` refuses the text, and otherwise an array of 4096 bytes with the decoded
-- bytes and a zero byte behind them.
pub read_key-IsKeyString :
    (decode_block : DecodeBlock) (as_double : ℕ → ℕ) (text : CString)
    → DecodesThreeOfFour decode_block
    → IsDouble as_double
    → length text < 2 ^ 62
    → (read_key decode_block as_double text ≡ err failure_invalid_command_line_args)
      ⊎ ((read_key decode_block as_double text ≡ err failure_openssl_function)
          ⊎ ((key : SshKey) × (bytes : List ℕ) × (read_key decode_block as_double text ≡ ok key)
              × (decode_block text (length text) ≡ some bytes)
              × IsKeyString key bytes))
unfolding read_key
read_key-IsKeyString decode_block as_double text three double small =
    elim (Bool-cases (leb (decoded_length as_double (length text)) 4096)) [
      | inl passed ↦ inr (read_key_decoded decode_block as_double text three double small passed)
      | inr long ↦ inl (rw long refl)
    ]

-- ===== src/Result.antt =====
-- include/return_codes.h, and the outcome of a C function.
use leocoin.Prelude.{ℕ, Bool, true, false, Option, none, some}

-- `return_code_t`
pub data ReturnCode : Type 0 where
  success : ReturnCode
  failure_could_not_malloc : ReturnCode
  failure_invalid_input : ReturnCode
  failure_linked_list_empty : ReturnCode
  failure_linked_list_no_compare_function : ReturnCode
  failure_could_not_find_valid_proof_of_work : ReturnCode
  failure_invalid_command_line_args : ReturnCode
  failure_openssl_function : ReturnCode
  failure_file_io : ReturnCode
  failure_signature_too_long : ReturnCode
  failure_buffer_too_small : ReturnCode
  failure_invalid_blockchain : ReturnCode
  failure_pthread_function : ReturnCode
  failure_stopped_early : ReturnCode
  failure_longer_blockchain_detected : ReturnCode
  failure_network_function : ReturnCode
  failure_invalid_command_prefix : ReturnCode
  failure_invalid_command : ReturnCode
  failure_invalid_command_len : ReturnCode
  failure_sleep : ReturnCode

-- `ok` is SUCCESS with what the function writes through its output pointers, `err` another return
-- code, with nothing written, and `fault` a memory error (undefined behaviour).
pub data Result {ℓ} (A : Type ℓ) : Type ℓ where
  ok : A → Result A
  err : ReturnCode → Result A
  fault : Result A

infixl 5 ◌>>=◌ ◌>>◌
abbrev pub ◌>>=◌ {ℓ κ} : {A : Type ℓ} {B : Type κ} → Result A → (A → Result B) → Result B
ok a >>= f = f a
err e >>= f = err e
fault >>= f = fault

abbrev pub ◌>>◌ {ℓ} : {B : Type ℓ} → Result (Unit {0}) → Result B → Result B
m >> k = m >>= λ _. k

-- `if (!test) { return_code = code; goto end; }`
abbrev pub guard : Bool → ReturnCode → Result (Unit {0})
guard true code = ok tt
guard false code = err code

-- A pointer argument: `none` is NULL.
abbrev pub Pointer : Type 0 → Type 0
Pointer A = Option A

-- A pointer through which a function writes its result.
pub data Out : Type 0 where
  null : Out
  given : Out

-- `if (NULL == p) { return_code = FAILURE_INVALID_INPUT; goto end; }`
abbrev pub non_null : {A : Type 0} → Pointer A → Result A
non_null none = err failure_invalid_input
non_null (some a) = ok a

abbrev pub writable : Out → Result (Unit {0})
writable null = err failure_invalid_input
writable given = ok tt

-- The answer of the C library to a request for memory of a size: whether it is granted. The
-- allocator is a parameter, since its choice is not the program's.
abbrev pub Allocator : Type 0
Allocator = ℕ → Bool

-- `p = malloc(size); if (NULL == p) { return_code = FAILURE_COULD_NOT_MALLOC; goto end; }`
abbrev pub malloc : Allocator → ℕ → Result (Unit {0})
malloc grants size = guard (grants size) failure_could_not_malloc

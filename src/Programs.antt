-- ===== src/Programs.antt =====
-- The three programs, and what they share: the status with which a process exits, and the arguments
-- and answers of the C library as they stand outside the program.
pub mod Sleep
pub mod Base64
pub mod Keys
pub mod MinerMain
pub mod Mines
pub mod ServerMain
pub mod ClientMain
pub mod Checks
use leocoin.Prelude.{ℕ, ◌%◌, ◌^◌, List, Option, none, some}
use leocoin.Result.{
  Result, ok, err, fault, ReturnCode, success, failure_could_not_malloc, failure_invalid_input,
  failure_linked_list_empty, failure_linked_list_no_compare_function,
  failure_could_not_find_valid_proof_of_work, failure_invalid_command_line_args,
  failure_openssl_function, failure_file_io, failure_signature_too_long, failure_buffer_too_small,
  failure_invalid_blockchain, failure_pthread_function, failure_stopped_early,
  failure_longer_blockchain_detected, failure_network_function, failure_invalid_command_prefix,
  failure_invalid_command, failure_invalid_command_len, failure_sleep,
}
use leocoin.Threads.{Run, returns, runs, faults}

-- A string of C, without the zero byte at its end; `strlen` is its length.
abbrev pub CString : Type 0
CString = List ℕ

-- The numbers of the codes of include/return_codes.h.
unfoldable pub status_of : ReturnCode → ℕ
status_of success = 0
status_of failure_could_not_malloc = 1
status_of failure_invalid_input = 2
status_of failure_linked_list_empty = 3
status_of failure_linked_list_no_compare_function = 4
status_of failure_could_not_find_valid_proof_of_work = 5
status_of failure_invalid_command_line_args = 6
status_of failure_openssl_function = 7
status_of failure_file_io = 8
status_of failure_signature_too_long = 9
status_of failure_buffer_too_small = 10
status_of failure_invalid_blockchain = 11
status_of failure_pthread_function = 12
status_of failure_stopped_early = 13
status_of failure_longer_blockchain_detected = 14
status_of failure_network_function = 15
status_of failure_invalid_command_prefix = 16
status_of failure_invalid_command = 17
status_of failure_invalid_command_len = 18
status_of failure_sleep = 19

-- What becomes of a process: it exits with the value that `main` returns, it crashes, or it has not
-- ended yet.
pub data Process : Type 0 where
  exits : (status : ℕ) → Process
  crashes : Process
  goes_on : Process

unfoldable pub exit_of : Result (Unit {0}) → Process
unfolding status_of
exit_of (ok _) = exits 0
exit_of (err code) = exits (status_of code)
exit_of fault = crashes

-- A process that ends when a thread's function does.
unfoldable pub process_of : {S : Type 0} → Run S → Process
unfolding exit_of
process_of (returns _ code) = exit_of code
process_of (runs _) = goes_on
process_of (faults _) = crashes

-- `uint16_t port = strtol(...)`, of the 64 bits of a `long`.
abbrev pub port_of : (long : ℕ) → ℕ
port_of long = long % 2 ^ 16

-- ===== src/MiningThread/Loop.antt =====
-- `mine_blocks` of src/mining_thread.c: the loop around its rounds, and its end.
use leocoin.Prelude.{ℕ, Bool, true, false, Option, none, some, List, [], ◌∷◌, if◌then◌else◌}
use leocoin.Result.{
  Result, ok, err, fault, ◌>>=◌, ◌>>◌, ReturnCode, success, Pointer, guard, failure_invalid_input,
  failure_pthread_function, failure_could_not_find_valid_proof_of_work,
}
use leocoin.Endian.Memory.{Host}
use leocoin.Blockchain.{Blockchain}
use leocoin.Crypto.{OpenSsl}
use leocoin.Files.{Disk, FileAccess, blockchain_write_to_file}
use leocoin.MiningThread.{MineBlocksArgs, search_round, after_mining}

-- What is read and answered in one round: `newer` is the chain that is shared, where its version is
-- not the one that is mined, and `locks_mined` and `unlocks_mined` are of the mutex around the signal
-- behind the switch to it. `destroyed` tells whether
-- another thread has destroyed the chain that is mined before the switch. `should_stop` is the flag at the start of the round, and `access` is of
-- the output file.
pub record Turn : Type 0 where
  pub should_stop : Bool
  pub newer : Option Blockchain
  pub locks_newer : Bool
  pub unlocks_newer : Bool
  pub destroyed : Bool
  pub locks_mined : Bool
  pub unlocks_mined : Bool
  pub args : MineBlocksArgs
  pub access : FileAccess

-- What the thread keeps from one round to the next: `blockchain`, `return_code`, and the files.
pub record Miner : Type 0 where
  pub blockchain : Blockchain
  pub return_code : ReturnCode
  pub disk : Disk

-- The thread leaves the loop because it is told to stop, with `exit_ready` set, or because of an
-- error, past the lines that set it; or it faults, or goes on.
pub data Mining : Type 0 where
  stops : Miner → (exit_ready : Bool) → Mining
  fails : (exit_ready : Bool) → Result Miner → Mining
  mines : Miner → Mining

-- `blockchain_destroy` of the old chain, which is not NULL: a fault where it is destroyed already.
abbrev pub destroy_old : (destroyed : Bool) → Result (Unit {0})
destroy_old true = fault
destroy_old false = ok tt

-- The switch to the chain that is shared.
unfoldable pub switch_chain : Turn → Blockchain → Result Blockchain
switch_chain t blockchain = elim t.newer [
  | none ↦ ok blockchain
  | some newer ↦ do
    guard t.locks_newer failure_pthread_function
    guard t.unlocks_newer failure_pthread_function
    destroy_old t.destroyed
    guard t.locks_mined failure_pthread_function
    guard t.unlocks_mined failure_pthread_function
    ok newer
]

-- The arguments with the chain that is mined in the place of the shared one.
abbrev pub on_chain : MineBlocksArgs → Blockchain → MineBlocksArgs
on_chain args blockchain = record args { sync = record (args.sync) { blockchain = blockchain } }

-- `return_code` behind a search after which the loop goes on.
abbrev pub code_after : Result (Unit {0}) → ReturnCode
code_after (err failure_could_not_find_valid_proof_of_work) =
    failure_could_not_find_valid_proof_of_work
code_after _ = success

-- The files, whether or not the file could be written: the result is not looked at.
abbrev pub ignore_result : Disk × Result (Unit {0}) → Result Disk
ignore_result (disk, ok _) = ok disk
ignore_result (disk, err _) = ok disk
ignore_result (disk, fault) = fault

module _ (ssl : OpenSsl) (host : Host) (outfile : Pointer (List ℕ)) where
  -- Where a block was found, the chain is written to the output file, if there is one.
  unfoldable pub write_outfile : Turn → Result (Unit {0}) → Blockchain → Disk → Result Disk
  write_outfile t found blockchain disk = elim found [
    | ok _ ↦ elim outfile [
      | none ↦ ok disk
      | some name ↦
          ignore_result (
            blockchain_write_to_file t.args.grants host t.access disk (some blockchain) (some name))
    ]
    | err _ ↦ ok disk
    | fault ↦ ok disk
  ]

  unfoldable pub mine_turn : Turn → Miner → Result Miner
  unfolding switch_chain search_round after_mining write_outfile
  mine_turn t m = do
    b ← switch_chain t m.blockchain
    mined ← search_round ssl host (on_chain t.args b)
    blockchain ← after_mining ssl host (on_chain t.args b) b mined
    disk ← write_outfile t mined.1 blockchain m.disk
    ok (record { blockchain = blockchain; return_code = code_after mined.1; disk = disk })

  unfoldable pub mine_turns : List Turn → Miner → Mining
  unfolding mine_turn
  mine_turns [] m = mines m
  mine_turns (t ∷ ts) m = elim (if t.should_stop then none else some (mine_turn t m)) [
    | none ↦ stops m true
    | some (ok m') ↦ mine_turns ts m'
    | some (err code) ↦ fails false (err code)
    | some fault ↦ fails false fault
  ]

-- What `mine_blocks` reads of its arguments before the loop: the shared chain, the name of the output
-- file, and the answers of the mutex around the shared chain.
pub record Start : Type 0 where
  pub blockchain : Blockchain
  pub outfile : Pointer (List ℕ)
  pub locks : Bool
  pub unlocks : Bool

unfoldable pub begin : Pointer Start → Disk → Result (Pointer (List ℕ) × Miner)
begin none disk = err failure_invalid_input
begin (some args) disk = do
  guard args.locks failure_pthread_function
  guard args.unlocks failure_pthread_function
  ok (args.outfile, record { blockchain = args.blockchain; return_code = success; disk = disk })

unfoldable pub mine_blocks : OpenSsl → Host → Pointer Start → Disk → List Turn → Mining
unfolding begin mine_turns
mine_blocks ssl host args disk ts = elim (begin args disk) [
  | ok (outfile, m) ↦ mine_turns ssl host outfile ts m
  | err code ↦ fails false (err code)
  | fault ↦ fails false fault
]

-- What the returned pointer points to; the `malloc` behind it is not checked.
unfoldable pub returned_code : (grants_return_code : Bool) → Mining → Option (Result ReturnCode)
returned_code grants (stops m _) = some (if grants then ok m.return_code else fault)
returned_code grants (fails _ (ok m)) = some (if grants then ok m.return_code else fault)
returned_code grants (fails _ (err code)) = some (if grants then ok code else fault)
returned_code grants (fails _ fault) = some fault
returned_code grants (mines _) = none

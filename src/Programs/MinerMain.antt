-- ===== src/Programs/MinerMain.antt =====
-- `main` of src/miner.c.
use leocoin.Prelude.{ℕ, zero, suc, Bool, Option, none, some, List, [], ◌∷◌}
use leocoin.Result.{
  Result, ok, err, fault, ◌>>=◌, ReturnCode, Pointer, Allocator, given,
  failure_invalid_command_line_args,
}
use leocoin.Endian.Memory.{Host}
use leocoin.Blockchain.{SshKey}
use leocoin.Crypto.{OpenSsl}
use leocoin.Block.{block_create_genesis_block}
use leocoin.Chain.{blockchain_create, blockchain_add_block}
use leocoin.Consensus.{SharedChain, synchronized_blockchain_create}
use leocoin.Files.{Disk}
use leocoin.MiningThread.Loop.{Turn, Start, mine_blocks, returned_code}
use leocoin.Programs.{CString, Process, exits, crashes, goes_on, status_of}
use leocoin.Programs.Base64.{DecodeBlock, read_key}

-- What `getopt` returns for "p:k:", with its argument, until it returns -1.
pub data MinerOption : Type 0 where
  private_key : CString → MinerOption
  public_key : CString → MinerOption
  unknown : MinerOption

-- What lies outside the program: the command line, the environment variables, the libraries, and the
-- answers to its calls. The last four numbers are what the calls of `pthread_cond_init` and
-- `pthread_mutex_init` return.
pub record MinerProcess : Type 0 where
  pub options : List MinerOption
  pub private_variable : Pointer CString
  pub public_variable : Pointer CString
  pub decode_block : DecodeBlock
  pub as_double : ℕ → ℕ
  pub grants : Allocator
  pub genesis_time : ℕ
  pub grants_sync : Bool
  pub exit_ready_cond : ℕ
  pub exit_ready_mutex : ℕ
  pub mined_cond : ℕ
  pub mined_mutex : ℕ
  pub locks : Bool
  pub unlocks : Bool
  pub grants_return_code : Bool

-- The two texts, the private key first.
abbrev pub KeyTexts : Type 0
KeyTexts = Pointer CString × Pointer CString

unfoldable pub read_options : List MinerOption → KeyTexts → Result KeyTexts
read_options [] texts = ok texts
read_options (private_key text ∷ os) (_, public) = read_options os (some text, public)
read_options (public_key text ∷ os) (private, _) = read_options os (private, some text)
read_options (unknown ∷ os) texts = err failure_invalid_command_line_args

-- A text of the command line, or that of the environment.
abbrev pub or_variable : Pointer CString → Pointer CString → Pointer CString
or_variable none variable = variable
or_variable (some text) variable = some text

abbrev pub required : Pointer CString → Result CString
required none = err failure_invalid_command_line_args
required (some text) = ok text

module _ (p : MinerProcess) where
  -- The public key, then the private one.
  unfoldable pub read_keys : Result (SshKey × SshKey)
  unfolding read_options read_key
  read_keys = do
    (private, public) ← read_options p.options (none, none)
    private_text ← required (or_variable private p.private_variable)
    public_text ← required (or_variable public p.public_variable)
    public_bytes ← read_key p.decode_block p.as_double public_text
    private_bytes ← read_key p.decode_block p.as_double private_text
    ok (public_bytes, private_bytes)

  -- The chain of the genesis block, which requires 3 bytes, and what the threads share of it.
  unfoldable pub first_chain : Result SharedChain
  first_chain = do
    blockchain ← blockchain_create p.grants given 3
    genesis_block ← block_create_genesis_block p.grants p.genesis_time given
    blockchain' ← blockchain_add_block p.grants (some blockchain) (some genesis_block)
    synchronized_blockchain_create p.grants_sync given (some blockchain')

  unfoldable pub set_up : Result ((SshKey × SshKey) × SharedChain)
  unfolding read_keys first_chain
  set_up = do keys ← read_keys; shared ← first_chain; ok (keys, shared)

-- The first of some results that is not 0.
unfoldable pub first_failure : List ℕ → Option ℕ
first_failure [] = none
first_failure (zero ∷ ns) = first_failure ns
first_failure (suc n ∷ _) = some (suc n)

-- "blockchain.bin"
abbrev pub outfile_name : CString
outfile_name = 98 ∷ 108 ∷ 111 ∷ 99 ∷ 107 ∷ 99 ∷ 104 ∷ 97 ∷ 105 ∷ 110 ∷ 46 ∷ 98 ∷ 105 ∷ 110 ∷ []

abbrev pub start_with : MinerProcess → SharedChain → Start
start_with p shared = record {
  blockchain = shared.blockchain;
  outfile = some outfile_name;
  locks = p.locks;
  unlocks = p.unlocks;
}

-- A round in which the miner has these keys.
abbrev pub with_keys : SshKey → SshKey → Turn → Turn
with_keys public private t = record t {
  args = record (t.args) { miner_public_key = public; miner_private_key = private };
}

abbrev pub all_with_keys : SshKey → SshKey → List Turn → List Turn
all_with_keys public private [] = []
all_with_keys public private (t ∷ ts) = with_keys public private t ∷ all_with_keys public private ts

-- What the process returns after `mine_blocks`.
unfoldable pub after_mine_blocks : Option (Result ReturnCode) → Process
after_mine_blocks none = goes_on
after_mine_blocks (some (ok code)) = exits (status_of code)
after_mine_blocks (some (err code)) = exits (status_of code)
after_mine_blocks (some fault) = crashes

module _ (ssl : OpenSsl) (host : Host) (p : MinerProcess) (disk : Disk) (ts : List Turn) where
  unfoldable pub mine_with : SshKey × SshKey → SharedChain → Process
  unfolding first_failure mine_blocks returned_code after_mine_blocks
  mine_with (public, private) shared =
      elim (first_failure
        (p.exit_ready_cond ∷ p.exit_ready_mutex ∷ p.mined_cond ∷ p.mined_mutex ∷ [])) [
          | some status ↦ exits status
          | none ↦ after_mine_blocks (
              returned_code p.grants_return_code (
                mine_blocks ssl host (some (start_with p shared)) disk
                  (all_with_keys public private ts)))
        ]

  unfoldable pub miner_main : Process
  unfolding set_up status_of mine_with
  miner_main = elim (set_up p) [
    | ok (keys, shared) ↦ mine_with keys shared
    | err code ↦ exits (status_of code)
    | fault ↦ crashes
  ]

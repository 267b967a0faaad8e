-- ===== src/Examples/Programs.antt =====
-- The theorems on the programs at concrete values.
use leocoin.Prelude.{
  ℕ, ◌≤◌, ◌≡◌, ◌⊎◌, inl, inr, refl, true, false, none, some, List, [], ◌∷◌, arith, length,
  replicate, leb, ◌*◌, ltb, if◌then◌else◌, Bool-cases, sym, ap,
}
use leocoin.Result.{ok, err, failure_openssl_function, failure_invalid_command_line_args}
use leocoin.Blockchain.{SshKey}
use leocoin.Programs.{CString, exits, process_of}
use leocoin.Programs.Base64.{DecodeBlock, read_key}
use leocoin.Programs.Keys.{DecodesThreeOfFour, IsDouble, IsKeyString, read_key-IsKeyString}
use leocoin.Programs.MinerMain.{MinerProcess, private_key}
use leocoin.Programs.ClientMain.{
  interval, ClientProcess, ClientArgs, read_arguments, no_peers, client_main,
}
use leocoin.Programs.Checks.{IsRefused, client_main-cases}
use leocoin.Discovery.Refused.{discover_peers}
use leocoin.MiningThread.Loop.{Turn}
use leocoin.Examples.Data.{host, grants_all, grants_objects}

-- A decoder that reads three bytes from any text of four characters or more.
abbrev decode_some : DecodeBlock
decode_some text n = if ltb n 4 then none else some (1 ∷ 2 ∷ 3 ∷ [])

decode_some-DecodesThreeOfFour : DecodesThreeOfFour decode_some
decode_some-DecodesThreeOfFour text n bytes same e = elim (Bool-cases (ltb n 4)) [
  | inl short ↦ absurd (cc (rw short at e))
  | inr long ↦
      let three : 1 ∷ 2 ∷ 3 ∷ [] ≡ bytes = cc (rw long at e) in
      let four : 4 ≤ length text = ground arith in
      omega (arith, sym (ap (λ (xs : List ℕ). length xs) three), four)
]

abbrev double : ℕ → ℕ
double n = n

double-IsDouble : IsDouble double
double-IsDouble = record {
  exact = λ n small. refl;
  large = λ n big small. (big, omega (arith, small));
}

abbrev key_text : CString
key_text = 65 ∷ 81 ∷ 73 ∷ 68 ∷ []

read_key-IsKeyString_example :
    (read_key decode_some double key_text ≡ err failure_invalid_command_line_args)
    ⊎ ((read_key decode_some double key_text ≡ err failure_openssl_function)
        ⊎ ((key : SshKey) × (bytes : List ℕ) × (read_key decode_some double key_text ≡ ok key)
            × (decode_some key_text 4 ≡ some bytes)
            × IsKeyString key bytes))
read_key-IsKeyString_example =
    read_key-IsKeyString decode_some double key_text decode_some-DecodesThreeOfFour double-IsDouble
      (omega arith)

-- A miner with its keys on the command line and in the environment.
abbrev miner : MinerProcess
miner = record {
  options = private_key key_text ∷ [];
  private_variable = none;
  public_variable = some key_text;
  decode_block = decode_some;
  as_double = double;
  grants = grants_objects;
  genesis_time = 1690000000;
  grants_sync = true;
  exit_ready_cond = 0;
  exit_ready_mutex = 0;
  mined_cond = 0;
  mined_mutex = 0;
  locks = true;
  unlocks = true;
  grants_return_code = true;
}

abbrev decoded_key : SshKey
decoded_key = 1 ∷ 2 ∷ 3 ∷ replicate 4093 0

abbrev unlucky_turn : Turn
unlucky_turn = record {
  should_stop = false;
  newer = none;
  locks_newer = true;
  unlocks_newer = true;
  destroyed = false;
  locks_mined = true;
  unlocks_mined = true;
  args = record {
    sync = record {
      blockchain = record { block_list = []; num_leading_zero_bytes = 3 };
      locks = true;
      unlocks = true;
      version = λ _. 0;
    };
    miner_public_key = [];
    miner_private_key = [];
    should_stop = λ round. leb 1 round;
    sync_version_currently_mined = λ _. 0;
    transaction_time = 1700000000;
    block_time = 1700000001;
    grants = grants_objects;
  };
  access = record { opens = false; stops_after = 0 };
}

abbrev last_turn : Turn
last_turn = record unlucky_turn { should_stop = true }

abbrev turns : List Turn
turns = unlucky_turn ∷ last_turn ∷ []

-- A client whose server address is none.
abbrev client : ClientProcess
client = record {
  options = interval (51 ∷ []) ∷ [];
  strtol = λ _. 65537;
  af_inet6 = 10;
  inet_pton = λ text. if ltb (length text) 2 then none else some (replicate 16 254);
  in_microseconds = λ seconds. seconds * 1000000;
  grants = grants_all;
  list_mutex = true;
  exit_ready_cond = true;
  exit_ready_mutex = true;
  rounds = λ _ _. [];
  grants_return_code = true;
}

abbrev command_line : List CString
command_line = key_text ∷ (58 ∷ []) ∷ key_text ∷ key_text ∷ key_text ∷ []

client_main-cases_example :
    (IsRefused client command_line × (client_main host client (λ _. none) command_line ≡ exits 6))
    ⊎ (¬ IsRefused client command_line
        × (args : ClientArgs) × (read_arguments host client command_line ≡ ok args)
        × (client_main host client (λ _. none) command_line
            ≡ process_of (discover_peers host args.peer true false [] no_peers)))
client_main-cases_example =
    client_main-cases host client (λ _. none) command_line refl refl refl refl

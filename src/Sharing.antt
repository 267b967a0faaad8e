-- ===== src/Sharing.antt =====
-- The chains that src/mining_thread.c and src/consensus_peer_server_thread.c share, by their
-- addresses: which thread frees which chain.
pub mod DoubleFree
use leocoin.Prelude.{ℕ, ◌+◌, ◌%◌, ◌^◌, Bool, true, false, List, [], ◌∷◌, ◌==◌, if◌then◌else◌}
use leocoin.Result.{Result, ok, fault, ◌>>=◌, ◌>>◌}

-- `sync->blockchain` and `sync->version`, what the mining thread has read of them, and the chains
-- that are allocated.
pub record Sharing : Type 0 where
  pub allocated : ℕ → Bool
  pub shared : ℕ
  pub version : ℕ
  pub mined : ℕ
  pub version_currently_mined : ℕ

abbrev pub mark : (ℕ → Bool) → ℕ → Bool → ℕ → Bool
mark allocated a b other = if other == a then b else allocated other

-- Access to a chain, and `blockchain_destroy`: a fault where the chain is not allocated.
abbrev pub access : Sharing → ℕ → Result (Unit {0})
access s a = if s.allocated a then ok tt else fault

unfoldable pub destroy : Sharing → ℕ → Result Sharing
destroy s a = do access s a; ok (record s { allocated = mark s.allocated a false })

-- The server, with the lock, where it takes the chain of a peer at an address: from the length of its
-- own chain to the end of that chain.
unfoldable pub server_switch : (peer_blockchain : ℕ) → Sharing → Result Sharing
unfolding destroy
server_switch peer_blockchain s = do
  let our_blockchain = s.shared
  access s our_blockchain
  destroy
      (record s {
        allocated = mark s.allocated peer_blockchain true;
        shared = peer_blockchain;
        version = (s.version + 1) % 2 ^ 64;
      })
      our_blockchain

-- The mining thread, from the test of the version to the check of the chain.
unfoldable pub miner_switch : Sharing → Result Sharing
unfolding destroy
miner_switch s =
    let old_blockchain = s.mined in
    if s.version_currently_mined == s.version then ok s else do
      s' ← destroy (record s { mined = s.shared }) old_blockchain
      ok (record s' { version_currently_mined = s'.version })

unfoldable pub miner_round : Sharing → Result Sharing
unfolding miner_switch
miner_round s = do s' ← miner_switch s; access s' s'.mined; ok s'

-- The chains that the server takes one after the other.
unfoldable pub server_switches : List ℕ → Sharing → Result Sharing
unfolding server_switch
server_switches [] s = ok s
server_switches (p ∷ ps) s = do s' ← server_switch p s; server_switches ps s'

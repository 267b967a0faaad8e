-- ===== src/Sharing/DoubleFree.antt =====
-- The chain that the server replaces is freed by both threads.
use leocoin.Prelude.{
  ℕ, ◌+◌, ◌%◌, ◌^◌, ◌≡◌, refl, true, false, List, [], ◌∷◌, ◌==◌, ==-flip, ==-refl, All, Bool-cases,
  inl, inr,
}
use leocoin.Result.{ok, fault}
use leocoin.Sharing.{
  Sharing, mark, destroy, server_switch, miner_switch, miner_round, server_switches,
}

-- Each chain is at another address than the one before.
abbrev pub IsApart : ℕ → List ℕ → Type 0
IsApart a [] = Unit {0}
IsApart a (p ∷ ps) = ((a == p) ≡ false) × IsApart p ps

-- The state after a switch of the server.
abbrev switched : ℕ → Sharing → Sharing
switched p s = record s {
  allocated = mark (mark s.allocated p true) s.shared false;
  shared = p;
  version = (s.version + 1) % 2 ^ 64;
}

server_switch-switched :
    (p : ℕ) (s : Sharing)
    → s.allocated s.shared ≡ true
    → (s.shared == p) ≡ false
    → server_switch p s ≡ ok (switched p s)
unfolding server_switch destroy
server_switch-switched p s held apart = rw (held, apart)

miner_round-fault : (s : Sharing) → s.allocated s.mined ≡ false → miner_round s ≡ fault
unfolding miner_round miner_switch destroy
miner_round-fault s gone = elim (Bool-cases (s.version_currently_mined == s.version)) [
  | inl same ↦ rw (same, gone)
  | inr other ↦ rw (other, gone)
]

switched-held :
    (p : ℕ) (s : Sharing)
    → (s.shared == p) ≡ false
    → (switched p s).allocated (switched p s).shared ≡ true
switched-held p s apart = rw (==-flip s.shared p apart, ==-refl p)

-- While the chain of the miner is freed and its address not used again, the server can go on.
switches_lem :
    (ps : List ℕ) (s : Sharing)
    → s.allocated s.shared ≡ true
    → s.allocated s.mined ≡ false
    → IsApart s.shared ps
    → All (λ (p : ℕ). (s.mined == p) ≡ false) ps
    → (s' : Sharing) × (server_switches ps s ≡ ok s') × (miner_round s' ≡ fault)
unfolding server_switches
switches_lem [] s held gone apart fresh = (s, refl, miner_round-fault s gone)
switches_lem (p ∷ ps) s held gone (a, as') (f, fs) =
    let gone' : (switched p s).allocated s.mined ≡ false = elim (Bool-cases (s.mined == s.shared)) [
      | inl e ↦ rw e
      | inr e ↦ rw (e, f, gone)
    ] in
    let (s', runs, faults) = switches_lem ps (switched p s) (switched-held p s a) gone' as' fs in
    (s', rw (server_switch-switched p s held a) runs, faults)

-- The mining thread has the chain that it shares with the server. However many chains the server then
-- takes, at least one, it frees each chain that it replaces; and the next round of the mining thread
-- accesses or frees a chain that is freed already. Each chain is at another address than the one
-- before it, and the address of the first one is not used again.
pub miner_round_double_free :
    (s : Sharing) (p : ℕ) (ps : List ℕ)
    → s.allocated s.shared ≡ true
    → s.mined ≡ s.shared
    → IsApart s.shared (p ∷ ps)
    → All (λ (q : ℕ). (s.shared == q) ≡ false) ps
    → (s' : Sharing) × (server_switches (p ∷ ps) s ≡ ok s') × (miner_round s' ≡ fault)
unfolding server_switches
miner_round_double_free s p ps held same (a, as') fresh =
    let gone : (switched p s).allocated s.mined ≡ false = rw (same, ==-refl s.shared) in
    let (s', runs, faults) =
      switches_lem ps (switched p s) (switched-held p s a) gone as' (rw same fresh) in
    (s', rw (server_switch-switched p s held a) runs, faults)

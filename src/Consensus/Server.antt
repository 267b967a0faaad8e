-- ===== src/Consensus/Server.antt =====
-- `run_consensus_peer_server` of src/consensus_peer_server_thread.c.
use leocoin.Prelude.{◌≡◌, ◌∙◌, Bool, true, List, arith, inr}
use leocoin.Endian.Memory.{Host}
use leocoin.Crypto.{OpenSsl}
use leocoin.Threads.{Thread, Run, Listener, Poll, Round, serve}
use leocoin.Threads.Keeps.{thread_of, says_ready, serve-IsKept, All-OfRequest}
use leocoin.Consensus.{SharedChain, Request, handle_one_consensus_request}
use leocoin.Consensus.Keeps.{
  Update, kept, switched, IsLater, IsLater-refl, handle_one_consensus_request-Update,
}

module _ (ssl : OpenSsl) (host : Host) where
  unfoldable pub run_consensus_peer_server :
      (grants_return_code : Bool)
      → Listener
      → (should_stop : Bool) → List (Round (Poll Request))
      → Thread SharedChain
      → Run SharedChain
  unfolding handle_one_consensus_request serve
  run_consensus_peer_server grants_return_code l should_stop rs t =
      serve (handle_one_consensus_request ssl host) grants_return_code l should_stop rs t

  IsLater-Update :
      (s s' t : SharedChain) → IsLater ssl host s s' → Update ssl host s' t → IsLater ssl host s t
  IsLater-Update s s' t l (kept e) = rw e l
  IsLater-Update s s' t l (switched peer v more same e) = rw e (record {
    difficulty = same ∙ l.difficulty;
    longer = omega (arith, l.longer);
    changed = inr (omega (arith, l.longer), v);
  })

  -- However the thread of the consensus server runs, and ends: the required number of zero bytes of
  -- the shared chain stays, the chain never gets shorter, and another chain than at the start is longer
  -- and verified. Where the thread returns it has set `exit_ready`.
  pub run_consensus_peer_server-IsLater :
      (g : Bool) (l : Listener) (should_stop : Bool) (rs : List (Round (Poll Request)))
      (t : Thread SharedChain)
      → IsLater ssl host t.shared
          (thread_of (run_consensus_peer_server g l should_stop rs t)).shared
        × (says_ready (run_consensus_peer_server g l should_stop rs t) ≡ true)
  unfolding run_consensus_peer_server
  run_consensus_peer_server-IsLater g l should_stop rs t =
      let kept' =
        serve-IsKept (handle_one_consensus_request ssl host) g (IsLater ssl host t.shared)
          (λ (_ : Request). Unit {0})
          (λ request s _ later.
            IsLater-Update t.shared s _ later
              (handle_one_consensus_request-Update ssl host request s))
          l should_stop rs t (All-OfRequest rs) (IsLater-refl ssl host t.shared) in
      (kept'.shared, kept'.exit_ready)

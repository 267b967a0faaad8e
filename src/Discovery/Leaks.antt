-- ===== src/Discovery/Leaks.antt =====
-- The sockets of attempts that fail.
use leocoin.Prelude.{ℕ, suc, ◌≡◌, refl, true, arith}
use leocoin.Result.{ok, err, fault, guard, failure_pthread_function}
use leocoin.Endian.Memory.{Host}
use leocoin.PeerDiscovery.{SockaddrIn6}
use leocoin.Io.{Io, done, waits, then_with}
use leocoin.Discovery.{Discovery, Attempt, request_peers, unlock_and_print, discover_peers_once}

-- How many sockets an attempt that got one leaves open, where `n` were before.
abbrev pub left_open : Io (Unit {0}) → ℕ → ℕ
left_open (done (ok _)) n = n
left_open (done (err code)) n = suc n
left_open (done fault) n = suc n
left_open waits n = suc n

record IsLeaking (n : ℕ) (r : Discovery × Io (Unit {0})) : Type 0 where
  pub open_sockets : r.0.open_sockets ≡ left_open r.1 n

then_with-IsLeaking :
    {A : Type 0} (n : ℕ) (s : Discovery) (m : Io A) (f : A → Discovery × Io (Unit {0}))
    → s.open_sockets ≡ suc n
    → ((a : A) → IsLeaking n (f a))
    → IsLeaking n (then_with s m f)
then_with-IsLeaking n s (done (ok a)) f e h = h a
then_with-IsLeaking n s (done (err c)) f e h = record { open_sockets = e }
then_with-IsLeaking n s (done fault) f e h = record { open_sockets = e }
then_with-IsLeaking n s waits f e h = record { open_sockets = e }

module _ (host : Host) (peer_addr : SockaddrIn6) where
  discover_peers_once-IsLeaking :
      (attempt : Attempt) (s : Discovery)
      → attempt.socket ≡ true
      → IsLeaking s.open_sockets (discover_peers_once host peer_addr attempt s)
  unfolding discover_peers_once
  discover_peers_once-IsLeaking attempt s socket =
      let n = s.open_sockets in
      rw socket (
        then_with-IsLeaking n _ (request_peers host peer_addr attempt) _ refl λ ps.
          let locked : Io (Unit {0}) = done (guard attempt.lock failure_pthread_function) in
          then_with-IsLeaking n _ locked _ refl λ _.
            then_with-IsLeaking n _ (unlock_and_print host peer_addr attempt) _ refl
              λ _. record { open_sockets = omega arith })

  -- An attempt that got a socket closes it where it succeeds, and leaves it open however else it ends.
  pub discover_peers_once-left_open :
      (attempt : Attempt) (s : Discovery)
      → attempt.socket ≡ true
      → (discover_peers_once host peer_addr attempt s).0.open_sockets
        ≡ left_open (discover_peers_once host peer_addr attempt s).1 s.open_sockets
  discover_peers_once-left_open attempt s socket =
      (discover_peers_once-IsLeaking attempt s socket).open_sockets

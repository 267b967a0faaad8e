-- ===== src/Programs/Checks.antt =====
-- The programs refuse a command line that they cannot use before they do anything else.
use mathlib.Core.List.{Memᴰ}
use leocoin.Prelude.{
  ℕ, ◌<◌, ◌≤◌, ◌≡◌, ◌⊎◌, inl, inr, refl, true, false, Option-cases, none, List, [], ◌∷◌, arith,
  length,
}
use leocoin.Result.{ok, err, failure_invalid_command_line_args}
use leocoin.Endian.Memory.{Host}
use leocoin.LinkedList.{Nodes}
use leocoin.Programs.{CString, exits, status_of, process_of}
use leocoin.LinkedList.Create.{linked_list_create}
use leocoin.PeerDiscovery.Deserialize.{sizeof_linked_list}
use leocoin.Discovery.Refused.{discover_peers}
use leocoin.Programs.ClientMain.{
  ClientOption, unknown, interval, ClientProcess, read_interval, positional, read_arguments,
  prepare_client, client_main, ClientArgs, client_args, no_peers,
}

-- A command line of the client that lacks an argument, has an unknown option, or an address that is
-- none.
pub data IsRefused (p : ClientProcess) (argv : List CString) : Type 0 where
  too_few : length argv < 5 → IsRefused p argv
  unknown_option : Memᴰ unknown p.options → IsRefused p argv
  no_server :
      (program server server_port peer peer_port : CString) (rest : List CString)
      → argv ≡ program ∷ server ∷ server_port ∷ peer ∷ peer_port ∷ rest
      → p.inet_pton server ≡ none
      → IsRefused p argv
  no_peer :
      (program server server_port peer peer_port : CString) (rest : List CString)
      → argv ≡ program ∷ server ∷ server_port ∷ peer ∷ peer_port ∷ rest
      → p.inet_pton peer ≡ none
      → IsRefused p argv

-- The options, if one is unknown, and otherwise what is read of them.
read_interval-cases :
    (strtol : CString → ℕ) (os : List ClientOption) (seconds : ℕ)
    → (Memᴰ unknown os × (read_interval strtol os seconds ≡ err failure_invalid_command_line_args))
      ⊎ ((n : ℕ) × (read_interval strtol os seconds ≡ ok n))
unfolding read_interval
read_interval-cases strtol [] seconds = inr (seconds, refl)
read_interval-cases strtol (interval text ∷ os) seconds =
    elim (read_interval-cases strtol os (strtol text)) [
      | inl (there, e) ↦ inl (Memᴰ.tail there, e)
      | inr read ↦ inr read
    ]
read_interval-cases strtol (unknown ∷ os) seconds = inl (Memᴰ.head refl, refl)

read_interval-unknown :
    (strtol : CString → ℕ) (os : List ClientOption) (seconds : ℕ)
    → Memᴰ unknown os
    → read_interval strtol os seconds ≡ err failure_invalid_command_line_args
unfolding read_interval
read_interval-unknown strtol [] seconds there = elim there [ ]
read_interval-unknown strtol (unknown ∷ os) seconds there = refl
read_interval-unknown strtol (interval text ∷ os) seconds (Memᴰ.head e) = absurd (cc)
read_interval-unknown strtol (interval text ∷ os) seconds (Memᴰ.tail there) =
    read_interval-unknown strtol os (strtol text) there

-- Too few arguments, or the four that have to be there.
positional-cases :
    (argv : List CString)
    → (positional argv ≡ err failure_invalid_command_line_args)
      ⊎ ((5 ≤ length argv)
          × (texts : CString × CString × CString × CString) × (positional argv ≡ ok texts))
unfolding positional
positional-cases [] = inl refl
positional-cases (_ ∷ []) = inl refl
positional-cases (_ ∷ _ ∷ []) = inl refl
positional-cases (_ ∷ _ ∷ _ ∷ []) = inl refl
positional-cases (_ ∷ _ ∷ _ ∷ _ ∷ []) = inl refl
positional-cases (_ ∷ server ∷ server_port ∷ peer ∷ peer_port ∷ rest) =
    inr (omega arith, (server, server_port, peer, peer_port), refl)

-- A command line that is refused is not read.
IsRefused-err :
    (host : Host) (p : ClientProcess) (argv : List CString)
    → IsRefused p argv
    → read_arguments host p argv ≡ err failure_invalid_command_line_args
unfolding read_arguments
IsRefused-err host p argv (too_few small) = elim (positional-cases argv) [
  | inl bad ↦ rw bad refl
  | inr (enough, _, _) ↦ absurd (omega (arith, small, enough))
]
IsRefused-err host p argv (unknown_option there) = elim (positional-cases argv) [
  | inl bad ↦ rw bad refl
  | inr (_, _, e) ↦ rw (e, read_interval-unknown p.strtol p.options 20 there) refl
]
IsRefused-err host p argv (no_server program server server_port peer peer_port rest e bad) =
    unfold positional in
    rw e (elim (read_interval-cases p.strtol p.options 20) [
      | inl (_, r) ↦ rw r refl
      | inr (_, r) ↦ rw (r, bad) refl
    ])
IsRefused-err host p argv (no_peer program server server_port peer peer_port rest e bad) =
    unfold positional in
    rw e (elim (read_interval-cases p.strtol p.options 20) [
      | inl (_, r) ↦ rw r refl
      | inr (_, r) ↦ elim (Option-cases (p.inet_pton server)) [
        | inl none_too ↦ rw (r, none_too) refl
        | inr (_, good) ↦ rw (r, good, bad) refl
      ]
    ])

-- Either the arguments cannot be used, or they are read.
abbrev IsReadOrRefused : Host → ClientProcess → List CString → Type 0
IsReadOrRefused host p argv =
    (IsRefused p argv × (read_arguments host p argv ≡ err failure_invalid_command_line_args))
    ⊎ ((args : ClientArgs) × (read_arguments host p argv ≡ ok args))

read_arguments_enough :
    (host : Host) (p : ClientProcess) (program server server_port peer peer_port : CString)
    (rest : List CString)
    → IsReadOrRefused host p (program ∷ server ∷ server_port ∷ peer ∷ peer_port ∷ rest)
unfolding read_arguments positional
read_arguments_enough host p program server server_port peer peer_port rest =
    elim (read_interval-cases p.strtol p.options 20) [
      | inl (there, e) ↦ inl (unknown_option there, rw e refl)
      | inr (seconds, e) ↦ elim (Option-cases (p.inet_pton server)) [
        | inl bad ↦
            inl
              (no_server program server server_port peer peer_port rest refl bad, rw (e, bad) refl)
        | inr (server_address, good) ↦ elim (Option-cases (p.inet_pton peer)) [
          | inl bad ↦ inl (
            no_peer program server server_port peer peer_port rest refl bad,
            rw (e, good, bad) refl,
          )
          | inr (peer_address, fine) ↦ inr (
            client_args host p server_address server_port peer_address peer_port seconds,
            rw (e, good, fine) refl,
          )
        ]
      ]
    ]

read_arguments-cases :
    (host : Host) (p : ClientProcess) (argv : List CString) → IsReadOrRefused host p argv
unfolding read_arguments positional
read_arguments-cases host p [] = inl (too_few (omega arith), refl)
read_arguments-cases host p (_ ∷ []) = inl (too_few (omega arith), refl)
read_arguments-cases host p (_ ∷ _ ∷ []) = inl (too_few (omega arith), refl)
read_arguments-cases host p (_ ∷ _ ∷ _ ∷ []) = inl (too_few (omega arith), refl)
read_arguments-cases host p (_ ∷ _ ∷ _ ∷ _ ∷ []) = inl (too_few (omega arith), refl)
read_arguments-cases host p (program ∷ server ∷ server_port ∷ peer ∷ peer_port ∷ rest) =
    read_arguments_enough host p program server server_port peer peer_port rest

-- The client exits with the status for invalid arguments exactly where an argument is missing, an
-- option is unknown, or one of the addresses is none; on every other command line it reads its
-- arguments and runs its thread on what it has read. Memory, the mutexes and the condition are granted.
pub client_main-cases :
    (host : Host) (p : ClientProcess) (nodes : Nodes) (argv : List CString)
    → p.grants sizeof_linked_list ≡ true
    → p.list_mutex ≡ true
    → p.exit_ready_cond ≡ true
    → p.exit_ready_mutex ≡ true
    → (IsRefused p argv × (client_main host p nodes argv ≡ exits 6))
      ⊎ (¬ IsRefused p argv
          × (args : ClientArgs) × (read_arguments host p argv ≡ ok args)
          × (client_main host p nodes argv
              ≡ process_of (
                  discover_peers host args.peer p.grants_return_code false
                    (p.rounds args.server args.communication_interval)
                    no_peers)))
client_main-cases host p nodes argv memory list_mutex cond mutex =
    elim (read_arguments-cases host p argv) [
      | inl (bad, e) ↦
          let refused : prepare_client host p nodes argv ≡ err failure_invalid_command_line_args =
            unfold prepare_client in rw e refl in
          inl (bad, unfold client_main in unfold status_of in rw (client_main, refused) refl)
      | inr (args, e) ↦
          let ready : prepare_client host p nodes argv ≡ ok args =
            unfold prepare_client in
            unfold linked_list_create in rw (e, memory, list_mutex, cond, mutex) refl in
          let fine : ¬ IsRefused p argv = λ bad. absurd (cc (e, IsRefused-err host p argv bad)) in
          inr (fine, args, e, unfold client_main in rw (client_main, ready) refl)
    ]

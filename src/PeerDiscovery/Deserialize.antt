-- ===== src/PeerDiscovery/Deserialize.antt =====
-- `peer_info_list_deserialize` of src/peer_discovery.c.
use leocoin.Prelude.{ℕ, zero, suc, List, [], ◌∷◌}
use leocoin.Result.{Result, Pointer, Out, writable, Allocator, malloc}
use leocoin.Endian.Memory.{Host}
use leocoin.Buffer.{Parser, pure, ◌>>=◌, ◌>>◌, lift, run, field, read_u64, read_net}
use leocoin.Networking.{sizeof_in6_addr}
use leocoin.PeerDiscovery.{PeerInfo}

-- What the allocator answers at each place in the buffer.
abbrev pub Allocators : Type 0
Allocators = ℕ → Allocator

unfoldable pub allocate_at : Allocators → ℕ → Parser (Unit {0})
allocate_at heap size c = lift (malloc (heap c.offset) size) c

-- The sizes of a list, a peer and a node.
abbrev pub sizeof_linked_list : ℕ
sizeof_linked_list = 24

abbrev pub sizeof_peer_info : ℕ
sizeof_peer_info = 40

abbrev pub sizeof_node : ℕ
sizeof_node = 16

unfoldable pub read_peer : Allocators → Host → ℕ → Parser PeerInfo
unfolding allocate_at
read_peer heap host buffer_size = do
  sin6_family ← read_net host buffer_size 2
  sin6_port ← read_net host buffer_size 2
  sin6_flowinfo ← read_net host buffer_size 4
  addr ← field buffer_size sizeof_in6_addr
  sin6_scope_id ← read_net host buffer_size 4
  last_connected ← read_u64 host buffer_size
  allocate_at heap sizeof_peer_info
  allocate_at heap sizeof_node
  pure (record {
    listen_addr = record {
      sin6_family = sin6_family;
      sin6_port = sin6_port;
      sin6_flowinfo = sin6_flowinfo;
      sin6_addr = addr;
      sin6_scope_id = sin6_scope_id;
    };
    last_connected = last_connected;
  })

-- The loop over the peers, on the rounds that are left.
unfoldable pub read_peers : Allocators → Host → ℕ → ℕ → Parser (List PeerInfo)
read_peers heap host buffer_size zero = pure []
read_peers heap host buffer_size (suc n) = do
  p ← read_peer heap host buffer_size
  ps ← read_peers heap host buffer_size n
  pure (p ∷ ps)

unfoldable pub read_peer_list : Allocators → Host → ℕ → Parser (List PeerInfo)
unfolding allocate_at
read_peer_list heap host buffer_size = do
  num_peers ← read_u64 host buffer_size
  allocate_at heap sizeof_linked_list
  read_peers heap host buffer_size num_peers

unfoldable pub peer_info_list_deserialize :
    Allocators → Host → Out → Pointer (List ℕ) → ℕ → Result (List PeerInfo)
unfolding read_peer_list
peer_info_list_deserialize heap host peer_info_list buffer buffer_size =
    run (do lift (writable peer_info_list); read_peer_list heap host buffer_size) buffer

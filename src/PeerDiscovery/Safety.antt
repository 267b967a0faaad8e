-- ===== src/PeerDiscovery/Safety.antt =====
-- No input makes `peer_info_list_deserialize` read outside its buffer.
use leocoin.Prelude.{ℕ, zero, suc, ◌≤◌, ◌≡◌, ◌≢◌, some, List, length}
use leocoin.Result.{fault, Pointer, Out, failure_could_not_malloc}
use leocoin.Endian.Memory.{Host}
use leocoin.Buffer.{read_net}
use leocoin.Buffer.Safety.{
  IsSafe, IsSafe-pure, IsSafe-lift, IsSafe-bind, IsSafe-field, IsSafe-read_u64, IsSafe-read_net,
  run-ne-fault, guard-ne-fault, IsSafe-out,
}
use leocoin.PeerDiscovery.Deserialize.{
  Allocators, allocate_at, read_peer, read_peers, read_peer_list, peer_info_list_deserialize,
}

module _ (heap : Allocators) (host : Host) (total size : ℕ) (fits : size ≤ total) where
  IsSafe-allocate_at : (n : ℕ) → IsSafe total (allocate_at heap n)
  unfolding allocate_at
  IsSafe-allocate_at n = record {
    at = λ c h.
        (IsSafe-lift total _ (guard-ne-fault (heap c.offset n) failure_could_not_malloc)).at c h;
  }

  net : (n : ℕ) → IsSafe total (read_net host size n)
  net n = IsSafe-read_net host total size fits n

  IsSafe-read_peer : IsSafe total (read_peer heap host size)
  unfolding read_peer
  IsSafe-read_peer = IsSafe-bind total _ _ (net 2) λ _. IsSafe-bind total _ _ (net 2) λ _.
      IsSafe-bind total _ _ (net 4) λ _.
        IsSafe-bind total _ _ (IsSafe-field total size 16 fits) λ _.
          IsSafe-bind total _ _ (net 4) λ _.
            IsSafe-bind total _ _ (IsSafe-read_u64 host total size fits) λ _.
              IsSafe-bind total _ _ (IsSafe-allocate_at 40)
                λ _. IsSafe-bind total _ _ (IsSafe-allocate_at 16) (λ _. IsSafe-pure total _)

  IsSafe-read_peers : (n : ℕ) → IsSafe total (read_peers heap host size n)
  unfolding read_peers
  IsSafe-read_peers zero = IsSafe-pure total _
  IsSafe-read_peers (suc n) =
      let rest = IsSafe-read_peers n in
      IsSafe-bind total _ _ IsSafe-read_peer
        λ p. IsSafe-bind total _ _ rest (λ ps. IsSafe-pure total _)

  IsSafe-read_peer_list : IsSafe total (read_peer_list heap host size)
  unfolding read_peer_list
  IsSafe-read_peer_list =
      IsSafe-bind total _ _ (IsSafe-read_u64 host total size fits)
        λ n. IsSafe-bind total _ _ (IsSafe-allocate_at 24) (λ _. IsSafe-read_peers n)

-- Whatever the bytes, and however many peers they announce, `peer_info_list_deserialize` reads no
-- byte outside the buffer, if the buffer has the `buffer_size` bytes that the caller says; so with
-- NULL arguments, and where memory is refused.
pub peer_info_list_deserialize_in_bounds :
    (heap : Allocators) (host : Host) (out : Out) (buffer : Pointer (List ℕ)) (size : ℕ)
    → ((bytes : List ℕ) → buffer ≡ some bytes → size ≤ length bytes)
    → peer_info_list_deserialize heap host out buffer size ≢ fault
unfolding peer_info_list_deserialize
peer_info_list_deserialize_in_bounds heap host out buffer size holds =
    run-ne-fault _ buffer λ bytes e.
      IsSafe-out (length bytes) out _ (IsSafe-read_peer_list heap host _ size (holds bytes e))

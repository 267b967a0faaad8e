-- ===== src/Networking/SendData.antt =====
-- The commands that carry a peer list or a blockchain, sent and received.
use leocoin.Prelude.{ℕ, ◌+◌, ◌≤◌, ◌≡◌, refl, some, List, ◌++◌, length}
use leocoin.Result.{ok, Allocator, given}
use leocoin.Endian.Memory.{Host}
use leocoin.Networking.{
  CommandHeader, CommandSendPeerList, CommandSendBlockchain, command_send_peer_list,
  command_send_blockchain,
}
use leocoin.Networking.Serialize.{
  command_send_peer_list_serialize, command_send_blockchain_serialize,
}
use leocoin.Networking.Deserialize.{
  command_send_peer_list_deserialize, command_send_blockchain_deserialize,
}
use leocoin.Networking.DataBytes.{
  IsSendable, data_bytes, length-data_bytes, sent_header, command_send_blockchain_serialize_lem,
  command_send_blockchain_deserialize_lem, command_send_peer_list_serialize_lem,
  command_send_peer_list_deserialize_lem,
}

-- A blockchain that is sent takes 24 bytes more than its data, and the receiver reads the command
-- back with the same data, also with more behind it. The header has the prefix and the command, the
-- sizes fit 64 bits, and memory is granted.
pub command_send_blockchain_deserialize-serialize :
    (grants : Allocator) (host : Host) (h : CommandHeader) (body rest : List ℕ) (size : ℕ)
    → IsSendable grants command_send_blockchain h body
    → 24 + length body ≤ size
    → (sent : CommandSendBlockchain) × (bytes : List ℕ) × (command_send_blockchain_serialize grants
          host
          (some (record { header = h; blockchain_data_len = length body; blockchain_data = body }))
          given
          given
        ≡ ok (sent, bytes, 24 + length body))
      × (length bytes ≡ 24 + length body)
      × (command_send_blockchain_deserialize grants host given (some (bytes ++ rest)) size
          ≡ ok sent)
      × (sent.blockchain_data ≡ body)
command_send_blockchain_deserialize-serialize grants host h body rest size v room = (
  record {
    header = sent_header host h body v;
    blockchain_data_len = length body;
    blockchain_data = body;
  },
  data_bytes host h body,
  command_send_blockchain_serialize_lem host h body v refl,
  length-data_bytes host h body,
  command_send_blockchain_deserialize_lem host h body v rest size refl room,
  refl,
)

-- The same of a peer list that is sent.
pub command_send_peer_list_deserialize-serialize :
    (grants : Allocator) (host : Host) (h : CommandHeader) (body rest : List ℕ) (size : ℕ)
    → IsSendable grants command_send_peer_list h body
    → 24 + length body ≤ size
    → (sent : CommandSendPeerList) × (bytes : List ℕ) × (command_send_peer_list_serialize grants
          host
          (some (record { header = h; peer_list_data_len = length body; peer_list_data = body }))
          given
          given
        ≡ ok (sent, bytes, 24 + length body))
      × (length bytes ≡ 24 + length body)
      × (command_send_peer_list_deserialize grants host given (some (bytes ++ rest)) size ≡ ok sent)
      × (sent.peer_list_data ≡ body)
command_send_peer_list_deserialize-serialize grants host h body rest size v room = (
  record {
    header = sent_header host h body v;
    peer_list_data_len = length body;
    peer_list_data = body;
  },
  data_bytes host h body,
  command_send_peer_list_serialize_lem host h body v refl,
  length-data_bytes host h body,
  command_send_peer_list_deserialize_lem host h body v rest size refl room,
  refl,
)

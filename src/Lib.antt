-- ===== src/Lib.antt =====
-- LeoCoin: a verification library of the coin's core.
--
-- LeoCoin is a blockchain in C. A miner (src/miner.c) keeps a chain of blocks that its mining thread
-- (src/mining_thread.c) extends; a discovery thread and a bootstrap server exchange the list of
-- peers; a consensus server thread takes longer chains from peers. What they exchange are commands
-- (src/networking.c), each behind a header, whose data is a serialized list of peers or a serialized
-- chain (src/blockchain.c). Transactions (src/transaction.c) are signed, and blocks (src/block.c)
-- hashed, by OpenSSL.
--
-- The files, and the code that each models:
--   Prelude            shared names, tests on the native numbers, list functions and their laws
--   Result             include/return_codes.h; the outcome of a C function, NULL arguments, malloc
--   Endian             src/endian.c, with the memory layout of a host of either byte order
--   Buffer             next_spot_in_buffer and total_read_size, as all deserializers use them
--   Networking         include/networking.h; Serialize, Deserialize and Sockets are
--                      src/networking.c
--   Blockchain         the structs of include/transaction.h, block.h, blockchain.h, cryptography.h;
--                      Serialize and Deserialize are blockchain_serialize and blockchain_deserialize
--   Crypto             the functions of OpenSSL that the program calls, a parameter of the model
--   Transaction        src/transaction.c
--   Block              src/block.c
--   Verify             blockchain_verify and blockchain_is_valid_block_hash; Verify/Spec is the
--                      valid chain as the code checks it: the conditions of
--                      include/blockchain.h, and a genesis block without transactions
--   Mining             blockchain_mine_block and synchronized_blockchain_mine_block
--   Chain              blockchain_create, blockchain_add_block and linked_list_get_last
--   PeerDiscovery      src/peer_discovery.c
--   LinkedList         src/linked_list.c on nodes in memory; Shape ties nodes to the list of their
--                      data
--   MiningThread       one round of mine_blocks in src/mining_thread.c; Loop is mine_blocks around
--                      its rounds, with the output file and the code that is returned
--   Files              blockchain_write_to_file and blockchain_read_from_file
--   Sharing            which thread frees which chain, in mine_blocks and in the consensus server
--   Io                 the outcome of code that waits for a socket, and changes a state
--   Session            how a command is received, in the handlers of the two servers and in
--                      src/peer_discovery_thread.c
--   Consensus          synchronized_blockchain_create, and src/consensus_peer_server_thread.c: the
--                      handler; Server is its thread
--   Bootstrap          src/peer_discovery_bootstrap_server_thread.c: the handler; Server is its
--                      thread, Nodes the expiry loop on the nodes in memory
--   Discovery          src/peer_discovery_thread.c: one attempt; Refused has its thread
--   Programs           src/miner.c, src/peer_discovery_bootstrap_server.c and
--                      src/peer_discovery_client.c; Base64 is src/base64.c, Sleep src/sleep.c
--   Ownership          the functions that free a chain, its blocks and their transactions
--   Threads            the loops of the two servers and of the discovery thread
--   Examples           concrete values
--
-- The correspondence. A function of the source keeps its name. A return code is the constructor of
-- Result: `ok` with what the function writes through its pointers, `err` with another code and
-- nothing written, `fault` for undefined behaviour, such as a read outside an object. An output
-- pointer is `Out`, another pointer `Pointer`; both may be NULL. A struct is a record, an array its
-- list of bytes, and a linked list the list of its elements, except in LinkedList, Bootstrap/Nodes
-- and Ownership. Unsigned words
-- are natural numbers with their wrap-around written where the source may reach it. Sizes are those
-- of an LP64 host. A loop over a list is recursion on it, a loop up to a bound recursion on the
-- rounds that are left, so no fuel is needed: the mining loop has its 2^64 - 1 rounds. The loops
-- over a socket are recursion on the answers of recv and send, and call again where these are used
-- up. The loops over the nodes of a linked list, in LinkedList, Bootstrap/Nodes and Ownership, have
-- rounds, and the theorems say how many are enough. The mining thread and the servers are recursion
-- on the rounds that they have run so far.
--
-- What the program does not decide is a parameter: whether memory is granted (an `Allocator`
-- answers by the size, a `Heap` and `Allocators` also by the place in the buffer that is read), the
-- time, the values that other threads have written by a round of the mining loop (a `Schedule`),
-- the answers of sockets, and OpenSSL. The conversions htons, htonl, ntohs and ntohl are modelled
-- by what POSIX says of network byte order.
--
-- A handler of a server takes the shared state, as it is while the mutex is held, and returns it
-- with what was sent; Session, Consensus, Bootstrap and Discovery build on the codecs and on the
-- socket loops. The bootstrap server's list holds peers, or memory that was freed. The loop of a
-- thread is recursion on the list of what poll and accept bring, or of the attempts, each with
-- should_stop as it is read after it.
--
-- A program is a function of what lies outside it: its command line and environment as getopt and
-- getenv give them, the answers of the system, and what its thread meets, round by round; its value
-- says whether the process exits, and with which status, crashes, or goes on. EVP_DecodeBlock,
-- nanosleep, strtol, inet_pton and the conversions to double are parameters.
--
-- Not modelled: what is printed, with src/hash.c and the usage texts; the Windows branches of the
-- programs; which memory is freed, except in LinkedList, Sharing, Ownership and the two models of the
-- bootstrap server's list; and a mining thread that writes the chain while the consensus server reads
-- it.
pub mod Prelude
pub mod Result
pub mod Endian
pub mod Buffer
pub mod Networking
pub mod Blockchain
pub mod Crypto
pub mod Transaction
pub mod Block
pub mod Verify
pub mod Mining
pub mod Chain
pub mod PeerDiscovery
pub mod LinkedList
pub mod Io
pub mod Session
pub mod Bootstrap
pub mod Discovery
pub mod Threads
pub mod Files
pub mod Sharing
pub mod Consensus
pub mod MiningThread
pub mod Programs
pub mod Ownership
pub mod Examples

-- ===== src/Lib.antt =====
-- A vault that keeps append-only feeds of entries and serves them to clients: plan-vault-libp2p.
--
-- The program has six parts that are modelled here. A store (store/store.go) keeps the entries
-- of channels in a badger database: each entry under its entry key, and an arrival key for each
-- entry in an index by time of arrival. Subscriptions read a channel from a key on, snapshot by
-- snapshot, and publish to a target. A server (server/server.go) holds a session with each
-- client: it reads requests, appends entries, opens and closes streams, and sends one message
-- back for each request. A client (client/client.go) numbers its requests and remembers which one
-- opened a URI. A keyring (keyring/keyring.go, keyring/types.go, keyring/file.go) encrypts,
-- signs, verifies and decrypts entries. A peer to peer host (p2p/host.go, p2p/topic_handler.go,
-- p2p/discovery_channel.go, p2p/discovery_mdns.go) is to join a pubsub topic for each channel that the
-- store announces, to publish its entries there and take in those of its peers; it learns their keys
-- from a discovery channel, and keeps a snapshot of its peers in the store. The configuration
-- (config/config.go) is read from flags and a file, and main.go puts the parts together. The
-- server calls the store, whose subscriptions publish to the server's streams and to the host's
-- topics.
--
-- - Prelude: Boolean tests, lists, byte strings, maps, and results of fallible calls, where
--   `panics` is a run-time panic.
-- - Protos: the messages of protos/vault.pb.go and protos/internal.pb.go and the getters in use.
-- - Interfaces: the libraries as parameters with the documented laws that the vault relies on:
--   Badger (transactions with snapshots and conflicts, ordered iterators), Proto (marshal and
--   unmarshal), Hash (SHA-256), Crypto (secretbox and sign) and KeyLib (libp2p's keys).
--   Interfaces.Network: the libp2p host with its peerstore and gossipsub, and the messages of the
--   host on the wire.
-- - Store.Options, Store.Channel, Store.Keys, Store.Entries, Store.Channels, Store.Reading,
--   Store.Index: StreamOpts, Channel, the key functions (EntryKey, arrivalKey and those that read
--   keys), Get, Upsert and Append, the registry with Subscribe, lastKey with the loop `read`, and
--   readFromIndex.
-- - Store.Locks: the lock of a channel with the goroutines that hold it or wait for it, as a step
--   relation.
-- - Log: what the store promises, as a log without keys or transactions; Log.Writers: Append,
--   Upsert and Get interleaved in any order; Log.Places: the keys and the places of the log;
--   Log.Refinement, Log.Once: how they relate.
-- - Log.Feeds: what a subscription reads of the log; Log.Feeds.Published: one snapshot,
--   Log.Feeds.Standing: a log and a longer one, Log.Feeds.Rounds: one snapshot of a subscription
--   that stays open, Log.Feeds.Live: all of them.
--   Store.Reading.Drain, Store.Reading.Notified, Store.Reading.Snapshots: a snapshot that is read to
--   its end, also while notifications come. Store.Reading.Items, Store.Reading.Chains,
--   Store.Reading.Keeps: the iterator's items, the items of two snapshots one after the other, and
--   what a reader keeps.
-- - Server.Session.Logged, P2P.Logged: what the handlers of a session and of the host make of the log;
--   Server.Session.Served and Store.Channels.Hashed: all channels have the hash of a URI as their id.
-- - Program: the running program, after main.go. Sessions, topic handlers, the loop and subscriptions
--   share one store; a step is one call of one of them, and a restart finds the database as it was
--   left. Program.Refinement: the program and the log; Program.Acknowledged, Program.Delivered: what
--   becomes of an entry that the server has acknowledged.
-- - Server.Options, Server.Serving, Server.Session: newStreamOpts; Run up to Serve; VaultSession with
--   new, open, close, append, unsupported, errorResponse, and the streams of a connection.
-- - Keyring: KeyRing and KeySet, EncodeEntry and DecodeEntry; Keyring.File: getKeys; Keyring.Restore:
--   restore, NewFromFile and the conversions of libp2p's keys. Client:
--   New, Close, Send, OpenURI, CloseURI, Recv.
-- - Helpers: NewEntry, NewEntryID and timestamp of helpers/func.go; Helpers.Order: their order.
--   Prelude.Bits: the bitwise or that timestamp takes.
-- - P2P: the state of the host and its topic handlers. P2P.Peers: encodePeer, decodePeerAddr.
--   P2P.Discovery: handleDiscoveryEntry, handleDiscoveryUpsert. P2P.Topics: NewTopicHandler,
--   watchTopic, Publish, Done and the functions that joinChannel passes. P2P.Snapshots: snapshot,
--   takeSnapshot, writeSnapshot, restore, readSnapshot; P2P.Snapshots.Saved, Encoded, Relearned and
--   Restoring: what is written, of which peers, and what a restore makes of it. P2P.Run: New,
--   watchTopics, joinChannel, NewChannelDiscovery, HandlePeerFound. P2P.Lock: the host's lock with
--   snapshotUpdateCh, as a step relation.
-- - Config: newConfigSource, defaultConfigSrc, configFilePath, NewConfig; Config.Start: main of
--   main.go up to the start of the server.
-- - Memory: a database and a message encoding in memory that satisfy the parameters' laws; Tests:
--   concrete runs on them.
--
-- State is passed explicitly. A write of the store takes the database at the begin of its
-- transaction and at its commit, so that another writer may come between. The read loop is a
-- function of one event at a time: what the `select` of the moment chose; a run is a list of
-- events, so no fuel is needed, and the number of events that empty a snapshot is part of the
-- statement. Integers keep their size: count is a uint64 that wraps, int32 fields and counters
-- are 32-bit patterns, the shifted time of an arrival key is a 64-bit pattern. A session's
-- requests are a list. In Program a call is one step, so that its transaction is not interleaved with
-- others; transactions that overlap, and conflict, are in Log.Writers.
--
-- The loop of the host is a function of one event at a time as well, and what runs in a goroutine
-- of its own there runs where it is started. libp2p, the file system and the results of reading
-- flags and files are arguments.
--
-- Not modelled: setupDiscoverymDNS, metrics, logs, generated gRPC code, listening and dialing, and the
-- configurations for development. They are I/O, glue, or not part of the library yet.
pub mod Prelude
pub mod Program
pub mod Protos
pub mod Interfaces
pub mod Store
pub mod Log
pub mod Memory
pub mod Server
pub mod Keyring
pub mod Config
pub mod Client
pub mod Helpers
pub mod P2P
pub mod Tests

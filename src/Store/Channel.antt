-- ===== src/Store/Channel.antt =====
-- The Channel of store/store.go, with the subscribers that are registered at it. A channel points
-- back to its store, which the functions take as an argument. Contexts are numbered: `ctx` is the
-- context that a subscription ends with.
use plan_vault_libp2p.Prelude.{ℕ, Bytes, Dict, [], ◌∷◌, replicate, copy_at}
use plan_vault_libp2p.Store.Options.{StreamOpts}

-- The two implementations of SubscriptionTarget: a stream of a client connection, with the
-- connection's id and the request's, and the handler of a pubsub topic.
pub data Target : Type 0 where
  stream : Bytes → ℕ → Target
  topic : Bytes → Target

-- ID() of the target.
abbrev pub target_id : Target → Bytes
target_id (stream conn_id req_id) = conn_id
target_id (topic id) = id

-- The goroutine that Subscribe starts.
pub data Goroutine : Type 0 where
  read read_from_index : StreamOpts → Goroutine

pub record Subscriber : Type 0 where
  pub id : Bytes
  pub ctx : ℕ
  pub target : Target
  pub runs : Goroutine

pub record Channel : Type 0 where
  pub id : Bytes
  pub uri : Bytes
  pub prefix : Bytes
  pub index_prefix : Bytes
  pub subscribers : Dict Bytes Subscriber

abbrev key_space_entries : ℕ
key_space_entries = 0x01

abbrev key_space_arrival : ℕ
key_space_arrival = 0x02

-- `prefix := make([]byte, 33); copy(prefix, id[:]); prefix[32] = space`
abbrev pub make_prefix : Bytes → ℕ → Bytes
make_prefix id space = copy_at 32 (copy_at 0 (replicate 33 0) id) (space ∷ [])

-- The channel that Store.Channel makes for an id that has none. The uri is left at its zero value.
unfoldable pub new_channel : Bytes → Channel
new_channel id = record {
  id = id;
  uri = [];
  prefix = make_prefix id key_space_entries;
  index_prefix = make_prefix id key_space_arrival;
  subscribers = [];
}

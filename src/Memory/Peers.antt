-- ===== src/Memory/Peers.antt =====
-- A network in memory, which knows the peers it was connected to and the topics that were joined,
-- and an encoding of the host's messages: a peer without addresses, a state with one topic and at
-- most one such peer.
use plan_vault_libp2p.Prelude.{
  ℕ, zero, suc, ◌≡◌, refl, sym, ap, ap₂, ◌∙◌, List, [], ◌∷◌, ◌++◌, Option, none, some, true, Bytes,
  Slice, Error, Result, ok, err, panics, ok-injective, ◌>>=◌, >>=-eq-ok, length, take, drop,
  take-append_left, drop-append_left, Bytes_eq, if◌then◌else◌, arith, Dict, lookup, insert,
}
use plan_vault_libp2p.Prelude.Errors.{external}
use plan_vault_libp2p.Protos.{
  Msg, MsgOp, EntryHeader, ReqStatus, ReqErr, Peer, PeerUpdateOp, TopicPointer, PubsubState,
  empty_msg,
}
use plan_vault_libp2p.Interfaces.{Proto, wire, wire_slice}
use plan_vault_libp2p.Interfaces.Network.{StateProto, Network, Libraries, wire_state, wire_peer}
use plan_vault_libp2p.Memory.Database.{memory, has_key, has_key_self}
use plan_vault_libp2p.Memory.Encoding.{pack, unpack, unpack-pack, refused, cut_hash}
use plan_vault_libp2p.Memory.Keys.{plain, plain_keys}

-- Two byte strings in one.
abbrev pair : Bytes → Bytes → Bytes
pair a b = length a ∷ (a ++ b)

abbrev unpair : {A : Type 0} → (Bytes → Bytes → Result A) → Bytes → Result A
unpair k [] = refused
unpair k (n ∷ rest) = k (take n rest) (drop n rest)

unpair-pair :
    {A : Type 0} (k : Bytes → Bytes → Result A) (a b : Bytes) → unpair k (pair a b) ≡ k a b
unpair-pair k a b =
    ap₂ k (take-append_left (length a) a b refl) (drop-append_left (length a) a b refl)

-- Entries with a header, and bodies without one.
pub pack_any :
    MsgOp → ℕ → Option EntryHeader → Slice → Option ReqStatus → Option ReqErr → Result Bytes
pack_any MsgOp.feed_entry zero none (some b) none none = ok (0 ∷ b)
pack_any op req (some h) b st e = do packed ← pack op req (some h) b st e; ok (1 ∷ packed)
pack_any _ _ none _ _ _ = refused

pub unpack_any : Bytes → Result Msg
unpack_any [] = refused
unpack_any (zero ∷ b) = ok (record empty_msg { body = wire_slice (some b) })
unpack_any (suc n ∷ b) = unpack b

marshal_any : Msg → Result Bytes
marshal_any m = pack_any m.op m.req_id m.entry_header m.body m.status m.req_err

pub unpack_any-pack_any :
    (op : MsgOp) (req : ℕ) (hd : Option EntryHeader) (body : Slice) (st : Option ReqStatus)
    (e : Option ReqErr) (b : Bytes)
    → pack_any op req hd body st e ≡ ok b
    → unpack_any b
      ≡ ok (
          wire (record {
            op = op;
            req_id = req;
            entry_header = hd;
            body = body;
            status = st;
            req_err = e;
          }))
unfolding pack_any unpack_any
unpack_any-pack_any MsgOp.feed_entry zero none (some v) none none b h =
    ap unpack_any (sym (ok-injective h))
unpack_any-pack_any op req (some hd) body st e b h =
    let (packed, first, last) = >>=-eq-ok (pack op req (some hd) body st e) _ h in
    ap unpack_any (sym (ok-injective last)) ∙ unpack-pack op req (some hd) body st e packed first
unpack_any-pack_any _ _ none _ _ _ b h = cc

unfoldable pub any_encoding : Proto
unfolding marshal_any pack_any unpack_any pack unpack
any_encoding = record {
  marshal = marshal_any;
  unmarshal = unpack_any;
  unmarshal-marshal =
      λ m b h. unpack_any-pack_any m.op m.req_id m.entry_header m.body m.status m.req_err b h;
}

pub pack_peer : PeerUpdateOp → Bytes → Slice → List Bytes → Result Bytes
pack_peer PeerUpdateOp.upsert id (some key) [] = ok (pair id key)
pack_peer _ _ _ _ = refused

abbrev plain_peer : Bytes → Bytes → Result Peer
plain_peer id key =
    ok (record { op = PeerUpdateOp.upsert; id = id; key = wire_slice (some key); multiaddrs = [] })

pub unpack_peer : Bytes → Result Peer
unpack_peer = unpair plain_peer

pub unpack_peer-pack_peer :
    (op : PeerUpdateOp) (id : Bytes) (key : Slice) (addrs : List Bytes) (b : Bytes)
    → pack_peer op id key addrs ≡ ok b
    → unpack_peer b ≡ ok (record { op = op; id = id; key = wire_slice key; multiaddrs = addrs })
unfolding pack_peer unpack_peer
unpack_peer-pack_peer PeerUpdateOp.upsert id (some key) [] b h =
    ap unpack_peer (sym (ok-injective h)) ∙ unpair-pair plain_peer id key
unpack_peer-pack_peer _ _ _ _ b h = cc

marshal_peer : Peer → Result Bytes
marshal_peer p = pack_peer p.op p.id p.key p.multiaddrs

-- The states of one topic, with no peer or with one.
pack_state : Bytes → Slice → List Peer → Result Bytes
pack_state id none [] = ok (0 ∷ id)
pack_state id (some []) [] = ok (0 ∷ id)
pack_state id none (p ∷ []) = do b ← marshal_peer p; ok (1 ∷ pair id b)
pack_state id (some []) (p ∷ []) = do b ← marshal_peer p; ok (1 ∷ pair id b)
pack_state _ _ _ = refused

abbrev state_of : Bytes → List Peer → PubsubState
state_of id ps = record {
  topics = record { id = id; last_entry_published = none } ∷ [];
  peers = ps;
}

state_with : Bytes → Bytes → Result PubsubState
state_with id b = do p ← unpack_peer b; ok (state_of id (p ∷ []))

pub unpack_state : Bytes → Result PubsubState
unpack_state [] = refused
unpack_state (zero ∷ id) = ok (state_of id [])
unpack_state (suc n ∷ rest) = unpair state_with rest

unpack_state_one :
    (id : Bytes) (p : Peer) (b : Bytes)
    → (do c ← marshal_peer p; ok (1 ∷ pair id c)) ≡ ok b
    → unpack_state b ≡ ok (state_of id (wire_peer p ∷ []))
unfolding marshal_peer state_with unpack_state
unpack_state_one id p b h =
    let (c, first, last) = >>=-eq-ok (marshal_peer p) _ h in
    ap unpack_state (sym (ok-injective last))
    ∙ unpair-pair state_with id c
    ∙ ap (λ (r : Result Peer). r >>= λ (q : Peer). ok (state_of id (q ∷ [])))
        (unpack_peer-pack_peer p.op p.id p.key p.multiaddrs c first)

unpack_state-pack_state :
    (id : Bytes) (last : Slice) (ps : List Peer) (b : Bytes)
    → pack_state id last ps ≡ ok b
    → unpack_state b
      ≡ ok (
          wire_state
            (record { topics = record { id = id; last_entry_published = last } ∷ []; peers = ps }))
unfolding pack_state unpack_state
unpack_state-pack_state id none [] b h = ap unpack_state (sym (ok-injective h))
unpack_state-pack_state id (some []) [] b h = ap unpack_state (sym (ok-injective h))
unpack_state-pack_state id none (p ∷ []) b h = unpack_state_one id p b h
unpack_state-pack_state id (some []) (p ∷ []) b h = unpack_state_one id p b h
unpack_state-pack_state id (some (x ∷ xs)) ps b h = cc
unpack_state-pack_state id last (p ∷ q ∷ ps) b h = cc

pub pack_topics : List TopicPointer → List Peer → Result Bytes
pack_topics (t ∷ []) ps = pack_state t.id t.last_entry_published ps
pack_topics _ _ = refused

pub unpack_state-pack_topics :
    (ts : List TopicPointer) (ps : List Peer) (b : Bytes)
    → pack_topics ts ps ≡ ok b
    → unpack_state b ≡ ok (wire_state (record { topics = ts; peers = ps }))
unfolding pack_topics
unpack_state-pack_topics [] ps b h = cc
unpack_state-pack_topics (t ∷ []) ps b h =
    unpack_state-pack_state t.id t.last_entry_published ps b h
unpack_state-pack_topics (t ∷ u ∷ ts) ps b h = cc

unfoldable pub state_encoding : StateProto
unfolding marshal_peer pack_peer unpack_peer pack_topics pack_state state_with unpack_state
state_encoding = record {
  marshal_peer = marshal_peer;
  unmarshal_peer = unpack_peer;
  marshal_state = λ s. pack_topics s.topics s.peers;
  unmarshal_state = unpack_state;
  unmarshal-marshal_peer = λ p b h. unpack_peer-pack_peer p.op p.id p.key p.multiaddrs b h;
  unmarshal-marshal_state = λ s b h. unpack_state-pack_topics s.topics s.peers b h;
}

-- Whom the network was connected to, with their addresses, and the topics that were joined.
abbrev pub Peers : Type 0
Peers = Dict Bytes (List Bytes)

unfoldable pub join : Bytes → List Bytes → List Bytes × Result (Unit {0})
join t p = if has_key t p then (p, refused) else (t ∷ p, ok tt)

pub joined-join :
    (t : Bytes) (p : List Bytes) → (join t p).1 ≡ ok tt → has_key t (join t p).0 ≡ true
unfolding join
joined-join t p h = ground (arith, has_key_self t p)

pub join_taken :
    (t : Bytes) (p : List Bytes) → has_key t p ≡ true → (e : Error) × (join t p ≡ (p, err e))
unfolding join
join_taken t p h = (external [], rw h refl)

unfoldable pub marshal_public : Option Bytes → Result Bytes
marshal_public none = panics
marshal_public (some k) = ok k

unfoldable pub addrs_of : Option (List Bytes) → List Bytes
addrs_of none = []
addrs_of (some found) = found

unfoldable pub keys_of : Peers → List Bytes
keys_of [] = []
keys_of ((id, addrs) ∷ ps) = id ∷ keys_of ps

abbrev pub network : Network plain_keys.PubKey
network = record {
  Multiaddr = Bytes;
  new_multiaddr_bytes = λ b. ok b;
  multiaddr_bytes = λ m. m;
  new_multiaddr_bytes-multiaddr_bytes = λ m. refl;
  marshal_public_key = marshal_public;
  Net = Peers;
  connect = λ info net. (insert info.id info.addrs net, ok tt);
  peers = keys_of;
  addrs = λ net id. addrs_of (lookup id net);
  pub_key = λ net id. some id;
  PubSub = List Bytes;
  join = join;
  subscribe = λ t p. (p, ok tt);
  publish = λ t b p. p;
  joined = λ p t. has_key t p;
  joined-join = joined-join;
  join_taken = join_taken;
  joined-subscribe = λ t u p h. h;
  joined-publish = λ t u b p h. h;
}

abbrev pub libraries : Libraries
libraries = record {
  badger = memory;
  proto = any_encoding;
  hash = cut_hash;
  crypto = plain;
  keys = plain_keys;
  state_proto = state_encoding;
  network = network;
}

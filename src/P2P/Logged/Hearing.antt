-- ===== src/P2P/Logged/Hearing.antt =====
-- What a topic handler makes of the log when it gets a message from a peer.
use plan_vault_libp2p.Prelude.{
  ℕ, ◌≡◌, refl, sym, subst, inl, inr, List, Option, none, some, true, false, Bytes, Error, Bytes_eq,
  ◌==◌, Result, ok, err, panics, ok-injective, if◌then◌else◌, Bool-cases,
}
use plan_vault_libp2p.Protos.{Msg}
use plan_vault_libp2p.Interfaces.Network.{Libraries}
use plan_vault_libp2p.Store.Channel.{Channel}
use plan_vault_libp2p.Store.Channels.Registry.{IsMade}
use plan_vault_libp2p.Store.Channels.Hashed.{OfFeed, with_db-IsStore}
use plan_vault_libp2p.Store.Entries
use plan_vault_libp2p.Store.Entries.Made.{append_made}
use plan_vault_libp2p.Log.{Request, Posted, Label, quiet, answered, read, stays}
use plan_vault_libp2p.Log.Writers.{Flying}
use plan_vault_libp2p.Log.Refinement.{Follows, append-Follows}
use plan_vault_libp2p.P2P.{Host, TopicHandler, Acts, discovery, feed}
use plan_vault_libp2p.P2P.Topics.{
  Incoming, failed, message, receive, decoded, dropped, on_receive, appended,
}
use plan_vault_libp2p.P2P.Logged.{
  Kept, kept, Holds, IsHost, Kept-Holds, handle_discovery_entry-Kept,
}

module _ (X : Libraries) where
  -- The entry that a message brings to the store, with the time of its handling.
  abbrev pub brought : Host X → Acts → Incoming → Option (ℕ × Msg)
  brought h discovery i = none
  brought h feed (failed e) = none
  brought h feed (message sender body unix) =
      if sender == h.self
      then none
      else elim (X.proto.unmarshal body) [ ok m ↦ some (unix, m) | err e ↦ none | panics ↦ none ]

  -- How an entry that was brought to a channel goes with what is seen of the log.
  abbrev pub Hears : Option (ℕ × Msg) → Channel → Label → Type 0
  Hears b c quiet = b ≡ none
  Hears b c (answered q r) = (b ≡ some (q.unix, q.entry)) × IsMade (X.hash.sum256 q.uri) c
  Hears b c (read uri id r) = ⊥

  pub dropped-ok : (p : Host X × Result (Unit {0})) (h : Host X) → dropped X p ≡ ok h → p.0 ≡ h
  dropped-ok (k, ok _) h e = ok-injective e
  dropped-ok (k, err x) h e = ok-injective e
  dropped-ok (k, panics) h e = cc

  -- What handling a message comes to.
  abbrev pub Heard : List Posted → Host X → TopicHandler → Incoming → Host X → Type 0
  Heard log h th i h' =
      (l : Label) × Hears (brought h th.acts i) th.channel l
      × Follows X.badger X.proto X.hash log l h'.store.db
      × IsHost X h'

  Kept-Heard :
      (log : List Posted) (h h' : Host X) (th : TopicHandler) (i : Incoming)
      → brought h th.acts i ≡ none
      → Holds X log h
      → Kept X h h'
      → Heard log h th i h'
  Kept-Heard log h h' th i none_brought w k =
      let w' = Kept-Holds X log h h' k w in (quiet, none_brought, (log, stays, w'.entries), w'.host)

  appended-Heard :
      (log : List Posted) (h : Host X) (th : TopicHandler) (i : Incoming) (unix : ℕ) (m : Msg)
      → OfFeed X.badger X.hash th.channel
      → brought h th.acts i ≡ some (unix, m)
      → Holds X log h
      → Heard log h th i
          (appended X h
            (Entries.append X.badger X.proto th.channel unix (some m) h.store.db h.store.db)).0
  unfolding appended
  appended-Heard log h th i unix m (uri, made) brings w =
      let p : X.badger.Db × Result Bytes =
        Entries.append X.badger X.proto th.channel unix (some m) h.store.db h.store.db in
      let q : Request = record { uri = uri; unix = unix; entry = m } in
      let f : Flying X.badger X.proto X.hash = record { request = q; from = h.store.db } in
      (
        answered q p.1,
        (brings, made),
        append-Follows X.badger X.proto X.hash log h.store.db p.0 f p.1 w.entries (
            sym (
              append_made X.badger X.proto (X.hash.sum256 uri) th.channel unix (some m) h.store.db
                h.store.db made)),
        record {
          store = with_db-IsStore X.badger X.hash h.store p.0 w.host.store;
          handlers = w.host.handlers;
        },
      )

  brought_failed : (h : Host X) (a : Acts) (e : Error) → brought h a (failed e) ≡ none
  brought_failed h discovery e = refl
  brought_failed h feed e = refl

  brought_own :
      (h : Host X) (a : Acts) (sender body : Bytes) (unix : ℕ)
      → (sender == h.self) ≡ true
      → brought h a (message sender body unix) ≡ none
  brought_own h discovery sender body unix own = refl
  brought_own h feed sender body unix own = rw own refl

  brought_garbled :
      (h : Host X) (a : Acts) (sender body : Bytes) (unix : ℕ) (x : Error)
      → (sender == h.self) ≡ false
      → X.proto.unmarshal body ≡ err x
      → brought h a (message sender body unix) ≡ none
  brought_garbled h discovery sender body unix x other garbled = refl
  brought_garbled h feed sender body unix x other garbled = rw (other, garbled) refl

  module _ (log : List Posted) (h h' : Host X) (th : TopicHandler) (sender body : Bytes) (unix : ℕ)
      (of : OfFeed X.badger X.hash th.channel) (w : Holds X log h)
      (other : (sender == h.self) ≡ false) where
    on_receive-Heard :
        (a : Acts) (m : Msg)
        → th.acts ≡ a
        → X.proto.unmarshal body ≡ ok m
        → dropped X (on_receive X th a unix m h) ≡ ok h'
        → Heard log h th (message sender body unix) h'
    unfolding on_receive
    on_receive-Heard discovery m is decodes e =
        subst (Heard log h th (message sender body unix)) (dropped-ok _ h' e)
          (Kept-Heard log h _ th _ (rw is refl) w (handle_discovery_entry-Kept X h m))
    on_receive-Heard feed m is decodes e =
        subst (Heard log h th (message sender body unix)) (dropped-ok _ h' e)
          (appended-Heard log h th _ unix m of (rw (is, other, decodes) refl) w)

    decoded-Heard :
        (r : Result Msg)
        → X.proto.unmarshal body ≡ r
        → decoded X th unix h r ≡ ok h'
        → Heard log h th (message sender body unix) h'
    unfolding decoded
    decoded-Heard (ok m) decodes e = on_receive-Heard th.acts m refl decodes e
    decoded-Heard (err x) decodes e =
        subst (Heard log h th (message sender body unix)) (ok-injective e) (
          Kept-Heard log h h th _ (brought_garbled h th.acts sender body unix x other decodes) w
            (kept X h))
    decoded-Heard panics decodes e = cc

  -- When a handler of a feed gets something from its subscription, on a host whose store holds a
  -- log, the log does one step: the post or the refusal of the entry that the message brings, or,
  -- if it brings none, no change. The store then holds the log that the step leads to.
  pub receive-Heard :
      (log : List Posted) (h h' : Host X) (th : TopicHandler) (i : Incoming)
      → OfFeed X.badger X.hash th.channel
      → Holds X log h
      → receive X th i h ≡ ok h'
      → Heard log h th i h'
  unfolding receive
  receive-Heard log h h' th (failed x) of w e =
      subst (Heard log h th (failed x)) (ok-injective e)
        (Kept-Heard log h h th _ (brought_failed h th.acts x) w (kept X h))
  receive-Heard log h h' th (message sender body unix) of w e =
      elim (Bool-cases (sender == h.self)) [
        | inl own ↦
            subst (Heard log h th (message sender body unix))
              (ok-injective (rw (own, receive) at e))
              (Kept-Heard log h h th _ (brought_own h th.acts sender body unix own) w (kept X h))
        | inr other ↦
            decoded-Heard log h h' th sender body unix of w other _ refl (rw (other, receive) at e)
      ]

-- ===== src/Program/Refinement.antt =====
-- The running program does what the log does.
use plan_vault_libp2p.Prelude.{
  ◌≡◌, refl, sym, subst, List, [], ◌∷◌, ◌++◌, some, Bool, Bytes, Bytes_eq, ok, ok-injective, lookup,
}
use plan_vault_libp2p.Interfaces.{Badger, Hash}
use plan_vault_libp2p.Interfaces.Network.{Libraries}
use plan_vault_libp2p.Store.Channel.{Channel, Subscriber}
use plan_vault_libp2p.Store.Channels
use plan_vault_libp2p.Store.Channels.{Store, put_channel, unsubscribe}
use plan_vault_libp2p.Store.Channels.Hashed.{IsStore, put_channel-IsStore}
use plan_vault_libp2p.Store.Channels.Subscriptions.{unsubscribe-IsMade}
use plan_vault_libp2p.Log.{Posted, Label, quiet, Does, stays, Runs}
use plan_vault_libp2p.Log.Refinement.{Represents}
use plan_vault_libp2p.Server.Session.Logged.{Shows, handle-Serves}
use plan_vault_libp2p.Server.Session.Served.{handle-IsStore}
use plan_vault_libp2p.P2P.{Host}
use plan_vault_libp2p.P2P.Run.{handle_peer_found}
use plan_vault_libp2p.P2P.Logged.{Holds, Kept-Holds}
use plan_vault_libp2p.P2P.Logged.Hearing.{Hears, receive-Heard}
use plan_vault_libp2p.P2P.Logged.Looping.{loop_event-Holds}
use plan_vault_libp2p.P2P.Logged.Starting.{start_host-Holds, publish-Holds}
use plan_vault_libp2p.Program.{
  Program, Seen, nothing, replied, heard, vault_of, Step, connects, requests, unsubscribes, hears,
  publishes, loops, finds, restarts, Reach,
}

new-IsStore :
    (B : Badger) (H : Hash) (db : B.Db) (d : Bool) (s : Store B)
    → Channels.new B (ok db) d ≡ ok s
    → IsStore B H s × (s.db ≡ db)
unfolding Channels.new lookup
new-IsStore B H db d s e =
    subst (λ (t : Store B). IsStore B H t × (t.db ≡ db)) (ok-injective e)
      (
        record {
          registry = record { made = λ id c found. cc found };
          hashed = λ id c found. cc found;
        },
        refl,
      )

module _ (X : Libraries) where
  -- How what is seen of the program goes with what is seen of the log.
  abbrev Shown : Seen X → Label → Type 0
  Shown nothing l = l ≡ quiet
  Shown (replied unix req r) l = Shows X.badger X.proto X.hash unix req r l
  Shown (heard b c) l = Hears X b c l

  abbrev pub AllShown : List (Seen X) → List Label → Type 0
  AllShown [] [] = Unit {0}
  AllShown (x ∷ xs) (l ∷ ls) = Shown x l × AllShown xs ls
  AllShown _ _ = ⊥

  AllShown-append_one :
      (xs : List (Seen X)) (ls : List Label) (x : Seen X) (l : Label)
      → AllShown xs ls
      → Shown x l
      → AllShown (xs ++ x ∷ []) (ls ++ l ∷ [])
  AllShown-append_one [] [] x l a s = (s, tt)
  AllShown-append_one [] (k ∷ ls) x l a s = absurd a
  AllShown-append_one (y ∷ xs) [] x l a s = absurd a
  AllShown-append_one (y ∷ xs) (k ∷ ls) x l (b, a) s = (b, AllShown-append_one xs ls x l a s)

  -- A step of the log that the program's step shows, and the program after it.
  abbrev Advances : List Posted → Seen X → Program X → Type 0
  Advances log x w =
      (l : Label) × (log' : List Posted) × Shown x l
      × Does X.proto X.hash log l log'
      × Holds X log' w.loop.host

  quiet_step :
      (log : List Posted) (w : Program X) → Holds X log w.loop.host → Advances log nothing w
  quiet_step log w h = (quiet, log, refl, stays, h)

  unsubscribes-Holds :
      (log : List Posted) (h : Host X) (id : Bytes) (c : Channel) (sub : Subscriber)
      → lookup id h.store.channels ≡ some c
      → Holds X log h
      → Holds X log (record h { store = put_channel X.badger (unsubscribe c sub) h.store })
  unfolding put_channel
  unsubscribes-Holds log h id c sub found w = record {
    host = record {
      store =
          put_channel-IsStore X.badger X.hash id (unsubscribe c sub) h.store
            (unsubscribe-IsMade id c sub (w.host.store.registry.made id c found))
            (w.host.store.hashed id c found) w.host.store;
      handlers = w.host.handlers;
    };
    entries = w.entries;
  }

  pub Step-Advances :
      (log : List Posted) (w t : Program X) (x : Seen X)
      → Holds X log w.loop.host
      → Step X w x t
      → Advances log x t
  unfolding handle_peer_found
  Step-Advances log w t x h (connects uuid) = quiet_step log t h
  Step-Advances log w t x h (requests conn unix req found) =
      let v = vault_of X conn w in
      let ((l, shows, (log', does, entries)), registry) =
        handle-Serves X.badger X.proto X.hash log unix req v h.host.store.registry h.entries in
      (
        l,
        log',
        shows,
        does,
        record {
          host = record {
            store = handle-IsStore X.badger X.proto X.hash unix req v h.host.store;
            handlers = h.host.handlers;
          };
          entries = entries;
        },
      )
  Step-Advances log w t x h (unsubscribes id c sub found) =
      quiet_step log t (unsubscribes-Holds log w.loop.host id c sub found h)
  Step-Advances log w t x h (hears uri th i k found e) =
      let (l, hearing, (log', does, entries), host) =
        receive-Heard X log w.loop.host k th i (h.host.handlers uri th found) h e in
      (l, log', hearing, does, record { host = host; entries = entries })
  Step-Advances log w t x h (publishes uri th entry k found e) =
      quiet_step log t
        (publish-Holds X log uri th entry w.loop.host k (h.host.handlers uri th found) h e)
  Step-Advances log w t x h (loops e l tells done) =
      quiet_step log t (loop_event-Holds X log w.loop l e tells h done)
  Step-Advances log w t x h (finds info) =
      quiet_step log t (Kept-Holds X log w.loop.host _ (record { store = refl; handlers = refl }) h)
  Step-Advances log w t x h (restarts cfg d s uuid k opened started) =
      let (is, same) = new-IsStore X.badger X.hash w.loop.host.store.db d s opened in
      quiet_step log t (
        start_host-Holds X log cfg s uuid k is
          (subst (Represents X.badger X.proto X.hash log) (sym same) h.entries) started)

  -- Whatever clients and peers send to a program whose store holds a log, whatever its loop and its
  -- handlers do and however often it is started again on its database, in any order: the log has a
  -- run of its own, step by step with the program, in which every reply to a client is the log's
  -- reply to the client's entry, every entry from a peer is the log's to post or refuse, and
  -- nothing else changes the log; and the store then holds the log that the run leads to.
  pub program_refines :
      (log : List Posted) (w t : Program X) (seen : List (Seen X))
      → Holds X log w.loop.host
      → Reach X w seen t
      → (log' : List Posted) × (ls : List Label) × Runs X.proto X.hash log ls log'
        × AllShown seen ls
        × Holds X log' t.loop.host
  program_refines log w t seen h Reach.start = (log, [], Runs.done, tt, h)
  program_refines log w t seen h (Reach.later before last) =
      let (mid, ls, runs, shown, h') = program_refines log w _ _ h before in
      let (l, log', shows, does, h'') = Step-Advances mid _ t _ h' last in
      (log', _, Runs.later runs does, AllShown-append_one _ ls _ l shown shows, h'')

-- ===== src/Program/Acknowledged.antt =====
-- What a client may count on when the server has answered its entry with an entry ID, whatever else
-- runs in the program and however often that is started again.
use plan_vault_libp2p.Prelude.{
  ℕ, ◌≡◌, ◌≢◌, refl, sym, ap, subst, ◌∙◌, List, [], ◌∷◌, ◌++◌, append-nil, append_assoc, Option,
  none, some, Bytes, Bytes_eq, Result, ok, err, panics, ok-injective, eq_of_some,
}
use plan_vault_libp2p.Prelude.Errors.{key_not_found}
use plan_vault_libp2p.Prelude.Maps.{eq_self}
use plan_vault_libp2p.Protos.{Msg, FeedReq, get_entry_id, empty_header}
use plan_vault_libp2p.Interfaces.{Proto, Hash, wire}
use plan_vault_libp2p.Interfaces.Network.{Libraries}
use plan_vault_libp2p.Store.Keys.{entry_key, arrival_key}
use plan_vault_libp2p.Store.Channel.{new_channel}
use plan_vault_libp2p.Store.Keys.Layout.{fit}
use plan_vault_libp2p.Store.Entries
use plan_vault_libp2p.Store.Entries.{deref}
use plan_vault_libp2p.Log.{
  Request, Posted, find, Label, quiet, answered, read, Does, stays, posts, refuses, breaks, reads,
  Runs,
}
use plan_vault_libp2p.Log.Places.{find-append, same_id_iff, find-same}
use plan_vault_libp2p.Log.Once.{find-append_old}
use plan_vault_libp2p.Log.Writers.{channel_of}
use plan_vault_libp2p.Log.Refinement.{get-view}
use plan_vault_libp2p.Server.Session.{append_reply, error_response}
use plan_vault_libp2p.Server.Session.Logged.{Shows, asked, entry_uri}
use plan_vault_libp2p.P2P.Logged.{Holds}
use plan_vault_libp2p.Program.{Program, Seen, replied, Step, Reach}
use plan_vault_libp2p.Program.Refinement.{program_refines, Step-Advances}

module _ (P : Proto) (H : Hash) where
  Does-longer :
      (log now : List Posted) (l : Label)
      → Does P H log l now
      → (new : List Posted) × (now ≡ log ++ new)
  Does-longer log now l stays = ([], sym (append-nil log))
  Does-longer log now l (posts q id bytes has packs absent) = (_, refl)
  Does-longer log now l (refuses q e) = ([], sym (append-nil log))
  Does-longer log now l (breaks q) = ([], sym (append-nil log))
  Does-longer log now l (reads uri id) = ([], sym (append-nil log))

  pub Runs-longer :
      (log now : List Posted) (ls : List Label)
      → Runs P H log ls now
      → (new : List Posted) × (now ≡ log ++ new)
  Runs-longer log now ls Runs.done = ([], sym (append-nil log))
  Runs-longer log now ls (Runs.later before last) =
      let (new, e) = Runs-longer log _ _ before in
      let (more, f) = Does-longer _ now _ last in
      (new ++ more, f ∙ ap (λ (k : List Posted). k ++ more) e ∙ append_assoc log new more)

  -- What the log has at the place of an entry that it has taken.
  pub taken :
      (log now : List Posted) (q : Request) (key id : Bytes)
      → Does P H log (answered q (ok key)) now
      → get_entry_id q.entry.entry_header ≡ some id
      → (bytes : Bytes) × (P.marshal q.entry ≡ ok bytes)
        × (find (H.sum256 q.uri) id log ≡ none)
        × (find (H.sum256 q.uri) id now ≡ some bytes)
        × (key ≡ arrival_key (new_channel (H.sum256 q.uri)) q.unix id)
  taken log now q key id (posts q2 i bytes has packs absent) wanted =
      let c : Bytes = H.sum256 q.uri in
      let p : Posted = record { channel = c; id = i; unix = q.unix; bytes = bytes } in
      let there : find c i (log ++ p ∷ []) ≡ some bytes =
        find-append c i log p absent ∙ rw (eq_self c, (same_id_iff i i).1 refl) refl in
      subst
        (λ (j : Bytes).
          (b : Bytes) × (P.marshal q.entry ≡ ok b)
          × (find c j log ≡ none)
          × (find c j (log ++ p ∷ []) ≡ some b)
          × (arrival_key (new_channel c) q.unix i ≡ arrival_key (new_channel c) q.unix j))
        (eq_of_some (sym has ∙ wanted)) (bytes, packs, absent, there, refl)

module _ (X : Libraries) where
  -- The reply `m` tells the ID of an entry.
  abbrev pub Acks : Msg → Bytes → Type 0
  Acks m key = m.entry_header ≡ some (record empty_header { entry_id = some key })

  append_reply-Acks :
      (n : ℕ) (r : Result Bytes) (m : Msg) (key : Bytes)
      → Acks m key
      → ok m ≡ append_reply X.badger X.proto X.hash n r
      → r ≡ ok key
  unfolding append_reply error_response
  append_reply-Acks n (ok k) m key h e =
      let same : ◌≡◌ {A = Option Bytes} (some k) (some key) =
        ap get_entry_id (sym (ap (λ (a : Msg). a.entry_header) (ok-injective e)) ∙ h) in
      ap (λ (b : Bytes). Result.ok b) (eq_of_some same)
  append_reply-Acks n (err x) m key h e =
      absurd (cc (sym h ∙ ap (λ (k : Msg). k.entry_header) (ok-injective e)))
  append_reply-Acks n panics m key h e = cc

  -- A request whose reply tells an ID was one for the log.
  acked :
      (log now : List Posted) (unix : ℕ) (req : FeedReq) (m : Msg) (key : Bytes) (l : Label)
      → Acks m key
      → Shows X.badger X.proto X.hash unix req (ok m) l
      → Does X.proto X.hash log l now
      → Does X.proto X.hash log (answered (asked X.badger X.proto X.hash unix req) (ok key)) now
  acked log now unix req m key quiet h (off, bare) does = absurd (cc (sym h ∙ bare m refl))
  acked log now unix req m key (answered q r) h (on, same, e) does =
      subst
        (λ (k : Result Bytes).
          Does X.proto X.hash log (answered (asked X.badger X.proto X.hash unix req) k) now)
        (append_reply-Acks req.req_id r m key h e)
        (subst (λ (k : Request). Does X.proto X.hash log (answered k r) now) same does)
  acked log now unix req m key (read uri id r) h shows does = absurd shows

  -- The log after a step whose reply tells an ID.
  unfoldable pub Acked : List Posted → ℕ → FeedReq → Bytes → Bytes → Program X → Type 0
  Acked log unix req key id t =
      (now : List Posted) × (bytes : Bytes) × Holds X now t.loop.host
      × (X.proto.marshal (deref req.new_entry) ≡ ok bytes)
      × (find (X.hash.sum256 (entry_uri X.badger X.proto X.hash req)) id log ≡ none)
      × (find (X.hash.sum256 (entry_uri X.badger X.proto X.hash req)) id now ≡ some bytes)
      × (key
          ≡ arrival_key (new_channel (X.hash.sum256 (entry_uri X.badger X.proto X.hash req))) unix
              id)
      × Does X.proto X.hash log (answered (asked X.badger X.proto X.hash unix req) (ok key)) now

  pub Step-Acked :
      (log : List Posted) (w t : Program X) (unix : ℕ) (req : FeedReq) (m : Msg) (key id : Bytes)
      → Holds X log w.loop.host
      → Step X w (replied unix req (ok m)) t
      → Acks m key
      → get_entry_id (deref req.new_entry).entry_header ≡ some id
      → Acked log unix req key id t
  unfolding Acked
  Step-Acked log w t unix req m key id h step acks has =
      let (l, now, shows, does, h') = Step-Advances X log w t (replied unix req (ok m)) h step in
      let (bytes, packs, absent, there, is) =
        taken X.proto X.hash log now (asked X.badger X.proto X.hash unix req) key id
          (acked log now unix req m key l acks shows does) has in
      (now, bytes, h', packs, absent, there, is, acked log now unix req m key l acks shows does)

  -- When the server has answered a request with an entry ID, whatever else the program then does,
  -- with any clients and peers, and however often it is started again: that ID is the arrival key
  -- of the client's entry at the Unix time of the request, and Get of the entry's key in its feed
  -- returns the entry as it is read from the wire.
  pub acknowledged_for_good :
      (log : List Posted) (w t u : Program X) (seen : List (Seen X)) (unix : ℕ) (req : FeedReq)
      (m : Msg) (key id : Bytes)
      → Holds X log w.loop.host
      → Step X w (replied unix req (ok m)) t
      → Acks m key
      → get_entry_id (deref req.new_entry).entry_header ≡ some id
      → Reach X t seen u
      → let c = channel_of X.badger X.proto X.hash (entry_uri X.badger X.proto X.hash req) in
        (key ≡ arrival_key c unix id)
        × (Entries.get X.badger X.proto (entry_key c id) u.loop.host.store.db
            ≡ ok (wire (deref req.new_entry)))
  unfolding Acked
  acknowledged_for_good log w t u seen unix req m key id h step acks has run =
      let uri : Bytes = entry_uri X.badger X.proto X.hash req in
      let (now, bytes, h', packs, absent, there, is, did) =
        Step-Acked log w t unix req m key id h step acks has in
      let (last, ls, runs, shown, h2) = program_refines X now t u seen h' run in
      let (new, grown) = Runs-longer X.proto X.hash now last ls runs in
      let kept : find (X.hash.sum256 uri) id last ≡ some bytes =
        ap (find (X.hash.sum256 uri) id) grown
        ∙ find-append_old (X.hash.sum256 uri) id bytes now new there in
      (
        is,
        get-view X.badger X.proto X.hash last u.loop.host.store.db uri id h2.entries
            ∙ ap
                (λ (o : Option Bytes). elim o [
                  | none ↦ err key_not_found
                  | some b ↦ X.proto.unmarshal b
                ])
                kept
            ∙ X.proto.unmarshal-marshal (deref req.new_entry) bytes packs,
      )

  -- The program never answers two requests with an entry ID for entries of one feed whose IDs agree
  -- once cut or padded to thirty bytes, whatever it does in between.
  pub acknowledged_once :
      (log : List Posted) (w t u v : Program X) (seen : List (Seen X)) (unix later : ℕ)
      (req again : FeedReq) (m n : Msg) (key other i j : Bytes)
      → Holds X log w.loop.host
      → Step X w (replied unix req (ok m)) t
      → Acks m key
      → get_entry_id (deref req.new_entry).entry_header ≡ some i
      → Reach X t seen u
      → Step X u (replied later again (ok n)) v
      → Acks n other
      → get_entry_id (deref again.new_entry).entry_header ≡ some j
      → entry_uri X.badger X.proto X.hash req ≡ entry_uri X.badger X.proto X.hash again
      → fit 30 i ≢ fit 30 j
  unfolding Acked
  acknowledged_once log w t u v seen unix later req again m n key other i j h step acks has run next
        acks' has' feed same =
      let uri : Bytes = entry_uri X.badger X.proto X.hash req in
      let (now, bytes, h', packs, absent, there, is, did) =
        Step-Acked log w t unix req m key i h step acks has in
      let (last, ls, runs, shown, h2) = program_refines X now t u seen h' run in
      let (new, grown) = Runs-longer X.proto X.hash now last ls runs in
      let (end, bytes', h3, packs', absent', there', is', did') =
        Step-Acked last u v later again n other j h2 next acks' has' in
      let kept : find (X.hash.sum256 uri) i last ≡ some bytes =
        ap (find (X.hash.sum256 uri) i) grown
        ∙ find-append_old (X.hash.sum256 uri) i bytes now new there in
      let missing : find (X.hash.sum256 uri) i last ≡ none =
        find-same (X.hash.sum256 uri) i j last same
        ∙ ap (λ (k : Bytes). find (X.hash.sum256 k) j last) feed
        ∙ absent' in
      cc (kept, missing)

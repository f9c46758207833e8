-- ===== src/Log/Refinement.antt =====
-- The store's writers, whatever their order, do what the log does.
use plan_vault_libp2p.Prelude.{
  ◌≡◌, refl, sym, ap, subst, ◌∙◌, List, [], ◌∷◌, ◌++◌, Option, none, some, Bytes, Bytes_eq, Result,
  ok, err, panics, ok-injective, eq_of_some, ◌>>=◌, ◌==◌, Bool-cases, inl, inr, All, All-append_one,
  All-map,
}
use plan_vault_libp2p.Prelude.Errors.{badger_key_not_found, key_not_found}
use plan_vault_libp2p.Prelude.ByteStrings.{bytes_beq_iff}
use plan_vault_libp2p.Prelude.Maps.{eq_self}
use plan_vault_libp2p.Protos.{Msg, get_entry_id}
use plan_vault_libp2p.Interfaces.{Badger, Proto, Hash}
use plan_vault_libp2p.Store.Channel.{new_channel}
use plan_vault_libp2p.Store.Keys.{entry_key, arrival_key}
use plan_vault_libp2p.Store.Entries
use plan_vault_libp2p.Store.Entries.{value, rename_missing}
use plan_vault_libp2p.Store.Entries.Appends.{Appended, append-Appended}
use plan_vault_libp2p.Store.Entries.Reads.{
  get-upsert, append_fails, append_panics, upsert_fails, upsert_panics,
}
use plan_vault_libp2p.P2P.Snapshots.{snapshot_key}
use plan_vault_libp2p.Log.{
  Posted, find, Label, answered, read, view, Does, stays, posts, refuses, breaks, reads, Runs,
}
use plan_vault_libp2p.Log.Writers.{
  channel_of, Flying, System, append_of, Step, begins, commits, snapshots, looks, Reach,
}
use plan_vault_libp2p.Log.Places.{
  same_key, find-append, beq-ne, or_missing_if, if_empty, entry-ne-arrival, snapshot_key-ne-entry,
  snapshot_key-ne-arrival, or_missing, IsPlace, at_snapshot, at_entry, at_arrival, IsPlace-of,
}

module _ (B : Badger) (P : Proto) (H : Hash) where
  -- The database holds the entries of the log at the keys of their channels and IDs, and no other
  -- entry, has an index entry for each of them, and has only keys that the vault writes.
  pub record Represents (log : List Posted) (db : B.Db) : Type 0 where
    pub holds :
        (uri id : Bytes)
        → value B P db (entry_key (channel_of B P H uri) id)
          ≡ or_missing (find (H.sum256 uri) id log)
    pub indexed :
        All
          (λ (p : Posted). value B P db (arrival_key (new_channel p.channel) p.unix p.id) ≡ ok [])
          log
    pub placed : (k v : Bytes) → value B P db k ≡ ok v → IsPlace H k

  none_there : (o : Option Bytes) → or_missing o ≡ err badger_key_not_found → o ≡ none
  none_there none h = refl
  none_there (some b) h = cc

  abbrev pub posted : Flying B P H → Bytes → Bytes → Posted
  posted f id bytes = record {
    channel = H.sum256 f.request.uri;
    id = id;
    unix = f.request.unix;
    bytes = bytes;
  }

  -- What an Append that succeeded leaves.
  module _ (log : List Posted) (now after : B.Db) (f : Flying B P H) (reply : Bytes)
      (r : Represents log now)
      (a : Appended B P
        (channel_of B P H f.request.uri)
        f.request.unix
        (some f.request.entry)
        now
        after
        reply) where
    abbrev new_log : List Posted
    new_log = log ++ posted f a.id a.bytes ∷ []

    was_free : find (H.sum256 f.request.uri) a.id log ≡ none
    was_free = none_there _ (sym (r.holds f.request.uri a.id) ∙ a.was_absent)

    entries_after :
        (uri id : Bytes)
        → value B P after (entry_key (channel_of B P H uri) id)
          ≡ or_missing (find (H.sum256 uri) id new_log)
    entries_after uri id =
        a.holds (entry_key (channel_of B P H uri) id)
        ∙ rw
            (beq-ne (arrival_key (channel_of B P H f.request.uri) f.request.unix a.id)
              (entry_key (channel_of B P H uri) id)
              (entry-ne-arrival (channel_of B P H f.request.uri) (channel_of B P H uri)
                f.request.unix id a.id))
            (rw
              (same_key (H.sum256 f.request.uri) (H.sum256 uri) a.id id
                (H.length-sum256 f.request.uri) (H.length-sum256 uri))
              (rw (r.holds uri id) (
                or_missing_if _ a.bytes _
                ∙ ap or_missing
                    (sym (find-append (H.sum256 uri) id log (posted f a.id a.bytes) was_free)))))

    index_kept :
        (p : Posted)
        → value B P now (arrival_key (new_channel p.channel) p.unix p.id) ≡ ok []
        → value B P after (arrival_key (new_channel p.channel) p.unix p.id) ≡ ok []
    index_kept p there =
        a.holds (arrival_key (new_channel p.channel) p.unix p.id)
        ∙ if_empty _ _ _
            (beq-ne _ _
              (λ (e : entry_key (channel_of B P H f.request.uri) a.id
                  ≡ arrival_key (new_channel p.channel) p.unix p.id).
                entry-ne-arrival (new_channel p.channel) (channel_of B P H f.request.uri) p.unix
                  a.id p.id (sym e)))
            there a.bytes

    index_after :
        All
          (λ (p : Posted).
            value B P after (arrival_key (new_channel p.channel) p.unix p.id) ≡ ok [])
          new_log
    index_after =
        All-append_one _ log (posted f a.id a.bytes) (All-map _ _ index_kept log r.indexed) (
          a.holds (arrival_key (channel_of B P H f.request.uri) f.request.unix a.id)
          ∙ rw (eq_self (arrival_key (channel_of B P H f.request.uri) f.request.unix a.id)) refl)

    placed_after : (k v : Bytes) → value B P after k ≡ ok v → IsPlace H k
    placed_after k v h =
        IsPlace-of H (arrival_key (channel_of B P H f.request.uri) f.request.unix a.id)
          (entry_key (channel_of B P H f.request.uri) a.id) k v (ok []) (ok a.bytes)
          (value B P now k) (at_arrival f.request.uri a.id f.request.unix refl)
          (at_entry f.request.uri a.id refl) (r.placed k v) (sym (a.holds k) ∙ h)

    append-Represents : Represents new_log after
    append-Represents = record {
      holds = entries_after;
      indexed = index_after;
      placed = placed_after;
    }

    append-Does : Does P H log (answered f.request (ok reply)) new_log
    append-Does =
        subst (λ (k : Bytes). Does P H log (answered f.request (ok k)) new_log) (sym a.replied)
          (posts f.request a.id a.bytes a.has_id a.marshalled was_free)

  -- A step of the log that leads to what the database then holds.
  abbrev pub Follows : List Posted → Label → B.Db → Type 0
  Follows log l db = (log' : List Posted) × Does P H log l log' × Represents log' db

  pub append-Follows :
      (log : List Posted) (now after : B.Db) (f : Flying B P H) (r : Result Bytes)
      → Represents log now
      → append_of B P H f now ≡ (after, r)
      → Follows log (answered f.request r) after
  append-Follows log now after f (ok reply) rep e =
      let a =
        append-Appended B P (channel_of B P H f.request.uri) f.request.unix (some f.request.entry)
          f.from now after reply e in
      (
        new_log log now after f reply rep a,
        append-Does log now after f reply rep a,
        append-Represents log now after f reply rep a,
      )
  append-Follows log now after f (err x) rep e =
      let same : after ≡ now =
        (append_fails B P (channel_of B P H f.request.uri) f.request.unix (some f.request.entry)
            f.from now).4
          after x e in
      (log, refuses f.request x, subst (Represents log) (sym same) rep)
  append-Follows log now after f panics rep e =
      let same : after ≡ now =
        append_panics B P (channel_of B P H f.request.uri) f.request.unix (some f.request.entry)
          f.from now after e in
      (log, breaks f.request, subst (Represents log) (sym same) rep)

  -- A store that held a log holds it with the entry that an Append has added.
  pub append-Represents_with :
      (log : List Posted) (now after : B.Db) (f : Flying B P H) (id bytes reply : Bytes)
      → Represents log now
      → append_of B P H f now ≡ (after, ok reply)
      → get_entry_id f.request.entry.entry_header ≡ some id
      → P.marshal f.request.entry ≡ ok bytes
      → Represents (log ++ posted f id bytes ∷ []) after
  append-Represents_with log now after f id bytes reply rep e has packs =
      let a =
        append-Appended B P (channel_of B P H f.request.uri) f.request.unix (some f.request.entry)
          f.from now after reply e in
      subst (λ (b : Bytes). Represents (log ++ posted f id b ∷ []) after)
        (ok-injective (sym a.marshalled ∙ packs))
        (subst (λ (i : Bytes). Represents (log ++ posted f i a.bytes ∷ []) after)
          (eq_of_some (sym a.has_id ∙ has)) (append-Represents log now after f reply rep a))

  -- Writes under the key of the snapshot are not seen.
  pub upsert-Represents :
      (log : List Posted) (m : Msg) (from now after : B.Db) (r : Result (Unit {0}))
      → Represents log now
      → Entries.upsert B P snapshot_key m from now ≡ (after, r)
      → Represents log after
  upsert-Represents log m from now after (ok _) rep e =
      let others = (get-upsert B P snapshot_key m from now after e).1 in
      record {
        holds = λ uri id.
            others (entry_key (channel_of B P H uri) id)
              (snapshot_key-ne-entry (channel_of B P H uri) id)
            ∙ rep.holds uri id;
        indexed =
            All-map _ _
              (λ (p : Posted) there.
                others (arrival_key (new_channel p.channel) p.unix p.id)
                  (snapshot_key-ne-arrival (new_channel p.channel) p.unix p.id)
                ∙ there)
              log rep.indexed;
        placed = λ k v there. elim (Bool-cases (snapshot_key == k)) [
          | inl same ↦ at_snapshot ((bytes_beq_iff snapshot_key k).0 same)
          | inr apart ↦
              rep.placed k v
                (sym (others k (λ same. cc (apart, (bytes_beq_iff snapshot_key k).1 same))) ∙ there)
        ];
      }
  upsert-Represents log m from now after (err x) rep e =
      subst (Represents log) (sym (upsert_fails B P snapshot_key m from now after x e)) rep
  upsert-Represents log m from now after panics rep e =
      subst (Represents log) (sym (upsert_panics B P snapshot_key m from now after e)) rep

  pub get-view :
      (log : List Posted) (db : B.Db) (uri id : Bytes)
      → Represents log db
      → Entries.get B P (entry_key (channel_of B P H uri) id) db ≡ view P H log uri id
  unfolding Entries.get
  get-view log db uri id rep =
      ap (λ (v : Result Bytes). rename_missing v >>= λ (b : Bytes). P.unmarshal b)
        (rep.holds uri id)
      ∙ read_found (find (H.sum256 uri) id log)
    where
      read_found :
          (o : Option Bytes)
          → (rename_missing (or_missing o) >>= λ (b : Bytes). P.unmarshal b)
            ≡ elim o [ none ↦ err key_not_found | some bytes ↦ P.unmarshal bytes ]
      read_found none = refl
      read_found (some b) = refl

  Step-Follows :
      (log : List Posted) (s t : System B P H) (l : Label)
      → Represents log s.db
      → Step B P H s l t
      → Follows log l t.db
  Step-Follows log s t l rep (begins q) = (log, stays, rep)
  Step-Follows log s t l rep (commits before after f there) = append-Follows log s.db _ f _ rep refl
  Step-Follows log s t l rep (snapshots from body) =
      (log, stays, upsert-Represents log _ from s.db _ _ rep refl)
  Step-Follows log s t l rep (looks uri id) = (
    log,
    subst (λ (r : Result Msg). Does P H log (read uri id r) log)
        (sym (get-view log s.db uri id rep)) (reads uri id),
    rep,
  )

  -- Whatever writers and snapshots run on a database that holds a log, in whatever order they
  -- begin and commit, every reply and everything that is read on the way is what the log gives in
  -- a run of its own, and the database then holds the log that this run leads to.
  pub writers_refine :
      (log : List Posted) (s t : System B P H) (ls : List Label)
      → Represents log s.db
      → Reach B P H s ls t
      → (log' : List Posted) × Runs P H log ls log' × Represents log' t.db
  writers_refine log s t ls rep Reach.start = (log, Runs.done, rep)
  writers_refine log s t ls rep (Reach.later before last) =
      let (mid, runs, rep') = writers_refine log s _ _ rep before in
      let (log', does, rep'') = Step-Follows mid _ t _ rep' last in
      (log', Runs.later runs does, rep'')

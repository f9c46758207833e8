-- ===== src/Store/Entries/AppendOnly.antt =====
-- The promises of Append: what it stores can be read and is never overwritten, and its reply is a
-- bookmark that leads to the entry.

use plan_vault_libp2p.Prelude.{
  ℕ, ◌≡◌, ◌≢◌, sym, ap, ◌∙◌, Option, some, Bytes, Bytes_eq, Result, ok, arith, eq_of_some, ◌>>=◌,
}
use plan_vault_libp2p.Prelude.ByteStrings.{bytes_beq_iff}
use plan_vault_libp2p.Prelude.Maps.{eq_self}
use plan_vault_libp2p.Protos.{Msg, get_entry_header, get_entry_id}
use plan_vault_libp2p.Interfaces.{Badger, Proto, wire}
use plan_vault_libp2p.Store.Channel.{Channel}
use plan_vault_libp2p.Store.Keys.{entry_key, arrival_key, entry_key_from_index}
use plan_vault_libp2p.Store.Keys.Layout.{HasPrefixes, fit}
use plan_vault_libp2p.Store.Keys.Roundtrip.{entry_key-eq_iff, entry_key_from_index-arrival_key}
use plan_vault_libp2p.Store.Entries.{value, get, append, rename_missing}
use plan_vault_libp2p.Store.Entries.Appends.{Appended, append-Appended, entry_key-ne-arrival_key}

module _ (B : Badger) (P : Proto) where
  pub value-Appended :
      (c : Channel) (unix : ℕ) (entry : Option Msg) (now after : B.Db) (reply : Bytes)
      (a : Appended B P c unix entry now after reply)
      → value B P after (entry_key c a.id) ≡ ok a.bytes
  value-Appended c unix entry now after reply a =
      a.holds (entry_key c a.id)
      ∙ ground (
        arith,
        eq_self (entry_key c a.id),
        bytes_beq_iff (arrival_key c unix a.id) (entry_key c a.id),
        λ (e : entry_key c a.id ≡ arrival_key c unix a.id).
            entry_key-ne-arrival_key c unix a.id a.id e,
      )

  -- After an Append of an entry with an ID that succeeds in a channel with 33-byte prefixes, also
  -- with another writer between its snapshot and its commit, Get of the entry's key returns the
  -- entry as it is read from the wire, and the reply is the arrival key, from which the key of the
  -- entry can be computed.
  pub get-append :
      (c : Channel) (unix : ℕ) (m : Msg) (id : Bytes) (d now after : B.Db) (reply : Bytes)
      → HasPrefixes c
      → get_entry_id m.entry_header ≡ some id
      → append B P c unix (some m) d now ≡ (after, ok reply)
      → (get B P (entry_key c id) after ≡ ok (wire m))
        × (reply ≡ arrival_key c unix id)
        × (entry_key_from_index c reply ≡ ok (entry_key c id))
  unfolding get
  get-append c unix m id d now after reply p has h =
      let a : Appended B P c unix (some m) now after reply =
        append-Appended B P c unix (some m) d now after reply h in
      let same : a.id ≡ id = eq_of_some (sym a.has_id ∙ has) in
      let held : value B P after (entry_key c id) ≡ ok a.bytes =
        ap (λ (i : Bytes). value B P after (entry_key c i)) (sym same)
        ∙ value-Appended c unix (some m) now after reply a in
      let reply_lem : reply ≡ arrival_key c unix id = a.replied ∙ ap (arrival_key c unix) same in
      (
        ap (λ (r : Result Bytes). rename_missing r >>= λ (v : Bytes). P.unmarshal v) held
            ∙ P.unmarshal-marshal m a.bytes a.marshalled,
        reply_lem,
        ap (entry_key_from_index c) reply_lem ∙ entry_key_from_index-arrival_key c unix id p,
      )

  -- An Append that succeeds leaves every value in place that was there when it committed, except
  -- at the arrival key that it writes itself.
  pub append_keeps :
      (c : Channel) (unix : ℕ) (entry : Option Msg) (d now after : B.Db) (reply k v : Bytes)
      → append B P c unix entry d now ≡ (after, ok reply)
      → value B P now k ≡ ok v
      → k ≢ reply
      → value B P after k ≡ ok v
  append_keeps c unix entry d now after reply k v h here apart =
      let a = append-Appended B P c unix entry d now after reply h in
      a.holds k
      ∙ ground (
        arith,
        a.was_absent,
        a.replied,
        here,
        bytes_beq_iff (arrival_key c unix a.id) k,
        bytes_beq_iff (entry_key c a.id) k,
      )

  -- In a channel with 33-byte prefixes, after an Append that succeeded, one of an ID that is equal
  -- to the first one's, once both are cut or padded to thirty bytes, does not succeed, whatever
  -- snapshot it has worked on.
  append_once :
      (c : Channel) (t u : ℕ) (e f : Option Msg) (a b : Bytes) (d d' now after last : B.Db)
      (r s : Bytes)
      → HasPrefixes c
      → get_entry_id (get_entry_header e) ≡ some a
      → get_entry_id (get_entry_header f) ≡ some b
      → fit 30 a ≡ fit 30 b
      → append B P c t e d now ≡ (after, ok r)
      → append B P c u f d' after ≢ (last, ok s)
  append_once c t u e f a b d d' now after last r s p ha hb same h k =
      let x = append-Appended B P c t e d now after r h in
      let y = append-Appended B P c u f d' after last s k in
      let xa : x.id ≡ a = eq_of_some (sym x.has_id ∙ ha) in
      let yb : y.id ≡ b = eq_of_some (sym y.has_id ∙ hb) in
      let key : entry_key c x.id ≡ entry_key c y.id =
        (entry_key-eq_iff c x.id y.id p).1 (ap (fit 30) xa ∙ same ∙ ap (fit 30) (sym yb)) in
      cc (value-Appended c t e now after r x, y.was_absent, ap (value B P after) key)

-- ===== src/Store/Keys/Roundtrip.antt =====
-- What is put into a key comes back out of it.
use plan_vault_libp2p.Prelude.{
  ℕ, ◌≡◌, ◌↔◌, sym, ap, ◌∙◌, Bytes, ◌++◌, drop, ok, arith, slice_from, drop-append_left,
}
use plan_vault_libp2p.Store.Channel.{Channel}
use plan_vault_libp2p.Store.Keys.{
  entry_key, arrival_key, entry_key_from_index, entry_id_from_index, entry_id_from_key, or_panic,
}
use plan_vault_libp2p.Store.Keys.Layout.{
  fit, fit-fit, HasPrefixes, entry_key-fit, slice_from-append, slice_from-arrival_key, build_lem,
  copy-replicate,
}

-- In a channel with 33-byte prefixes, `entryIDFromKey` reads from an entry key the ID that the key
-- was made from, cut or padded to thirty bytes.
pub entry_id_from_key-entry_key :
    (c : Channel) (id : Bytes) → HasPrefixes c → entry_id_from_key (entry_key c id) ≡ ok (fit 30 id)
unfolding entry_id_from_key
entry_id_from_key-entry_key c id h =
    ap (λ (k : Bytes). or_panic (slice_from 33 k)) (entry_key-fit c id h)
    ∙ ap or_panic (slice_from-append 33 c.prefix (fit 30 id) h.entries)

-- In a channel with 33-byte prefixes, `entryIDFromIndex` reads from an arrival key the ID that the
-- key was made from, cut or padded to thirty bytes.
pub entry_id_from_index-arrival_key :
    (c : Channel) (now : ℕ) (id : Bytes)
    → HasPrefixes c
    → entry_id_from_index (arrival_key c now id) ≡ ok (fit 30 id)
unfolding entry_id_from_index
entry_id_from_index-arrival_key c now id h =
    rw (slice_from-arrival_key c now id h) (ap ok (copy-replicate 30 (fit 30 id) ∙ fit-fit 30 id))

-- In a channel with 33-byte prefixes, `entryKeyFromIndex` makes of the arrival key of an ID, at any
-- time, the entry key of that ID.
pub entry_key_from_index-arrival_key :
    (c : Channel) (now : ℕ) (id : Bytes)
    → HasPrefixes c
    → entry_key_from_index c (arrival_key c now id) ≡ ok (entry_key c id)
unfolding entry_key_from_index
entry_key_from_index-arrival_key c now id h = rw (slice_from-arrival_key c now id h) (
    ap ok (
      build_lem 63 33 c.prefix (fit 30 id) h.entries (omega arith)
      ∙ ap (λ (k : Bytes). c.prefix ++ k) (fit-fit 30 id)
      ∙ sym (entry_key-fit c id h)))

-- In a channel with 33-byte prefixes, two IDs have one entry key exactly when they agree once cut
-- or padded to thirty bytes.
pub entry_key-eq_iff :
    (c : Channel) (a b : Bytes)
    → HasPrefixes c
    → (entry_key c a ≡ entry_key c b) ↔ (fit 30 a ≡ fit 30 b)
entry_key-eq_iff c a b h = (
  λ e.
      sym (drop-append_left 33 c.prefix (fit 30 a) h.entries)
      ∙ ap (λ (k : Bytes). drop 33 k) (sym (entry_key-fit c a h) ∙ e ∙ entry_key-fit c b h)
      ∙ drop-append_left 33 c.prefix (fit 30 b) h.entries,
  λ e. entry_key-fit c a h ∙ ap (λ (k : Bytes). c.prefix ++ k) e ∙ sym (entry_key-fit c b h),
)

-- ===== src/Log/Places.antt =====
-- The keys of the store and the places of the log.
use plan_vault_libp2p.Prelude.{
  ℕ, ◌≡◌, ◌≢◌, ◌↔◌, refl, sym, ap, ap₂, subst, ◌∙◌, List, [], ◌∷◌, ◌++◌, Option, none, some, Bool,
  true, false, ◌&&◌, Bytes, Bytes_eq, ◌==◌, Result, ok, err, if◌then◌else◌, length, arith,
  Bool-cases, inl, inr,
}
use plan_vault_libp2p.Prelude.ByteStrings.{bytes_beq_iff, has_prefix}
use plan_vault_libp2p.Prelude.Errors.{badger_key_not_found}
use plan_vault_libp2p.Prelude.Maps.{eq_self}
use plan_vault_libp2p.Interfaces.{Hash}
use plan_vault_libp2p.Store.Channel.{Channel, new_channel}
use plan_vault_libp2p.Store.Keys.{entry_key, arrival_key}
use plan_vault_libp2p.Store.Keys.Layout.{fit, new_channel-HasPrefixes}
use plan_vault_libp2p.Store.Keys.Order.{prefix_separates}
use plan_vault_libp2p.Store.Keys.Roundtrip.{entry_key-eq_iff}
use plan_vault_libp2p.Store.Entries.Appends.{length-entry_key, length-arrival_key}
use plan_vault_libp2p.P2P.Snapshots.{snapshot_key}
use plan_vault_libp2p.Log.{Posted, same_id, is_at, find}

-- Keys of entries of any two channels with 32-byte ids.
entry_key-eq :
    (i j a b : Bytes)
    → length i ≡ 32
    → length j ≡ 32
    → entry_key (new_channel i) a ≡ entry_key (new_channel j) b
    → (i ≡ j) × (fit 30 a ≡ fit 30 b)
entry_key-eq i j a b li lj e =
    let starts = (prefix_separates i i 0 a li li).0 in
    let starts' = (prefix_separates i j 0 b li lj).0 in
    let same : i ≡ j =
      (bytes_beq_iff i j).0
        (sym starts' ∙ ap (has_prefix (new_channel i).prefix) (sym e) ∙ starts ∙ eq_self i) in
    (
      same,
      (entry_key-eq_iff (new_channel i) a b (new_channel-HasPrefixes i)).0
          (e ∙ ap (λ (k : Bytes). entry_key (new_channel k) b) (sym same)),
    )

pub same_id_iff : (a b : Bytes) → (same_id a b ≡ true) ↔ (fit 30 a ≡ fit 30 b)
unfolding same_id
same_id_iff a b = bytes_beq_iff (fit 30 a) (fit 30 b)

of_and :
    (x y z : Bool)
    → (x ≡ true → (y ≡ true) × (z ≡ true))
    → (y ≡ true → z ≡ true → x ≡ true)
    → x ≡ (y && z)
of_and true y z f g = let (a, b) = f refl in ground arith
of_and false y z f g = ground arith

same_id_trans : (a b c : Bytes) → same_id a c ≡ true → same_id b c ≡ true → same_id a b ≡ true
same_id_trans a b c h k = (same_id_iff a b).1 ((same_id_iff a c).0 h ∙ sym ((same_id_iff b c).0 k))

pub same_key :
    (i j a b : Bytes)
    → length i ≡ 32
    → length j ≡ 32
    → (entry_key (new_channel i) a == entry_key (new_channel j) b) ≡ ((i == j) && same_id a b)
same_key i j a b li lj =
    of_and _ _ _
      (λ e.
        let (f, g) =
          entry_key-eq i j a b li lj
            ((bytes_beq_iff (entry_key (new_channel i) a) (entry_key (new_channel j) b)).0 e) in
        ((bytes_beq_iff i j).1 f, (same_id_iff a b).1 g))
      (λ f g. (bytes_beq_iff (entry_key (new_channel i) a) (entry_key (new_channel j) b)).1 (
        (entry_key-eq_iff (new_channel i) a b (new_channel-HasPrefixes i)).1 ((same_id_iff a b).0 g)
        ∙ ap (λ (k : Bytes). entry_key (new_channel k) b) ((bytes_beq_iff i j).0 f)))

pub beq-ne : (a b : Bytes) → a ≢ b → (a == b) ≡ false
beq-ne a b apart = elim (Bool-cases (a == b)) [
  | inl same ↦ absurd (apart ((bytes_beq_iff a b).0 same))
  | inr other ↦ other
]

pub entry-ne-arrival : (c d : Channel) (now : ℕ) (a b : Bytes) → arrival_key c now b ≢ entry_key d a
entry-ne-arrival c d now a b e =
    absurd (omega (arith, length-entry_key d a, length-arrival_key c now b, ap length e))

pub snapshot_key-ne-entry : (d : Channel) (a : Bytes) → snapshot_key ≢ entry_key d a
snapshot_key-ne-entry d a e = absurd (omega (arith, length-entry_key d a, ap length e))

pub snapshot_key-ne-arrival :
    (d : Channel) (now : ℕ) (a : Bytes) → snapshot_key ≢ arrival_key d now a
snapshot_key-ne-arrival d now a e = absurd (omega (arith, length-arrival_key d now a, ap length e))

abbrev pub or_missing : Option Bytes → Result Bytes
or_missing none = err badger_key_not_found
or_missing (some b) = ok b

is_at_trans :
    (c id : Bytes) (p q : Posted)
    → is_at c id q ≡ true
    → is_at c id p ≡ true
    → is_at p.channel p.id q ≡ true
is_at_trans c id p q hq hp = ground (
  arith,
  bytes_beq_iff q.channel c,
  bytes_beq_iff p.channel c,
  bytes_beq_iff q.channel p.channel,
  same_id_trans q.id p.id id,
)

pub absent_split :
    (p q : Posted) (log : List Posted)
    → find p.channel p.id (q ∷ log) ≡ none
    → (is_at p.channel p.id q ≡ false) × (find p.channel p.id log ≡ none)
unfolding find
absent_split p q log h = ground arith

pub find-append :
    (c id : Bytes) (log : List Posted) (p : Posted)
    → find p.channel p.id log ≡ none
    → find c id (log ++ p ∷ []) ≡ (if is_at c id p then some p.bytes else find c id log)
unfolding find
find-append c id [] p absent = refl
find-append c id (q ∷ log) p absent =
    let (other, later) = absent_split p q log absent in
    ground (arith, find-append c id log p later, is_at_trans c id p q)

pub or_missing_if :
    (b : Bool) (x : Bytes) (o : Option Bytes)
    → (if b then ok x else or_missing o) ≡ or_missing (if b then some x else o)
or_missing_if true x o = refl
or_missing_if false x o = refl

pub if_empty :
    (b c : Bool) (r : Result Bytes)
    → c ≡ false
    → r ≡ ok []
    → (x : Bytes) → (if b then ok [] else if c then ok x else r) ≡ ok []
if_empty true c r e h x = refl
if_empty false c r e h x = rw e h

-- The keys that the vault writes.
pub data IsPlace (H : Hash) (k : Bytes) : Type 0 where
  at_snapshot : snapshot_key ≡ k → IsPlace H k
  at_entry : (uri id : Bytes) → entry_key (new_channel (H.sum256 uri)) id ≡ k → IsPlace H k
  at_arrival :
      (uri id : Bytes) (unix : ℕ)
      → arrival_key (new_channel (H.sum256 uri)) unix id ≡ k
      → IsPlace H k

-- A value that stands at one of two keys that were written, or did before.
pub IsPlace-of :
    (H : Hash) (a b k v : Bytes) (x y r : Result Bytes)
    → IsPlace H a
    → IsPlace H b
    → (r ≡ ok v → IsPlace H k)
    → (if a == k then x else if b == k then y else r) ≡ ok v
    → IsPlace H k
IsPlace-of H a b k v x y r pa pb old h = elim (Bool-cases (a == k)) [
  | inl e ↦ subst (IsPlace H) ((bytes_beq_iff a k).0 e) pa
  | inr e ↦ elim (Bool-cases (b == k)) [
    | inl f ↦ subst (IsPlace H) ((bytes_beq_iff b k).0 f) pb
    | inr f ↦ old (rw (e, f) at h)
  ]
]

-- IDs of one key have one entry.
pub find-same :
    (c i j : Bytes) (log : List Posted) → fit 30 i ≡ fit 30 j → find c i log ≡ find c j log
unfolding find same_id
find-same c i j [] e = refl
find-same c i j (p ∷ log) e =
    ap₂
      (λ (k : Bytes) (rest : Option Bytes).
        if (p.channel == c) && (fit 30 p.id == k) then some p.bytes else rest)
      e (find-same c i j log e)

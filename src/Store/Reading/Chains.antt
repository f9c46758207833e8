-- ===== src/Store/Reading/Chains.antt =====
-- The items of one snapshot after those of another: rising keys, lookups and messages.
use plan_vault_libp2p.Prelude.{
  ◌≡◌, refl, ap, List, [], ◌∷◌, ◌++◌, some, none, false, Bytes, Slice, bytes_of, Dict, Bytes_eq,
  ◌==◌, lookup, length, ◌≤◌, All, Bool-cases, inl, inr, arith,
}
use plan_vault_libp2p.Prelude.ByteStrings.{bytes_beq_iff, bytes_ltb_total}
use plan_vault_libp2p.Protos.{Msg}
use plan_vault_libp2p.Interfaces.{Badger, Proto, IsRising, IsAbove}
use plan_vault_libp2p.Store.Options.{StreamOpts}
use plan_vault_libp2p.Store.Reading.Items.{Starts}
use plan_vault_libp2p.Store.Reading.Drain.{Messages, nil, cons, last_or, skip_seen}

-- The items are above the last key of those before them.
abbrev pub AboveLast : Slice → Dict Bytes Bytes → Type 0
AboveLast none items = Unit
AboveLast (some k) items = IsAbove k items

pub last_or-append :
    (s : Slice) (a b : Dict Bytes Bytes) → last_or s (a ++ b) ≡ last_or (last_or s a) b
last_or-append s [] b = refl
last_or-append s ((k, v) ∷ a) b = last_or-append (some k) a b

joined-IsRising :
    (k : Bytes) (a b : Dict Bytes Bytes)
    → IsAbove k a
    → IsRising a
    → AboveLast (last_or (some k) a) b
    → IsRising b
    → IsAbove k (a ++ b) × IsRising (a ++ b)
joined-IsRising k [] b h r l q = (l, q)
joined-IsRising k ((j, w) ∷ a) b h r l q = (h, joined-IsRising j a b r.0 r.1 l q)

pub append-IsRising :
    (a b : Dict Bytes Bytes)
    → IsRising a
    → AboveLast (last_or none a) b
    → IsRising b
    → IsRising (a ++ b)
append-IsRising [] b r l q = q
append-IsRising ((k, v) ∷ a) b r l q = joined-IsRising k a b r.0 r.1 l q

pub lookup-append_left :
    (k v : Bytes) (a b : Dict Bytes Bytes) → lookup k a ≡ some v → lookup k (a ++ b) ≡ some v
unfolding lookup
lookup-append_left k v [] b h = cc
lookup-append_left k v ((j, w) ∷ a) b h = elim (Bool-cases (j == k)) [
  | inl same ↦ rw (same, lookup) (rw (same, lookup) at h)
  | inr other ↦ rw (other, lookup) (lookup-append_left k v a b (rw (other, lookup) at h))
]

pub lookup-append_right :
    (k : Bytes) (a b : Dict Bytes Bytes) → lookup k a ≡ none → lookup k (a ++ b) ≡ lookup k b
unfolding lookup
lookup-append_right k [] b h = refl
lookup-append_right k ((j, w) ∷ a) b h = elim (Bool-cases (j == k)) [
  | inl same ↦ cc (rw (same, lookup) at h)
  | inr other ↦ rw (other, lookup) (lookup-append_right k a b (rw (other, lookup) at h))
]

pub All-lookup :
    (Q : Bytes × Bytes → Type 0) (k v : Bytes) (m : Dict Bytes Bytes)
    → All Q m
    → lookup k m ≡ some v
    → (it : Bytes × Bytes) × (it.0 ≡ k) × Q it
unfolding lookup
All-lookup Q k v [] h found = cc
All-lookup Q k v ((j, w) ∷ m) h found = elim (Bool-cases (j == k)) [
  | inl same ↦ ((j, w), (bytes_beq_iff j k).0 same, h.0)
  | inr other ↦ All-lookup Q k v m h.1 (rw (other, lookup) at found)
]

pub All-append :
    (Q : Bytes × Bytes → Type 0) (a b : Dict Bytes Bytes) → All Q a → All Q b → All Q (a ++ b)
All-append Q [] b h g = g
All-append Q (it ∷ a) b h g = (h.0, All-append Q a b h.1 g)

-- The last of some items.
pub last_of :
    (Q : Bytes × Bytes → Type 0) (k v : Bytes) (m : Dict Bytes Bytes)
    → All Q ((k, v) ∷ m)
    → (it : Bytes × Bytes) × (last_or (some k) m ≡ some it.0) × Q it
last_of Q k v [] h = ((k, v), refl, h.0)
last_of Q k v ((j, w) ∷ m) h = last_of Q j w m h.1

pub skip_seen-IsRising : (s : Slice) (m : Dict Bytes Bytes) → IsRising m → IsRising (skip_seen s m)
skip_seen-IsRising s [] r = tt
skip_seen-IsRising s ((k, v) ∷ m) r = elim (Bool-cases (k == bytes_of s)) [
  | inl e ↦ rw e r.1
  | inr e ↦ rw e r
]

-- What starts at the key that was seen last is above it without that key.
pub skip_seen-IsAbove :
    (l : Bytes) (m : Dict Bytes Bytes) → IsRising m → Starts l m → IsAbove l (skip_seen (some l) m)
skip_seen-IsAbove l [] r s = tt
skip_seen-IsAbove l ((k, v) ∷ m) r s = elim (Bool-cases (k == l)) [
  | inl e ↦ rw e (same_key k l m ((bytes_beq_iff k l).0 e) r.0)
  | inr e ↦ rw e (ground (arith, bytes_ltb_total k l, bytes_beq_iff k l, bytes_beq_iff l k))
]
  where
    same_key : (k l : Bytes) (m : Dict Bytes Bytes) → k ≡ l → IsAbove k m → IsAbove l m
    same_key k l m e a = rw (← e) a

pub lookup-skip_seen :
    (s : Slice) (j v : Bytes) (m : Dict Bytes Bytes)
    → (j == bytes_of s) ≡ false
    → lookup j m ≡ some v
    → lookup j (skip_seen s m) ≡ some v
unfolding lookup
lookup-skip_seen s j v [] apart found = found
lookup-skip_seen s j v ((k, w) ∷ m) apart found = elim (Bool-cases (k == bytes_of s)) [
  | inr kept ↦ rw kept found
  | inl gone ↦ elim (Bool-cases (k == j)) [
    | inl same ↦
        absurd (cc (apart, gone, ap (λ (b : Bytes). b == bytes_of s) ((bytes_beq_iff k j).0 same)))
    | inr other ↦ rw gone (rw (other, lookup) at found)
  ]
]

module _ (B : Badger) (P : Proto) where
  pub append-Messages :
      (opts : StreamOpts) (a b : Dict Bytes Bytes) (ms ns : List Msg)
      → Messages B P opts a ms
      → Messages B P opts b ns
      → Messages B P opts (a ++ b) (ms ++ ns)
  append-Messages opts [] b [] ns nil g = g
  append-Messages opts [] b (m ∷ ms) ns h g = elim h [ ]
  append-Messages opts ((k, v) ∷ a) b [] ns h g = elim h [ ]
  append-Messages opts ((k, v) ∷ a) b (m ∷ ms) ns (cons e es) g =
      cons e (append-Messages opts a b ms ns es g)

  pub length-Messages :
      (opts : StreamOpts) (a : Dict Bytes Bytes) (ms : List Msg)
      → Messages B P opts a ms
      → length ms ≡ length a
  length-Messages opts [] [] nil = refl
  length-Messages opts [] (m ∷ ms) h = elim h [ ]
  length-Messages opts ((k, v) ∷ a) [] h = elim h [ ]
  length-Messages opts ((k, v) ∷ a) (m ∷ ms) (cons e es) =
      omega (arith, length-Messages opts a ms es)

pub length-skip_seen : (s : Slice) (m : Dict Bytes Bytes) → length (skip_seen s m) ≤ length m
length-skip_seen s [] = omega arith
length-skip_seen s ((k, v) ∷ m) = elim (Bool-cases (k == bytes_of s)) [
  | inl e ↦ rw e (omega arith)
  | inr e ↦ rw e (omega arith)
]

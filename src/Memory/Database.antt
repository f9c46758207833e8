-- ===== src/Memory/Database.antt =====
-- An ordered map in memory with the transactions of `Interfaces.Badger`.
use mathlib.Core.List.{reverse}
use plan_vault_libp2p.Prelude.{
  ◌≡◌, refl, sym, ap, ◌∙◌, List, [], ◌∷◌, Option, none, some, Bool, true, false, ◌&&◌, ◌||◌, Bytes,
  Bytes_eq, ◌==◌, Dict, lookup, insert, Result, Error, ok-injective, ok, err, arith, if◌then◌else◌,
  bytes_ltb,
}
use plan_vault_libp2p.Prelude.ByteStrings.{bytes_beq_iff, bytes_ltb_total}
use plan_vault_libp2p.Prelude.Errors.{badger_key_not_found, external}
use plan_vault_libp2p.Prelude.Maps.{eq_self, lookup-insert}
use plan_vault_libp2p.Interfaces.{Badger, or_written, seek_items, IsAbove, IsRising}

pub put : Bytes → Bytes → Dict Bytes Bytes → Dict Bytes Bytes
put k v [] = (k, v) ∷ []
put k v ((j, w) ∷ m) =
    let rest = put k v m in
    if j == k then (k, v) ∷ m else if bytes_ltb k j then (k, v) ∷ (j, w) ∷ m else (j, w) ∷ rest

lookup-put :
    (k j v : Bytes) (m : Dict Bytes Bytes)
    → lookup j (put k v m) ≡ (if k == j then some v else lookup j m)
unfolding lookup put
lookup-put k j v [] = refl
lookup-put k j v ((i, w) ∷ m) =
    ground (arith, bytes_beq_iff k j, bytes_beq_iff i k, bytes_beq_iff i j, lookup-put k j v m)

IsAbove-put :
    (i k v : Bytes) (m : Dict Bytes Bytes)
    → IsAbove i m
    → bytes_ltb i k ≡ true
    → IsAbove i (put k v m)
unfolding put
IsAbove-put i k v [] a h = h
IsAbove-put i k v ((j, w) ∷ m) a h = ground arith

put-IsRising : (k v : Bytes) (m : Dict Bytes Bytes) → IsRising m → IsRising (put k v m)
unfolding put
put-IsRising k v [] h = (tt, tt)
put-IsRising k v ((j, w) ∷ m) h =
    ground (
      arith,
      bytes_beq_iff j k,
      put-IsRising k v m h.1,
      IsAbove-put j k v m h.0,
      bytes_ltb_total k j,
    )

abbrev pub Db : Type 0
Db = (m : Dict Bytes Bytes) × IsRising m

pub record Txn : Type 0 where
  pub origin : Db
  pub writes : Dict Bytes Bytes
  pub reads : List Bytes

abbrev pub found : Option Bytes → Result Bytes
found none = err badger_key_not_found
found (some v) = ok v

pub found-ok : (o : Option Bytes) (v : Bytes) → found o ≡ ok v → o ≡ some v
found-ok none v h = cc
found-ok (some w) v h = ap some (ok-injective h)

pub get : Txn → Bytes → Result Bytes × Txn
get t k =
    (or_written (lookup k t.writes) (found (lookup k t.origin.0)), record t { reads = k ∷ t.reads })

pub set_entry : Txn → Bytes → Bytes → Result Txn
set_entry t k v = ok (record t { writes = insert k v t.writes })

unfoldable pub has_key : Bytes → List Bytes → Bool
has_key k [] = false
has_key k (j ∷ js) = j == k || has_key k js

same_option : Option Bytes → Option Bytes → Bool
same_option none none = true
same_option (some a) (some b) = a == b
same_option _ _ = false

same_option-eq : (a b : Option Bytes) → same_option a b ≡ true → a ≡ b
unfolding same_option
same_option-eq none none h = refl
same_option-eq none (some b) h = cc
same_option-eq (some a) none h = cc
same_option-eq (some a) (some b) h = ap some ((bytes_beq_iff a b).0 h)

unchanged : List Bytes → Dict Bytes Bytes → Dict Bytes Bytes → Bool
unchanged [] m n = true
unchanged (k ∷ ks) m n = same_option (lookup k m) (lookup k n) && unchanged ks m n

unchanged-lookup :
    (ks : List Bytes) (k : Bytes) (m n : Dict Bytes Bytes)
    → unchanged ks m n ≡ true
    → has_key k ks ≡ true
    → lookup k m ≡ lookup k n
unfolding unchanged has_key
unchanged-lookup [] k m n h i = cc
unchanged-lookup (j ∷ js) k m n h i =
    ground (
      arith,
      bytes_beq_iff j k,
      same_option-eq (lookup j m) (lookup j n),
      unchanged-lookup js k m n,
    )

pub write_all : Dict Bytes Bytes → Dict Bytes Bytes → Dict Bytes Bytes
write_all [] m = m
write_all ((k, v) ∷ ws) m = put k v (write_all ws m)

pub write_all-IsRising : (ws m : Dict Bytes Bytes) → IsRising m → IsRising (write_all ws m)
unfolding write_all
write_all-IsRising [] m h = h
write_all-IsRising ((k, v) ∷ ws) m h = put-IsRising k v (write_all ws m) (write_all-IsRising ws m h)

abbrev pub or_else : Option Bytes → Option Bytes → Option Bytes
or_else none o = o
or_else (some v) o = some v

lookup-write_all :
    (ws m : Dict Bytes Bytes) (j : Bytes)
    → lookup j (write_all ws m) ≡ or_else (lookup j ws) (lookup j m)
unfolding write_all lookup
lookup-write_all [] m j = refl
lookup-write_all ((k, v) ∷ ws) m j =
    ground (arith, lookup-put k j v (write_all ws m), lookup-write_all ws m j)

pub commit : Db → Txn → Result Db
commit d t =
    if unchanged t.reads d.0 t.origin.0
    then ok (write_all t.writes d.0, write_all-IsRising t.writes d.0 d.1)
    else err (external [])

get-or_written :
    (t : Txn) (k : Bytes)
    → (get t k).0 ≡ or_written (lookup k t.writes) (found (lookup k t.origin.0))
unfolding get
get-or_written t k = refl

lookup-begin : (k : Bytes) → lookup {V = Bytes} k [] ≡ none
unfolding lookup
lookup-begin k = refl

if-ok :
    (b : Bool) (x : Db) (e : Error) {y : Db}
    → (if b then ok x else err e) ≡ ok y
    → (b ≡ true) × (x ≡ y)
if-ok true x e h = (refl, ok-injective h)
if-ok false x e h = cc

found-or_else : (a b : Option Bytes) → found (or_else a b) ≡ or_written a (found b)
found-or_else none b = refl
found-or_else (some v) b = refl

pub value-commit :
    (d d' : Db) (t : Txn) (k : Bytes)
    → commit d t ≡ ok d'
    → found (lookup k d'.0) ≡ or_written (lookup k t.writes) (found (lookup k d.0))
unfolding commit
value-commit d d' t k h =
    let (same, e) = if-ok (unchanged t.reads d.0 t.origin.0) _ _ h in
    ap (λ (m : Db). found (lookup k m.0)) (sym e)
    ∙ ap found (lookup-write_all t.writes d.0 k)
    ∙ found-or_else (lookup k t.writes) (lookup k d.0)

pub conflict :
    (d d' : Db) (t : Txn) (k : Bytes)
    → commit d t ≡ ok d'
    → has_key k t.reads ≡ true
    → lookup k d.0 ≡ lookup k t.origin.0
unfolding commit
conflict d d' t k h i =
    let (same, e) = if-ok (unchanged t.reads d.0 t.origin.0) _ _ h in
    unchanged-lookup t.reads k d.0 t.origin.0 same i

pub has_key_self : (k : Bytes) (ks : List Bytes) → has_key k (k ∷ ks) ≡ true
unfolding has_key
has_key_self k ks = rw (eq_self k) refl

unfoldable pub memory : Badger
unfolding get set_entry commit unchanged same_option write_all put has_key lookup insert
memory = record {
  Db = Db;
  Txn = Txn;
  begin = λ d. record { origin = d; writes = []; reads = [] };
  get = get;
  set_entry = set_entry;
  commit = commit;
  items = λ d. d.0;
  seek = λ d p k. seek_items p k d.0;
  rewind_reverse = λ d. reverse d.0;
  snapshot = λ t. t.origin;
  pending = λ t k. lookup k t.writes;
  has_read = λ t k. has_key k t.reads;
  snapshot-begin = λ d. refl;
  pending-begin = λ d k. refl;
  snapshot-get = λ t k. refl;
  pending-get = λ t k j. refl;
  has_read-get = λ t k. has_key_self k t.reads;
  snapshot-set = λ t t' k v h. ap (λ (u : Txn). u.origin) (sym (ok-injective h));
  pending-set = λ t t' k v j h.
      ap (λ (u : Txn). lookup j u.writes) (sym (ok-injective h)) ∙ lookup-insert k j v t.writes;
  has_read-set = λ t t' k v j h i. ap (λ (u : Txn). has_key j u.reads) (sym (ok-injective h)) ∙ i;
  get-or_written = λ t k. refl;
  get-commit = λ d d' t k h. value-commit d d' t k h;
  conflict = λ d d' t k h i. ap found (conflict d d' t k h i);
  items-IsRising = λ d. d.1;
  items-get = λ d k v h. ap found h;
  get-items = λ d k v h. found-ok (lookup k d.0) v h;
  seek_lem = λ d p k. refl;
  rewind_reverse_lem = λ d. refl;
}

-- ===== src/Prelude/Maps.antt =====
-- Go's maps, as association lists over keys with a test of equality. A write puts the entry in the
-- place of the old one, and `delete` takes out every entry of the key.
use mathlib.Core.Path.{◌∙◌, ◌≡◌, refl}
use mathlib.Core.Logic.{◌≢◌, ◌↔◌}
use mathlib.Core.Bool.{Bool, true}
use mathlib.Core.Option.{Option, none, some}
use mathlib.Core.List.{List, [], ◌∷◌}
use Prim.Native.Nat.{ℕ}
use native.Mathlib.Omega.{arith}
use plan_vault_libp2p.Prelude.Tests.{if◌then◌else◌, nat_beq, nat_beq_iff}
use plan_vault_libp2p.Prelude.ByteStrings.{Bytes, bytes_beq, bytes_beq_iff}

pub record Eq {ℓ} (K : Type ℓ) : Type ℓ where
  pub beq : K → K → Bool
  pub beq_iff : (a b : K) → (beq a b ≡ true) ↔ (a ≡ b)

infix 50 ◌==◌
abbrev pub ◌==◌ {ℓ} : {K : Type ℓ} ⦃e : Eq K⦄ → K → K → Bool
◌==◌ ⦃e⦄ = e.beq

instance abbrev pub ℕ_eq : Eq ℕ
ℕ_eq = record { beq = nat_beq; beq_iff = nat_beq_iff }

instance abbrev pub Bytes_eq : Eq Bytes
Bytes_eq = record { beq = bytes_beq; beq_iff = bytes_beq_iff }

abbrev pub Dict {ℓ κ} : Type ℓ → Type κ → Type (ℓ ⊔ κ)
Dict K V = List (K × V)

pub eq_self {ℓ} : {K : Type ℓ} ⦃e : Eq K⦄ (k : K) → (k == k) ≡ true
eq_self ⦃e⦄ k = (e.beq_iff k k).1 refl

module _ {ℓ κ} {K : Type ℓ} ⦃e : Eq K⦄ {V : Type κ} where
  unfoldable pub lookup : K → Dict K V → Option V
  lookup key [] = none
  lookup key ((k, v) ∷ rest) = if k == key then some v else lookup key rest

  unfoldable pub insert : K → V → Dict K V → Dict K V
  insert key new [] = (key, new) ∷ []
  insert key new ((k, v) ∷ rest) =
      let others = insert key new rest in if k == key then (key, new) ∷ rest else (k, v) ∷ others

  unfoldable pub delete : K → Dict K V → Dict K V
  delete key [] = []
  delete key ((k, v) ∷ rest) =
      let others = delete key rest in if k == key then others else (k, v) ∷ others

  pub lookup-insert :
      (key i : K) (new : V) (d : Dict K V)
      → lookup i (insert key new d) ≡ (if key == i then some new else lookup i d)
  unfolding lookup insert
  lookup-insert key i new [] = refl
  lookup-insert key i new ((k, v) ∷ d) =
      let rest = lookup-insert key i new d in
      ground (arith, rest, e.beq_iff k key, e.beq_iff k i, e.beq_iff key i)

  pub lookup-delete :
      (key i : K) (d : Dict K V) → lookup i (delete key d) ≡ (if key == i then none else lookup i d)
  unfolding lookup delete
  lookup-delete key i [] = ground arith
  lookup-delete key i ((k, v) ∷ d) =
      let rest = lookup-delete key i d in
      ground (arith, rest, e.beq_iff k key, e.beq_iff k i, e.beq_iff key i)

  pub lookup-insert_self : (k : K) (v : V) (m : Dict K V) → lookup k (insert k v m) ≡ some v
  lookup-insert_self k v m = lookup-insert k k v m ∙ rw (eq_self k) refl

  pub lookup-insert_other :
      (k j : K) (v : V) (m : Dict K V) → k ≢ j → lookup j (insert k v m) ≡ lookup j m
  lookup-insert_other k j v m apart = lookup-insert k j v m ∙ ground (arith, e.beq_iff k j)

  pub lookup-delete_self : (k : K) (m : Dict K V) → lookup k (delete k m) ≡ none
  lookup-delete_self k m = lookup-delete k k m ∙ rw (eq_self k) refl

  pub lookup-delete_other : (k j : K) (m : Dict K V) → k ≢ j → lookup j (delete k m) ≡ lookup j m
  lookup-delete_other k j m apart = lookup-delete k j m ∙ ground (arith, e.beq_iff k j)

  pub lookup-delete_back :
      (k j : K) (m : Dict K V) {v : V} → lookup j (delete k m) ≡ some v → lookup j m ≡ some v
  lookup-delete_back k j m h = ground (arith, lookup-delete k j m)

pub ruleset dict_laws = (lookup-insert, lookup-delete, eq_self)

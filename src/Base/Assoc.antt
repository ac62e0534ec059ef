-- ===== src/Base/Assoc.antt =====
-- Python's `dict` as an association list, over keys with a decidable equality.
use Prim.Native.Nat.{ℕ}
use mathlib.Core.Path.{◌≡◌, refl, subst}
use mathlib.Core.Logic.{inl, inr}
use mathlib.Core.Bool.{Bool, true}
use mathlib.Core.Option.{Option, none, some}
use mathlib.Core.List.{List, [], ◌∷◌}
use native.Mathlib.Omega.{arith}
use cs425a_computer_networks.Base.Tests.{if◌then◌else◌, ◌==◌, ==→eq, ==-refl, Bool-cases}
use cs425a_computer_networks.Base.Lists.{list_eq, list_eq→eq, list_eq_refl}

pub record Key {ℓ} (K : Type ℓ) : Type ℓ where
  pub beq : K → K → Bool
  pub beq_sound : (a b : K) → beq a b ≡ true → a ≡ b
  pub beq_refl : (a : K) → beq a a ≡ true

instance abbrev pub nat_key : Key ℕ
nat_key = record { beq = λ a b. a == b; beq_sound = ==→eq; beq_refl = ==-refl }

instance abbrev pub bytes_key : Key (List ℕ)
bytes_key = record { beq = list_eq; beq_sound = list_eq→eq; beq_refl = list_eq_refl }

abbrev pub Dict {ℓ κ} : Type ℓ → Type κ → Type (ℓ ⊔ κ)
Dict K V = List (K × V)

module _ {ℓ κ} {K : Type ℓ} {V : Type κ} ⦃e : Key K⦄ where
  -- `d[k]`; a missing key is a KeyError.
  unfoldable pub lookup : K → Dict K V → Option V
  lookup k [] = none
  lookup k ((j, v) ∷ d) = if e.beq j k then some v else lookup k d

  -- `d[k] = v`
  unfoldable pub insert : K → V → Dict K V → Dict K V
  insert k v [] = (k, v) ∷ []
  insert k v ((j, w) ∷ d) = if e.beq j k then (k, v) ∷ d else (j, w) ∷ insert k v d

  -- `del d[k]`
  unfoldable pub erase : K → Dict K V → Dict K V
  erase k [] = []
  erase k ((j, v) ∷ d) = let rest = erase k d in if e.beq j k then rest else (j, v) ∷ rest

  pub lookup-erase :
      (k j : K) (d : Dict K V) → lookup j (erase k d) ≡ (if e.beq k j then none else lookup j d)
  unfolding lookup erase
  lookup-erase k j [] = ground arith
  lookup-erase k j ((i, w) ∷ d) = ground (
    arith,
    e.beq_sound k j,
    e.beq_sound i k,
    e.beq_sound i j,
    e.beq_refl k,
    e.beq_refl j,
    e.beq_refl i,
    lookup-erase k j d,
  )

  pub lookup-insert_self : (k : K) (v : V) (d : Dict K V) → lookup k (insert k v d) ≡ some v
  unfolding lookup insert
  lookup-insert_self k v [] = ground (arith, e.beq_refl k)
  lookup-insert_self k v ((j, w) ∷ d) = ground (arith, e.beq_refl k, lookup-insert_self k v d)

  pub lookup-insert :
      (k j : K) (v : V) (d : Dict K V)
      → lookup j (insert k v d) ≡ (if e.beq k j then some v else lookup j d)
  unfolding lookup insert
  lookup-insert k j v [] = refl
  lookup-insert k j v ((i, w) ∷ d) = ground (
    arith,
    e.beq_sound k j,
    e.beq_sound i k,
    e.beq_sound i j,
    e.beq_refl k,
    e.beq_refl j,
    e.beq_refl i,
    lookup-insert k j v d,
  )

  -- A property of all values of a dictionary.
  abbrev pub AllValues {μ} : (V → Type μ) → Dict K V → Type μ
  AllValues P [] = Unit {μ}
  AllValues P ((k, v) ∷ d) = P v × AllValues P d

  pub AllValues-insert {μ} :
      (P : V → Type μ) (k : K) (v : V) (d : Dict K V)
      → P v
      → AllValues P d
      → AllValues P (insert k v d)
  unfolding insert
  AllValues-insert P k v [] p h = (p, tt)
  AllValues-insert P k v ((j, w) ∷ d) p (q, h) = elim (Bool-cases (e.beq j k)) [
    | inl same ↦ rw (same, insert) (p, h)
    | inr other ↦ rw (other, insert) (q, AllValues-insert P k v d p h)
  ]

  pub AllValues-lookup {μ} :
      (P : V → Type μ) (k : K) (v : V) (d : Dict K V) → AllValues P d → lookup k d ≡ some v → P v
  unfolding lookup
  AllValues-lookup P k v [] h l = absurd (cc)
  AllValues-lookup P k v ((j, w) ∷ d) (q, h) l = elim (Bool-cases (e.beq j k)) [
    | inl same ↦ let found : some w ≡ some v = rw same at l in let eq : w ≡ v = cc in subst P eq q
    | inr other ↦ AllValues-lookup P k v d h (rw other at l)
  ]

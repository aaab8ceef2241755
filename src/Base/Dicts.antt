-- ===== src/Base/Dicts.antt =====
-- A Python dict: an association list in insertion order. `OrderedDict` adds `move_to_end`.
use mathlib.Core.Path.{◌≡◌, refl}
use mathlib.Core.Logic.{◌≢◌, ◌⊎◌, inl, inr}
use mathlib.Core.Bool.{true}
use mathlib.Core.Option.{Option, none, some}
use mathlib.Core.List.{List, [], ◌∷◌, ◌++◌}
use native.Mathlib.Omega.{arith}
use superdev.Base.Tests.{Bool-cases, Eq, ◌==◌, if◌then◌else◌, is_some}
use superdev.Base.Lists.{contains, length}
use Prim.Native.Nat.{◌≤◌, ◌<◌}

abbrev pub Dict {ℓ κ} : Type ℓ → Type κ → Type (ℓ ⊔ κ)
Dict K V = List (K × V)

abbrev pub keys {ℓ κ} : {K : Type ℓ} {V : Type κ} → Dict K V → List K
keys [] = []
keys ((k, v) ∷ d) = k ∷ keys d

abbrev pub values {ℓ κ} : {K : Type ℓ} {V : Type κ} → Dict K V → List V
values [] = []
values ((k, v) ∷ d) = v ∷ values d

module _ {ℓ κ} {K : Type ℓ} {V : Type κ} ⦃e : Eq K⦄ where
  -- `d.get(k)`
  abbrev pub lookup : K → Dict K V → Option V
  lookup k [] = none
  lookup k ((j, v) ∷ d) = let rest = lookup k d in if k == j then some v else rest

  -- `d[k] = v`: a key that is present keeps its place
  abbrev pub insert : K → V → Dict K V → Dict K V
  insert k v [] = (k, v) ∷ []
  insert k v ((j, w) ∷ d) = let rest = insert k v d in if k == j then (k, v) ∷ d else (j, w) ∷ rest

  -- `d.pop(k, None)`
  abbrev pub erase : K → Dict K V → Dict K V
  erase k [] = []
  erase k ((j, w) ∷ d) = let rest = erase k d in if k == j then rest else (j, w) ∷ rest

  -- `d[k] = v; d.move_to_end(k)`
  abbrev pub insert_last : K → V → Dict K V → Dict K V
  insert_last k v d = erase k d ++ ((k, v) ∷ [])

  pub lookup-insert :
      (k j : K) (v : V) (d : Dict K V)
      → lookup j (insert k v d) ≡ (if k == j then some v else lookup j d)
  lookup-insert k j v [] = ground (arith, e.beq_iff k j, e.beq_iff j k)
  lookup-insert k j v ((i, w) ∷ d) =
      ground
        (arith, e.beq_iff k j, e.beq_iff j k, e.beq_iff k i, e.beq_iff j i, lookup-insert k j v d)

  pub lookup-erase :
      (k j : K) (d : Dict K V) → lookup j (erase k d) ≡ (if k == j then none else lookup j d)
  lookup-erase k j [] = ground arith
  lookup-erase k j ((i, w) ∷ d) =
      ground (arith, e.beq_iff k j, e.beq_iff k i, e.beq_iff j i, lookup-erase k j d)

  pub lookup-append :
      (j : K) (c d : Dict K V)
      → lookup j (c ++ d) ≡ (if is_some (lookup j c) then lookup j c else lookup j d)
  lookup-append j [] d = refl
  lookup-append j ((i, w) ∷ c) d = ground (arith, lookup-append j c d)

  pub contains-keys : (k : K) (d : Dict K V) → contains k (keys d) ≡ is_some (lookup k d)
  contains-keys k [] = refl
  contains-keys k ((j, w) ∷ d) = ground (arith, contains-keys k d)

  pub length-erase-le : (k : K) (d : Dict K V) → length (erase k d) ≤ length d
  length-erase-le k [] = omega arith
  length-erase-le k ((j, w) ∷ d) = ground (arith, length-erase-le k d)

  pub length-erase-lt :
      (k : K) (d : Dict K V) → contains k (keys d) ≡ true → length (erase k d) < length d
  length-erase-lt k [] h = cc
  length-erase-lt k ((j, w) ∷ d) h = ground (arith, length-erase-le k d, length-erase-lt k d)

  pub lookup-insert_self : (k : K) (v : V) (d : Dict K V) → lookup k (insert k v d) ≡ some v
  lookup-insert_self k v d = rw (lookup-insert k k v d, (e.beq_iff k k).1 refl)

  pub lookup-insert_ne :
      (k j : K) (v : V) (d : Dict K V) → k ≢ j → lookup j (insert k v d) ≡ lookup j d
  lookup-insert_ne k j v d h = ground (arith, lookup-insert k j v d, e.beq_iff k j)

  -- What is found after a write is what was written, or was there.
  pub lookup-insert_cases :
      (k j : K) (v w : V) (d : Dict K V)
      → lookup j (insert k v d) ≡ some w
      → ((k ≡ j) × (v ≡ w)) ⊎ ((k ≢ j) × (lookup j d ≡ some w))
  lookup-insert_cases k j v w d h = elim (Bool-cases (k == j)) [
    | inl same ↦ inl ((e.beq_iff k j).0 same, ground (arith, h, lookup-insert k j v d, same))
    | inr other ↦
        inr (ground (arith, other, e.beq_iff k j), ground (arith, h, lookup-insert k j v d, other))
  ]

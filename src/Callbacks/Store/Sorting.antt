-- ===== src/Callbacks/Store/Sorting.antt =====
-- The order of the file: sorting it by key changes no entry.
use superdev.Base.{
  if◌then◌else◌, ◌==◌, nat_eq, string_eq, pair_eq, option_string_eq, Bool-cases, length, keep, Dict,
  values, lookup, suc, String, ◌≡◌, refl, ap, ◌∙◌, inl, inr, Bool, some, List, [], ◌∷◌, arith,
  eq_iff,
}
use superdev.Callbacks.Store.{place, sort_keys}

lookup-place {ℓ} :
    {V : Type ℓ} (k j : String) (v : V) (d : Dict String V)
    → lookup j (place k v d) ≡ lookup j ((k, v) ∷ d)
lookup-place k j v [] = refl
lookup-place k j v ((i, w) ∷ d) = ground (arith, lookup-place k j v d, eq_iff j k, eq_iff j i)

pub lookup-sort_keys {ℓ} :
    {V : Type ℓ} (k : String) (d : Dict String V) → lookup k (sort_keys d) ≡ lookup k d
unfolding sort_keys
lookup-sort_keys k [] = refl
lookup-sort_keys k ((j, v) ∷ d) =
    lookup-place j k v (sort_keys d) ∙ ap (λ o. if k == j then some v else o) (lookup-sort_keys k d)

pub length-place {ℓ} :
    {V : Type ℓ} (p : V → Bool) (k : String) (v : V) (d : Dict String V)
    → length (keep p (values (place k v d))) ≡ length (keep p (v ∷ values d))
length-place p k v [] = refl
length-place p k v ((j, w) ∷ d) = ground (arith, length-place p k v d)

length-keep_cons {ℓ} :
    {V : Type ℓ} (p : V → Bool) (v : V) (xs ys : List V)
    → length (keep p xs) ≡ length (keep p ys)
    → length (keep p (v ∷ xs)) ≡ length (keep p (v ∷ ys))
length-keep_cons p v xs ys h = elim (Bool-cases (p v)) [
  | inl yes_here ↦ rw yes_here (ap (λ n. suc n) h)
  | inr skipped ↦ rw skipped h
]

-- Nor does it change how many entries there are of a kind.
pub length-sort_keys {ℓ} :
    {V : Type ℓ} (p : V → Bool) (d : Dict String V)
    → length (keep p (values (sort_keys d))) ≡ length (keep p (values d))
unfolding sort_keys
length-sort_keys p [] = refl
length-sort_keys p ((k, v) ∷ d) =
    length-place p k v (sort_keys d)
    ∙ length-keep_cons p v (values (sort_keys d)) (values d) (length-sort_keys p d)

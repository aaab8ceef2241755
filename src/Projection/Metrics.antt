-- ===== src/Projection/Metrics.antt =====
-- What `derive_metrics` counts.
use superdev.Base.{
  if◌then◌else◌, string_eq, ◌==◌, nat_eq, pair_eq, option_string_eq, get_or, length, keep, Dict,
  lookup, insert, lookup-insert, ℕ, ◌+◌, String, ◌≡◌, refl, Bool, Option, none, some, List, [], ◌∷◌,
  arith, eq_iff,
}
use superdev.Json.{get_field, Json, Fields, natural, int, obj}
use superdev.Models.{ItemRecord}
use superdev.Projection.{
  count_types, is_command, count_commands, counts_object, derive_metrics, derived,
}

abbrev pub has_type : String → ItemRecord → Bool
has_type type item = item.type == type

commands-add :
    (items : List ItemRecord) (n : ℕ) → count_commands items n ≡ n + length (keep is_command items)
commands-add [] n = omega arith
commands-add (i ∷ is) n = ground (arith, commands-add is n, commands-add is (n + 1))

count_types-lookup :
    (type : String) (items : List ItemRecord) (counts : Dict String ℕ)
    → lookup type (count_types items counts) ≡ (
        if length (keep (has_type type) items) == 0
        then lookup type counts
        else some (get_or (lookup type counts) 0 + length (keep (has_type type) items)))
count_types-lookup type [] counts = refl
count_types-lookup type (i ∷ is) counts = ground (
  arith,
  count_types-lookup type is (insert i.type (get_or (lookup i.type counts) 0 + 1) counts),
  lookup-insert i.type type (get_or (lookup i.type counts) 0 + 1) counts,
  eq_iff i.type type,
)

abbrev pub count_field : Option ℕ → Option Json
count_field none = none
count_field (some n) = some (int (natural n))

counts_object-get_field :
    (k : String) (d : Dict String ℕ) → get_field k (counts_object d) ≡ count_field (lookup k d)
counts_object-get_field k [] = refl
counts_object-get_field k ((j, n) ∷ d) =
    ground (arith, counts_object-get_field k d, eq_iff k j, eq_iff j k)

-- The metrics that `derive_metrics` shows under "item_counts" are an object that has a field for
-- each type that occurs among the items, and no other, with the number of the items of this type;
-- "command_count" is the number of the items of type `commandExecution`.
pub derive_metrics-counts :
    (items : List ItemRecord) (duration : Json)
    → ((counts : Fields) × (lookup "item_counts" (derive_metrics items duration)
          ≡ some (record { value = obj counts; source = "codex-worker"; availability = derived }))
        × ((type : String)
            → get_field type counts ≡ (
                if length (keep (has_type type) items) == 0
                then none
                else some (int (natural (length (keep (has_type type) items)))))))
      × (lookup "command_count" (derive_metrics items duration)
          ≡ some (record {
            value = int (natural (length (keep (has_type "commandExecution") items)));
            source = "codex-worker";
            availability = derived;
          }))
unfolding derive_metrics
derive_metrics-counts items duration =
    let commands : count_commands items 0 ≡ length (keep (has_type "commandExecution") items) =
      omega (arith, commands-add items 0) in
    (
      (
        counts_object (count_types items []),
        refl,
        λ type. ground (
          arith,
          counts_object-get_field type (count_types items []),
          count_types-lookup type items [],
        ),
      ),
      rw commands refl,
    )

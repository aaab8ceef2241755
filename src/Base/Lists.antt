-- ===== src/Base/Lists.antt =====
-- Lists measured by native numbers, and the bounded windows that the program keeps.
use Prim.Native.Nat.{min, ℕ, zero, suc, ◌+◌, ◌-◌, ◌≤◌, ◌<◌}
use mathlib.Core.Path.{◌≡◌, refl, sym}
use mathlib.Core.Bool.{Bool, true, false, ◌||◌, ◌&&◌, not}
use mathlib.Core.List.{List, [], ◌∷◌, ◌++◌}
use mathlib.Core.Option.{Option, none, some}
use native.Mathlib.Omega.{arith}
use superdev.Base.Tests.{ltb, ◌==◌, Eq, if◌then◌else◌, Bool-cases}
use mathlib.Core.Logic.{inl, inr}

module _ {ℓ} {A : Type ℓ} where
  abbrev pub length : List A → ℕ
  length [] = 0
  length (x ∷ xs) = suc (length xs)

  abbrev pub take : ℕ → List A → List A
  take zero xs = []
  take (suc n) [] = []
  take (suc n) (x ∷ xs) = x ∷ take n xs

  abbrev pub drop : ℕ → List A → List A
  drop zero xs = xs
  drop (suc n) [] = []
  drop (suc n) (x ∷ xs) = drop n xs

  -- `[x for x in xs if p(x)]`
  abbrev pub keep : (A → Bool) → List A → List A
  keep p [] = []
  keep p (x ∷ xs) = let rest = keep p xs in if p x then x ∷ rest else rest

  -- `next((x for x in xs if p(x)), None)`
  abbrev pub find_first : (A → Bool) → List A → Option A
  find_first p [] = none
  find_first p (x ∷ xs) = let rest = find_first p xs in if p x then some x else rest

  abbrev pub any : (A → Bool) → List A → Bool
  any p [] = false
  any p (x ∷ xs) = let rest = any p xs in p x || rest

  abbrev pub all : (A → Bool) → List A → Bool
  all p [] = true
  all p (x ∷ xs) = let rest = all p xs in p x && rest

  -- `xs[-1] if xs else None`
  abbrev pub get_last? : List A → Option A
  get_last? [] = none
  get_last? (x ∷ []) = some x
  get_last? (x ∷ y ∷ xs) = get_last? (y ∷ xs)

  -- `xs[-n:]` for a positive n
  abbrev pub last_n : ℕ → List A → List A
  last_n n xs = drop (length xs - n) xs

  -- `while len(xs) > limit: xs.popleft()`
  unfoldable pub evict : ℕ → List A → List A
  evict limit [] = []
  evict limit (x ∷ xs) =
      let rest = evict limit xs in if ltb limit (length (x ∷ xs)) then rest else x ∷ xs

module _ {ℓ} {A : Type ℓ} where
  pub length-append : (xs ys : List A) → length (xs ++ ys) ≡ length xs + length ys
  length-append [] ys = omega arith
  length-append (x ∷ xs) ys = omega (arith, length-append xs ys)

  pub length-drop : (n : ℕ) (xs : List A) → length (drop n xs) ≡ length xs - n
  length-drop zero xs = omega arith
  length-drop (suc n) [] = omega arith
  length-drop (suc n) (x ∷ xs) = omega (arith, length-drop n xs)

  pub length-evict-le : (limit : ℕ) (xs : List A) → length (evict limit xs) ≤ limit
  unfolding evict
  length-evict-le limit [] = omega arith
  length-evict-le limit (x ∷ xs) = ground (arith, length-evict-le limit xs)

  drop-nil : (n : ℕ) → ◌≡◌ {A = List A} (drop n []) []
  drop-nil zero = refl
  drop-nil (suc n) = refl

  -- What the loop keeps is the end of the list, as long as the limit allows.
  pub evict-eq-drop : (limit : ℕ) (xs : List A) → evict limit xs ≡ drop (length xs - limit) xs
  unfolding evict
  evict-eq-drop limit [] = sym (drop-nil (0 - limit))
  evict-eq-drop limit (x ∷ xs) = elim (Bool-cases (ltb limit (length (x ∷ xs)))) [
    | inl over ↦
        let e : length (x ∷ xs) - limit ≡ suc (length xs - limit) = ground arith in
        rw (over, e) (evict-eq-drop limit xs)
    | inr fits ↦ let e : length (x ∷ xs) - limit ≡ 0 = ground arith in rw (fits, e)
  ]

module _ {ℓ} {A : Type ℓ} where
  pub length-evict : (limit : ℕ) (xs : List A) → length (evict limit xs) ≡ min limit (length xs)
  length-evict limit xs =
      rw (evict-eq-drop limit xs) (omega (arith, length-drop (length xs - limit) xs))

module _ {ℓ} {A : Type ℓ} ⦃e : Eq A⦄ where
  -- `a in xs`
  abbrev pub contains : A → List A → Bool
  contains a [] = false
  contains a (x ∷ xs) = let rest = contains a xs in (a == x) || rest

  -- `s.discard(a)` for a set kept as a list without repetition
  abbrev pub discard : A → List A → List A
  discard a [] = []
  discard a (x ∷ xs) = let rest = discard a xs in if a == x then rest else x ∷ rest

  -- `s.add(a)`
  abbrev pub add : A → List A → List A
  add a xs = if contains a xs then xs else xs ++ (a ∷ [])

  -- `len(set(xs)) == len(xs)`
  abbrev pub all_distinct : List A → Bool
  all_distinct [] = true
  all_distinct (x ∷ xs) = let rest = all_distinct xs in not (contains x xs) && rest

  pub contains-append :
      (a : A) (xs ys : List A) → contains a (xs ++ ys) ≡ (contains a xs || contains a ys)
  contains-append a [] ys = refl
  contains-append a (x ∷ xs) ys = ground (arith, contains-append a xs ys)

  pub contains-discard_self : (a : A) (xs : List A) → contains a (discard a xs) ≡ false
  contains-discard_self a [] = refl
  contains-discard_self a (x ∷ xs) = ground (arith, contains-discard_self a xs)

  pub contains-discard :
      (a b : A) (xs : List A)
      → contains b (discard a xs) ≡ (if a == b then false else contains b xs)
  contains-discard a b [] = ground arith
  contains-discard a b (x ∷ xs) =
      ground (arith, contains-discard a b xs, e.beq_iff a b, e.beq_iff a x, e.beq_iff b x)

  pub contains-add : (a b : A) (xs : List A) → contains b (add a xs) ≡ (contains b xs || (b == a))
  contains-add a b xs = elim (Bool-cases (contains a xs)) [
    | inl old ↦ rw old (ground (arith, e.beq_iff b a, same old))
    | inr new ↦ rw (new, contains-append b xs (a ∷ [])) (ground arith)
  ]
    where
      same : contains a xs ≡ true → b ≡ a → contains b xs ≡ true
      same old h = rw h old

  pub length-discard-le : (a : A) (xs : List A) → length (discard a xs) ≤ length xs
  length-discard-le a [] = omega arith
  length-discard-le a (x ∷ xs) = ground (arith, length-discard-le a xs)

  pub length-discard-lt :
      (a : A) (xs : List A) → contains a xs ≡ true → length (discard a xs) < length xs
  length-discard-lt a [] h = cc
  length-discard-lt a (x ∷ xs) h = ground (arith, length-discard-le a xs, length-discard-lt a xs)

  pub find_first-contains :
      (p : A → Bool) (a : A) (xs : List A)
      → find_first p xs ≡ some a
      → (contains a xs ≡ true) × (p a ≡ true)
  find_first-contains p a [] h = cc
  find_first-contains p a (x ∷ xs) h = elim (Bool-cases (p x)) [
    | inl yes_here ↦
        let q : x ≡ a = ground (arith, yes_here, h) in
        rw (← q) (ground (arith, yes_here, e.beq_iff x x))
    | inr later ↦ ground (arith, later, h, find_first-contains p a xs)
  ]

-- ===== src/Base/Results.antt =====
-- A fallible call: what it returns, or what it raises.
use mathlib.Core.Path.{◌≡◌, refl, subst}
use mathlib.Core.Logic.{◌⊎◌, inl, inr}
use mathlib.Core.Bool.{Bool, true, false}
use mathlib.Core.List.{List, [], ◌∷◌}

pub data Result {ℓ κ} (E : Type κ) (A : Type ℓ) : Type (ℓ ⊔ κ) where
  ok : A → Result E A
  err : E → Result E A

infixl 5 ◌>>=◌
abbrev pub ◌>>=◌ {ℓ κ ν} :
    {E : Type ν} {A : Type ℓ} {B : Type κ}
    → (first : Result E A) (next : A → Result E B) → Result E B
(err why) >>= next = err why
(ok value) >>= next = next value

-- `if test: raise e`
abbrev pub raise_if {ν} : {E : Type ν} → Bool → E → Result E (Unit {0})
raise_if test why = elim test [ true ↦ err why | false ↦ ok tt ]

infixl 5 ◌>>◌
abbrev pub ◌>>◌ {κ ν} : {E : Type ν} {B : Type κ} → Result E (Unit {0}) → Result E B → Result E B
check >> rest = check >>= λ _. rest

-- A list comprehension whose element may raise.
abbrev pub map_result {ℓ κ ν} :
    {E : Type ν} {A : Type ℓ} {B : Type κ} → (A → Result E B) → List A → Result E (List B)
map_result f [] = ok []
map_result f (x ∷ xs) = let rest = map_result f xs in f x >>= λ y. (rest >>= λ ys. ok (y ∷ ys))

-- A bind that returns has a first part that returns, and hands its value on.
pub >>=-eq-ok {ℓ κ ν} :
    {E : Type ν} {A : Type ℓ} {B : Type κ} (first : Result E A) (next : A → Result E B) {result : B}
    → (first >>= next) ≡ ok result
    → (value : A) × (first ≡ ok value) × (next value ≡ ok result)
>>=-eq-ok (err why) next h = cc
>>=-eq-ok (ok value) next h = (value, refl, h)

-- A call that returns has passed its checks.
pub raise_if-eq-ok {ℓ ν} :
    {E : Type ν} {A : Type ℓ} (b : Bool) (e : E) (m : Result E A) {a : A}
    → (raise_if b e >> m) ≡ ok a
    → (b ≡ false) × (m ≡ ok a)
raise_if-eq-ok true e m h = cc
raise_if-eq-ok false e m h = (refl, h)

pub Result-cases {ℓ ν} :
    {E : Type ν} {A : Type ℓ} (m : Result E A) → ((a : A) × (m ≡ ok a)) ⊎ ((e : E) × (m ≡ err e))
Result-cases (ok a) = inl (a, refl)
Result-cases (err e) = inr (e, refl)

-- What holds of the value, if the call returns.
abbrev pub Ensures {ℓ κ ν} : {E : Type ν} {A : Type ℓ} → (A → Type κ) → Result E A → Type κ
Ensures P (ok a) = P a
Ensures P (err e) = Unit

pub ok_inj {ℓ ν} : {E : Type ν} {A : Type ℓ} {a b : A} → Path (Result E A) (ok a) (ok b) → a ≡ b
ok_inj h = cc

pub Ensures-eq-ok {ℓ κ ν} :
    {E : Type ν} {A : Type ℓ} (P : A → Type κ) (m : Result E A) {a : A}
    → Ensures P m
    → m ≡ ok a
    → P a
Ensures-eq-ok P (ok b) p h = let e = ok_inj h in subst P e p
Ensures-eq-ok P (err e) p h = cc

pub Ensures-bind {ℓ κ ν μ} :
    {E : Type ν} {A : Type ℓ} {B : Type κ} (P : B → Type μ) (m : Result E A) (f : A → Result E B)
    → ((a : A) → m ≡ ok a → Ensures P (f a))
    → Ensures P (m >>= f)
Ensures-bind P (ok a) f h = h a refl
Ensures-bind P (err e) f h = tt

-- ===== src/Transport/Calling.antt =====
-- websocket_transport.py: `call`, its retries and the waits between them.
use superdev.Base.{
  leb, if◌then◌else◌, string_eq, ◌==◌, nat_eq, pair_eq, option_string_eq, length, take, all,
  get_last?, contains, Result, ok, err, ℕ, zero, suc, ◌+◌, ◌*◌, ◌^◌, ◌≤◌, min, String, ◌≡◌, refl,
  ◌∙◌, ◌⊎◌, inl, inr, Bool, true, false, some, List, [], ◌∷◌, arith,
}
use superdev.Json.{Fields}
use superdev.Transport.{CallError, CodexConnection, ConnectionDeps}
use superdev.Transport.Requests.{begin_call, end_call}

abbrev pub max_read_retries : ℕ
max_read_retries = 2

abbrev pub idempotent_read_methods : List String
idempotent_read_methods =
    "account/rateLimits/read" ∷ "account/read" ∷ "account/usage/read"
    ∷ "account/workspaceMessages/read" ∷ "app/list" ∷ "app/read" ∷ "config/read"
    ∷ "configRequirements/read" ∷ "experimentalFeature/list" ∷ "hooks/list"
    ∷ "mcpServer/resource/read" ∷ "mcpServerStatus/list" ∷ "model/list"
    ∷ "modelProvider/capabilities/read" ∷ "permissionProfile/list" ∷ "plugin/list" ∷ "plugin/read"
    ∷ "plugin/share/list" ∷ "plugin/skill/read" ∷ "skills/list" ∷ "thread/goal/get" ∷ "thread/list"
    ∷ "thread/loaded/list" ∷ "thread/read" ∷ "thread/turns/list" ∷ []

-- `_call_once`; `sending` and `waiting` are what the other threads do while it sends and waits.
unfoldable pub call_once :
    ConnectionDeps
    → (CodexConnection → CodexConnection)
    → (CodexConnection → CodexConnection)
    → String
    → Fields
    → CodexConnection
    → CodexConnection × Result CallError Fields
unfolding begin_call end_call
call_once deps sending waiting method params c =
    let begun = begin_call deps sending method params c in
    elim begun.1 [
      | err error ↦ (begun.0, err error)
      | ok id ↦ end_call deps id method (waiting begun.0)
    ]

abbrev pub is_upstream_busy : Result CallError Fields → Bool
is_upstream_busy (ok result) = false
is_upstream_busy (err error) = error.kind == "upstream_busy"

-- `_backoff`, in ten-thousandths of a second; `jitter` is never negative.
unfoldable pub backoff : (ℕ → ℕ) → ℕ → ℕ
backoff jitter attempt = let delay = min (500 * 2 ^ attempt) 5000 in delay + jitter delay

-- What a call has done: the outcome of each attempt, the waits between them, and its own outcome.
pub record Attempts (S : Type 0) : Type 0 where
  pub state : S
  pub outcomes : List (Result CallError Fields)
  pub delays : List ℕ
  pub outcome : Result CallError Fields

-- `attempts - 1`
abbrev pub retries_of : String → ℕ
retries_of method = if contains method idempotent_read_methods then max_read_retries else 0

module _ {S : Type 0} (once : S → S × Result CallError Fields) (jitter : ℕ → ℕ) where
  -- The loop of `call`, from attempt number `attempt` with `retries` more after it
  unfoldable pub attempt_calls : ℕ → ℕ → S → Attempts S
  unfolding backoff
  attempt_calls zero attempt s =
      let done_once = once s in
      record {
        state = done_once.0;
        outcomes = done_once.1 ∷ [];
        delays = [];
        outcome = done_once.1;
      }
  attempt_calls (suc retries) attempt s =
      let done_once = once s in
      let rest = attempt_calls retries (attempt + 1) done_once.0 in
      if is_upstream_busy done_once.1
      then record {
        state = rest.state;
        outcomes = done_once.1 ∷ rest.outcomes;
        delays = backoff jitter attempt ∷ rest.delays;
        outcome = rest.outcome;
      }
      else record {
        state = done_once.0;
        outcomes = done_once.1 ∷ [];
        delays = [];
        outcome = done_once.1;
      }

  -- `call`
  unfoldable pub call : String → S → Result String (Attempts S)
  unfolding attempt_calls
  call method s =
      if method == ""
      then err "method must be non-empty"
      else ok (attempt_calls (retries_of method) 0 s)

pub total : List ℕ → ℕ
total [] = 0
total (n ∷ ns) = n + total ns

get_last?-cons {ℓ} :
    {A : Type ℓ} (x : A) (xs : List A) {n : ℕ}
    → length xs ≡ suc n
    → get_last? (x ∷ xs) ≡ get_last? xs
get_last?-cons x [] h = absurd (omega (arith, h))
get_last?-cons x (y ∷ ys) h = refl

-- What is promised of a call with so many retries and so much jitter.
pub record IsBounded {S : Type 0} (retries bound : ℕ) (a : Attempts S) : Type 0 where
  pub attempts : length a.outcomes ≤ retries + 1
  pub waits : length a.outcomes ≡ length a.delays + 1
  pub ends : get_last? a.outcomes ≡ some a.outcome
  pub retried : all is_upstream_busy (take (length a.delays) a.outcomes) ≡ true
  pub exhausted : (is_upstream_busy a.outcome ≡ false) ⊎ (length a.outcomes ≡ retries + 1)
  pub short : all (λ d. leb d (5000 + bound)) a.delays ≡ true
  pub slept : total a.delays ≤ retries * (5000 + bound)

module _ {S : Type 0} (once : S → S × Result CallError Fields) (jitter : ℕ → ℕ) (bound : ℕ)
    (jitters : (n : ℕ) → jitter n ≤ bound) where
  backoff-le : (attempt : ℕ) → backoff jitter attempt ≤ 5000 + bound
  unfolding backoff
  backoff-le attempt =
      let delay = min (500 * 2 ^ attempt) 5000 in
      let short : delay ≤ 5000 = omega arith in omega (arith, short, jitters delay)

  again-IsBounded :
      (retries attempt : ℕ) (r : Result CallError Fields) (rest : Attempts S)
      → is_upstream_busy r ≡ true
      → IsBounded retries bound rest
      → IsBounded (suc retries) bound (record {
        state = rest.state;
        outcomes = r ∷ rest.outcomes;
        delays = backoff jitter attempt ∷ rest.delays;
        outcome = rest.outcome;
      })
  unfolding total
  again-IsBounded retries attempt r rest busy p =
      let waits : length rest.outcomes ≡ suc (length rest.delays) = omega (arith, p.waits) in
      record {
        attempts = omega (arith, p.attempts);
        waits = omega (arith, p.waits);
        ends = get_last?-cons r rest.outcomes waits ∙ p.ends;
        retried = rw busy p.retried;
        exhausted = elim p.exhausted [
          | inl other ↦ inl other
          | inr all_made ↦ inr (omega (arith, all_made))
        ];
        short = ground (arith, p.short, backoff-le attempt);
        slept = omega (arith, p.slept, backoff-le attempt);
      }

  once-IsBounded :
      (retries : ℕ) (s : S) (r : Result CallError Fields)
      → (is_upstream_busy r ≡ false) ⊎ (retries ≡ 0)
      → IsBounded retries bound (record { state = s; outcomes = r ∷ []; delays = []; outcome = r })
  unfolding total
  once-IsBounded retries s r last = record {
    attempts = omega arith;
    waits = refl;
    ends = refl;
    retried = refl;
    exhausted = elim last [
      | inl other ↦ inl other
      | inr none_left ↦ inr (omega (arith, none_left))
    ];
    short = refl;
    slept = omega arith;
  }

  attempt_calls-IsBounded :
      (retries attempt : ℕ) (s : S)
      → IsBounded retries bound (attempt_calls once jitter retries attempt s)
  unfolding attempt_calls
  attempt_calls-IsBounded zero attempt s = once-IsBounded 0 (once s).0 (once s).1 (inr refl)
  attempt_calls-IsBounded (suc retries) attempt s =
      by_outcome (is_upstream_busy (once s).1) refl
        (attempt_calls-IsBounded retries (attempt + 1) (once s).0)
    where
      rest : Attempts S
      rest = attempt_calls once jitter retries (attempt + 1) (once s).0

      by_outcome :
          (b : Bool)
          → is_upstream_busy (once s).1 ≡ b
          → IsBounded retries bound rest
          → IsBounded (suc retries) bound (
              if b
              then record {
                state = rest.state;
                outcomes = (once s).1 ∷ rest.outcomes;
                delays = backoff jitter attempt ∷ rest.delays;
                outcome = rest.outcome;
              }
              else record {
                state = (once s).0;
                outcomes = (once s).1 ∷ [];
                delays = [];
                outcome = (once s).1;
              })
      by_outcome true busy p = again-IsBounded retries attempt (once s).1 rest busy p
      by_outcome false other p = once-IsBounded (suc retries) (once s).0 (once s).1 (inl other)

  -- A call of a method with a name makes its attempts and ends: at least one and at most three of a
  -- method that only reads, and exactly one of any other, each after an "upstream_busy" and none
  -- after another outcome; it ends with the outcome of the last, which is "upstream_busy" only when no
  -- attempt is left; and where the jitter has a bound it waits once between two attempts, each time
  -- at most half a second and that bound.
  pub call-IsBounded :
      (method : String) (s : S)
      → (method == "") ≡ false
      → (a : Attempts S) × (call once jitter method s ≡ ok a)
        × IsBounded (if contains method idempotent_read_methods then 2 else 0) bound a
        × (contains method idempotent_read_methods ≡ false → length a.outcomes ≡ 1)
  unfolding call
  call-IsBounded method s named =
      let a = attempt_calls once jitter (retries_of method) 0 s in
      let p = attempt_calls-IsBounded (retries_of method) 0 s in
      (
        a,
        rw (named, call) refl,
        p,
        λ writes.
            let one : retries_of method ≡ 0 = rw writes refl in
            omega (arith, p.attempts, p.waits, one),
      )

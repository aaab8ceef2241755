-- ===== src/Projection/Messages.antt =====
-- What `select_completion_messages` and `project_completion` return.
use mathlib.Core.List.{map}
use mathlib.Core.Path.{subst}
use superdev.Base.{
  if◌then◌else◌, string_eq, ◌==◌, nat_eq, pair_eq, option_string_eq, Bool-cases, Option-cases,
  is_some, keep, get_last?, map_result, >>=-eq-ok, raise_if-eq-ok, ok_inj, Result, ok, err, String,
  ◌≡◌, refl, sym, ap, ◌∙◌, inl, inr, Bool, true, false, not, ◌&&◌, Option, none, some, List, [],
  ◌∷◌, map, arith,
}
use superdev.Json.{get, as_text, Json, Fields, null, bool, int, float, text, arr, obj}
use superdev.Models.{ItemRecord, TurnSnapshot}
use superdev.Callbacks.{WorkerView}
use superdev.Projection.{
  phase_of, agent_view, is_agent, is_final, select_all, fallback, prefer_finals,
  select_completion_messages, CompletionSelection, AgentMessageView, TurnView, RecoveryView,
  CompletionResponse, explicit_final, live,
}
use superdev.Projection.Completing.{
  reading, turn_view, structured, is_empty_list, project_completion, incomplete,
}

-- What a message shows, and what an item of an agent holds.
abbrev pub shown : AgentMessageView → String × Json
shown m = (m.item_id, text m.content)

abbrev pub told : ItemRecord → String × Json
told item = (item.item_id, get "text" item.content)

abbrev pub says_final : ItemRecord → Bool
says_final item = as_text (get "phase" item.content) == some "final_answer"

abbrev pub last_of {ℓ} : {A : Type ℓ} → List A → List A
last_of xs = elim (get_last? xs) [ none ↦ [] | some x ↦ x ∷ [] ]

abbrev pub or_last : List ItemRecord → List ItemRecord → List ItemRecord
or_last [] agents = last_of agents
or_last (i ∷ finals) agents = i ∷ finals

-- The items that a completion reports: all of the agent while the turn runs; afterwards the final
-- answers, or the last item of the agent where there is none.
abbrev pub reported : Bool → List ItemRecord → List ItemRecord
reported running items =
    let agents = keep is_agent items in
    if running then agents else or_last (keep says_final agents) agents

-- The messages are those of the items, one for one.
Views : List ItemRecord → List AgentMessageView → Type 0
Views [] [] = Unit
Views [] (m ∷ ms) = ⊥
Views (i ∷ is) [] = ⊥
Views (i ∷ is) (m ∷ ms) = (shown m ≡ told i) × (is_final m ≡ says_final i) × Views is ms

as_text-inverse : (v : Json) {s : String} → as_text v ≡ some s → v ≡ text s
as_text-inverse (text t) h = cc
as_text-inverse null h = cc
as_text-inverse (bool b) h = cc
as_text-inverse (int n) h = cc
as_text-inverse (float f) h = cc
as_text-inverse (arr vs) h = cc
as_text-inverse (obj fs) h = cc

phase_of-inverse : (v : Json) {phase : Option String} → phase_of v ≡ some phase → as_text v ≡ phase
unfolding phase_of
phase_of-inverse (text t) h = ground (arith, h)
phase_of-inverse null h = cc
phase_of-inverse (bool b) h = cc
phase_of-inverse (int n) h = cc
phase_of-inverse (float f) h = cc
phase_of-inverse (arr vs) h = cc
phase_of-inverse (obj fs) h = cc

agent_view-told :
    (item : ItemRecord) {m : AgentMessageView}
    → agent_view item ≡ ok m
    → (shown m ≡ told item) × (is_final m ≡ says_final item)
unfolding agent_view
agent_view-told item {m} h = elim (Option-cases (as_text (get "text" item.content))) [
  | inl absent ↦ cc (rw (absent, agent_view) at h)
  | inr (content, there) ↦ elim (Option-cases (phase_of (get "phase" item.content))) [
    | inl bad ↦ cc (rw (there, bad, agent_view) at h)
    | inr (phase, good) ↦
        let same = ok_inj (rw (there, good, agent_view) at h) in
        let held = as_text-inverse (get "text" item.content) there in
        let spoken = phase_of-inverse (get "phase" item.content) good in
        subst (λ (x : AgentMessageView). (shown x ≡ told item) × (is_final x ≡ says_final item))
          same (ap (λ (v : Json). (item.item_id, v)) (sym held), rw spoken refl)
  ]
]

map_result-Views :
    (items : List ItemRecord) {ms : List AgentMessageView}
    → map_result agent_view items ≡ ok ms
    → Views items ms
unfolding Views
map_result-Views [] h = subst (Views []) (ok_inj h) tt
map_result-Views (i ∷ is) h =
    let (m, first, rest) = >>=-eq-ok (agent_view i) _ h in
    let (ms, others, last) = >>=-eq-ok (map_result agent_view is) _ rest in
    let (says, final) = agent_view-told i first in
    subst (Views (i ∷ is)) (ok_inj last) (says, final, map_result-Views is others)

Views-shown :
    (is : List ItemRecord) (ms : List AgentMessageView) → Views is ms → map shown ms ≡ map told is
unfolding Views
Views-shown [] [] v = refl
Views-shown [] (m ∷ ms) v = absurd v
Views-shown (i ∷ is) [] v = absurd v
Views-shown (i ∷ is) (m ∷ ms) (says, final, v) = rw (says, Views-shown is ms v) refl

Views-final :
    (is : List ItemRecord) (ms : List AgentMessageView)
    → Views is ms
    → Views (keep says_final is) (keep is_final ms)
unfolding Views
Views-final [] [] v = tt
Views-final [] (m ∷ ms) v = absurd v
Views-final (i ∷ is) [] v = absurd v
Views-final (i ∷ is) (m ∷ ms) (says, final, v) = elim (Bool-cases (says_final i)) [
  | inl last ↦ rw (final, last) (says, final, Views-final is ms v)
  | inr other ↦ rw (final, other) (Views-final is ms v)
]

select_all-shown :
    (selection : CompletionSelection) (ms : List AgentMessageView)
    → map shown (select_all selection ms) ≡ map shown ms
select_all-shown selection [] = refl
select_all-shown selection (m ∷ ms) = ap (λ l. shown m ∷ l) (select_all-shown selection ms)

fallback-shown :
    (is : List ItemRecord) (ms : List AgentMessageView)
    → Views is ms
    → map shown (fallback ms) ≡ map told (last_of is)
unfolding Views
fallback-shown [] [] v = refl
fallback-shown [] (m ∷ ms) v = absurd v
fallback-shown (i ∷ is) [] v = absurd v
fallback-shown (i ∷ []) (m ∷ []) (says, final, v) = ap (λ x. x ∷ []) says
fallback-shown (i ∷ []) (m ∷ n ∷ ms) (says, final, v) = absurd v
fallback-shown (i ∷ j ∷ is) (m ∷ []) (says, final, v) = absurd v
fallback-shown (i ∷ j ∷ is) (m ∷ n ∷ ms) (says, final, v) = fallback-shown (j ∷ is) (n ∷ ms) v

prefer_finals-shown :
    (finals agents : List ItemRecord) (fs ms : List AgentMessageView)
    → Views finals fs
    → Views agents ms
    → map shown (prefer_finals fs ms) ≡ map told (or_last finals agents)
unfolding Views
prefer_finals-shown [] agents [] ms v w = fallback-shown agents ms w
prefer_finals-shown [] agents (f ∷ fs) ms v w = absurd v
prefer_finals-shown (i ∷ is) agents [] ms v w = absurd v
prefer_finals-shown (i ∷ is) agents (f ∷ fs) ms v w =
    select_all-shown explicit_final (f ∷ fs) ∙ Views-shown (i ∷ is) (f ∷ fs) v

select-shown :
    (items : List ItemRecord) (running : Bool) {ms : List AgentMessageView}
    → select_completion_messages items (not running) ≡ ok ms
    → map shown ms ≡ map told (reported running items)
unfolding select_completion_messages
select-shown items running {ms} h =
    let (agents, read, same) = >>=-eq-ok (map_result agent_view (keep is_agent items)) _ h in
    let v = map_result-Views (keep is_agent items) read in
    ap (λ l. map shown l) (sym (ok_inj same)) ∙ by_state running agents v
  where
    by_state :
        (b : Bool) (agents : List AgentMessageView)
        → Views (keep is_agent items) agents
        → map shown
            (if not b then prefer_finals (keep is_final agents) agents else select_all live agents)
          ≡ map told (reported b items)
    by_state true agents v =
        select_all-shown live agents ∙ Views-shown (keep is_agent items) agents v
    by_state false agents v =
        prefer_finals-shown (keep says_final (keep is_agent items)) (keep is_agent items)
          (keep is_final agents) agents (Views-final (keep is_agent items) agents v) v

reading-eq-ok {ℓ} : {A : Type ℓ} (m : Result String A) {a : A} → reading m ≡ ok a → m ≡ ok a
reading-eq-ok (ok a) h = cc
reading-eq-ok (err why) h = cc

turn_view-returns :
    (turn_id status : String) (error : Option Fields) {v : TurnView}
    → turn_view turn_id status error ≡ ok v
    → (v.turn_id ≡ turn_id) × (v.status ≡ status)
unfolding turn_view
turn_view-returns turn_id status error h = ground arith

structured-returns :
    (loads : String → Option Json) (turn_id : String) (messages : List AgentMessageView) {v : Json}
    → structured loads turn_id messages ≡ ok v
    → (m : AgentMessageView) × (get_last? messages ≡ some m) × (loads m.content ≡ some v)
structured-returns loads turn_id messages h = elim (Option-cases (get_last? messages)) [
  | inl absent ↦ cc (rw (absent, structured) at h)
  | inr (m, last) ↦ elim (Option-cases (loads m.content)) [
    | inl unread ↦ cc (rw (last, unread, structured) at h)
    | inr (w, parsed) ↦ (m, last, parsed ∙ cc (rw (last, parsed, structured) at h))
  ]
]

-- `c` is a completion of the turn: its messages show the names and the texts of the items to report,
-- a completed turn has a message, and with a schema the text of the last message parses to the output.
abbrev pub Completes :
    (String → Option Json) → TurnSnapshot → Option Fields → CompletionResponse → Type 0
Completes loads turn schema c =
    (c.turn.turn_id ≡ turn.turn_id)
    × (c.turn.status ≡ turn.status)
    × (map shown c.messages ≡ map told (reported (turn.status == "in_progress") turn.items))
    × ((turn.status == "completed" && is_empty_list c.messages) ≡ false)
    × (is_some schema ≡ true
        → (m : AgentMessageView) × (get_last? c.messages ≡ some m)
          × (loads m.content ≡ some c.structured_output))

output-returns :
    (loads : String → Option Json) (turn_id : String) (messages : List AgentMessageView)
    (schema : Option Fields) {v : Json}
    → elim schema [ none ↦ ok null | some s ↦ structured loads turn_id messages ] ≡ ok v
    → is_some schema ≡ true
    → (m : AgentMessageView) × (get_last? messages ≡ some m) × (loads m.content ≡ some v)
output-returns loads turn_id messages none h wanted = cc
output-returns loads turn_id messages (some s) h wanted =
    structured-returns loads turn_id messages h

-- What `project_completion` returns has the id and the status of the turn. Its messages show, in
-- order, the name and the text of each item of the agent while the turn is in progress; afterwards of
-- each final answer of the agent, or, where there is none, of the last item of the agent. A completed
-- turn has a message, and with a schema the output is what the text of the last message parses to.
pub project_completion-returns :
    (loads : String → Option Json) (worker : WorkerView) (turn : TurnSnapshot)
    (schema : Option Fields) (duration : Json) (recovery : Option RecoveryView)
    {c : CompletionResponse}
    → project_completion loads worker turn schema duration recovery ≡ ok c
    → Completes loads turn schema c
unfolding project_completion
project_completion-returns loads worker turn schema duration recovery h =
    let (messages, read, h1) =
      >>=-eq-ok
        (reading (select_completion_messages turn.items (not (turn.status == "in_progress")))) _
        h in
    let (some_message, h2) =
      raise_if-eq-ok (turn.status == "completed" && is_empty_list messages)
        (incomplete turn.turn_id messages "no_agent_message") _ h1 in
    let (output, written, h3) =
      >>=-eq-ok (elim schema [ none ↦ ok null | some s ↦ structured loads turn.turn_id messages ]) _
        h2 in
    let (view, viewed, h4) = >>=-eq-ok (reading (turn_view turn.turn_id turn.status _)) _ h3 in
    let shown = turn_view-returns turn.turn_id turn.status _ (reading-eq-ok _ viewed) in
    let said = select-shown turn.items (turn.status == "in_progress") (reading-eq-ok _ read) in
    subst (Completes loads turn schema) (ok_inj h4) (
      shown.0,
      shown.1,
      said,
      some_message,
      output-returns loads turn.turn_id messages schema written,
    )

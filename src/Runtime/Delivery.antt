-- ===== src/Runtime/Delivery.antt =====
-- The items of a turn: they reach the observers in the order in which they were reported.
use mathlib.Core.List.{append-nil, append_assoc}
use superdev.Base.{
  string_eq, nat_eq, pair_eq, option_beq_iff, option_string_eq, get_or, all, contains, lookup,
  lookup-insert_self, ℕ, String, ◌≡◌, refl, sym, ◌∙◌, true, false, Option, some, List, [], ◌∷◌,
  ◌++◌, arith, eq_iff,
}
use superdev.Json.{Json, Fields}
use superdev.Models.{ErrorDetail, ItemRecord}
use superdev.Runtime.{append_event, SessionRuntime}
use superdev.Runtime.Turns.{
  turn_started, complete_turn, is_current_turn, collect_item, record_item, approval_declined,
}
use superdev.Runtime.Protocol.{complete_turn-fresh}

-- A notification of a turn while it runs: an item of it, that it has begun, an approval that was
-- declined.
pub data TurnNote : Type 0 where
  item_note : ItemRecord → TurnNote
  begun_note : TurnNote
  declined_note : Fields → TurnNote

abbrev pub items_of : List TurnNote → List ItemRecord
items_of [] = []
items_of (item_note i ∷ notes) = i ∷ items_of notes
items_of (begun_note ∷ notes) = items_of notes
items_of (declined_note params ∷ notes) = items_of notes

module _ (str : Json → String) (limit : ℕ) (t : String) where
  abbrev pub apply_note : TurnNote → SessionRuntime → SessionRuntime
  apply_note (item_note i) r = record_item limit (some t) (some i) r
  apply_note begun_note r = turn_started limit t r
  apply_note (declined_note params) r = approval_declined str limit params r

  -- Notifications of the turn, one after another.
  abbrev pub apply_notes : List TurnNote → SessionRuntime → SessionRuntime
  apply_notes [] r = r
  apply_notes (note ∷ notes) r = apply_notes notes (apply_note note r)

  -- The turn is running and has not been published.
  Running : SessionRuntime → Type 0
  Running r = (is_current_turn t r ≡ true) × (contains t r.published_terminal_ids ≡ false)

  apply_note-Running :
      (note : TurnNote) (r : SessionRuntime) → Running r → Running (apply_note note r)
  unfolding Running record_item collect_item append_event turn_started approval_declined
  apply_note-Running (item_note i) r (current, fresh) = rw current (current, fresh)
  apply_note-Running begun_note r (current, fresh) =
      ground (arith, current, fresh, eq_iff t t, option_beq_iff (some t) (some t))
  apply_note-Running (declined_note params) r (current, fresh) = (current, fresh)

  items : SessionRuntime → List ItemRecord
  items r = get_or (lookup t r.items) []

  apply_note-items :
      (note : TurnNote) (notes : List TurnNote) (r : SessionRuntime)
      → Running r
      → items (apply_note note r) ++ items_of notes ≡ items r ++ items_of (note ∷ notes)
  unfolding Running items record_item collect_item append_event turn_started approval_declined
  apply_note-items (item_note i) notes r (current, fresh) =
      rw (current, lookup-insert_self t (get_or (lookup t r.items) [] ++ (i ∷ [])) r.items)
        (append_assoc (get_or (lookup t r.items) []) (i ∷ []) (items_of notes))
  apply_note-items begun_note notes r (current, fresh) = rw fresh refl
  apply_note-items (declined_note params) notes r (current, fresh) = refl

  apply_notes-items :
      (notes : List TurnNote) (r : SessionRuntime)
      → Running r
      → Running (apply_notes notes r) × (items (apply_notes notes r) ≡ items r ++ items_of notes)
  apply_notes-items [] r runs = (runs, sym (append-nil (items r)))
  apply_notes-items (note ∷ notes) r runs =
      let (runs', all) =
        apply_notes-items notes (apply_note note r) (apply_note-Running note r runs) in
      (runs', all ∙ apply_note-items note notes r runs)

  -- A turn is the current turn of its session and has not been published, and from then until its
  -- end only notifications of this turn come: its items, that it has begun, declined approvals. Then
  -- the snapshot that its end publishes holds the items that the session had of it and, after them,
  -- all the items that these notifications report, in the order in which they came.
  pub items_delivered :
      (end : String) (error : Option ErrorDetail) (notes : List TurnNote) (r : SessionRuntime)
      → is_current_turn t r ≡ true
      → contains t r.published_terminal_ids ≡ false
      → (complete_turn limit t end error (apply_notes notes r)).1
        ≡ some (record {
          turn_id = t;
          status = end;
          error = error;
          items = get_or (lookup t r.items) [] ++ items_of notes;
        })
  unfolding Running items
  items_delivered end error notes r current fresh =
      let (runs, all) = apply_notes-items notes r (current, fresh) in
      rw (complete_turn-fresh limit t end error (apply_notes notes r) runs.1, all) refl

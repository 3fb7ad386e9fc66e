-- ===== src/Reducer/Apply/Examples.antt =====
-- Examples of the theorems on a transaction (go/internal/reducer/reducer.go, Apply).
use rushes.Base.{
  ap, sym, err, String, ℤ, pos, none, some, [], ◌∷◌, List, All, IfOk, ok, ◌≡◌, refl, Result,
  text_eq, ◌+ℤ◌,
}
use rushes.Float.Fixed.{Fixed}
use rushes.Value.{Any, field, no_fields, value_at}
use rushes.Contracts.{merge_key, Event, actor_user, actor_job}
use rushes.Reducer.Apply.{Database, Options, apply, apply_normal, normalize, applied}
use rushes.Reducer.Apply.Retry.{KeepsLog, apply_normal-apply_normal}
use rushes.Reducer.Apply.Current.{Settled, StrictIsCurrent, apply-Settled}

-- A handler that touches the event's draft and counts the events.
abbrev count_event : Event Fixed → Database ℤ → Result {0, 0} String (Database ℤ × List String)
count_event event db = ok (record db { rest = db.rest +ℤ pos 1 }, event.draft_id ∷ [])

abbrev one_draft : Database ℤ
one_draft = record { drafts = ("a", pos 7) ∷ []; event_log = []; rest = pos 0 }

abbrev validated : ℤ → Event Fixed
validated base = record {
  event_type = "TimelineValidated";
  actor = actor_user;
  draft_id = "a";
  base_version = some base;
  payload = some no_fields;
  created_at = "";
}

abbrev options : Options
options = record {
  base_version = none;
  actor = actor_job;
  created_at = "2026-01-01T00:00:00Z";
  admission = none;
}

abbrev no_text : Fixed → String
no_text x = ""

apply-Settled_example :
    IfOk
      (Settled
        ((normalized : List (Event Fixed)) × (normalize no_text options (validated (pos 7) ∷ [])
            ≡ ok normalized)
          × All (StrictIsCurrent no_text one_draft) normalized)
        one_draft)
      (apply no_text count_event options [] (pos 0) one_draft (validated (pos 7) ∷ []))
apply-Settled_example =
    apply-Settled no_text count_event options [] (pos 0) one_draft (validated (pos 7) ∷ [])

next_version :
    (apply no_text count_event options [] (pos 0) one_draft (validated (pos 7) ∷ []))
    ≡ ok (
      record {
        drafts = ("a", pos 8) ∷ [];
        event_log =
            record {
              event_type = "TimelineValidated";
              merge_key = none;
              draft_id = "a";
              state_version = some (pos 8);
              created_at = "2026-01-01T00:00:00Z";
            }
            ∷ [];
        rest = pos 1;
      },
      applied (("a", pos 8) ∷ []) 0,
    )
unfolding apply text_eq ◌+ℤ◌ value_at
next_version = refl

abbrev probed : Event Fixed
probed = record {
  event_type = "AssetProbed";
  actor = actor_user;
  draft_id = "a";
  base_version = none;
  payload = some (field "asset_id" (Any.str "x") no_fields);
  created_at = "";
}

abbrev probed_once : Database ℤ
probed_once = record {
  drafts = ("a", pos 8) ∷ [];
  event_log =
      record {
        event_type = "AssetProbed";
        merge_key = some "asset_id=x";
        draft_id = "a";
        state_version = some (pos 8);
        created_at = "";
      }
      ∷ [];
  rest = pos 1;
}

count_event-KeepsLog : KeepsLog no_text count_event
count_event-KeepsLog event before db drafts e =
    ap (λ r. elim r [ ok done ↦ done.0.event_log | err x ↦ before.event_log ]) (sym e)

apply_normal-apply_normal_example :
    apply_normal no_text count_event probed_once (probed ∷ []) ≡ ok (probed_once, applied [] 1)
unfolding apply_normal text_eq ◌+ℤ◌ value_at merge_key
apply_normal-apply_normal_example =
    apply_normal-apply_normal no_text count_event count_event-KeepsLog one_draft probed_once
      (probed ∷ []) (("a", pos 8) ∷ []) 0 (("asset_id=x", refl, refl), tt) refl

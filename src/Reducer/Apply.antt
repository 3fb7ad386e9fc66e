-- ===== src/Reducer/Apply.antt =====
-- The transaction of the reducer: go/internal/reducer/reducer.go (Apply and its parts), without the
-- hook Validate, the result rows, the rewind of a conversation and the claim of a job, for which its
-- options are nil. The
-- handlers of the events are a parameter: from the event and the database, the database after it and
-- the drafts that it touches, or an error.
pub mod Current
pub mod Noted
pub mod Retry
mod Examples
use rushes.Base.{
  String, ℕ, Bool, true, false, ℤ, pos, List, Option, none, some, [], ◌∷◌, ◌++◌, Result, ok, err,
  ◌>>=◌, ◌>>◌, ◌&&◌, ◌||◌, not, text_eq, any, map, if◌then◌else◌, ◌+ℤ◌, ◌==ℤ◌, ◌<>◌, suc, refuse_if,
}
use rushes.Contracts.{
  Event, EventSpec, Actor, VersionMode, version_strict, version_merge, event_spec, mode_of,
  validate_event, merge_key, valid_actor, payload_at,
}
use rushes.Jobs.{column_is}
use rushes.Reducer.JobEvents.{string_from}
use rushes.Reducer.Lease.{Leases, LeaseError}
use rushes.Reducer.Admission.{TimelineWriteAdmission, validate_timeline_write_admission}

-- A row of event_log, as far as the reducer reads it again.
pub record LoggedEvent : Type 0 where
  pub event_type : String
  pub merge_key : Option String
  pub draft_id : String
  pub state_version : Option ℤ
  pub created_at : String

-- The drafts with their versions, the event log, and the other tables.
pub record Database (R : Type 0) : Type 0 where
  pub drafts : List (String × ℤ)
  pub event_log : List LoggedEvent
  pub rest : R

pub data ApplyError : Type 0 where
  refused : String → ApplyError
  not_admitted : LeaseError → ApplyError
  draft_missing : String → ApplyError

pub record VersionConflict : Type 0 where
  pub draft_id : String
  pub expected_base_version : Option ℤ
  pub actual_state_version : ℤ
  pub event_type : String

-- `Result`: the drafts' new versions and the number of skipped events, or the conflict.
pub data Outcome : Type 0 where
  applied : List (String × ℤ) → ℕ → Outcome
  version_conflict : VersionConflict → Outcome

pub record Options : Type 0 where
  pub base_version : Option ℤ
  pub actor : Actor
  pub created_at : String
  pub admission : Option TimelineWriteAdmission

unfoldable pub version_in : List (String × ℤ) → String → Option ℤ
version_in [] draft = none
version_in ((d, v) ∷ rest) draft = if text_eq d draft then some v else version_in rest draft

module _ {R : Type 0} where
  unfoldable pub lookup_draft_version : Database R → String → Result ApplyError ℤ
  unfolding version_in
  lookup_draft_version db draft = elim (version_in db.drafts draft) [
    | none ↦ err (draft_missing draft)
    | some v ↦ ok v
  ]

-- `UPDATE drafts SET state_version=state_version+1 WHERE draft_id=? AND state_version=?`, which
-- changes no row where the version is another one.
unfoldable pub bump : List (String × ℤ) → String → ℤ → Option (List (String × ℤ))
bump [] draft expected = none
bump ((d, v) ∷ rest) draft expected =
    let later = bump rest draft expected in
    if text_eq d draft
    then if v ==ℤ expected then some ((d, v +ℤ pos 1) ∷ rest) else none
    else elim later [ none ↦ none | some rest' ↦ some ((d, v) ∷ rest') ]

module _ {F : Type 0} where
  compare_base : Event F → Option ℤ → ℤ → Option VersionConflict
  compare_base event base actual =
      if elim base [ none ↦ false | some v ↦ v ==ℤ actual ]
      then none
      else some (record {
        draft_id = event.draft_id;
        expected_base_version = base;
        actual_state_version = actual;
        event_type = event.event_type;
      })

module _ {F R : Type 0} where
  strict_version : Database R → Event F → Result ApplyError ℤ
  unfolding lookup_draft_version
  strict_version db event =
      refuse_if (text_eq event.draft_id "")
        (refused ("strict 事件 " <> event.event_type <> " 缺少 draft_id"))
      >> lookup_draft_version db event.draft_id

  -- A strict event whose base is not its draft's version.
  strict_conflict : Database R → Event F → VersionMode → Result ApplyError (Option VersionConflict)
  unfolding strict_version compare_base
  strict_conflict db event version_merge = ok none
  strict_conflict db event version_strict =
      strict_version db event >>= λ actual. ok (compare_base event event.base_version actual)

module _ {F : Type 0} (general : F → String) where
  normal_base : Options → Event F → VersionMode → Option ℤ
  normal_base options event version_merge = none
  normal_base options event version_strict = elim event.base_version [
    | none ↦ options.base_version
    | some v ↦ some v
  ]

  lift_text : Result String (Unit {0}) → Result ApplyError (Unit {0})
  lift_text (ok u) = ok u
  lift_text (err e) = err (refused e)

  with_spec : Options → Event F → Option EventSpec → Result ApplyError (Event F)
  unfolding normal_base lift_text mode_of validate_event
  with_spec options event none = err (refused ("reducer 收到未注册事件 " <> event.event_type))
  with_spec options event (some s) =
      let event' = record event {
        actor = options.actor;
        created_at = options.created_at;
        base_version = normal_base options event (mode_of general event s);
      } in
      lift_text (validate_event general event') >> ok event'

  unfoldable pub normalize : Options → List (Event F) → Result ApplyError (List (Event F))
  unfolding with_spec event_spec
  normalize options [] = ok []
  normalize options (event ∷ events) = with_spec options event (event_spec event) >>= λ first.
      normalize options events >>= λ rest. ok (first ∷ rest)

module _ {F R : Type 0} (general : F → String) where
  event_conflict : Database R → Event F → Result ApplyError (Option VersionConflict)
  unfolding strict_conflict mode_of event_spec
  event_conflict db event = elim (event_spec event) [
    | none ↦ ok none
    | some s ↦ strict_conflict db event (mode_of general event s)
  ]

  preflight_strict : Database R → List (Event F) → Result ApplyError (Option VersionConflict)
  unfolding event_conflict
  preflight_strict db [] = ok none
  preflight_strict db (event ∷ events) = event_conflict db event >>= λ c. elim c [
    | none ↦ preflight_strict db events
    | some conflict ↦ ok (some conflict)
  ]

-- What a transaction has done so far: `originalVersions` of the touched drafts, the events to log with
-- their merge keys, and the number of skipped events.
pub record ApplyState (F R : Type 0) : Type 0 where
  pub database : Database R
  pub touched : List (String × ℤ)
  pub events_to_log : List (Event F × String)
  pub skipped : ℕ

-- The same event type and merge key. In the code the two are one text, joined by a zero byte.
unfoldable pub same_key : String → String → LoggedEvent → Bool
unfolding column_is
same_key event_type key l = text_eq l.event_type event_type && column_is l.merge_key key

module _ {F : Type 0} where
  unfoldable pub batched : String → String → Event F × String → Bool
  batched event_type key (e, k) = text_eq e.event_type event_type && text_eq k key

  logged_draft : Event F → String
  unfolding string_from
  logged_draft event =
      if text_eq event.draft_id ""
      then string_from (payload_at event "requested_by_draft_id") ""
      else event.draft_id

  unfoldable pub log_row : List (String × ℤ) → Event F × String → LoggedEvent
  unfolding version_in logged_draft
  log_row drafts (event, key) = record {
    event_type = event.event_type;
    merge_key = if text_eq key "" then none else some key;
    draft_id = logged_draft event;
    state_version =
        if text_eq (logged_draft event) "" then none else version_in drafts (logged_draft event);
    created_at = event.created_at;
  }

module _ {R : Type 0} where
  touch : Database R → List (String × ℤ) → List String → Result ApplyError (List (String × ℤ))
  unfolding lookup_draft_version version_in
  touch db touched [] = ok touched
  touch db touched (draft ∷ drafts) = elim (version_in touched draft) [
    | none ↦ lookup_draft_version db draft >>= λ v. touch db (touched ++ (draft, v) ∷ []) drafts
    | some v ↦ touch db touched drafts
  ]

-- The new versions, or the draft whose version is another one by now. The drafts come in the order of the
-- touches, where the code sorts them.
bump_all : List (String × ℤ) → List (String × ℤ) → Result (String × ℤ) (List (String × ℤ))
unfolding bump
bump_all [] drafts = ok drafts
bump_all ((draft, expected) ∷ touched) drafts = elim (bump drafts draft expected) [
  | none ↦ err (draft, expected)
  | some drafts' ↦ bump_all touched drafts'
]

raised : List (String × ℤ) → List (String × ℤ)
raised [] = []
raised ((draft, v) ∷ touched) = (draft, v +ℤ pos 1) ∷ raised touched

module _ {F R : Type 0} where
  -- `existingMergeEvent` and the keys of this batch: an event without a key is no duplicate.
  unfoldable pub is_duplicate : ApplyState F R → String → String → Bool
  unfolding same_key batched
  is_duplicate state event_type key =
      not (text_eq key "")
      && (any (same_key event_type key) state.database.event_log
          || any (batched event_type key) state.events_to_log)

  unfoldable pub handled :
      ApplyState F R
      → Event F
      → String
      → Result String (Database R × List String)
      → Result ApplyError (ApplyState F R)
  unfolding touch
  handled state event key (err e) = err (refused e)
  handled state event key (ok (db, drafts)) = touch db state.touched drafts >>= λ touched.
      ok (record state {
        database = db;
        touched = touched;
        events_to_log = state.events_to_log ++ (event, key) ∷ [];
      })

  -- One turn of the loop of `Apply`, from the event's merge key.
  unfoldable pub apply_one :
      (Event F → Database R → Result String (Database R × List String))
      → ApplyState F R
      → Event F
      → Result String String
      → Result ApplyError (ApplyState F R)
  unfolding is_duplicate handled
  apply_one handle state event (err e) = err (refused e)
  apply_one handle state event (ok key) =
      if is_duplicate state event.event_type key
      then ok (record state { skipped = suc state.skipped })
      else handled state event key (handle event state.database)

  -- The version updates and the log, at the end of the transaction.
  finished :
      Database R
      → ApplyState F R
      → Result (String × ℤ) (List (String × ℤ))
      → Result ApplyError (Database R × Outcome)
  unfolding raised log_row lookup_draft_version
  finished before state (ok drafts) = ok (
    record state.database {
      drafts = drafts;
      event_log = state.database.event_log ++ map (log_row drafts) state.events_to_log;
    },
    applied (raised state.touched) state.skipped,
  )
  finished before state (err (draft, expected)) =
      lookup_draft_version state.database draft >>= λ actual. ok (
        before,
        version_conflict (record {
          draft_id = draft;
          expected_base_version = some expected;
          actual_state_version = actual;
          event_type = "DraftStateUpdate";
        }),
      )

  finish : Database R → ApplyState F R → Result ApplyError (Database R × Outcome)
  unfolding bump_all finished
  finish before state = finished before state (bump_all state.touched state.database.drafts)

  started : Database R → ApplyState F R
  started db = record { database = db; touched = []; events_to_log = []; skipped = 0 }

lift_lease : Result LeaseError (Unit {0}) → Result ApplyError (Unit {0})
lift_lease (ok u) = ok u
lift_lease (err e) = err (not_admitted e)

module _ {F R : Type 0} (general : F → String)
    (handle : Event F → Database R → Result String (Database R × List String)) where
  apply_each : ApplyState F R → List (Event F) → Result ApplyError (ApplyState F R)
  unfolding apply_one merge_key
  apply_each state [] = ok state
  apply_each state (event ∷ events) =
      apply_one handle state event (merge_key general event) >>= λ state'. apply_each state' events

  -- From the answer of the version check.
  apply_checked :
      Database R
      → List (Event F)
      → Option VersionConflict
      → Result ApplyError (Database R × Outcome)
  unfolding apply_each finish started
  apply_checked db events (some conflict) = ok (db, version_conflict conflict)
  apply_checked db events none = apply_each (started db) events >>= finish db

  unfoldable pub apply_normal :
      Database R → List (Event F) → Result ApplyError (Database R × Outcome)
  unfolding preflight_strict apply_checked
  apply_normal db events = preflight_strict general db events >>= apply_checked db events

  -- The option Validate, which can refuse the database at the end, is nil here. `clock` and the leases
  -- are what the admission of timeline writes reads.
  unfoldable pub apply :
      Options → Leases → ℤ → Database R → List (Event F) → Result ApplyError (Database R × Outcome)
  unfolding valid_actor normalize validate_timeline_write_admission lift_lease apply_normal
  apply options leases clock db events =
      refuse_if (not (valid_actor options.actor)) (refused "reducer actor 无效")
      >> normalize general options events
      >>= λ normalized.
          lift_lease (
            validate_timeline_write_admission leases clock normalized options.actor
              options.admission)
          >> apply_normal db normalized

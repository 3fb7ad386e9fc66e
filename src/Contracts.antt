-- ===== src/Contracts.antt =====
-- The domain events that the parts of the server exchange: go/internal/contracts/events.go.
-- An event is what a caller hands to the reducer; the registry says which fields name it and how it
-- meets a concurrent change.
use rushes.Base.{
  String, ℕ, Bool, true, false, ℤ, List, Option, none, some, [], ◌∷◌, Result, ok, err, refuse_if,
  ◌>>◌, ◌&&◌, ◌||◌, not, text_eq, ◌<>◌, itoa, ◌++◌, ◌/◌, ◌%◌, ◌==◌, if◌then◌else◌,
}
use rushes.Value.{Any, Fields, value_at}

pub data VersionMode : Type 0 where
  version_strict : VersionMode
  version_merge : VersionMode

pub data Actor : Type 0 where
  actor_user : Actor
  actor_agent : Actor
  actor_job : Actor
  other_actor : String → Actor

unfoldable pub valid_actor : Actor → Bool
valid_actor (other_actor s) = false
valid_actor _ = true

pub record EventSpec : Type 0 where
  pub mode : VersionMode
  pub workspace_scope_mode : Option VersionMode
  pub merge_keys : List String
  pub optional_merge_keys : List String
  pub draft_scope : Bool
  pub routes : ℕ

abbrev pub route_workspace : ℕ
route_workspace = 1

abbrev pub route_draft : ℕ
route_draft = 2

abbrev both_routes : ℕ
both_routes = 3

-- `routes & route != 0`, for a route of one bit.
unfoldable pub includes : ℕ → ℕ → Bool
includes routes route = not ((routes / route) % 2 == 0)

abbrev spec : VersionMode → List String → List String → Bool → ℕ → EventSpec
spec m keys optional scoped routes = record {
  mode = m;
  workspace_scope_mode = none;
  merge_keys = keys;
  optional_merge_keys = optional;
  draft_scope = scoped;
  routes = routes;
}

abbrev decision_spec : EventSpec
decision_spec = record {
  mode = version_strict;
  workspace_scope_mode = some version_merge;
  merge_keys = "decision_id" ∷ [];
  optional_merge_keys = [];
  draft_scope = true;
  routes = route_draft;
}

abbrev timeline_spec : EventSpec
timeline_spec = spec version_strict [] [] true route_draft

abbrev understanding_spec : EventSpec
understanding_spec =
    spec version_merge ("asset_id" ∷ []) ("job_id" ∷ "attempt" ∷ []) false both_routes

abbrev job_spec : EventSpec
job_spec = spec version_merge ("job_id" ∷ []) [] false both_routes

abbrev artifact_spec : EventSpec
artifact_spec = spec version_merge ("timeline_version" ∷ "artifact_id" ∷ []) [] true route_draft

abbrev draft_spec : EventSpec
draft_spec = spec version_merge ("draft_id" ∷ []) [] true both_routes

abbrev link_spec : EventSpec
link_spec = spec version_merge ("draft_id" ∷ "asset_id" ∷ []) [] true both_routes

unfoldable pub event_registry : List (String × EventSpec)
event_registry =
    ("DraftCreated", draft_spec)
    ∷ ("DraftRenamed", spec version_merge ("draft_id" ∷ "name" ∷ []) [] true both_routes)
    ∷ ("DraftCopied", draft_spec)
    ∷ ("DraftTrashed", draft_spec)
    ∷ ("AssetImported", spec version_merge ("asset_id" ∷ "job_id" ∷ []) [] false both_routes)
    ∷ ("AssetProbed", spec version_merge ("asset_id" ∷ []) [] false both_routes)
    ∷ ("AssetLinked", link_spec)
    ∷ ("AssetUnlinked", link_spec)
    ∷ ("MaterialUnderstandingStarted", understanding_spec)
    ∷ ("MaterialUnderstandingCompleted", understanding_spec)
    ∷ ("MaterialUnderstandingFailed", understanding_spec)
    ∷ ("DecisionCreated", decision_spec)
    ∷ ("DecisionAnswered", decision_spec)
    ∷ ("ConversationContextCleared", timeline_spec)
    ∷ ("TimelineVersionCreated", timeline_spec)
    ∷ ("TimelineVersionRestored", timeline_spec)
    ∷ ("TimelineValidated", timeline_spec)
    ∷ ("TimelineValidationFailed", timeline_spec)
    ∷ ("PreviewRendered", artifact_spec)
    ∷ ("ExportCompleted", artifact_spec)
    ∷ ("JobEnqueued", job_spec)
    ∷ ("JobSucceeded", job_spec)
    ∷ ("JobFailed", job_spec)
    ∷ ("JobCancelled", job_spec)
    ∷ (
      "ProxyGenerated",
      spec version_merge ("asset_id" ∷ "proxy_object_hash" ∷ []) [] false both_routes,
    )
    ∷ (
      "PeaksGenerated",
      spec version_merge ("asset_id" ∷ "peaks_object_hash" ∷ []) [] false both_routes,
    )
    ∷ (
      "JobProgress",
      spec version_merge ("job_id" ∷ "progress" ∷ []) ("update_id" ∷ []) false both_routes,
    )
    ∷ ("PreviewViewed", spec version_merge ("preview_id" ∷ []) [] true route_draft)
    ∷ []

-- `None` for the payload is Go's nil map.
pub record Event (F : Type 0) : Type 0 where
  pub event_type : String
  pub actor : Actor
  pub draft_id : String
  pub base_version : Option ℤ
  pub payload : Option (Fields F)
  pub created_at : String

unfoldable pub spec_in : String → List (String × EventSpec) → Option EventSpec
spec_in name [] = none
spec_in name ((key, s) ∷ rest) = if text_eq key name then some s else spec_in name rest

module _ {F : Type 0} where
  unfoldable pub event_spec : Event F → Option EventSpec
  unfolding spec_in event_registry
  event_spec event = spec_in event.event_type event_registry

  -- `event.Payload[key]`, nil for a nil map.
  abbrev pub payload_at : Event F → String → Any F
  payload_at event key = elim event.payload [ none ↦ Any.null | some m ↦ value_at key m ]

-- The parameter is the text that `fmt.Sprintf("%g", x)` gives for a float.
module _ {F : Type 0} (general : F → String) where
  unfoldable pub string_value : Any F → String
  string_value (Any.str s) = s
  string_value (Any.float64 x) = general x
  string_value (Any.float32 x) = general x
  string_value (Any.int n) = itoa n
  string_value (Any.int64 n) = itoa n
  string_value _ = ""

  unfoldable pub value_for_key : Event F → String → String
  unfolding string_value
  value_for_key event key =
      if text_eq key "draft_id" then event.draft_id else string_value (payload_at event key)

  abbrev workspace_scoped : Event F → Bool
  workspace_scoped event = text_eq (string_value (payload_at event "scope_type")) "workspace"

  unfoldable pub mode_of : Event F → EventSpec → VersionMode
  unfolding string_value
  mode_of event s =
      if workspace_scoped event
      then elim s.workspace_scope_mode [ none ↦ s.mode | some m ↦ m ]
      else s.mode

  unfoldable pub version_mode : Event F → Option VersionMode
  unfolding mode_of event_spec
  version_mode event = elim (event_spec event) [ none ↦ none | some s ↦ some (mode_of event s) ]

  check_restored : Event F → Result String (Unit {0})
  unfolding string_value
  check_restored event =
      let mode = string_value (payload_at event "mode") in
      refuse_if
        (text_eq (string_value (payload_at event "checkpoint_id")) ""
          || text_eq (string_value (payload_at event "restore_checkpoint_id")) "")
        "事件 TimelineVersionRestored 缺少 checkpoint_id"
      >> refuse_if
          (not (text_eq mode "timeline")
            && not (text_eq mode "conversation")
            && not (text_eq mode "both"))
          "事件 TimelineVersionRestored mode 无效"
      >> refuse_if
          (not (text_eq mode "conversation")
            && text_eq (string_value (payload_at event "timeline_version")) "")
          "事件 TimelineVersionRestored 缺少 timeline_version"

  -- The loop over the merge keys stops at the first one that has no value.
  check_keys : Event F → List String → Result String (Unit {0})
  unfolding value_for_key
  check_keys event [] = ok tt
  check_keys event (key ∷ keys) =
      let rest = check_keys event keys in
      if text_eq (value_for_key event key) ""
      then err ("事件 " <> event.event_type <> " 缺少 merge key " <> key)
      else rest

  check_event : Event F → EventSpec → Result String (Unit {0})
  unfolding valid_actor string_value check_keys check_restored
  check_event event s =
      refuse_if (not (valid_actor event.actor)) ("事件 " <> event.event_type <> " 的 actor 无效")
      >> refuse_if (elim event.payload [ none ↦ true | some m ↦ false ])
          ("事件 " <> event.event_type <> " 缺少 payload")
      >> refuse_if (s.draft_scope && text_eq event.draft_id "" && not (workspace_scoped event))
          ("事件 " <> event.event_type <> " 缺少 draft_id")
      >> check_keys event s.merge_keys
      >> (if text_eq event.event_type "TimelineVersionRestored"
          then check_restored event
          else ok tt)

  unfoldable pub validate_event : Event F → Result String (Unit {0})
  unfolding event_spec check_event
  validate_event event = elim (event_spec event) [
    | none ↦ err ("未知领域事件 " <> event.event_type)
    | some s ↦ check_event event s
  ]

  -- `strings.Join(parts, "\x1f")`.
  abbrev join : List String → String
  join [] = ""
  join (part ∷ []) = part
  join (part ∷ next ∷ parts) = part <> "\u{1f}" <> join (next ∷ parts)

  required_parts : Event F → List String → List String
  unfolding value_for_key
  required_parts event [] = []
  required_parts event (key ∷ keys) =
      (key <> "=" <> value_for_key event key) ∷ required_parts event keys

  optional_parts : Event F → List String → List String
  unfolding value_for_key
  optional_parts event [] = []
  optional_parts event (key ∷ keys) =
      let rest = optional_parts event keys in
      if text_eq (value_for_key event key) ""
      then rest
      else (key <> "=" <> value_for_key event key) ∷ rest

  key_text : Event F → EventSpec → String
  unfolding required_parts optional_parts
  key_text event s =
      join (required_parts event s.merge_keys ++ optional_parts event s.optional_merge_keys)

  unfoldable pub key_in_mode : VersionMode → Event F → EventSpec → String
  unfolding key_text
  key_in_mode version_strict event s = ""
  key_in_mode version_merge event s = elim s.merge_keys [ [] ↦ "" | _ ∷ _ ↦ key_text event s ]

  unfoldable pub merge_key_of : Event F → EventSpec → String
  unfolding mode_of key_in_mode
  merge_key_of event s = key_in_mode (mode_of event s) event s

  unfoldable pub merge_key : Event F → Result String String
  unfolding event_spec merge_key_of
  merge_key event = elim (event_spec event) [
    | none ↦ err "事件未注册"
    | some s ↦ ok (merge_key_of event s)
  ]

  unfoldable pub routes_to_workspace : Event F → Bool
  unfolding event_spec includes
  routes_to_workspace event = elim (event_spec event) [
    | none ↦ false
    | some s ↦ includes s.routes route_workspace
  ]

  unfoldable pub routes_to_draft : Event F → String → Bool
  unfolding event_spec includes string_value
  routes_to_draft event draft_id = elim (event_spec event) [
    | none ↦ false
    | some s ↦
        includes s.routes route_draft
        && (text_eq event.draft_id draft_id
            || text_eq (string_value (payload_at event "requested_by_draft_id")) draft_id)
  ]

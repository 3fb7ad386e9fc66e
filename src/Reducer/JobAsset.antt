-- ===== src/Reducer/JobAsset.antt =====
-- Which asset the event of an understand job is about: go/internal/reducer/reducer.go
-- (reconcileUnderstandJobAsset). What it then writes into the table assets is not modelled. Go's decoder
-- also takes the key asset_ids in another letter case; here the key is the exact one.
use rushes.Base.{
  String, Bool, false, List, Option, none, some, [], ◌∷◌, Result, ok, err, refuse_if, ◌>>◌, not,
  text_eq, any, trim_space, if◌then◌else◌,
}
use rushes.Value.{Any, Items, value_at}
use rushes.Jobs.{Job}

pub data AssetError : Type 0 where
  missing_asset : AssetError
  payload_invalid : AssetError

is_blank : String → Bool
is_blank s = text_eq (trim_space s) ""

-- The assets of a row of an older version, which stand in its payload.
legacy_assets : Option (List String) → Result AssetError (Unit {0})
unfolding is_blank
legacy_assets none = err payload_invalid
legacy_assets (some ids) = refuse_if (not (any (λ s. not (is_blank s)) ids)) missing_asset

module _ {F : Type 0} where
  -- An element of a decoded `[]string`: null leaves the empty text.
  element : Any F → Option String
  element (Any.str s) = some s
  element Any.null = some ""
  element _ = none

  elements : Items F → Option (List String)
  unfolding element
  elements Items.no_items = some []
  elements (Items.item v rest) = elim (element v) [
    | none ↦ none
    | some s ↦ elim (elements rest) [ none ↦ none | some ss ↦ some (s ∷ ss) ]
  ]

  -- `json.Unmarshal` of `asset_ids`.
  string_list : Any F → Option (List String)
  unfolding elements
  string_list Any.null = some []
  string_list (Any.strings ss) = some ss
  string_list (Any.items vs) = elements vs
  string_list _ = none

  has_asset : Job F → Bool
  unfolding is_blank
  has_asset job = elim job.asset_id [ none ↦ false | some id ↦ not (is_blank id) ]

  -- The flag says that the event is JobEnqueued.
  unfoldable pub reconcile_understand_job_asset : Bool → Job F → Result AssetError (Unit {0})
  unfolding has_asset legacy_assets string_list value_at
  reconcile_understand_job_asset enqueued job =
      if not (text_eq job.kind "understand")
      then ok tt
      else if has_asset job
      then ok tt
      else refuse_if enqueued missing_asset
        >> legacy_assets (string_list (value_at "asset_ids" job.payload))

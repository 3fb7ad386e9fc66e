-- ===== src/Timeline/Clone.antt =====
-- The deep copy through JSON: go/internal/timeline/timeline.go (clone), with what `encoding/json` does
-- to the values that a document holds: integers become `float64`, an empty metadata map is left out,
-- and a value that is NaN or infinite is an error.
pub mod Coverage
pub mod Tracks
use rushes.Base.{
  ℕ, String, List, [], ◌∷◌, ◌++◌, Option, none, some, if◌then◌else◌, Result, ok, err, ◌>>=◌, length,
}
use rushes.Float.{Floats, is_finite}
use rushes.Value.{
  Any, null, str, bool, int, int64, float32, float64, strings, items, object, Items, no_items, item,
  Fields, no_fields, field,
}
use rushes.Timeline.Types.{Clip, Track, TrackDucking, Document, Heap}
use rushes.Timeline.Errors.{Error, plain}
use rushes.Timeline.Metadata.{deref}

module _ {F : Type 0} ⦃fl : Floats F⦄ where
  open fl use {of_int, reparse}

  json_float : F → Result Error F
  json_float x = if is_finite x then ok x else err (plain "json: unsupported value")

  text_items : List String → Items F
  text_items [] = no_items
  text_items (s ∷ ss) = item (str s) (text_items ss)

  unfoldable mutual
    unfolding json_float text_items

    -- A value after it is encoded and decoded.
    pub json_any : Any F → Result Error (Any F)
    json_any null = ok null
    json_any (str s) = ok (str s)
    json_any (bool b) = ok (bool b)
    json_any (int n) = ok (float64 (of_int n))
    json_any (int64 n) = ok (float64 (of_int n))
    json_any (float32 x) = json_float x >>= λ y. ok (float64 (reparse y))
    json_any (float64 x) = json_float x >>= λ y. ok (float64 y)
    json_any (strings xs) = ok (items (text_items xs))
    json_any (items xs) = json_items xs >>= λ ys. ok (items ys)
    json_any (object m) = json_fields m >>= λ n. ok (object n)

    pub json_items : Items F → Result Error (Items F)
    json_items no_items = ok no_items
    json_items (item v rest) = json_any v >>= λ w. json_items rest >>= λ ys. ok (item w ys)

    pub json_fields : Fields F → Result Error (Fields F)
    json_fields no_fields = ok no_fields
    json_fields (field k v m) = json_any v >>= λ w. json_fields m >>= λ n. ok (field k w n)

  -- `metadata,omitempty`: nil and the empty map come back as nil, any other map as a new one.
  clone_metadata : Option ℕ → Heap F → Heap F → Result Error (Option ℕ × Heap F)
  clone_metadata none old heap = ok (none, heap)
  clone_metadata (some p) old heap = elim (deref old p) [
    | no_fields ↦ ok (none, heap)
    | field k v m ↦ json_fields (field k v m) >>= λ n. ok (some (length heap), heap ++ (n ∷ []))
  ]

  clone_effects : List (Fields F) → Result Error (List (Fields F))
  clone_effects [] = ok []
  clone_effects (m ∷ ms) = json_fields m >>= λ n. clone_effects ms >>= λ ns. ok (n ∷ ns)

  clone_clip : Clip F → Heap F → Heap F → Result Error (Clip F × Heap F)
  unfolding clone_metadata clone_effects json_float
  clone_clip c old heap = do
    rate ← json_float c.playback_rate
    gain ← json_float c.gain_db
    effects ← clone_effects c.effects
    (metadata, heap') ← clone_metadata c.metadata old heap
    ok (
      record c { playback_rate = rate; gain_db = gain; effects = effects; metadata = metadata },
      heap',
    )

  clone_clips : List (Clip F) → Heap F → Heap F → Result Error (List (Clip F) × Heap F)
  unfolding clone_clip
  clone_clips [] old heap = ok ([], heap)
  clone_clips (c ∷ cs) old heap = do
    (c', heap₁) ← clone_clip c old heap
    (cs', heap₂) ← clone_clips cs old heap₁
    ok (c' ∷ cs', heap₂)

  clone_ducking : Option (TrackDucking F) → Result Error (Option (TrackDucking F))
  unfolding json_float
  clone_ducking none = ok none
  clone_ducking (some k) = json_float k.duck_db >>= λ x. ok (some (record k { duck_db = x }))

  clone_tracks : List (Track F) → Heap F → Heap F → Result Error (List (Track F) × Heap F)
  unfolding clone_clips clone_ducking json_float
  clone_tracks [] old heap = ok ([], heap)
  clone_tracks (t ∷ ts) old heap = do
    gain ← json_float t.gain_db
    ducking ← clone_ducking t.ducking
    (clips, heap₁) ← clone_clips t.clips old heap
    (ts', heap₂) ← clone_tracks ts old heap₁
    ok (record t { clips = clips; gain_db = gain; ducking = ducking } ∷ ts', heap₂)

  unfoldable pub clone : Document F → Heap F → Result Error (Document F × Heap F)
  unfolding clone_tracks
  clone d heap = do
    (tracks, heap') ← clone_tracks d.tracks heap []
    ok (record d { tracks = tracks }, heap')

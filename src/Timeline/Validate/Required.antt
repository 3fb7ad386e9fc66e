-- ===== src/Timeline/Validate/Required.antt =====
-- Documents that were stored before a track became required: go/internal/timeline/store.go
-- (ensureRequiredTracks) and timeline.go (Validate).
use rushes.Base.{
  String, Bool, true, false, List, [], ◌∷◌, ◌++◌, ◌≡◌, refl, subst, arith, All, any, Bool-cases,
  inl, inr, text_eq, text_eq_refl, ◌||◌,
}
use mathlib.Core.List.{append_assoc}
use rushes.Float.{Floats}
use rushes.Timeline.Types.{
  Track, Document, required_tracks, empty_track, missing_tracks, ensure_required_tracks,
}
use rushes.Timeline.Validate.{missing_issues}

or_true_right : (a b : Bool) → b ≡ true → (a || b) ≡ true
or_true_right a b e = ground arith

any-append_left {ℓ} :
    {A : Type ℓ} (p : A → Bool) (xs ys : List A) → any p xs ≡ true → any p (xs ++ ys) ≡ true
any-append_left p [] ys e = cc
any-append_left p (x ∷ xs) ys e = elim (Bool-cases (p x)) [
  | inl found ↦ rw found refl
  | inr other ↦ rw other (any-append_left p xs ys (rw other at e))
]

any-append_right {ℓ} :
    {A : Type ℓ} (p : A → Bool) (xs ys : List A) → any p ys ≡ true → any p (xs ++ ys) ≡ true
any-append_right p [] ys e = e
any-append_right p (x ∷ xs) ys e = or_true_right (p x) _ (any-append_right p xs ys e)

module _ {F : Type 0} ⦃fl : Floats F⦄ where
  abbrev named : String → Track F → Bool
  named id t = text_eq t.track_id id

  IsThere : List (Track F) → String × String → Type 0
  IsThere ts r = any (named r.0) ts ≡ true

  missing-old :
      (ts : List (Track F)) (id type : String) (rs : List (String × String))
      → any (named id) ts ≡ true
      → missing_tracks ts rs ≡ missing_tracks ts ((id, type) ∷ rs)
  unfolding missing_tracks
  missing-old ts id type rs e = rw e refl

  missing-new :
      (ts : List (Track F)) (id type : String) (rs : List (String × String))
      → any (named id) ts ≡ false
      → empty_track (id, type) ∷ missing_tracks ts rs ≡ missing_tracks ts ((id, type) ∷ rs)
  unfolding missing_tracks
  missing-new ts id type rs e = rw e refl

  -- Tracks before the added ones do no harm.
  missing_tracks-IsThere :
      (ts xs : List (Track F)) (rs : List (String × String))
      → All (IsThere (ts ++ (xs ++ missing_tracks ts rs))) rs
  unfolding IsThere
  missing_tracks-IsThere ts xs [] = tt
  missing_tracks-IsThere ts xs ((id, type) ∷ rs) = elim (Bool-cases (any (named id) ts)) [
    | inl old ↦
        subst (λ added. All (IsThere (ts ++ (xs ++ added))) ((id, type) ∷ rs))
          (missing-old ts id type rs old)
          (any-append_left (named id) ts _ old, missing_tracks-IsThere ts xs rs)
    | inr new ↦
        let t : Track F = empty_track (id, type) in
        subst (λ added. All (IsThere (ts ++ (xs ++ added))) ((id, type) ∷ rs))
          (missing-new ts id type rs new)
          (
            any-append_right (named id) ts _ (
                any-append_right (named id) xs (t ∷ missing_tracks ts rs)
                  (rw (text_eq_refl id) refl)),
            subst (λ all. All (IsThere (ts ++ all)) rs)
                (append_assoc xs (t ∷ []) (missing_tracks ts rs))
                (missing_tracks-IsThere ts (xs ++ (t ∷ [])) rs),
          )
  ]

  missing_issues-none :
      (ts : List (Track F)) (rs : List (String × String))
      → All (IsThere ts) rs
      → missing_issues ts rs ≡ []
  unfolding missing_issues IsThere
  missing_issues-none ts [] h = refl
  missing_issues-none ts ((id, type) ∷ rs) (e, h) = rw (e, missing_issues-none ts rs h) refl

  -- The check of `Validate` for missing tracks finds nothing in a document after
  -- `ensureRequiredTracks`, whatever tracks the document had.
  pub ensure_required_tracks-missing_issues :
      (d : Document F) → missing_issues (ensure_required_tracks d).tracks required_tracks ≡ []
  unfolding ensure_required_tracks
  ensure_required_tracks-missing_issues d =
      missing_issues-none (ensure_required_tracks d).tracks required_tracks
        (missing_tracks-IsThere d.tracks [] required_tracks)

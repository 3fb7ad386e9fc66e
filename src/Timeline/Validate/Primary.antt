-- ===== src/Timeline/Validate/Primary.antt =====
-- What the check of the primary track says: go/internal/timeline/timeline.go (Validate).
use rushes.Base.{
  String, Bool, true, false, ℤ, pos, List, [], ◌∷◌, ◌++◌, Option, none, some, ◌≡◌, refl, sym, arith,
  All, ◌==ℤ◌, ==ℤ→eq, ==ℤ_refl, not, text_eq, member, length, ℕ, suc, ◌==◌, stable_sort,
  if◌then◌else◌,
}
use rushes.Float.{Floats, outside}
use rushes.Timeline.Types.{Clip, Track, Document, required_tracks}
use rushes.Timeline.Reorder.{by_start}
use rushes.Timeline.Spans.{Covers}
use rushes.Timeline.Spans.Reorder.{HasLength, total, by_start-Sized}
use rushes.Timeline.Validate.{
  Issues, issue_if, coverage_issues, visual_kind, clip_issues, clips_issues, note_id, note_ids,
  track_issues, bad_clip_range, last_track, primary_issues, document_issues, missing_issues,
  ducking_issues, validate, all_issues,
}

issue_if-none : (bad : Bool) (code message : String) → issue_if bad code message ≡ [] → bad ≡ false
issue_if-none false code message e = refl
issue_if-none true code message e = cc

append-none : (xs ys : Issues) → xs ++ ys ≡ [] → (xs ≡ []) × (ys ≡ [])
append-none [] ys e = (refl, e)
append-none (x ∷ xs) ys e = cc

not-false : (b : Bool) → not b ≡ false → b ≡ true
not-false b e = ground arith

no_issues : (xs : Issues) → elim xs [ [] ↦ true | _ ∷ _ ↦ false ] ≡ true → xs ≡ []
no_issues [] e = refl
no_issues (x ∷ xs) e = cc

suc_not_zero : (n : ℕ) → (suc n == 0) ≡ false
suc_not_zero n = ground arith

module _ {F : Type 0} ⦃fl : Floats F⦄ where
  -- Clips in order that each have a length: the walk over them finds nothing exactly if they are
  -- pictures or videos and cover the range from the cursor to the end without a gap or an overlap.
  pub coverage_issues-Covers :
      (duration cursor : ℤ) (cs : List (Clip F))
      → All HasLength cs
      → coverage_issues duration cursor cs ≡ []
      → Covers cursor cs duration
  unfolding coverage_issues
  coverage_issues-Covers duration cursor [] p e =
      ==ℤ→eq cursor duration (not-false _ (issue_if-none _ _ _ e))
  coverage_issues-Covers duration cursor (c ∷ cs) (l, p) e =
      let (_, rest) = append-none _ _ e in
      let (gap, later) = append-none _ _ rest in
      let starts = ==ℤ→eq _ _ (not-false _ (issue_if-none _ _ _ gap)) in
      (starts, rw (sym starts) l, coverage_issues-Covers duration c.timeline_end_frame cs p later)

  Covers-coverage_issues :
      (duration cursor : ℤ) (cs : List (Clip F))
      → All (λ c. visual_kind c ≡ true) cs
      → Covers cursor cs duration
      → coverage_issues duration cursor cs ≡ []
  unfolding coverage_issues
  Covers-coverage_issues duration cursor [] k p = rw (p, ==ℤ_refl duration) refl
  Covers-coverage_issues duration cursor (c ∷ cs) (v, k) (s, l, p) =
      rw (v, s, ==ℤ_refl cursor) (Covers-coverage_issues duration c.timeline_end_frame cs k p)

  clip_issues-HasLength :
      (d : Document F) (t : Track F) (seen : List String) (c : Clip F)
      → clip_issues d t seen c ≡ []
      → HasLength c
  unfolding clip_issues
  clip_issues-HasLength d t seen c e =
      let (_, after_id) = append-none _ _ e in
      let (_, after_track) = append-none _ _ after_id in
      let (range, _) = append-none _ _ after_track in
      in_range c (issue_if-none (bad_clip_range d c) _ _ range)
    where
      in_range : (c : Clip F) → bad_clip_range d c ≡ false → HasLength c
      in_range c fine = ground arith

  clips_issues-HasLength :
      (d : Document F) (t : Track F) (seen : List String) (cs : List (Clip F))
      → clips_issues d t seen cs ≡ []
      → All HasLength cs
  unfolding clips_issues
  clips_issues-HasLength d t seen [] e = tt
  clips_issues-HasLength d t seen (c ∷ cs) e =
      let (own, others) = append-none _ _ e in
      (clip_issues-HasLength d t seen c own, clips_issues-HasLength d t (note_id c seen) cs others)

  abbrev ClipsHaveLength : Track F → Type 0
  ClipsHaveLength t = All HasLength t.clips

  track_issues-HasLength :
      (d : Document F) (ids seen : List String) (ts : List (Track F))
      → track_issues d ids seen ts ≡ []
      → All ClipsHaveLength ts
  unfolding track_issues
  track_issues-HasLength d ids seen [] e = tt
  track_issues-HasLength d ids seen (t ∷ ts) e =
      let (_, after_id) =
        append-none (issue_if (member t.track_id ids) "duplicate_track" t.track_id) _ e in
      let (_, after_gain) =
        append-none
          (issue_if (outside (ℤ.negsuc 59) (pos 12) t.gain_db) "invalid_track_gain" t.track_id) _
          after_id in
      let (_, after_ducking) = append-none (ducking_issues t.track_id t.ducking) _ after_gain in
      let (clips, others) = append-none _ _ after_ducking in
      (
        clips_issues-HasLength d t seen t.clips clips,
        track_issues-HasLength d (t.track_id ∷ ids) (note_ids t.clips seen) ts others,
      )

  FoundHasLength : Option (Track F) → Type 0
  FoundHasLength none = Unit {0}
  FoundHasLength (some t) = ClipsHaveLength t

  last_track-HasLength :
      (id : String) (ts : List (Track F))
      → All ClipsHaveLength ts
      → FoundHasLength (last_track id ts)
  unfolding last_track FoundHasLength
  last_track-HasLength id [] h = tt
  last_track-HasLength id (t ∷ ts) (p, h) =
      pick (text_eq t.track_id id) (last_track id ts) (last_track-HasLength id ts h)
    where
      pick :
          (b : Bool) (later : Option (Track F))
          → FoundHasLength later
          → FoundHasLength
              (elim later [ some later ↦ some later | none ↦ if b then some t else none ])
      pick b (some later) q = q
      pick true none q = p
      pick false none q = tt

  clips-Covers :
      (duration : ℤ) (cs : List (Clip F))
      → All HasLength cs
      → (if length cs == 0
          then issue_if (not (duration ==ℤ pos 0)) "empty_primary_visual" "主视觉轨没有 clip"
          else coverage_issues duration (pos 0) (by_start cs))
        ≡ []
      → Covers (pos 0) (by_start cs) duration
  unfolding stable_sort
  clips-Covers duration [] h e = sym (==ℤ→eq duration (pos 0) (not-false _ (issue_if-none _ _ _ e)))
  clips-Covers duration (c ∷ cs) h e =
      coverage_issues-Covers duration (pos 0) (by_start (c ∷ cs))
        (by_start-Sized (c ∷ cs) (total (c ∷ cs)) (h, refl)).0 (rw (suc_not_zero (length cs)) at e)

  -- A primary track to which the check has no objection.
  primary_issues-Covers :
      (d : Document F) (o : Option (Track F))
      → FoundHasLength o
      → primary_issues d o ≡ []
      → (t : Track F) × (o ≡ some t) × Covers (pos 0) (by_start t.clips) d.duration_frames
  unfolding primary_issues FoundHasLength
  primary_issues-Covers d none h e = cc
  primary_issues-Covers d (some t) h e = (t, refl, clips-Covers d.duration_frames t.clips h e)

  -- A document that `Validate` calls valid has a primary track, and the clips of the last one, in the
  -- order of their starts, play from frame 0 to the document's end without a gap or an overlap.
  pub validate-Covers :
      (d : Document F)
      → (validate d).valid ≡ true
      → (t : Track F) × (last_track "visual_base" d.tracks ≡ some t)
        × Covers (pos 0) (by_start t.clips) d.duration_frames
  unfolding validate all_issues
  validate-Covers d e =
      let (_, after_document) = append-none (document_issues d) _ (no_issues (all_issues d) e) in
      let (tracks, after_tracks) = append-none (track_issues d [] [] d.tracks) _ after_document in
      let (_, after_missing) =
        append-none (missing_issues d.tracks required_tracks) _ after_tracks in
      let (primary, _) =
        append-none (primary_issues d (last_track "visual_base" d.tracks)) _ after_missing in
      primary_issues-Covers d (last_track "visual_base" d.tracks)
        (last_track-HasLength "visual_base" d.tracks
          (track_issues-HasLength d [] [] d.tracks tracks))
        primary

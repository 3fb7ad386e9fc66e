-- ===== src/Timeline/Patch/Coverage.antt =====
-- Edits and the primary track: go/internal/timeline/timeline.go (ApplyPatch).
use rushes.Base.{
  String, true, false, List, [], ◌∷◌, ◌≡◌, refl, ◌⊎◌, inl, inr, text_eq, text_eq_iff, member,
  Bool-cases, All, IfOk-any, IfOk-bind, ◌≤◌, subst, IfOk, ok, err, ◌∙◌, arith,
}
use rushes.Float.{Floats}
use rushes.Value.{Fields, text_at}
use rushes.Timeline.Types.{Document, Heap}
use rushes.Timeline.Lookup.{Outcome}
use rushes.Timeline.Insert.{insert_clip, remove_track_clips}
use rushes.Timeline.Tracks.{ids, LeavesTracks, KeepsTracks, same_primaries}
use rushes.Timeline.Clone.Tracks.{clone-tracks}
use rushes.Timeline.Settings.Tracks.{
  clamp_clip_fades-ids, set_track_state-tracks, set_track_ducking-tracks,
  update_editable_clip-tracks, set_clip_fades-tracks,
}
use rushes.Timeline.Split.Tracks.{split_clip-tracks}
use rushes.Timeline.Reorder.Tracks.{reorder_clip-tracks}
use rushes.Timeline.Trim.Tracks.{trim_clip_edge-tracks}
use rushes.Timeline.Move.Tracks.{set_clip_linked-tracks}
use rushes.Timeline.Insert.Tracks.{
  insert_clip-tracks, insert_subtitle-tracks, replace_clip-tracks, remove_track_clips-tracks,
}
use rushes.Timeline.Ripple.Tracks.{delete_range-tracks}
use rushes.Timeline.SourceRange.Tracks.{delete_source_range-tracks}
use rushes.Timeline.Patch.{apply_patch, handle, handlers, dispatch, next_version}
use rushes.Timeline.Catalog.{validate_op_fields}
use rushes.Timeline.Clone.{clone}
use rushes.Timeline.Coverage.{IsCovered, LeavesCovered, KeepsCoverage, Handler, primaries}
use rushes.Timeline.Clone.Coverage.{IsUsable, clone-IsUsable}
use rushes.Timeline.Settings.Coverage.{
  clamp_clip_fades-IsCovered, set_track_state-IsCovered, set_track_ducking-IsCovered,
  update_editable_clip-IsCovered, gained-UpdatesInPlace, retitled-UpdatesInPlace,
  set_clip_fades-IsCovered,
}
use rushes.Timeline.Settings.{gained, retitled, clamp_clip_fades}
use rushes.Timeline.Split.Coverage.{split_clip-IsCovered}
use rushes.Timeline.Reorder.Coverage.{reorder_clip-IsCovered}
use rushes.Timeline.Trim.Coverage.{trim_clip_edge-IsCovered}
use rushes.Timeline.Move.Coverage.{set_clip_linked-IsCovered}
use rushes.Timeline.Insert.Coverage.{
  insert_clip-IsCovered, insert_subtitle-IsCovered, replace_clip-IsCovered,
  remove_track_clips-IsCovered,
}
use rushes.Timeline.Ripple.Coverage.{delete_range-IsCovered}
use rushes.Timeline.SourceRange.Coverage.{delete_source_range-IsCovered}

-- The kinds of which the theorem says nothing.
abbrev pub left_out : List String
left_out = "trim_clip" ∷ "move_clip" ∷ "delete_clip" ∷ "set_playback_rate" ∷ []

module _ {F : Type 0} ⦃fl : Floats F⦄ where
  -- A result is covered and has the document's tracks, if there is one.
  abbrev LeavesPrimary : Document F → Outcome F → Type 0
  LeavesPrimary d = IfOk λ r. IsCovered r.0 × (ids r.0.tracks ≡ ids d.tracks)

  both : (d : Document F) (m : Outcome F) → LeavesCovered m → LeavesTracks d m → LeavesPrimary d m
  both d (ok r) covered same = (covered, same)
  both d (err e) covered same = tt

  KeepsUsable : Handler F → Type 0
  KeepsUsable handler =
      (d : Document F) (heap : Heap F) (operation : Fields F)
      → IsUsable d
      → LeavesPrimary d (handler d heap operation)

  abbrev Kept : String × Handler F → Type 0
  Kept e = (member e.0 left_out ≡ true) ⊎ KeepsUsable e.1

  dispatch-IsCovered :
      (hs : List (String × Handler F)) (kind : String) (d : Document F) (heap : Heap F)
      (operation : Fields F)
      → All Kept hs
      → member kind left_out ≡ false
      → IsUsable d
      → LeavesPrimary d (dispatch hs kind d heap operation)
  unfolding dispatch KeepsUsable
  dispatch-IsCovered [] kind d heap operation all e u = tt
  dispatch-IsCovered ((k, handler) ∷ hs) kind d heap operation (p, all) e u =
      elim (Bool-cases (text_eq k kind)) [
        | inl same ↦ rw same (chosen same p)
        | inr other ↦ rw other (dispatch-IsCovered hs kind d heap operation all e u)
      ]
    where
      chosen :
          text_eq k kind ≡ true → Kept (k, handler) → LeavesPrimary d (handler d heap operation)
      chosen same (inl out) =
          absurd (cc (subst (λ s. member s left_out ≡ true) ((text_eq_iff k kind).0 same) out, e))
      chosen same (inr keeps) = keeps d heap operation u

module _ (F : Type 0) ⦃fl : Floats F⦄ where
  usable : (handler : Handler F) → KeepsCoverage handler → KeepsTracks handler → KeepsUsable handler
  unfolding KeepsUsable
  usable handler keeps same d heap operation u =
      both d (handler d heap operation) (keeps d heap operation u.0) (same d heap operation)

  handlers-Kept : All Kept (handlers {F = F})
  unfolding text_eq KeepsUsable
  handlers-Kept = (
    inl refl,
    (
      inr (usable _ split_clip-IsCovered split_clip-tracks),
      (
        inr (usable _ reorder_clip-IsCovered reorder_clip-tracks),
        (
          inl refl,
          (
            inr (usable _ trim_clip_edge-IsCovered trim_clip_edge-tracks),
            (
              inl refl,
              (
                inr (usable _ set_track_state-IsCovered set_track_state-tracks),
                (
                  inr (usable _ set_track_ducking-IsCovered set_track_ducking-tracks),
                  (
                    inr (usable _ set_clip_linked-IsCovered set_clip_linked-tracks),
                    (
                      inr (usable _ insert_subtitle-IsCovered insert_subtitle-tracks),
                      (
                        inr (usable _ delete_range-IsCovered delete_range-tracks),
                        (
                          inr (usable _ delete_source_range-IsCovered delete_source_range-tracks),
                          (
                            inr (λ d heap operation u.
                                both d (insert_clip d heap operation)
                                  (insert_clip-IsCovered d heap operation u.1 u.0)
                                  (insert_clip-tracks d heap operation)),
                            (
                              inr (usable _ replace_clip-IsCovered replace_clip-tracks),
                              (
                                inl refl,
                                (
                                  inr (
                                      usable _
                                        (update_editable_clip-IsCovered gained
                                          gained-UpdatesInPlace)
                                        (update_editable_clip-tracks gained)),
                                  (
                                    inr (usable _ set_clip_fades-IsCovered set_clip_fades-tracks),
                                    (
                                      inr (
                                          usable _
                                            (update_editable_clip-IsCovered retitled
                                              retitled-UpdatesInPlace)
                                            (update_editable_clip-tracks retitled)),
                                      (
                                        inr (λ d heap operation u.
                                            both d
                                              (remove_track_clips d heap
                                                (text_at "track_id" operation))
                                              (remove_track_clips-IsCovered d heap
                                                (text_at "track_id" operation) u.0)
                                              (remove_track_clips-tracks d heap
                                                (text_at "track_id" operation))),
                                        tt,
                                      ),
                                    ),
                                  ),
                                ),
                              ),
                            ),
                          ),
                        ),
                      ),
                    ),
                  ),
                ),
              ),
            ),
          ),
        ),
      ),
    ),
  )

module _ {F : Type 0} ⦃fl : Floats F⦄ where
  -- The document has one primary track, which plays from frame 0 to the end without a gap or an overlap.
  pub record HasPrimary (d : Document F) : Type 0 where
    pub only : primaries d.tracks ≡ 1
    pub covered : IsCovered d

  -- An edit of a document that has one primary track, which plays from frame 0 to the end without a gap
  -- or an overlap, leaves a document of which this is true as well, with the same tracks in the same
  -- order, for every kind of operation except `trim_clip`, `move_clip`, `delete_clip` and
  -- `set_playback_rate`.
  pub apply_patch-IsCovered :
      (d : Document F) (heap : Heap F) (operation : Fields F)
      → member (text_at "kind" operation) left_out ≡ false
      → HasPrimary d
      → IfOk (λ r. HasPrimary r.0 × (ids r.0.tracks ≡ ids d.tracks)) (apply_patch d heap operation)
  unfolding apply_patch handle next_version
  apply_patch-IsCovered d heap operation e h = IfOk-any _ (validate_op_fields operation) _ λ _ _.
      IfOk-bind (λ r. IsUsable r.0 × (ids r.0.tracks ≡ ids d.tracks)) _ (clone d heap) _
        (copied d heap (clone d heap) (clone-IsUsable d heap (h.covered, at_most))
          (clone-tracks d heap))
        λ r u.
          IfOk-bind (λ q. IsCovered q.0 × (ids q.0.tracks ≡ ids r.0.tracks)) _
            (handle (text_at "kind" operation) r.0 r.1 operation) _
            (dispatch-IsCovered handlers (text_at "kind" operation) r.0 r.1 operation
              (handlers-Kept F) e u.0)
            λ q after.
              let clamped = clamp_clip_fades-IsCovered q.0 after.0 in
              let same = clamp_clip_fades-ids q.0 ∙ after.1 ∙ u.1 in
              (
                record {
                  only = same_primaries (clamp_clip_fades q.0).tracks d.tracks same ∙ h.only;
                  covered = record { not_negative = clamped.not_negative; covers = clamped.covers };
                },
                same,
              )
    where
      at_most : primaries d.tracks ≤ 1
      at_most = rw h.only (omega arith)

      copied :
          (d : Document F) (heap : Heap F) (m : Outcome F)
          → IfOk (λ r. IsUsable r.0) m
          → LeavesTracks d m
          → IfOk (λ r. IsUsable r.0 × (ids r.0.tracks ≡ ids d.tracks)) m
      copied d heap (ok r) u same = (u, same)
      copied d heap (err e) u same = tt

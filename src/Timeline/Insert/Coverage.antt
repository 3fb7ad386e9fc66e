-- ===== src/Timeline/Insert/Coverage.antt =====
-- New clips and the primary track: go/internal/timeline/timeline.go (insertClip, replaceClip,
-- removeTrackClips) and editing.go (insertSubtitle).
use rushes.Base.{
  String, Bool, true, false, ℤ, pos, ◌≤◌, List, [], ◌∷◌, ◌++◌, ◌≡◌, refl, ◌∙◌, ◌<ℤ◌, ◌≤ℤ◌, ◌+ℤ◌,
  ◌-ℤ◌, +ℤ_parts, -ℤ_parts, arith, IfOk, IfOk-any, IfOk-bind, IfOk-found, IfOk-refuse_if, Result,
  ok, err, Bool-cases, inl, inr, text_eq, text_eq_iff, text_eq_refl, leb_ℤ, ltb_ℤ, ◌&&◌, ◌||◌, not,
  if◌then◌else◌, ◌<>◌, length, trim_space,
}
use rushes.Float.{Floats}
use rushes.Value.{Fields, frame_value, text_at, has, value_or}
use rushes.Timeline.Types.{Clip, Track, Document, Heap}
use rushes.Timeline.Errors.{Error, both_frames}
use rushes.Timeline.Lookup.{is_primary, update_first, track_by_id, editable_location, locate_clip}
use rushes.Timeline.Lookup.{sorted_clips}
use rushes.Timeline.Insert.{
  insert_clip, insert_on, start_frame, wants_audio, new_metadata, new_clip, with_audio, audio_of,
  replace_clip, insert_subtitle, subtitle_on, subtitle_style, subtitle_clip, generated_id, is_ok,
  remove_track_clips,
}
use rushes.Timeline.Spans.{Covers, Covers-append}
use rushes.Timeline.Coverage.{
  primaries, AllCover, IsCovered, LeavesCovered, KeepsCoverage, SameFrames, AllCover-update_clip,
}

-- Two IDs of which one is the primary track's and the other is not.
other_id :
    (s id : String)
    → text_eq id "visual_base" ≡ false
    → text_eq s id ≡ true
    → text_eq s "visual_base" ≡ false
other_id s id e same = rw ((text_eq_iff s id).0 same) e

module _ {F : Type 0} where
  -- A track that is not primary may change as it likes.
  pub AllCover-update_other :
      (id : String) (f : List (Clip F) → List (Clip F)) (n : ℤ)
      → text_eq id "visual_base" ≡ false
      → (ts : List (Track F)) → AllCover n ts
      → AllCover n (update_first id (λ t. record t { clips = f t.clips }) ts)
  AllCover-update_other id f n other [] h = tt
  AllCover-update_other id f n other (t ∷ ts) (p, h) = elim (Bool-cases (text_eq t.track_id id)) [
    | inl e ↦ rw e ((λ primary. cc (primary, other_id t.track_id id other e)), h)
    | inr e ↦ rw e (p, AllCover-update_other id f n other ts h)
  ]

  primaries-update_other :
      (id : String) (f : List (Clip F) → List (Clip F)) (ts : List (Track F))
      → primaries (update_first id (λ t. record t { clips = f t.clips }) ts) ≡ primaries ts
  primaries-update_other id f [] = refl
  primaries-update_other id f (t ∷ ts) = elim (Bool-cases (text_eq t.track_id id)) [
    | inl e ↦ rw e refl
    | inr e ↦ rw e (rw (primaries-update_other id f ts))
  ]

  no_primaries : (n : ℤ) (ts : List (Track F)) → primaries ts ≤ 0 → AllCover n ts
  no_primaries n [] h = tt
  no_primaries n (t ∷ ts) h = elim (Bool-cases (is_primary t)) [
    | inl e ↦ absurd (ground arith)
    | inr e ↦ ((λ primary. cc (primary, e)), no_primaries n ts (rw e at h))
  ]

  -- The only primary track grows by a clip at its end, and the timeline with it.
  grow :
      (c : Clip F) (n m : ℤ) (ts : List (Track F))
      → Covers n (c ∷ []) m
      → primaries ts ≤ 1
      → AllCover n ts
      → AllCover m (update_first "visual_base" (λ t. record t { clips = t.clips ++ (c ∷ []) }) ts)
  grow c n m [] last one h = tt
  grow c n m (t ∷ ts) last one (p, h) = elim (Bool-cases (is_primary t)) [
    | inl e ↦ rw e (
      (λ primary. Covers-append (pos 0) n m t.clips (c ∷ []) (p e) last),
      no_primaries m ts (ground arith),
    )
    | inr e ↦ rw e ((λ primary. cc (primary, e)), grow c n m ts last (rw e at one) h)
  ]

audio_is_other : text_eq "original_audio" "visual_base" ≡ false
unfolding text_eq
audio_is_other = refl

subtitles_is_other : text_eq "subtitles" "visual_base" ≡ false
unfolding text_eq
subtitles_is_other = refl

module _ {F : Type 0} ⦃fl : Floats F⦄ where
  start_frame-lem :
      (d : Document F) (t : Track F) (operation : Fields F) (duration : ℤ)
      → IfOk
          (λ at. is_primary t ≡ true → at ≡ d.duration_frames)
          (start_frame d t operation duration)
  unfolding start_frame
  start_frame-lem d t operation duration = elim (Bool-cases (is_primary t)) [
    | inl e ↦ rw e (λ _. refl)
    | inr e ↦ rw e (only_others _)
  ]
    where
      only_others : (m : Result Error ℤ) → IfOk (λ at. false ≡ true → at ≡ d.duration_frames) m
      only_others (ok a) = λ primary. absurd (cc primary)
      only_others (err e) = tt

  -- What `with_audio` hands on: the clip in its place, and tracks whose primary ones are as before.
  abbrev Unmoved : Clip F → ℤ → List (Track F) → Clip F × List (Track F) → Type 0
  Unmoved c n ts r = SameFrames r.0 c × AllCover n r.1 × (primaries r.1 ≡ primaries ts)

  with_audio-Unmoved :
      (audio : Bool) (operation : Fields F) (c : Clip F) (d : Document F)
      → AllCover d.duration_frames d.tracks
      → IfOk (Unmoved c d.duration_frames d.tracks) (with_audio audio operation c d)
  unfolding with_audio
  with_audio-Unmoved false operation c d h = ((refl, refl), h, refl)
  with_audio-Unmoved true operation c d h = IfOk-found _ (track_by_id d "original_audio") _ _ λ t _.
      elim (Bool-cases t.locked) [
        | inl e ↦ rw e tt
        | inr e ↦ rw e (
          (refl, refl),
          AllCover-update_other "original_audio" with_sound d.duration_frames audio_is_other
              d.tracks h,
          primaries-update_other "original_audio" with_sound d.tracks,
        )
      ]
    where
      with_sound : List (Clip F) → List (Clip F)
      with_sound cs =
          let group =
            value_or (text_at "parent_block_id" operation) ("link_" <> c.timeline_clip_id) in
          sorted_clips (cs ++ (audio_of c group ∷ []))

  -- The clip goes to the end of the primary track, or to a track that coverage does not look at.
  place_new :
      (c : Clip F) (n m : ℤ) (t : Track F) (ts : List (Track F))
      → (is_primary t ≡ true → Covers n (c ∷ []) m)
      → primaries ts ≤ 1
      → AllCover n ts
      → AllCover
          (if is_primary t then m else n)
          (update_first t.track_id (λ u. record u { clips = u.clips ++ (c ∷ []) }) ts)
  place_new c n m t ts last one h = elim (Bool-cases (is_primary t)) [
    | inl e ↦
        rw ((text_eq_iff t.track_id "visual_base").0 e, primary_is_primary)
          (grow c n m ts (last e) one h)
    | inr e ↦ rw e (AllCover-update_other t.track_id (λ cs. cs ++ (c ∷ [])) n e ts h)
  ]
    where
      primary_is_primary : text_eq "visual_base" "visual_base" ≡ true
      primary_is_primary = text_eq_refl "visual_base"

  grown_not_negative :
      (t : Track F) (n start end : ℤ)
      → pos 0 ≤ℤ n
      → start <ℤ end
      → pos 0 ≤ℤ (if is_primary t then n +ℤ (end -ℤ start) else n)
  grown_not_negative t n start end h l =
      ground (arith, -ℤ_parts end start, +ℤ_parts n (end -ℤ start))

  -- The new clip plays from the end of the primary track on.
  last_clip :
      (c c' : Clip F) (n at start end : ℤ)
      → SameFrames c' c
      → c.timeline_start_frame ≡ at
      → c.timeline_end_frame ≡ at +ℤ (end -ℤ start)
      → at ≡ n
      → start <ℤ end
      → Covers n (c' ∷ []) (n +ℤ (end -ℤ start))
  last_clip c c' n at start end (same_start, same_end) starts ends at_end l = (
    same_start ∙ starts ∙ at_end,
    rw (same_end, ends, at_end) (ground (arith, -ℤ_parts end start, +ℤ_parts n (end -ℤ start))),
    rw (same_end, ends, at_end) refl,
  )

  insert_on-IsCovered :
      (d : Document F) (heap : Heap F) (operation : Fields F) (start end : ℤ) (t : Track F)
      → start <ℤ end
      → primaries d.tracks ≤ 1
      → IsCovered d
      → LeavesCovered (insert_on d heap operation start end t)
  unfolding insert_on new_clip
  insert_on-IsCovered d heap operation start end t l one h =
      let n = d.duration_frames in
      IfOk-refuse_if _ t.locked _ _ λ _.
        IfOk-bind (λ at. is_primary t ≡ true → at ≡ n) _ (start_frame d t operation (end -ℤ start))
          _ (start_frame-lem d t operation (end -ℤ start))
          λ at at_end. IfOk-any _ (wants_audio operation) _ λ audio _.
            IfOk-refuse_if _ (audio && not (is_primary t)) _ _ λ _.
              IfOk-any _ (new_metadata operation heap) _ λ m _.
                let c = new_clip d t operation at start end m.0 in
                IfOk-bind (Unmoved c n d.tracks) _ (with_audio audio operation c d) _
                  (with_audio-Unmoved audio operation c d h.covers)
                  λ r same. record {
                    not_negative = grown_not_negative t n start end h.not_negative l;
                    covers =
                        place_new r.0 n (n +ℤ (end -ℤ start)) t r.1
                          (λ primary.
                            last_clip c r.0 n at start end same.0 refl refl (at_end primary) l)
                          (rw same.2 one) same.1;
                  }

  -- A new clip is placed without a gap, if there is one primary track at most.
  pub insert_clip-IsCovered :
      (d : Document F) (heap : Heap F) (operation : Fields F)
      → primaries d.tracks ≤ 1
      → IsCovered d
      → LeavesCovered (insert_clip d heap operation)
  unfolding insert_clip
  insert_clip-IsCovered d heap operation one h =
      IfOk-any _
        (both_frames (frame_value operation "source_start_frame")
          (frame_value operation "source_end_frame"))
        _
        λ r _.
          IfOk-refuse_if _
            (text_eq (text_at "asset_id" operation) "" || ltb_ℤ r.0 (pos 0) || leb_ℤ r.1 r.0) _ _
            λ fits.
              IfOk-found _ (track_by_id d (value_or (text_at "track_id" operation) "visual_base")) _
                _ λ t _. insert_on-IsCovered d heap operation r.0 r.1 t (ground arith) one h

  pub replace_clip-IsCovered : KeepsCoverage {F = F} replace_clip
  unfolding replace_clip
  replace_clip-IsCovered d heap operation h = IfOk-any _ (editable_location d operation) _ λ l _.
      IfOk-refuse_if _ (text_eq (text_at "asset_id" operation) "") _ _ λ _. record {
        not_negative = h.not_negative;
        covers = AllCover-update_clip l _ d.duration_frames (λ c. (refl, refl)) d.tracks h.covers;
      }

  pub remove_track_clips-IsCovered :
      (d : Document F) (heap : Heap F) (id : String)
      → IsCovered d
      → LeavesCovered (remove_track_clips d heap id)
  unfolding remove_track_clips
  remove_track_clips-IsCovered d heap id h = IfOk-found _ (track_by_id d id) _ _ λ t _.
      IfOk-refuse_if _ (text_eq id "visual_base") _ _ λ other. IfOk-refuse_if _ t.locked _ _ λ _.
        record {
          not_negative = h.not_negative;
          covers = AllCover-update_other id (λ _. []) d.duration_frames other d.tracks h.covers;
        }

  subtitle_on-IsCovered :
      (d : Document F) (heap : Heap F) (operation : Fields F) (t : Track F)
      → IsCovered d
      → LeavesCovered (subtitle_on d heap operation t)
  unfolding subtitle_on subtitle_clip
  subtitle_on-IsCovered d heap operation t h =
      let text = trim_space (text_at "text" operation) in
      let id =
        value_or (text_at "timeline_clip_id" operation)
          (generated_id "subtitle" d.version (length t.clips)) in
      IfOk-refuse_if _ t.locked _ _ λ _.
        IfOk-any _
          (both_frames (frame_value operation "start_frame") (frame_value operation "end_frame")) _
          λ r _.
            IfOk-refuse_if _
              (ltb_ℤ r.0 (pos 0) || leb_ℤ r.1 r.0 || ltb_ℤ d.duration_frames r.1 || text_eq text "")
              _ _
              λ _.
                IfOk-refuse_if _ (has "style" operation && text_eq (subtitle_style operation) "") _
                  _
                  λ _. IfOk-refuse_if _ (is_ok (locate_clip d id)) _ _ λ _. record {
                    not_negative = h.not_negative;
                    covers =
                        AllCover-update_other "subtitles"
                          (λ cs.
                            sorted_clips (
                              cs
                              ++ (subtitle_clip id text (subtitle_style operation) r.0 r.1 ∷ [])))
                          d.duration_frames subtitles_is_other d.tracks h.covers;
                  }

  pub insert_subtitle-IsCovered : KeepsCoverage {F = F} insert_subtitle
  unfolding insert_subtitle
  insert_subtitle-IsCovered d heap operation h =
      IfOk-found _ (track_by_id d "subtitles") _ _ λ t _. subtitle_on-IsCovered d heap operation t h

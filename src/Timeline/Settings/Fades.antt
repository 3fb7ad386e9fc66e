-- ===== src/Timeline/Settings/Fades.antt =====
-- The clamped fades pass the check of the fades: go/internal/timeline/timeline.go (clampClipFades,
-- Validate).
use rushes.Base.{
  ℤ, pos, List, [], ◌∷◌, map, ◌≡◌, ◌≤ℤ◌, ◌-ℤ◌, ◌+ℤ◌, -ℤ_parts, +ℤ_parts, arith, All, max_ℤ,
  max_ℤ_bounds, Bool-cases, inl, inr, ltb_ℤ, ◌||◌,
}
use rushes.Float.{Floats}
use rushes.Timeline.Types.{Clip, Track}
use rushes.Timeline.Lookup.{clamp_int}
use rushes.Timeline.Settings.{clamp_fades}
use rushes.Timeline.Validate.{bad_clip_fades}

-- The value lies between 0 and a limit that is not negative.
clamp_int-bounds :
    (value limit : ℤ)
    → pos 0 ≤ℤ limit
    → (pos 0 ≤ℤ clamp_int value (pos 0) limit) × (clamp_int value (pos 0) limit ≤ℤ limit)
unfolding clamp_int
clamp_int-bounds value limit h = ground arith

max-of_pos : (n : ℤ) → pos 0 ≤ℤ n → max_ℤ (pos 0) n ≡ n
unfolding max_ℤ
max-of_pos n h = ground arith

-- The test of the fades against the frames of a clip fails exactly for a clip that ends before it
-- starts.
fades-fit :
    (fade_in fade_out start end : ℤ)
    → let n = max_ℤ (pos 0) (end -ℤ start) in
      let a = clamp_int fade_in (pos 0) n in
      let b = clamp_int fade_out (pos 0) (n -ℤ a) in
      (ltb_ℤ a (pos 0) || ltb_ℤ b (pos 0) || ltb_ℤ (end -ℤ start) (a +ℤ b)) ≡ ltb_ℤ end start
fades-fit fade_in fade_out start end =
    let n = max_ℤ (pos 0) (end -ℤ start) in
    let a = clamp_int fade_in (pos 0) n in
    let b = clamp_int fade_out (pos 0) (n -ℤ a) in
    let (long, _) = max_ℤ_bounds (pos 0) (end -ℤ start) in
    let (low, high) = clamp_int-bounds fade_in n long in
    let (low', high') = clamp_int-bounds fade_out (n -ℤ a) (omega (arith, -ℤ_parts n a)) in
    elim (Bool-cases (ltb_ℤ end start)) [
      | inl e ↦ rw e (ground (arith, -ℤ_parts n a, +ℤ_parts a b, -ℤ_parts end start))
      | inr e ↦
          let same = max-of_pos (end -ℤ start) (ground (arith, -ℤ_parts end start)) in
          rw e (ground (arith, same, -ℤ_parts n a, +ℤ_parts a b, -ℤ_parts end start))
    ]

module _ {F : Type 0} ⦃fl : Floats F⦄ where
  -- `Validate` reports the fades of the clip exactly if the clip ends before it starts.
  abbrev pub FadesFit : Clip F → Type 0
  FadesFit c = bad_clip_fades c ≡ ltb_ℤ c.timeline_end_frame c.timeline_start_frame

  clamp_fades-FadesFit : (c : Clip F) → FadesFit (clamp_fades c)
  unfolding clamp_fades clamp_int max_ℤ
  clamp_fades-FadesFit c =
      fades-fit c.fade_in_frames c.fade_out_frames c.timeline_start_frame c.timeline_end_frame

  map-FadesFit : (cs : List (Clip F)) → All FadesFit (map clamp_fades cs)
  map-FadesFit [] = tt
  map-FadesFit (c ∷ cs) = (clamp_fades-FadesFit c, map-FadesFit cs)

  pub tracks-FadesFit :
      (ts : List (Track F))
      → All
          (λ (t : Track F). All FadesFit t.clips)
          (map (λ (t : Track F). record t { clips = map clamp_fades t.clips }) ts)
  tracks-FadesFit [] = tt
  tracks-FadesFit (t ∷ ts) = (map-FadesFit t.clips, tracks-FadesFit ts)

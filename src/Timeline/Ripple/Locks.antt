-- ===== src/Timeline/Ripple/Locks.antt =====
-- Locked tracks and deleted ranges: go/internal/timeline/editing.go (ensureRippleUnlocked) and
-- timeline.go (deleteRange).
use rushes.Base.{
  Bool, true, false, ℤ, List, [], ◌∷◌, Option, none, some, map, ◌≡◌, refl, arith, All, Bool-cases,
  inl, inr, find?, any, keep_if, text_eq, ◌&&◌, not, ltb_ℤ, leb_ℤ, ◌||◌, ok, IfOk, IfOk-any,
  IfOk-refuse_if,
}
use rushes.Float.{Floats}
use rushes.Timeline.Types.{Clip, Track, Document, Heap}
use rushes.Timeline.Lookup.{sort_track}
use rushes.Timeline.Ripple.{
  delete_frames, without_range, delete_from_clip, overlap, replace_clips, replace_in_tracks,
  ensure_ripple_unlocked, refuse_track, bad_range, range_error,
}

find?-none :
    {F : Type 0} (p : Track F → Bool) (ts : List (Track F))
    → find? p ts ≡ none
    → All (λ t. p t ≡ false) ts
find?-none p [] e = tt
find?-none p (t ∷ ts) e = elim (Bool-cases (p t)) [
  | inl found ↦ cc (rw found at e)
  | inr other ↦ (other, find?-none p ts (rw other at e))
]

leb_of_not : (a b : ℤ) → ltb_ℤ a b ≡ false → leb_ℤ b a ≡ true
leb_of_not a b e = ground arith

none_of : (a b : Bool) → (a || b) ≡ false → (a ≡ false) × (b ≡ false)
none_of a b e = ground arith

still_false :
    (locked nameless blocked : Bool)
    → (locked && not nameless && blocked) ≡ false
    → (locked && not nameless) ≡ true
    → blocked ≡ false
still_false locked nameless blocked e = ground arith

module _ {F : Type 0} ⦃fl : Floats F⦄ where
  -- A locked track with an ID.
  abbrev pub is_protected : Track F → Bool
  is_protected t = t.locked && not (text_eq t.track_id "")

  abbrev pub protected_tracks : List (Track F) → List (Track F)
  protected_tracks = keep_if is_protected

  abbrev ends_past : ℤ → Clip F → Bool
  ends_past start c = ltb_ℤ start c.timeline_end_frame

  abbrev blocks : ℤ → Track F → Bool
  blocks start t = t.locked && not (text_eq t.track_id "") && any (ends_past start) t.clips

  not_blocked :
      (start : ℤ) (t : Track F)
      → blocks start t ≡ false
      → is_protected t ≡ true
      → any (ends_past start) t.clips ≡ false
  not_blocked start t = still_false t.locked (text_eq t.track_id "") (any (ends_past start) t.clips)

  refuse_track-ok : (o : Option (Track F)) {u : Unit {0}} → refuse_track o ≡ ok u → o ≡ none
  unfolding refuse_track
  refuse_track-ok none e = refl
  refuse_track-ok (some t) e = cc

  delete_from_clip-before :
      (start end : ℤ) (c : Clip F)
      → ends_past start c ≡ false
      → delete_from_clip start end c ≡ c ∷ []
  unfolding delete_from_clip overlap
  delete_from_clip-before start end c e = ground arith

  clips_before :
      (start end : ℤ) (cs : List (Clip F))
      → any (ends_past start) cs ≡ false
      → replace_clips (delete_from_clip start end) cs ≡ cs
  clips_before start end [] e = refl
  clips_before start end (c ∷ cs) e =
      let (head, rest) = none_of (ends_past start c) (any (ends_past start) cs) e in
      rw (delete_from_clip-before start end c head, clips_before start end cs rest) refl

  -- What becomes of a list of tracks.
  abbrev remaining : ℤ → ℤ → List (Track F) → List (Track F)
  remaining start end ts = map sort_track (replace_in_tracks (delete_from_clip start end) ts)

  protected_tracks-remaining :
      (start end : ℤ) (ts : List (Track F))
      → All (λ t. blocks start t ≡ false) ts
      → protected_tracks (remaining start end ts) ≡ map sort_track (protected_tracks ts)
  protected_tracks-remaining start end [] h = refl
  protected_tracks-remaining start end (t ∷ ts) (e, h) =
      let rest = protected_tracks-remaining start end ts h in
      elim (Bool-cases (is_protected t)) [
        | inl kept ↦
            rw (kept, clips_before start end t.clips (not_blocked start t e kept), rest) refl
        | inr free ↦ rw (free, rest) refl
      ]

  -- A deletion that succeeds leaves the locked tracks with an ID as they were, in their order, each
  -- one's clips in the order of `sortTrack`.
  pub delete_frames-protected_tracks :
      (start end : ℤ) (d : Document F) (heap : Heap F)
      → IfOk
          (λ r. protected_tracks r.0.tracks ≡ map sort_track (protected_tracks d.tracks))
          (delete_frames start end d heap)
  unfolding delete_frames without_range ensure_ripple_unlocked
  delete_frames-protected_tracks start end d heap =
      IfOk-refuse_if _ (bad_range d start end) (range_error d start end) _ λ _.
        IfOk-any _ (ensure_ripple_unlocked d start "") _ λ _ e.
          protected_tracks-remaining start end d.tracks
            (find?-none (blocks start) d.tracks (refuse_track-ok (find? (blocks start) d.tracks) e))

-- ===== src/Timeline/Coverage.antt =====
-- Gapless coverage of a document: the primary track plays from frame 0 to the end of the timeline with
-- no gap and no overlap. Here are the predicate and its rules for the ways in which handlers rewrite
-- the tracks; the handlers' own theorems stand below their modules.
use rushes.Base.{
  ℕ, zero, suc, String, Bool, true, false, ℤ, pos, List, [], ◌∷◌, map, ◌≡◌, refl, ◌≤ℤ◌, text_eq,
  Bool-cases, inl, inr, if◌then◌else◌, arith, All, modify, get_or, IfOk, ◌||◌, ◌∙◌, find?, Option,
  none, some, subst,
}
use rushes.Float.{Floats}
use rushes.Value.{Fields}
use rushes.Timeline.Types.{Clip, Track, Document, Heap, zero_clip, empty_track}
use rushes.Timeline.Lookup.{
  is_primary, track_by_id, update_first, Outcome, ClipLocation, update_clip, update_members,
  clip_at, has_primary,
}
use rushes.Timeline.Spans.{Covers}

module _ {F : Type 0} where
  abbrev pub TrackCovers : ℤ → Track F → Type 0
  TrackCovers duration t = is_primary t ≡ true → Covers (pos 0) t.clips duration

  abbrev pub AllCover : ℤ → List (Track F) → Type 0
  AllCover duration = All (TrackCovers duration)

  -- How many tracks are primary ones.
  abbrev pub primaries : List (Track F) → ℕ
  primaries [] = 0
  primaries (t ∷ ts) = if is_primary t then suc (primaries ts) else primaries ts

  pub record IsCovered (d : Document F) : Type 0 where
    pub not_negative : pos 0 ≤ℤ d.duration_frames
    pub covers : AllCover d.duration_frames d.tracks

-- A handler's result is covered, if there is one.
abbrev pub LeavesCovered : {F : Type 0} → Outcome F → Type 0
LeavesCovered = IfOk λ r. IsCovered r.0

abbrev pub Handler : Type 0 → Type 0
Handler F = Document F → Heap F → Fields F → Outcome F

abbrev pub KeepsCoverage : {F : Type 0} → Handler F → Type 0
KeepsCoverage {F} handler =
    (d : Document F) (heap : Heap F) (operation : Fields F)
    → IsCovered d
    → LeavesCovered (handler d heap operation)

module _ {F : Type 0} where
  -- The frames of two clips on the timeline are the same.
  abbrev pub SameFrames : Clip F → Clip F → Type 0
  SameFrames a b =
      (a.timeline_start_frame ≡ b.timeline_start_frame)
      × (a.timeline_end_frame ≡ b.timeline_end_frame)

  abbrev pub KeepsFrames : (Clip F → Clip F) → Type 0
  KeepsFrames f = (c : Clip F) → SameFrames (f c) c

  pub map-Covers :
      (f : Clip F → Clip F)
      → KeepsFrames f
      → (from to : ℤ) (cs : List (Clip F)) → Covers from cs to
      → Covers from (map f cs) to
  map-Covers f keep from to [] p = p
  map-Covers f keep from to (c ∷ cs) (s, l, p) =
      let (same_start, same_end) = keep c in
      (rw same_start s, rw same_end l, rw same_end (map-Covers f keep c.timeline_end_frame to cs p))

  pub modify-Covers :
      (f : Clip F → Clip F)
      → KeepsFrames f
      → (i : ℕ) (from to : ℤ) (cs : List (Clip F)) → Covers from cs to
      → Covers from (modify i f cs) to
  modify-Covers f keep i from to [] p = p
  modify-Covers f keep zero from to (c ∷ cs) (s, l, p) =
      let (same_start, same_end) = keep c in (rw same_start s, rw same_end l, rw same_end p)
  modify-Covers f keep (suc i) from to (c ∷ cs) (s, l, p) =
      (s, l, modify-Covers f keep i c.timeline_end_frame to cs p)

  -- One clip replaced by one with its frames.
  pub put-Covers :
      (new old : Clip F) (i : ℕ) (from to : ℤ) (cs : List (Clip F))
      → SameFrames new (get_or cs i old)
      → Covers from cs to
      → Covers from (modify i (λ _. new) cs) to
  put-Covers new old i from to [] same p = p
  put-Covers new old zero from to (c ∷ cs) (same_start, same_end) (s, l, p) =
      (rw same_start s, rw same_end l, rw same_end p)
  put-Covers new old (suc i) from to (c ∷ cs) same (s, l, p) =
      (s, l, put-Covers new old i c.timeline_end_frame to cs same p)

  -- Rules for lists of tracks.
  pub AllCover-map :
      (f : Track F → Track F) (old new : ℤ)
      → ((t : Track F) → TrackCovers old t → TrackCovers new (f t))
      → (ts : List (Track F)) → AllCover old ts
      → AllCover new (map f ts)
  AllCover-map f old new step [] h = tt
  AllCover-map f old new step (t ∷ ts) (p, h) = (step t p, AllCover-map f old new step ts h)

  pub AllCover-update_first :
      (id : String) (f : Track F → Track F) (n : ℤ)
      → ((t : Track F) → TrackCovers n t → TrackCovers n (f t))
      → (ts : List (Track F)) → AllCover n ts
      → AllCover n (update_first id f ts)
  AllCover-update_first id f n step [] h = tt
  AllCover-update_first id f n step (t ∷ ts) (p, h) = elim (Bool-cases (text_eq t.track_id id)) [
    | inl e ↦ rw e (step t p, h)
    | inr e ↦ rw e (p, AllCover-update_first id f n step ts h)
  ]

  pub AllCover-modify :
      (i : ℕ) (f : Track F → Track F) (n : ℤ)
      → ((t : Track F) → TrackCovers n t → TrackCovers n (f t))
      → (ts : List (Track F)) → AllCover n ts
      → AllCover n (modify i f ts)
  AllCover-modify i f n step [] h = tt
  AllCover-modify zero f n step (t ∷ ts) (p, h) = (step t p, h)
  AllCover-modify (suc i) f n step (t ∷ ts) (p, h) = (p, AllCover-modify i f n step ts h)

  pub AllCover-update_clip :
      (l : ClipLocation) (f : Clip F → Clip F) (n : ℤ)
      → KeepsFrames f
      → (ts : List (Track F)) → AllCover n ts
      → AllCover n (update_clip l f ts)
  AllCover-update_clip l f n keep =
      AllCover-modify l.track_index _ n
        λ t p primary. modify-Covers f keep l.clip_index (pos 0) n t.clips (p primary)

  -- A primary track that a search finds is covered.
  FoundCovers : ℤ → Option (Track F) → Type 0
  FoundCovers n none = Unit {0}
  FoundCovers n (some t) = TrackCovers n t

  found :
      (id : String) (n : ℤ) (ts : List (Track F))
      → AllCover n ts
      → FoundCovers n (find? (λ (t : Track F). text_eq t.track_id id) ts)
  unfolding FoundCovers
  found id n [] h = tt
  found id n (t ∷ ts) (p, h) = elim (Bool-cases (text_eq t.track_id id)) [
    | inl e ↦ rw e p
    | inr e ↦ rw e (found id n ts h)
  ]

  pub find-id :
      (id : String) (ts : List (Track F)) {t : Track F}
      → find? (λ (t : Track F). text_eq t.track_id id) ts ≡ some t
      → text_eq t.track_id id ≡ true
  find-id id [] e = cc
  find-id id (u ∷ us) e = elim (Bool-cases (text_eq u.track_id id)) [
    | inl same ↦ ground arith
    | inr other ↦ find-id id us (rw other at e)
  ]

  pub track_by_id-TrackCovers :
      (d : Document F) (id : String) {t : Track F}
      → IsCovered d
      → track_by_id d id ≡ some t
      → TrackCovers d.duration_frames t
  unfolding FoundCovers
  track_by_id-TrackCovers d id h e =
      subst (FoundCovers d.duration_frames) e (found id d.duration_frames d.tracks h.covers)

  pub primary-Covers :
      (d : Document F) {t : Track F}
      → IsCovered d
      → track_by_id d "visual_base" ≡ some t
      → Covers (pos 0) t.clips d.duration_frames
  primary-Covers d h e =
      track_by_id-TrackCovers d "visual_base" h e (find-id "visual_base" d.tracks e)

  -- The tracks change, the length does not.
  pub retracked-IsCovered :
      (d : Document F) (tracks : List (Track F))
      → IsCovered d
      → AllCover d.duration_frames tracks
      → IsCovered (record d { tracks = tracks })
  retracked-IsCovered d tracks h a = record { not_negative = h.not_negative; covers = a }

or_left : (a b : Bool) → (a || b) ≡ false → a ≡ false
or_left a b e = ground arith

or_right : (a b : Bool) → (a || b) ≡ false → b ≡ false
or_right a b e = ground arith

module _ {F : Type 0} ⦃fl : Floats F⦄ where
  pub AllCover-update_members :
      (ls : List ClipLocation) (f : Clip F → Clip F) (n : ℤ)
      → KeepsFrames f
      → (ts : List (Track F)) → AllCover n ts
      → AllCover n (update_members f ls ts)
  AllCover-update_members [] f n keep ts h = h
  AllCover-update_members (l ∷ ls) f n keep ts h =
      AllCover-update_members ls f n keep (update_clip l f ts)
        (AllCover-update_clip l f n keep ts h)

  -- One clip replaced by one with the frames of the clip at its place.
  pub AllCover-put :
      (l : ClipLocation) (new : Clip F) (n : ℤ) (ts : List (Track F))
      → SameFrames new (clip_at ts l)
      → AllCover n ts
      → AllCover n (update_clip l (λ _. new) ts)
  AllCover-put l new n ts = at_index l.track_index ts
    where
      at_index :
          (i : ℕ) (ts : List (Track F))
          → SameFrames new
              (get_or (get_or ts i (empty_track ("", ""))).clips l.clip_index zero_clip)
          → AllCover n ts
          → AllCover n (
              modify i
                (λ (t : Track F). record t { clips = modify l.clip_index (λ _. new) t.clips })
                ts)
      at_index i [] same h = tt
      at_index zero (t ∷ ts) same (p, h) =
          (λ primary. put-Covers new zero_clip l.clip_index (pos 0) n t.clips same (p primary), h)
      at_index (suc i) (t ∷ ts) same (p, h) = (p, at_index i ts same h)

  -- Clips that stand on no primary track may change as they like.
  elsewhere_at :
      (i : ℕ) (g : List (Clip F) → List (Clip F)) (n : ℤ) (ts : List (Track F))
      → is_primary (get_or ts i (empty_track ("", ""))) ≡ false
      → AllCover n ts
      → AllCover n (modify i (λ (t : Track F). record t { clips = g t.clips }) ts)
  elsewhere_at i g n [] e h = tt
  elsewhere_at zero g n (t ∷ ts) e (p, h) = (λ primary. cc (primary, e), h)
  elsewhere_at (suc i) g n (t ∷ ts) e (p, h) = (p, elsewhere_at i g n ts e h)

  same_primary :
      (i j : ℕ) (g : List (Clip F) → List (Clip F)) (ts : List (Track F))
      → is_primary (
          get_or
            (modify i (λ (t : Track F). record t { clips = g t.clips }) ts)
            j
            (empty_track ("", "")))
        ≡ is_primary (get_or ts j (empty_track ("", "")))
  same_primary i j g [] = refl
  same_primary zero zero g (t ∷ ts) = refl
  same_primary zero (suc j) g (t ∷ ts) = refl
  same_primary (suc i) zero g (t ∷ ts) = refl
  same_primary (suc i) (suc j) g (t ∷ ts) = same_primary i j g ts

  has_primary-update_clip :
      (l : ClipLocation) (f : Clip F → Clip F) (ls : List ClipLocation) (ts : List (Track F))
      → has_primary (update_clip l f ts) ls ≡ has_primary ts ls
  has_primary-update_clip l f [] ts = refl
  has_primary-update_clip l f (m ∷ ms) ts = rw (
    same_primary l.track_index m.track_index (modify l.clip_index f) ts,
    has_primary-update_clip l f ms ts,
  )

  pub AllCover-elsewhere :
      (ls : List ClipLocation) (f : Clip F → Clip F) (n : ℤ) (ts : List (Track F))
      → has_primary ts ls ≡ false
      → AllCover n ts
      → AllCover n (update_members f ls ts)
  AllCover-elsewhere [] f n ts e h = h
  AllCover-elsewhere (l ∷ ls) f n ts e h =
      AllCover-elsewhere ls f n (update_clip l f ts)
        (has_primary-update_clip l f ls ts ∙ or_right _ _ e)
        (elsewhere_at l.track_index (modify l.clip_index f) n ts (or_left _ _ e) h)

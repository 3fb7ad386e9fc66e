-- ===== src/Timeline/Tracks.antt =====
-- The tracks of a document and their order under the edits of go/internal/timeline: rules for the ways in
-- which handlers rewrite the tracks. The handlers' own lemmas stand below their modules.
use rushes.Base.{
  ℕ, zero, suc, String, true, List, [], ◌∷◌, map, ◌≡◌, refl, ap, ◌∙◌, text_eq, Bool-cases, inl, inr,
  if◌then◌else◌, modify, IfOk, text_eq_iff, sym,
}
use rushes.Value.{Fields}
use rushes.Timeline.Types.{Clip, Track, Document, Heap}
use rushes.Timeline.Lookup.{
  is_primary, update_first, Outcome, ClipLocation, update_clip, update_members,
}
use rushes.Timeline.Coverage.{Handler, primaries}

abbrev primary_ids : List String → ℕ
primary_ids [] = 0
primary_ids (s ∷ ss) = if text_eq s "visual_base" then suc (primary_ids ss) else primary_ids ss

module _ {F : Type 0} where
  abbrev pub ids : List (Track F) → List String
  ids [] = []
  ids (t ∷ ts) = t.track_id ∷ ids ts

  -- A handler's result has the tracks of the document, in their order, if there is one.
  abbrev pub LeavesTracks : Document F → Outcome F → Type 0
  LeavesTracks d = IfOk λ r. ids r.0.tracks ≡ ids d.tracks

  primaries-ids : (ts : List (Track F)) → primaries ts ≡ primary_ids (ids ts)
  primaries-ids [] = refl
  primaries-ids (t ∷ ts) = rw (primaries-ids ts) refl

  pub same_primaries : (ts us : List (Track F)) → ids ts ≡ ids us → primaries ts ≡ primaries us
  same_primaries ts us e = primaries-ids ts ∙ ap primary_ids e ∙ sym (primaries-ids us)

  abbrev pub KeepsId : (Track F → Track F) → Type 0
  KeepsId f = (t : Track F) → (f t).track_id ≡ t.track_id

  pub ids-map :
      (f : Track F → Track F) → KeepsId f → (ts : List (Track F)) → ids (map f ts) ≡ ids ts
  ids-map f keep [] = refl
  ids-map f keep (t ∷ ts) = rw (keep t, ids-map f keep ts) refl

  -- A step on the tracks that are not primary.
  pub ids-other_tracks :
      (f : Track F → Track F)
      → KeepsId f
      → (ts : List (Track F)) → ids (map (λ t. if is_primary t then t else f t) ts) ≡ ids ts
  ids-other_tracks f keep =
      ids-map _ λ t. elim (Bool-cases (is_primary t)) [ inl e ↦ rw e refl | inr e ↦ rw e (keep t) ]

  pub ids-update_first :
      (id : String) (f : Track F → Track F)
      → KeepsId f
      → (ts : List (Track F)) → ids (update_first id f ts) ≡ ids ts
  ids-update_first id f keep [] = refl
  ids-update_first id f keep (t ∷ ts) = elim (Bool-cases (text_eq t.track_id id)) [
    | inl e ↦ rw (e, keep t) refl
    | inr e ↦ rw (e, ids-update_first id f keep ts) refl
  ]

  -- One track with the ID instead of the first that has it.
  pub ids-put_first :
      (id : String) (new : Track F)
      → text_eq new.track_id id ≡ true
      → (ts : List (Track F)) → ids (update_first id (λ _. new) ts) ≡ ids ts
  ids-put_first id new named [] = refl
  ids-put_first id new named (t ∷ ts) = elim (Bool-cases (text_eq t.track_id id)) [
    | inl e ↦ rw e (
        ap (λ s. s ∷ ids ts)
          ((text_eq_iff new.track_id id).0 named ∙ sym ((text_eq_iff t.track_id id).0 e)))
    | inr e ↦ rw (e, ids-put_first id new named ts) refl
  ]

  pub ids-modify :
      (i : ℕ) (f : Track F → Track F)
      → KeepsId f
      → (ts : List (Track F)) → ids (modify i f ts) ≡ ids ts
  ids-modify i f keep [] = refl
  ids-modify zero f keep (t ∷ ts) = rw (keep t) refl
  ids-modify (suc i) f keep (t ∷ ts) = rw (ids-modify i f keep ts) refl

  pub ids-update_clip :
      (l : ClipLocation) (f : Clip F → Clip F) (ts : List (Track F))
      → ids (update_clip l f ts) ≡ ids ts
  ids-update_clip l f ts = ids-modify l.track_index _ (λ t. refl) ts

  pub ids-update_members :
      (ls : List ClipLocation) (f : Clip F → Clip F) (ts : List (Track F))
      → ids (update_members f ls ts) ≡ ids ts
  ids-update_members [] f ts = refl
  ids-update_members (l ∷ ls) f ts =
      ids-update_members ls f (update_clip l f ts) ∙ ids-update_clip l f ts

-- A handler whose results have the document's tracks.
abbrev pub KeepsTracks : {F : Type 0} → Handler F → Type 0
KeepsTracks {F} handler =
    (d : Document F) (heap : Heap F) (operation : Fields F)
    → LeavesTracks d (handler d heap operation)

-- ===== src/Timeline/Spans/Reorder.antt =====
-- Laying clips out again in another order keeps the stretch that they cover:
-- go/internal/timeline/timeline.go (reorderClip).
use rushes.Base.{
  String, Bool, ℤ, pos, List, [], ◌∷◌, Option, none, some, ◌≡◌, refl, ◌<ℤ◌, ltb_ℤ, text_eq,
  Bool-cases, inl, inr, int_laws, ◌+ℤ◌, ◌-ℤ◌, All, insert_sorted, sort_onto, stable_sort,
}
use rushes.Timeline.Types.{Clip}
use rushes.Timeline.Reorder.{take_out, put_in, lay_out, by_start, midpoint}
use rushes.Timeline.Spans.{Covers}

module _ {F : Type 0} where
  abbrev pub clip_length : Clip F → ℤ
  clip_length c = c.timeline_end_frame -ℤ c.timeline_start_frame

  abbrev pub HasLength : Clip F → Type 0
  HasLength c = c.timeline_start_frame <ℤ c.timeline_end_frame

  -- The summed lengths of the clips.
  pub total : List (Clip F) → ℤ
  total [] = pos 0
  total (c ∷ cs) = clip_length c +ℤ total cs

  -- A list of clips that all have a length, with the sum of the lengths.
  abbrev pub Sized : List (Clip F) → ℤ → Type 0
  Sized cs n = All HasLength cs × (total cs ≡ n)

  pub Covers-Sized : (from to : ℤ) (cs : List (Clip F)) → Covers from cs to → Sized cs (to -ℤ from)
  unfolding total
  Covers-Sized from to [] p = (tt, rw p (omega int_laws))
  Covers-Sized from to (c ∷ cs) (s, l, p) =
      let (positive, sum) = Covers-Sized c.timeline_end_frame to cs p in
      ((rw s l, positive), rw sum (rw s (omega int_laws)))

  insert_sorted-Sized :
      (less : Clip F → Clip F → Bool) (a : Clip F) (xs : List (Clip F))
      → HasLength a
      → All HasLength xs
      → Sized (insert_sorted less a xs) (clip_length a +ℤ total xs)
  unfolding total
  insert_sorted-Sized less a [] h p = ((h, tt), refl)
  insert_sorted-Sized less a (x ∷ xs) h (l, p) =
      let (positive, sum) = insert_sorted-Sized less a xs h p in
      elim (Bool-cases (less a x)) [
        | inl e ↦ rw e ((h, (l, p)), refl)
        | inr e ↦ rw e ((l, positive), rw sum (omega int_laws))
      ]

  sort_onto-Sized :
      (less : Clip F → Clip F → Bool) (acc xs : List (Clip F))
      → All HasLength acc
      → All HasLength xs
      → Sized (sort_onto less acc xs) (total acc +ℤ total xs)
  unfolding total
  sort_onto-Sized less acc [] p q = (p, omega int_laws)
  sort_onto-Sized less acc (x ∷ xs) p (l, q) =
      let (positive, sum) = insert_sorted-Sized less x acc l p in
      let (all, whole) = sort_onto-Sized less (insert_sorted less x acc) xs positive q in
      (all, rw whole (rw sum (omega int_laws)))

  pub by_start-Sized : (cs : List (Clip F)) (n : ℤ) → Sized cs n → Sized (by_start cs) n
  unfolding stable_sort total
  by_start-Sized cs n (p, e) =
      let (all, sum) = sort_onto-Sized _ [] cs tt p in (all, rw sum (rw e (omega int_laws)))

  -- The clip that is taken out and the others share the sum.
  abbrev pub Taken : ℤ → Option (Clip F × List (Clip F)) → Type 0
  Taken n none = Unit {0}
  Taken n (some (moving, others)) =
      HasLength moving × All HasLength others × (clip_length moving +ℤ total others ≡ n)

  also_kept :
      (c : Clip F) (n : ℤ) (r : Option (Clip F × List (Clip F)))
      → HasLength c
      → Taken n r
      → Taken
          (clip_length c +ℤ n)
          (elim r [ none ↦ none | some (m, others) ↦ some (m, c ∷ others) ])
  unfolding total
  also_kept c n none l t = tt
  also_kept c n (some (m, others)) l (h, p, e) = (h, (l, p), rw (← e) (omega int_laws))

  pub take_out-Taken :
      (id : String) (cs : List (Clip F)) → All HasLength cs → Taken (total cs) (take_out id cs)
  unfolding total take_out
  take_out-Taken id [] p = tt
  take_out-Taken id (c ∷ cs) (l, p) = elim (Bool-cases (text_eq c.timeline_clip_id id)) [
    | inl e ↦ rw e (l, p, refl)
    | inr e ↦ rw e (also_kept c (total cs) (take_out id cs) l (take_out-Taken id cs p))
  ]

  pub put_in-Sized :
      (target : ℤ) (moving : Clip F) (cs : List (Clip F))
      → HasLength moving
      → All HasLength cs
      → Sized (put_in target moving cs) (clip_length moving +ℤ total cs)
  unfolding total put_in
  put_in-Sized target moving [] h p = ((h, tt), refl)
  put_in-Sized target moving (c ∷ cs) h (l, p) =
      let (positive, sum) = put_in-Sized target moving cs h p in
      elim (Bool-cases (ltb_ℤ target (midpoint c))) [
        | inl e ↦ rw e ((h, (l, p)), refl)
        | inr e ↦ rw e ((l, positive), rw sum (omega int_laws))
      ]

  -- Clips laid out from the cursor on cover the stretch of their summed length.
  pub lay_out-Covers :
      (cursor : ℤ) (cs : List (Clip F))
      → All HasLength cs
      → Covers cursor (lay_out cursor cs) (cursor +ℤ total cs)
  unfolding total lay_out
  lay_out-Covers cursor [] p = omega int_laws
  lay_out-Covers cursor (c ∷ cs) (l, p) =
      let end = cursor +ℤ (c.timeline_end_frame -ℤ c.timeline_start_frame) in
      let regroup : end +ℤ total cs ≡ cursor +ℤ (clip_length c +ℤ total cs) = omega int_laws in
      (refl, omega int_laws, rw regroup at (lay_out-Covers end cs p))

-- ===== src/Timeline/Spans.antt =====
-- Lists of clips that play one after another with no gap, and how sorting leaves them.
pub mod Delete
pub mod Reorder
pub mod Split
pub mod Merge
use rushes.Base.{
  ℕ, Bool, true, false, ℤ, pos, List, [], ◌∷◌, ◌++◌, map, ◌≡◌, refl, ◌<ℤ◌, ◌≤ℤ◌, ltb_ℤ, ◌==ℤ◌,
  ltb_ℤ→lt, text_lt, if◌then◌else◌, int_laws, arith, All, All-append, insert_sorted, sort_onto,
  stable_sort, ◌+ℤ◌, ◌-ℤ◌, +ℤ_parts, -ℤ_parts, eq_of_parts,
}
use mathlib.Core.List.{append-nil, append_assoc}
use rushes.Timeline.Types.{Clip}
use rushes.Timeline.Lookup.{sorted_clips}

module _ {F : Type 0} where
  -- Each clip has a positive length and starts where the one before it ends, the first at `from`; the
  -- last ends at `to`.
  abbrev pub Covers : ℤ → List (Clip F) → ℤ → Type 0
  Covers from [] to = from ≡ to
  Covers from (c ∷ cs) to =
      (c.timeline_start_frame ≡ from)
      × (from <ℤ c.timeline_end_frame)
      × Covers c.timeline_end_frame cs to

  pub Covers-append :
      (from mid to : ℤ) (xs ys : List (Clip F))
      → Covers from xs mid
      → Covers mid ys to
      → Covers from (xs ++ ys) to
  Covers-append from mid to [] ys p q = rw p q
  Covers-append from mid to (c ∷ xs) ys (s, l, p) q =
      (s, l, Covers-append c.timeline_end_frame mid to xs ys p q)

  -- A range that clips cover does not run backwards.
  pub Covers-le : (from to : ℤ) (cs : List (Clip F)) → Covers from cs to → from ≤ℤ to
  Covers-le from to [] p = ground arith
  Covers-le from to (c ∷ cs) (s, l, p) = omega (arith, Covers-le c.timeline_end_frame to cs p)

  -- An insertion sort leaves a list alone in which no element is less than an earlier one.
  module _ (less : Clip F → Clip F → Bool) where
    pub insert_sorted-last :
        (a : Clip F) (xs : List (Clip F))
        → All (λ x. less a x ≡ false) xs
        → insert_sorted less a xs ≡ xs ++ (a ∷ [])
    insert_sorted-last a [] h = refl
    insert_sorted-last a (x ∷ xs) (e, h) = rw (e, insert_sorted-last a xs h)

  -- A comparison that fails wherever the second clip starts earlier.
  abbrev pub LooksAtStart : (Clip F → Clip F → Bool) → Type 0
  LooksAtStart less =
      (a b : Clip F) → b.timeline_start_frame <ℤ a.timeline_start_frame → less a b ≡ false

  starts_below :
      (less : Clip F → Clip F → Bool)
      → LooksAtStart less
      → (a : Clip F) (xs : List (Clip F))
      → All (λ x. x.timeline_start_frame <ℤ a.timeline_start_frame) xs
      → All (λ x. less a x ≡ false) xs
  starts_below less look a [] h = tt
  starts_below less look a (x ∷ xs) (l, h) = (look a x l, starts_below less look a xs h)

  below_trans :
      (m n : ℤ) (xs : List (Clip F))
      → m ≤ℤ n
      → All (λ x. x.timeline_start_frame <ℤ m) xs
      → All (λ x. x.timeline_start_frame <ℤ n) xs
  below_trans m n [] l h = tt
  below_trans m n (x ∷ xs) l (p, h) = (omega arith, below_trans m n xs l h)

  sort_onto-Covers :
      (less : Clip F → Clip F → Bool)
      → LooksAtStart less
      → (from to : ℤ) (acc cs : List (Clip F)) → All (λ x. x.timeline_start_frame <ℤ from) acc
      → Covers from cs to
      → sort_onto less acc cs ≡ acc ++ cs
  sort_onto-Covers less look from to acc [] h p = rw append-nil
  sort_onto-Covers less look from to acc (c ∷ cs) h (s, l, p) =
      let below : All (λ x. x.timeline_start_frame <ℤ c.timeline_start_frame) acc = rw s h in
      let last = insert_sorted-last less c acc (starts_below less look c acc below) in
      let grown : All (λ x. x.timeline_start_frame <ℤ c.timeline_end_frame) (acc ++ (c ∷ [])) =
        All-append (λ x. x.timeline_start_frame <ℤ c.timeline_end_frame) acc (c ∷ [])
          (below_trans from c.timeline_end_frame acc (omega arith) h) (rw s l, tt) in
      rw (last, sort_onto-Covers less look c.timeline_end_frame to (acc ++ (c ∷ [])) cs grown p)
        (append_assoc acc (c ∷ []) cs)

  pub stable_sort-Covers :
      (less : Clip F → Clip F → Bool)
      → LooksAtStart less
      → (from to : ℤ) (cs : List (Clip F)) → Covers from cs to
      → stable_sort less cs ≡ cs
  unfolding stable_sort
  stable_sort-Covers less look from to cs p = sort_onto-Covers less look from to [] cs tt p

  -- Clips that cover a range stand in the order of `sortTrack`.
  pub sorted_clips-Covers :
      (from to : ℤ) (cs : List (Clip F)) → Covers from cs to → sorted_clips cs ≡ cs
  unfolding sorted_clips
  sorted_clips-Covers from to cs p = stable_sort-Covers _ (λ a b l. ground arith) from to cs p

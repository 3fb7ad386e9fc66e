-- ===== src/Timeline/Metadata/Placement.antt =====
-- What a semantic anchor says of its placement: go/internal/timeline/editing.go
-- (syncClipPlacementMetadata).
use rushes.Base.{
  ℕ, zero, suc, ◌<◌, String, Bool, true, false, ℤ, List, [], ◌∷◌, Option, none, some, ◌≡◌, refl,
  sym, ap, ◌∙◌, arith, modify, get_or, length, text_eq, text_eq_refl, text_eq_iff, Bool-cases, inl,
  inr,
}
use rushes.Value.{
  Any, Fields, field, no_fields, int, lookup, insert, text_at, value_at, string_value, null,
}
use rushes.Timeline.Types.{Clip, Heap}
use rushes.Timeline.Metadata.{deref, is_anchor, place, sync_clip_placement_metadata}
use rushes.Timeline.Metadata.{write}

get_or-modify {ℓ} :
    {A : Type ℓ} (i : ℕ) (f : A → A) (xs : List A) (a : A)
    → i < length xs
    → get_or (modify i f xs) i a ≡ f (get_or xs i a)
get_or-modify i f [] a l = absurd (omega arith)
get_or-modify zero f (x ∷ xs) a l = refl
get_or-modify (suc i) f (x ∷ xs) a l = get_or-modify i f xs a (omega arith)

abbrev pub start_key : String
start_key = "placement_timeline_start_frame"

abbrev pub end_key : String
end_key = "placement_timeline_end_frame"

length-modify {ℓ} :
    {A : Type ℓ} (i : ℕ) (f : A → A) (xs : List A) → length (modify i f xs) ≡ length xs
length-modify i f [] = refl
length-modify zero f (x ∷ xs) = refl
length-modify (suc i) f (x ∷ xs) = rw (length-modify i f xs) refl

module _ {F : Type 0} where
  lookup-insert : (key : String) (v : Any F) (m : Fields F) → lookup key (insert key v m) ≡ some v
  unfolding lookup insert
  lookup-insert key v no_fields = rw (text_eq_refl key) refl
  lookup-insert key v (field k w m) = elim (Bool-cases (text_eq k key)) [
    | inl e ↦ rw (e, e) refl
    | inr e ↦ rw (e, e) (lookup-insert key v m)
  ]

  lookup-insert_other :
      (key other : String) (v : Any F) (m : Fields F)
      → text_eq key other ≡ false
      → lookup other (insert key v m) ≡ lookup other m
  unfolding lookup insert
  lookup-insert_other key other v no_fields e = rw e refl
  lookup-insert_other key other v (field k w m) e = elim (Bool-cases (text_eq k key)) [
    | inl same ↦ rw (same, (text_eq_iff k key).0 same, e) refl
    | inr apart ↦ rw (apart, lookup-insert_other key other v m e) refl
  ]

  pub place-start :
      (start end : ℤ) (m : Fields F)
      → is_anchor m ≡ true
      → lookup start_key (place start end m) ≡ some (int start)
  unfolding place text_eq
  place-start start end m e = rw e (
      lookup-insert_other end_key start_key (int end) _ refl
      ∙ lookup-insert start_key (int start) m)

  pub place-end :
      (start end : ℤ) (m : Fields F)
      → is_anchor m ≡ true
      → lookup end_key (place start end m) ≡ some (int end)
  unfolding place
  place-end start end m e = rw e (lookup-insert end_key (int end) _)

  place-kind :
      (start end : ℤ) (m : Fields F)
      → is_anchor m ≡ true
      → lookup "kind" (place start end m) ≡ lookup "kind" m
  unfolding place text_eq
  place-kind start end m e = rw e (
      lookup-insert_other end_key "kind" (int end) _ refl
      ∙ lookup-insert_other start_key "kind" (int start) m refl)

  -- What `is_anchor` makes of the value under the key.
  named_anchor : Option (Any F) → Bool
  named_anchor o =
      text_eq (string_value (elim o [ none ↦ null | some v ↦ v ])) "b_roll_semantic_anchor"

  is_anchor-named : (m : Fields F) → is_anchor m ≡ named_anchor (lookup "kind" m)
  unfolding is_anchor text_at value_at named_anchor
  is_anchor-named m = refl

  pub place-is_anchor :
      (start end : ℤ) (m : Fields F) → is_anchor m ≡ true → is_anchor (place start end m) ≡ true
  place-is_anchor start end m e =
      is_anchor-named (place start end m)
      ∙ ap named_anchor (place-kind start end m e)
      ∙ sym (is_anchor-named m)
      ∙ e

  pub deref-sync :
      (c : Clip F) (heap : Heap F) (p : ℕ)
      → c.metadata ≡ some p
      → p < length heap
      → deref (sync_clip_placement_metadata c heap) p
        ≡ place c.timeline_start_frame c.timeline_end_frame (deref heap p)
  unfolding sync_clip_placement_metadata write
  deref-sync c heap p e l = written c.metadata e
    where
      written :
          (o : Option ℕ)
          → o ≡ some p
          → deref (write o (place c.timeline_start_frame c.timeline_end_frame) heap) p
            ≡ place c.timeline_start_frame c.timeline_end_frame (deref heap p)
      written o same = rw same (get_or-modify p _ heap no_fields l)

  pub sync-length :
      (c : Clip F) (heap : Heap F) → length (sync_clip_placement_metadata c heap) ≡ length heap
  unfolding sync_clip_placement_metadata write
  sync-length c heap = written c.metadata
    where
      written :
          (o : Option ℕ)
          → length (write o (place c.timeline_start_frame c.timeline_end_frame) heap) ≡ length heap
      written none = refl
      written (some p) = length-modify p _ heap

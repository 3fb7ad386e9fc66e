-- ===== src/Reducer/Apply/Noted.antt =====
-- The merge keys that a transaction has noted: go/internal/reducer/reducer.go (existingMergeEvent and
-- the loop of Apply).
use rushes.Base.{
  String, ℤ, Bool, true, false, List, none, some, [], ◌∷◌, ◌++◌, ◌≡◌, ◌∙◌, sym, ap, refl, inl, inr,
  Bool-cases, IfOk, IfOk-any, Result, ok, err, text_eq, text_eq_iff, text_eq_refl, ◌&&◌, ◌||◌, any,
  map, if◌then◌else◌,
}
use mathlib.Core.List.{append-nil, append_assoc}
use rushes.Contracts.{Event}
use rushes.Jobs.{column_is}
use rushes.Reducer.Apply.{
  Database, ApplyState, is_duplicate, same_key, batched, handled, apply_one, touch, log_row,
}

pub any_left :
    {A : Type 0} (p : A → Bool) (xs ys : List A) → any p xs ≡ true → any p (xs ++ ys) ≡ true
any_left p [] ys e = absurd (cc e)
any_left p (x ∷ xs) ys e = elim (Bool-cases (p x)) [
  | inl k ↦ rw k refl
  | inr k ↦ rw k (any_left p xs ys (rw k at e))
]

pub any_right :
    {A : Type 0} (p : A → Bool) (xs ys : List A) → any p ys ≡ true → any p (xs ++ ys) ≡ true
any_right p [] ys e = e
any_right p (x ∷ xs) ys e = elim (Bool-cases (p x)) [
  | inl k ↦ rw k refl
  | inr k ↦ rw k (any_right p xs ys e)
]

pub or_left : (a b : Bool) → a ≡ true → (a || b) ≡ true
or_left true b e = refl
or_left false b e = absurd (cc e)

pub or_right : (a b : Bool) → b ≡ true → (a || b) ≡ true
or_right true b e = refl
or_right false b e = e

pub ok_inner : {A E : Type 0} {a b : A} → ◌≡◌ {A = Result E A} (ok a) (ok b) → a ≡ b
ok_inner {a} e = ap (λ r. elim r [ ok x ↦ x | err x ↦ a ]) e

module _ {F : Type 0} where
  pub own_key :
      (event : Event F) (key : String)
      → any (batched event.event_type key) ((event, key) ∷ []) ≡ true
  unfolding batched
  own_key event key = rw (text_eq_refl event.event_type, text_eq_refl key) refl

module _ {F R : Type 0} where
  -- The key is in the log, or among the events of the batch.
  unfoldable pub Noted : ApplyState F R → String → String → Type 0
  Noted state event_type key =
      (any (same_key event_type key) state.database.event_log
        || any (batched event_type key) state.events_to_log)
      ≡ true

  -- The log is the same, and the events to log have only grown.
  unfoldable pub Grown : ApplyState F R → ApplyState F R → Type 0
  Grown state later =
      (later.database.event_log ≡ state.database.event_log)
      × (more : List (Event F × String)) × (later.events_to_log ≡ state.events_to_log ++ more)

  pub Noted-Grown :
      (state later : ApplyState F R) (event_type key : String)
      → Grown state later
      → Noted state event_type key
      → Noted later event_type key
  unfolding Noted Grown
  Noted-Grown state later event_type key (same, more, grown) n =
      rw (same, grown)
        (wider (any (same_key event_type key) state.database.event_log)
          (any (batched event_type key) state.events_to_log)
          (any (batched event_type key) (state.events_to_log ++ more))
          (any_left (batched event_type key) state.events_to_log more) n)
    where
      wider : (a b c : Bool) → (b ≡ true → c ≡ true) → (a || b) ≡ true → (a || c) ≡ true
      wider true b c f h = refl
      wider false b c f h = f h

  pub Grown-trans : (a b c : ApplyState F R) → Grown a b → Grown b c → Grown a c
  unfolding Grown
  Grown-trans a b c (s, m, g) (s', m', g') =
      (s' ∙ s, m ++ m', g' ∙ ap (λ l. l ++ m') g ∙ append_assoc a.events_to_log m m')

  pub unchanged : (state : ApplyState F R) → Grown state state
  unfolding Grown
  unchanged state = (refl, [], sym (append-nil state.events_to_log))

  pub handled-Noted :
      (state : ApplyState F R) (event : Event F) (key : String)
      (r : Result {0, 0} String (Database R × List String))
      → ((db : Database R) (drafts : List String)
          → r ≡ ok (db, drafts)
          → db.event_log ≡ state.database.event_log)
      → IfOk
          (λ later. Grown state later × Noted later event.event_type key)
          (handled state event key r)
  unfolding handled Noted Grown
  handled-Noted state event key (err e) keeps = tt
  handled-Noted state event key (ok (db, drafts)) keeps =
      IfOk-any (λ later. Grown state later × Noted later event.event_type key)
        (touch db state.touched drafts) _
        (λ touched _. (
          (keeps db drafts refl, (event, key) ∷ [], refl),
          or_right (any (same_key event.event_type key) db.event_log) _ (
              any_right (batched event.event_type key) state.events_to_log ((event, key) ∷ [])
                itself),
        ))
    where
      itself : any (batched event.event_type key) ((event, key) ∷ []) ≡ true
      itself = own_key event key

  pub apply_one-Noted :
      (handle : Event F → Database R → Result {0, 0} String (Database R × List String))
      (state : ApplyState F R) (event : Event F) (key : String)
      → ((db : Database R) (drafts : List String)
          → handle event state.database ≡ ok (db, drafts)
          → db.event_log ≡ state.database.event_log)
      → text_eq key "" ≡ false
      → IfOk
          (λ later. Grown state later × Noted later event.event_type key)
          (apply_one handle state event (ok key))
  unfolding apply_one Noted Grown is_duplicate
  apply_one-Noted handle state event key keeps named =
      elim (Bool-cases (is_duplicate state event.event_type key)) [
        | inl e ↦ rw e ((refl, [], sym (append-nil state.events_to_log)), rw named at e)
        | inr e ↦ rw e (handled-Noted state event key (handle event state.database) keeps)
      ]

module _ {F : Type 0} where
  pub logged_rows :
      (drafts : List (String × ℤ)) (event_type key : String) (xs : List (Event F × String))
      → text_eq key "" ≡ false
      → any (batched event_type key) xs ≡ true
      → any (same_key event_type key) (map (log_row drafts) xs) ≡ true
  unfolding batched same_key log_row column_is
  logged_rows drafts event_type key [] named e = absurd (cc e)
  logged_rows drafts event_type key ((event, k) ∷ xs) named e =
      elim (Bool-cases (text_eq event.event_type event_type && text_eq k key)) [
        | inl h ↦
            or_left _ _
              (same_row h (second_true (text_eq event.event_type event_type) (text_eq k key) h))
        | inr h ↦ or_right _ _ (logged_rows drafts event_type key xs named (rw h at e))
      ]
    where
      second_true : (a b : Bool) → (a && b) ≡ true → b ≡ true
      second_true true b h = h
      second_true false b h = absurd (cc h)

      same_row :
          (text_eq event.event_type event_type && text_eq k key) ≡ true
          → text_eq k key ≡ true
          → (text_eq event.event_type event_type
              && column_is (if text_eq k "" then none else some k) key)
            ≡ true
      same_row h s = rw (ap (λ t. text_eq t "") ((text_eq_iff k key).0 s) ∙ named) h

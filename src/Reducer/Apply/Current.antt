-- ===== src/Reducer/Apply/Current.antt =====
-- The version check of the reducer: go/internal/reducer/reducer.go (preflightStrict).
use rushes.Base.{
  String, ℤ, Bool, true, false, List, Option, none, some, [], ◌∷◌, ◌≡◌, ◌∙◌, IfOk-weaken, All, refl,
  inl, inr, Bool-cases, IfOk, IfOk-bind, IfOk-any, Result, ok, err, text_eq, ◌==ℤ◌, ==ℤ→eq, ap,
  ◌>>=◌, ◌>>◌, refuse_if, not, ◌<>◌,
}
use rushes.Contracts.{
  Event, EventSpec, VersionMode, version_strict, version_merge, event_spec, mode_of, version_mode,
  valid_actor,
}
use rushes.Reducer.Lease.{Leases}
use rushes.Reducer.Admission.{validate_timeline_write_admission}
use rushes.Reducer.Apply.{
  Database, refused, draft_missing, VersionConflict, Outcome, applied, version_conflict, version_in,
  lookup_draft_version, strict_conflict, strict_version, compare_base, event_conflict,
  preflight_strict, apply_checked, apply_normal, apply_each, finish, finished, started, bump_all,
  ApplyState, Options, normalize, apply, lift_lease,
}

abbrev IsClear : Type 0 → Option VersionConflict → Type 0
IsClear P none = P
IsClear P (some c) = Unit

some_mode : {a b : VersionMode} → some a ≡ some b → a ≡ b
some_mode {a} e = ap (λ o. elim o [ none ↦ a | some m ↦ m ]) e

past_guard :
    {E A : Type 0} (bad : Bool) (e : E) (m : Result E A) {a : A}
    → (refuse_if bad e >> m) ≡ ok a
    → m ≡ ok a
past_guard true e m h = absurd (cc h)
past_guard false e m h = h

module _ {R : Type 0} where
  found_version :
      (db : Database R) (draft : String) (o : Option ℤ)
      → version_in db.drafts draft ≡ o
      → IfOk
          (λ v. version_in db.drafts draft ≡ some v)
          (elim o [ none ↦ err (draft_missing draft) | some v ↦ ok v ])
  found_version db draft none e = tt
  found_version db draft (some v) e = e

  lookup_version :
      (db : Database R) (draft : String)
      → IfOk (λ v. version_in db.drafts draft ≡ some v) (lookup_draft_version db draft)
  unfolding lookup_draft_version
  lookup_version db draft = found_version db draft (version_in db.drafts draft) refl

module _ {F R : Type 0} where
  -- The event names the version that its draft has.
  abbrev pub IsCurrent : Database R → Event F → Type 0
  IsCurrent db event =
      (v : ℤ) × (version_in db.drafts event.draft_id ≡ some v) × (event.base_version ≡ some v)

  compared :
      (db : Database R) (event : Event F) (base : Option ℤ) (actual : ℤ)
      → version_in db.drafts event.draft_id ≡ some actual
      → event.base_version ≡ base
      → IsClear (IsCurrent db event) (compare_base event base actual)
  unfolding compare_base
  compared db event none actual e b = tt
  compared db event (some v) actual e b = elim (Bool-cases (v ==ℤ actual)) [
    | inl k ↦ rw k (actual, e, b ∙ ap some (==ℤ→eq v actual k))
    | inr k ↦ rw k tt
  ]

  strict-IsClear :
      (db : Database R) (event : Event F)
      → IfOk (IsClear (IsCurrent db event)) (strict_conflict db event version_strict)
  unfolding strict_conflict strict_version
  strict-IsClear db event =
      IfOk-bind (λ v. version_in db.drafts event.draft_id ≡ some v) (IsClear (IsCurrent db event))
        (strict_version db event) (λ actual. ok (compare_base event event.base_version actual))
        (IfOk-any (λ v. version_in db.drafts event.draft_id ≡ some v)
          (refuse_if (text_eq event.draft_id "")
            (refused ("strict 事件 " <> event.event_type <> " 缺少 draft_id")))
          (λ _. lookup_draft_version db event.draft_id) (λ _ _. lookup_version db event.draft_id))
        (λ actual e. compared db event event.base_version actual e refl)

module _ {F R : Type 0} (general : F → String) where
  -- Where the event is strict, it names the version that its draft has.
  abbrev pub StrictIsCurrent : Database R → Event F → Type 0
  StrictIsCurrent db event = version_mode general event ≡ some version_strict → IsCurrent db event

  mode-IsClear :
      (db : Database R) (event : Event F) (m : VersionMode)
      → IfOk (IsClear (m ≡ version_strict → IsCurrent db event)) (strict_conflict db event m)
  unfolding strict_conflict
  mode-IsClear db event version_merge = λ e. absurd (cc e)
  mode-IsClear db event version_strict =
      IfOk-weaken (IsClear (IsCurrent db event)) _ (strict_conflict db event version_strict)
        (strict-IsClear db event) (λ c k. held c k)
    where
      held :
          (c : Option VersionConflict)
          → IsClear (IsCurrent db event) c
          → IsClear (version_strict ≡ version_strict → IsCurrent db event) c
      held none k = λ _. k
      held (some c) k = tt

  from_spec :
      (db : Database R) (event : Event F) (o : Option EventSpec)
      → IfOk
          (IsClear (
            elim o [ none ↦ none | some s ↦ some (mode_of general event s) ] ≡ some version_strict
            → IsCurrent db event))
          (elim o [ none ↦ ok none | some s ↦ strict_conflict db event (mode_of general event s) ])
  from_spec db event none = λ e. absurd (cc e)
  from_spec db event (some s) =
      IfOk-weaken (IsClear (mode_of general event s ≡ version_strict → IsCurrent db event)) _
        (strict_conflict db event (mode_of general event s))
        (mode-IsClear db event (mode_of general event s)) (λ c k. named c k)
    where
      named :
          (c : Option VersionConflict)
          → IsClear (mode_of general event s ≡ version_strict → IsCurrent db event) c
          → IsClear (some (mode_of general event s) ≡ some version_strict → IsCurrent db event) c
      named none k = λ e. k (some_mode e)
      named (some c) k = tt

  event-IsClear :
      (db : Database R) (event : Event F)
      → IfOk (IsClear (StrictIsCurrent db event)) (event_conflict general db event)
  unfolding event_conflict version_mode
  event-IsClear db event = from_spec db event (event_spec event)

  both-IsClear :
      (db : Database R) (event : Event F) (events : List (Event F)) (c : Option VersionConflict)
      → StrictIsCurrent db event
      → IsClear (All (StrictIsCurrent db) events) c
      → IsClear (All (StrictIsCurrent db) (event ∷ events)) c
  both-IsClear db event events none k ks = (k, ks)
  both-IsClear db event events (some c) k ks = tt

  continued :
      (db : Database R) (event : Event F) (events : List (Event F)) (c : Option VersionConflict)
      → IfOk (IsClear (All (StrictIsCurrent db) events)) (preflight_strict general db events)
      → IsClear (StrictIsCurrent db event) c
      → IfOk (IsClear (All (StrictIsCurrent db) (event ∷ events))) (elim c [
        | none ↦ preflight_strict general db events
        | some conflict ↦ ok (some conflict)
      ])
  continued db event events none rest k =
      IfOk-weaken (IsClear (All (StrictIsCurrent db) events)) _ (preflight_strict general db events)
        rest (λ c ks. both-IsClear db event events c k ks)
  continued db event events (some c) rest k = tt

  preflight-IsClear :
      (db : Database R) (events : List (Event F))
      → IfOk (IsClear (All (StrictIsCurrent db) events)) (preflight_strict general db events)
  unfolding preflight_strict
  preflight-IsClear db [] = tt
  preflight-IsClear db (event ∷ events) =
      IfOk-bind (IsClear (StrictIsCurrent db event))
        (IsClear (All (StrictIsCurrent db) (event ∷ events))) (event_conflict general db event)
        (λ c. elim c [
          | none ↦ preflight_strict general db events
          | some conflict ↦ ok (some conflict)
        ])
        (event-IsClear db event)
        (λ c k. continued db event events c (preflight-IsClear db events) k)

-- The claim, where a transaction is applied; a transaction in conflict leaves the database.
abbrev pub Settled : {R : Type 0} → Type 0 → Database R → Database R × Outcome → Type 0
Settled P db (db', applied versions skipped) = P
Settled P db (db', version_conflict c) = db' ≡ db

module _ {F R : Type 0} where
  finished-Settled :
      (P : Type 0) (db : Database R) (state : ApplyState F R)
      (r : Result (String × ℤ) (List (String × ℤ)))
      → P
      → IfOk (Settled P db) (finished db state r)
  unfolding finished
  finished-Settled P db state (ok drafts) p = p
  finished-Settled P db state (err (draft, expected)) p =
      IfOk-any (Settled P db) (lookup_draft_version state.database draft) _ (λ actual _. refl)

module _ {F R : Type 0} (general : F → String)
    (handle : Event F → Database R → Result String (Database R × List String)) where
  checked-Settled :
      (P : Type 0) (db : Database R) (events : List (Event F)) (c : Option VersionConflict)
      → IsClear P c
      → IfOk (Settled P db) (apply_checked general handle db events c)
  unfolding apply_checked finish
  checked-Settled P db events none p =
      IfOk-any (Settled P db) (apply_each general handle (started db) events) (finish db)
        (λ state _. finished-Settled P db state (bump_all state.touched state.database.drafts) p)
  checked-Settled P db events (some c) p = refl

  -- When `Apply` reports that a transaction is applied, each of its strict events, in the form that `Apply`
  -- gives them, names the version that its draft had in the database before; when it reports a conflict,
  -- the database is as it was.
  pub apply-Settled :
      (options : Options) (leases : Leases) (clock : ℤ) (db : Database R) (events : List (Event F))
      → IfOk
          (Settled
            ((normalized : List (Event F)) × (normalize general options events ≡ ok normalized)
              × All (StrictIsCurrent general db) normalized)
            db)
          (apply general handle options leases clock db events)
  unfolding apply apply_normal
  apply-Settled options leases clock db events =
      IfOk-any (Settled P db)
        (refuse_if (not (valid_actor options.actor)) (refused "reducer actor 无效")
          >> normalize general options events)
        (λ normalized.
          lift_lease (
            validate_timeline_write_admission leases clock normalized options.actor
              options.admission)
          >> (preflight_strict general db normalized
              >>= apply_checked general handle db normalized))
        (λ normalized e.
          IfOk-any (Settled P db) _
            (λ _.
              preflight_strict general db normalized >>= apply_checked general handle db normalized)
            (λ _ _.
              IfOk-bind (IsClear (All (StrictIsCurrent general db) normalized)) (Settled P db)
                (preflight_strict general db normalized)
                (apply_checked general handle db normalized)
                (preflight-IsClear general db normalized)
                (λ c k.
                  checked-Settled P db normalized c
                    (named normalized (past_guard (not (valid_actor options.actor)) _ _ e) c k))))
    where
      P : Type 0
      P =
          (normalized : List (Event F)) × (normalize general options events ≡ ok normalized)
          × All (StrictIsCurrent general db) normalized

      named :
          (normalized : List (Event F))
          → normalize general options events ≡ ok normalized
          → (c : Option VersionConflict) → IsClear (All (StrictIsCurrent general db) normalized) c
          → IsClear P c
      named normalized e none k = (normalized, e, k)
      named normalized e (some c) k = tt

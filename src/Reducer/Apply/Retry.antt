-- ===== src/Reducer/Apply/Retry.antt =====
-- A transaction that is sent again: go/internal/reducer/reducer.go (existingMergeEvent and the loop of
-- Apply).
use rushes.Base.{
  String, ℤ, ℕ, true, false, List, Option, none, some, [], ◌∷◌, ◌++◌, ◌≡◌, ◌∙◌, sym, ap, All, refl,
  inl, inr, Bool-cases, IfOk, IfOk-bind, IfOk-any, IfOk-weaken, IfOk-of_eq, Result, ok, err,
  text_eq, text_eq_refl, any, map, length, ◌+◌, arith, suc, ◌>>=◌,
}
use mathlib.Core.List.{append-nil}
use rushes.Contracts.{
  key_in_mode, mode_of, merge_key_of, event_spec, EventSpec, VersionMode, version_strict,
  version_merge, Event, merge_key,
}
use rushes.Reducer.Apply.{
  Database, ApplyState, is_duplicate, same_key, apply_one, apply_each, finish, finished, started,
  log_row, bump_all, Outcome, applied, version_conflict, lookup_draft_version, raised,
  strict_conflict, event_conflict, preflight_strict, apply_normal, apply_checked,
}
use rushes.Reducer.Apply.Noted.{
  any_left, any_right, ok_inner, logged_rows, Noted-Grown, Grown-trans, unchanged, apply_one-Noted,
  Noted, Grown,
}

module _ {F R : Type 0} (general : F → String)
    (handle : Event F → Database R → Result {0, 0} String (Database R × List String)) where
  -- The event has a merge key.
  abbrev pub IsKeyed : Event F → Type 0
  IsKeyed event = (key : String) × (merge_key general event ≡ ok key) × (text_eq key "" ≡ false)

  -- No handler writes the event log.
  abbrev pub KeepsLog : Type 0
  KeepsLog =
      (event : Event F) (before db : Database R) (drafts : List String)
      → handle event before ≡ ok (db, drafts)
      → db.event_log ≡ before.event_log

  SeenIn : ApplyState F R → Event F → Type 0
  SeenIn state event =
      (key : String) × (merge_key general event ≡ ok key)
      × (text_eq key "" ≡ false)
      × Noted state event.event_type key

  apply_each-SeenIn :
      KeepsLog
      → (state : ApplyState F R) (events : List (Event F)) → All IsKeyed events
      → IfOk
          (λ later. Grown state later × All (SeenIn later) events)
          (apply_each general handle state events)
  unfolding apply_each SeenIn
  apply_each-SeenIn keeps state [] h = (unchanged state, tt)
  apply_each-SeenIn keeps state (event ∷ events) ((key, e, named), hs) =
      IfOk-bind (λ next. Grown state next × Noted next event.event_type key)
        (λ later. Grown state later × All (SeenIn later) (event ∷ events))
        (apply_one handle state event (merge_key general event))
        (λ next. apply_each general handle next events)
        (rw e (
          apply_one-Noted handle state event key
            (λ db drafts d. keeps event state.database db drafts d) named))
        (λ next k.
          IfOk-weaken (λ later. Grown next later × All (SeenIn later) events) _
            (apply_each general handle next events) (apply_each-SeenIn keeps next events hs)
            (λ later ks. (
              Grown-trans state next later k.0 ks.0,
              ((key, e, named, Noted-Grown next later event.event_type key ks.0 k.1), ks.1),
            )))

  LoggedIn : Database R → Event F → Type 0
  LoggedIn db event =
      (key : String) × (merge_key general event ≡ ok key)
      × (text_eq key "" ≡ false)
      × (any (same_key event.event_type key) db.event_log ≡ true)

  AllLogged : List (Event F) → Database R × Outcome → Type 0
  AllLogged events (db, applied versions skipped) = All (LoggedIn db) events
  AllLogged events (db, version_conflict c) = Unit

  logged_one :
      (state : ApplyState F R) (drafts drafts' : List (String × ℤ)) (rest : R) (event : Event F)
      → SeenIn state event
      → LoggedIn
          (record {
            drafts = drafts';
            event_log = state.database.event_log ++ map (log_row drafts) state.events_to_log;
            rest = rest;
          })
          event
  unfolding SeenIn LoggedIn Noted
  logged_one state drafts drafts' rest event (key, e, named, n) = (
    key,
    e,
    named,
    elim (Bool-cases (any (same_key event.event_type key) state.database.event_log)) [
      | inl k ↦ any_left (same_key event.event_type key) state.database.event_log _ k
      | inr k ↦
          any_right (same_key event.event_type key) state.database.event_log _
            (logged_rows drafts event.event_type key state.events_to_log named (rw k at n))
    ],
  )

  logged-All :
      (state : ApplyState F R) (drafts drafts' : List (String × ℤ)) (rest : R)
      (events : List (Event F))
      → All (SeenIn state) events
      → All
          (LoggedIn (record {
            drafts = drafts';
            event_log = state.database.event_log ++ map (log_row drafts) state.events_to_log;
            rest = rest;
          }))
          events
  logged-All state drafts drafts' rest [] h = tt
  logged-All state drafts drafts' rest (event ∷ events) (h, hs) =
      (logged_one state drafts drafts' rest event h, logged-All state drafts drafts' rest events hs)

  finished-AllLogged :
      (before : Database R) (state : ApplyState F R) (events : List (Event F))
      (r : Result (String × ℤ) (List (String × ℤ)))
      → All (SeenIn state) events
      → IfOk (AllLogged events) (finished before state r)
  unfolding finished AllLogged
  finished-AllLogged before state events (ok drafts) h =
      logged-All state drafts drafts state.database.rest events h
  finished-AllLogged before state events (err (draft, expected)) h =
      IfOk-any (AllLogged events) (lookup_draft_version state.database draft) _ (λ actual _. tt)

  skipping : Database R → ℕ → ApplyState F R
  skipping db n = record { database = db; touched = []; events_to_log = []; skipped = n }

  skip_one :
      (db : Database R) (n : ℕ) (event : Event F)
      → LoggedIn db event
      → apply_one handle (skipping db n) event (merge_key general event) ≡ ok (skipping db (suc n))
  unfolding apply_one is_duplicate skipping LoggedIn
  skip_one db n event (key, e, named, k) = rw (e, named, k) refl

  skip_each :
      (db : Database R) (n : ℕ) (events : List (Event F))
      → All (LoggedIn db) events
      → apply_each general handle (skipping db n) events ≡ ok (skipping db (n + length events))
  unfolding apply_each
  skip_each db n [] h = ap (λ m. ok (skipping db m)) (omega arith)
  skip_each db n (event ∷ events) (h, hs) =
      ap (λ r. r >>= λ state. apply_each general handle state events) (skip_one db n event h)
      ∙ skip_each db (suc n) events hs
      ∙ ap (λ m. ok (skipping db m)) (omega arith)

  finish_skipped : (db : Database R) (n : ℕ) → finish db (skipping db n) ≡ ok (db, applied [] n)
  unfolding finish finished bump_all skipping raised
  finish_skipped db n = rw (append-nil db.event_log) refl

  strict_keyless :
      (event : Event F) (s : EventSpec)
      → mode_of general event s ≡ version_strict
      → merge_key_of general event s ≡ ""
  unfolding merge_key_of key_in_mode
  strict_keyless event s d = ap (λ m. key_in_mode general m event s) d

  no_conflict :
      (db : Database R) (event : Event F)
      → IsKeyed event
      → event_conflict general db event ≡ ok none
  unfolding event_conflict merge_key
  no_conflict db event (key, e, named) = of_spec (event_spec event) e
    where
      of_mode :
          (s : EventSpec) (m : VersionMode)
          → mode_of general event s ≡ m
          → merge_key_of general event s ≡ key
          → strict_conflict db event m ≡ ok none
      of_mode s version_merge d e = refl
      of_mode s version_strict d e =
          absurd (
            cc (named, ap (λ t. text_eq t "") (sym e ∙ strict_keyless event s d) ∙ text_eq_refl ""))

      of_spec :
          (o : Option EventSpec)
          → ◌≡◌ {A = Result String String}
              (elim o [ none ↦ err "事件未注册" | some s ↦ ok (merge_key_of general event s) ])
              (ok key)
          → elim o [ none ↦ ok none | some s ↦ strict_conflict db event (mode_of general event s) ]
            ≡ ok none
      of_spec none e = refl
      of_spec (some s) e = of_mode s (mode_of general event s) refl (ok_inner e)

  no_conflicts :
      (db : Database R) (events : List (Event F))
      → All IsKeyed events
      → preflight_strict general db events ≡ ok none
  unfolding preflight_strict
  no_conflicts db [] h = refl
  no_conflicts db (event ∷ events) (h, hs) =
      ap
        (λ r. r >>= λ c. elim c [
          | none ↦ preflight_strict general db events
          | some conflict ↦ ok (some conflict)
        ])
        (no_conflict db event h)
      ∙ no_conflicts db events hs

  unchecked_run :
      (db : Database R) (events : List (Event F))
      → All IsKeyed events
      → apply_normal general handle db events
        ≡ (apply_each general handle (started db) events >>= finish db)
  unfolding apply_normal apply_checked
  unchecked_run db events h =
      ap (λ r. r >>= apply_checked general handle db events) (no_conflicts db events h)

  first_run :
      KeepsLog
      → (db : Database R) (events : List (Event F)) → All IsKeyed events
      → IfOk (AllLogged events) (apply_each general handle (started db) events >>= finish db)
  unfolding finish
  first_run keeps db events h =
      IfOk-bind (λ later. Grown (started db) later × All (SeenIn later) events) (AllLogged events)
        (apply_each general handle (started db) events) (finish db)
        (apply_each-SeenIn keeps (started db) events h)
        (λ state k.
          finished-AllLogged db state events (bump_all state.touched state.database.drafts) k.1)

  second_run :
      (db : Database R) (events : List (Event F))
      → All IsKeyed events
      → All (LoggedIn db) events
      → apply_normal general handle db events ≡ ok (db, applied [] (length events))
  unfolding started skipping
  second_run db events h logged =
      unchecked_run db events h
      ∙ ap (λ r. r >>= finish db) (skip_each db 0 events logged)
      ∙ finish_skipped db (0 + length events)
      ∙ ap (λ n. ok (db, applied [] n)) (omega arith)

  -- A batch of checked events that all have a merge key has its effect once, if no handler writes the event
  -- log: when it is applied, the same batch sent again is applied without any change of the database, and
  -- all its events are reported as skipped.
  pub apply_normal-apply_normal :
      KeepsLog
      → (db db' : Database R) (events : List (Event F)) (versions : List (String × ℤ)) (skipped : ℕ)
      → All IsKeyed events
      → apply_normal general handle db events ≡ ok (db', applied versions skipped)
      → apply_normal general handle db' events ≡ ok (db', applied [] (length events))
  unfolding AllLogged
  apply_normal-apply_normal keeps db db' events versions skipped h e = second_run db' events h (
      IfOk-of_eq (AllLogged events) (apply_each general handle (started db) events >>= finish db)
        (first_run keeps db events h) (sym (unchecked_run db events h) ∙ e))

-- ===== src/ConfigEntries/Manager/Outcomes.antt =====
-- What `set_state`, `setup` and `unload` of manager.rs do to the entry, and what they reply.
use homeassistant_rs.Base.{
  ◌≡◌, refl, ap, ◌∙◌, true, false, Option, none, some, arith, ==_iff, ==_refl, ◌==◌, list_eq,
  nat_eq, if◌then◌else◌, Result, ok, err, ◌+◌,
}
use homeassistant_rs.Base.Text.{Text, text}
use homeassistant_rs.Base.Map
use homeassistant_rs.Base.Map.{lookup-modify}
use homeassistant_rs.ConfigEntries.Lifecycle.{
  ConfigEntryState, setup_in_progress, loaded, setup_error, setup_retry, migration_error, valid,
  try_transition, transition_error_reason,
}
use homeassistant_rs.ConfigEntries.Entry.{
  ConfigEntry, try_set_state, apply_state, increment_tries, u32,
}
use homeassistant_rs.ConfigEntries.Manager.{
  SetupResult, ConfigEntriesError, setup_failed, invalid_transition, ConfigEntries, get, ◌>>◌,
}
use homeassistant_rs.ConfigEntries.Manager.Setup.{
  set_state, call_setup, count_try, finish_setup, setup_locked, setup_of, setup,
}

module _ {Json Ctx : Type 0} where
  -- `s` with `e` in the place of the entry of that id.
  abbrev pub put_entry : Text → ConfigEntry Json → ConfigEntries Json Ctx → ConfigEntries Json Ctx
  put_entry id e s = record s { entries = Map.modify id (λ _. e) s.entries }

  pub get-put_entry :
      (id j : Text) (e w : ConfigEntry Json) (s : ConfigEntries Json Ctx)
      → get s id ≡ some w
      → get (put_entry id e s) j ≡ (if id == j then some e else get s j)
  unfolding get
  get-put_entry id j e w s h = ground (arith, lookup-modify id j (λ _. e) s.entries, ==_iff id j, h)

  pub set_state-valid :
      (id : Text) (e : ConfigEntry Json) (t : ConfigEntryState) (reason : Option Text)
      (s : ConfigEntries Json Ctx)
      → get s id ≡ some e
      → valid e.state t ≡ true
      → set_state id t reason s ≡ (ok tt, put_entry id (apply_state e t reason) s)
  unfolding set_state try_set_state try_transition
  set_state-valid id e t reason s h v = rw h (rw v refl)

  pub set_state-invalid :
      (id : Text) (e : ConfigEntry Json) (t : ConfigEntryState) (reason : Option Text)
      (s : ConfigEntries Json Ctx)
      → get s id ≡ some e
      → valid e.state t ≡ false
      → set_state id t reason s ≡ (
        err (
            invalid_transition
              (record { from = e.state; to = t; reason = transition_error_reason e.state t })),
        s,
      )
  unfolding set_state try_set_state try_transition
  set_state-invalid id e t reason s h v = rw h (rw v refl)

module _ {Json : Type 0} where
  -- The entry that a set-up with the given result leaves, and the reply.
  abbrev pub setup_entry : SetupResult → ConfigEntry Json → ConfigEntry Json
  setup_entry (SetupResult.auth_failed why) e = record e {
    state = setup_error;
    reason = some why;
    tries = 0;
  }
  setup_entry (SetupResult.failed why) e = record e {
    state = setup_error;
    reason = some why;
    tries = 0;
  }
  setup_entry SetupResult.migration_failed e = record e {
    state = migration_error;
    reason = none;
    tries = 0;
  }
  setup_entry (SetupResult.not_ready why) e = record e {
    state = setup_retry;
    reason = some why;
    tries = u32 (e.tries + 1);
  }
  setup_entry SetupResult.success e = record e { state = loaded; reason = none; tries = 0 }

abbrev pub setup_reply : SetupResult → Result ConfigEntriesError (Unit {0})
setup_reply (SetupResult.auth_failed why) = err (setup_failed why)
setup_reply (SetupResult.failed why) = err (setup_failed why)
setup_reply SetupResult.migration_failed = err (setup_failed (text "Migration failed"))
setup_reply (SetupResult.not_ready why) = ok tt
setup_reply SetupResult.success = ok tt

module _ {Json Ctx : Type 0} where
  -- One transition and a reply.
  pub move_then :
      (id : Text) (e : ConfigEntry Json) (t : ConfigEntryState) (why : Option Text)
      (r : Result ConfigEntriesError (Unit {0})) (s : ConfigEntries Json Ctx)
      → get s id ≡ some e
      → valid e.state t ≡ true
      → (set_state id t why >> λ u. (r, u)) s ≡ (r, put_entry id (apply_state e t why) s)
  move_then id e t why r s h v = rw (set_state-valid id e t why s h v)

  get-count_try :
      (id j : Text) (e : ConfigEntry Json) (s : ConfigEntries Json Ctx)
      → get s id ≡ some e
      → get (count_try id s).1 j ≡ (if id == j then some (increment_tries e) else get s j)
  unfolding count_try get
  get-count_try id j e s h =
      ground (arith, lookup-modify id j increment_tries s.entries, ==_iff id j, h)

  finish_setup_lem :
      (id : Text) (e : ConfigEntry Json) (r : SetupResult) (s : ConfigEntries Json Ctx)
      → get s id ≡ some e
      → e.state ≡ setup_in_progress
      → let (reply, t) = finish_setup id r s in
        (reply ≡ setup_reply r)
        × ((j : Text) → get t j ≡ (if id == j then some (setup_entry r e) else get s j))
  unfolding finish_setup valid apply_state
  finish_setup_lem id e (SetupResult.auth_failed why) s h p =
      rw (move_then id e setup_error (some why) (err (setup_failed why)) s h (rw p refl))
        (refl, λ j. get-put_entry id j _ e s h)
  finish_setup_lem id e (SetupResult.failed why) s h p =
      rw (move_then id e setup_error (some why) (err (setup_failed why)) s h (rw p refl))
        (refl, λ j. get-put_entry id j _ e s h)
  finish_setup_lem id e SetupResult.migration_failed s h p =
      rw
        (move_then id e migration_error none (err (setup_failed (text "Migration failed"))) s h
          (rw p refl))
        (refl, λ j. get-put_entry id j _ e s h)
  finish_setup_lem id e (SetupResult.not_ready why) s h p =
      let counted = (count_try id s).1 in
      let e' = increment_tries e in
      let at : get counted id ≡ some e' =
        get-count_try id id e s h ∙ ap (λ b. if b then some e' else get s id) (==_refl id) in
      rw (move_then id e' setup_retry (some why) (ok tt) counted at (rw p refl)) (
        refl,
        λ j. ground (
          arith,
          get-put_entry id j (apply_state e' setup_retry (some why)) e' counted at,
          get-count_try id j e s h,
        ),
      )
  finish_setup_lem id e SetupResult.success s h p =
      rw (move_then id e loaded none (ok tt) s h (rw p refl))
        (refl, λ j. get-put_entry id j _ e s h)

  setup_locked_lem :
      (id : Text) (e : ConfigEntry Json) (context : Ctx) (s : ConfigEntries Json Ctx)
      → get s id ≡ some e
      → valid e.state setup_in_progress ≡ true
      → let (reply, t) = setup_locked id e context s in
        let r = call_setup s e context in
        (reply ≡ setup_reply r)
        × ((j : Text) → get t j ≡ (if id == j then some (setup_entry r e) else get s j))
  unfolding setup_locked apply_state call_setup
  setup_locked_lem id e context s h v =
      let e' = apply_state e setup_in_progress none in
      let started = put_entry id e' s in
      let r = call_setup s e context in
      let at : get started id ≡ some e' =
        get-put_entry id id e' e s h ∙ ap (λ b. if b then some e' else get s id) (==_refl id) in
      let (replied, left) = finish_setup_lem id e' r started at refl in
      rw (set_state-valid id e setup_in_progress none s h v)
        (replied, λ j. ground (arith, left j, get-put_entry id j e' e s h))

  setup-enabled :
      (id : Text) (e : ConfigEntry Json) (context : Ctx) (s : ConfigEntries Json Ctx)
      → get s id ≡ some e
      → e.disabled_by ≡ none
      → s.context ≡ some context
      → setup id s ≡ setup_locked id e context s
  unfolding setup setup_of
  setup-enabled id e context s h d c = ground arith

  -- Setting up an enabled entry that is not loaded or whose last set-up failed: the reply is that of
  -- the handler's result, the entry goes to the state of that result, with its reason and the number
  -- of tries, and every other entry stays.
  pub setup_lem :
      (id : Text) (e : ConfigEntry Json) (context : Ctx) (s : ConfigEntries Json Ctx)
      → get s id ≡ some e
      → e.disabled_by ≡ none
      → s.context ≡ some context
      → valid e.state setup_in_progress ≡ true
      → let (reply, t) = setup id s in
        let r = call_setup s e context in
        (reply ≡ setup_reply r)
        × ((j : Text) → get t j ≡ (if id == j then some (setup_entry r e) else get s j))
  setup_lem id e context s h d c v =
      rw (setup-enabled id e context s h d c) (setup_locked_lem id e context s h v)

  -- Setting up an enabled entry in any other state is refused and changes nothing.
  pub setup_refused :
      (id : Text) (e : ConfigEntry Json) (context : Ctx) (s : ConfigEntries Json Ctx)
      → get s id ≡ some e
      → e.disabled_by ≡ none
      → s.context ≡ some context
      → valid e.state setup_in_progress ≡ false
      → let why = transition_error_reason e.state setup_in_progress in
        setup id s ≡ (
          err (
              invalid_transition (record { from = e.state; to = setup_in_progress; reason = why })),
          s,
        )
  unfolding setup_locked
  setup_refused id e context s h d c v =
      setup-enabled id e context s h d c
      ∙ rw (set_state-invalid id e setup_in_progress none s h v) refl

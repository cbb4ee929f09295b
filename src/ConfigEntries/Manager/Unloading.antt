-- ===== src/ConfigEntries/Manager/Unloading.antt =====
-- What `unload` of manager.rs does to the entry, and what it replies.
use homeassistant_rs.Base.{
  ◌≡◌, refl, ap, ◌∙◌, true, false, none, some, arith, ==_iff, ==_refl, ◌==◌, list_eq, nat_eq,
  if◌then◌else◌, Bool-cases, inl, inr, Result, ok, err,
}
use homeassistant_rs.Base.Text.{Text, text}
use homeassistant_rs.ConfigEntries.Lifecycle.{
  ConfigEntryState, not_loaded, loaded, setup_error, setup_retry, unload_in_progress, failed_unload,
  valid, is_recoverable,
}
use homeassistant_rs.ConfigEntries.Entry.{ConfigEntry, apply_state}
use homeassistant_rs.ConfigEntries.Manager.{
  UnloadResult, ConfigEntriesError, cannot_unload, unload_failed, ConfigEntries, get, ◌>>◌,
}
use homeassistant_rs.ConfigEntries.Manager.Setup.{
  set_state, call_unload, finish_unload, unload_locked, unload_of, unload,
}
use homeassistant_rs.ConfigEntries.Manager.Outcomes.{
  put_entry, get-put_entry, set_state-valid, move_then,
}

module _ {Json : Type 0} where
  abbrev pub closed : ConfigEntry Json → ConfigEntry Json
  closed e = record e { state = not_loaded; reason = none; tries = 0 }

  abbrev pub stuck : Text → ConfigEntry Json → ConfigEntry Json
  stuck why e = record e { state = failed_unload; reason = some why; tries = 0 }

  abbrev pub unloaded_entry : UnloadResult → ConfigEntry Json → ConfigEntry Json
  unloaded_entry (UnloadResult.failed why) e = stuck why e
  unloaded_entry UnloadResult.not_supported e = stuck (text "Unload not supported") e
  unloaded_entry UnloadResult.success e = closed e

  -- The entry that `unload` leaves of an entry in the given state.
  abbrev pub unload_entry : ConfigEntryState → UnloadResult → ConfigEntry Json → ConfigEntry Json
  unload_entry loaded r e = unloaded_entry r e
  unload_entry setup_error r e = closed e
  unload_entry setup_retry r e = closed e
  unload_entry _ r e = e

abbrev pub unloaded_reply : UnloadResult → Result ConfigEntriesError (Unit {0})
unloaded_reply (UnloadResult.failed why) = err (unload_failed why)
unloaded_reply UnloadResult.not_supported =
    err (unload_failed (text "Integration does not support unload"))
unloaded_reply UnloadResult.success = ok tt

abbrev pub unload_reply : ConfigEntryState → UnloadResult → Result ConfigEntriesError (Unit {0})
unload_reply loaded r = unloaded_reply r
unload_reply setup_error r = ok tt
unload_reply setup_retry r = ok tt
unload_reply not_loaded r = ok tt
unload_reply s r = err (cannot_unload s)

module _ {Json Ctx : Type 0} where
  finish_unload_lem :
      (id : Text) (e : ConfigEntry Json) (r : UnloadResult) (s : ConfigEntries Json Ctx)
      → get s id ≡ some e
      → e.state ≡ unload_in_progress
      → let (reply, t) = finish_unload id r s in
        (reply ≡ unloaded_reply r)
        × ((j : Text) → get t j ≡ (if id == j then some (unloaded_entry r e) else get s j))
  unfolding finish_unload valid apply_state
  finish_unload_lem id e (UnloadResult.failed why) s h p =
      rw (move_then id e failed_unload (some why) (err (unload_failed why)) s h (rw p refl))
        (refl, λ j. get-put_entry id j _ e s h)
  finish_unload_lem id e UnloadResult.not_supported s h p =
      rw
        (move_then id e failed_unload (some (text "Unload not supported"))
          (err (unload_failed (text "Integration does not support unload"))) s h (rw p refl))
        (refl, λ j. get-put_entry id j _ e s h)
  finish_unload_lem id e UnloadResult.success s h p =
      rw (move_then id e not_loaded none (ok tt) s h (rw p refl))
        (refl, λ j. get-put_entry id j _ e s h)

  get-started :
      (id : Text) (e e' : ConfigEntry Json) (s : ConfigEntries Json Ctx)
      → get s id ≡ some e
      → get (put_entry id e' s) id ≡ some e'
  get-started id e e' s h =
      get-put_entry id id e' e s h ∙ ap (λ b. if b then some e' else get s id) (==_refl id)

  unload_loaded :
      (id : Text) (e : ConfigEntry Json) (context : Ctx) (s : ConfigEntries Json Ctx)
      → get s id ≡ some e
      → e.state ≡ loaded
      → let (reply, t) = unload_locked id e context s in
        let r = call_unload s e context in
        (reply ≡ unloaded_reply r)
        × ((j : Text) → get t j ≡ (if id == j then some (unloaded_entry r e) else get s j))
  unfolding unload_locked apply_state call_unload valid
  unload_loaded id e context s h p =
      let e' = apply_state e unload_in_progress none in
      let started = put_entry id e' s in
      let r = call_unload s e context in
      let (replied, left) = finish_unload_lem id e' r started (get-started id e e' s h) refl in
      simp p (
        rw (set_state-valid id e unload_in_progress none s h (simp p refl))
          (replied, λ j. ground (arith, left j, get-put_entry id j e' e s h)))

  unload_in_error :
      (id : Text) (e : ConfigEntry Json) (s : ConfigEntries Json Ctx)
      → get s id ≡ some e
      → valid e.state unload_in_progress ≡ true
      → let (reply, t) =
          (set_state id unload_in_progress none >> λ u.
          (set_state id not_loaded none >> λ v. (ok tt, v)) u)
            s in
        (reply ≡ ok tt) × ((j : Text) → get t j ≡ (if id == j then some (closed e) else get s j))
  unfolding apply_state valid
  unload_in_error id e s h v =
      let e' = apply_state e unload_in_progress none in
      let started = put_entry id e' s in
      rw (set_state-valid id e unload_in_progress none s h v) (
        rw (move_then id e' not_loaded none (ok tt) started (get-started id e e' s h) refl) (
          refl,
          λ j. ground (
            arith,
            get-put_entry id j (closed e) e' started (get-started id e e' s h),
            get-put_entry id j e' e s h,
          ),
        ))

  unload_setup_error :
      (id : Text) (e : ConfigEntry Json) (context : Ctx) (s : ConfigEntries Json Ctx)
      → get s id ≡ some e
      → e.state ≡ setup_error
      → let (reply, t) = unload_locked id e context s in
        (reply ≡ ok tt) × ((j : Text) → get t j ≡ (if id == j then some (closed e) else get s j))
  unfolding unload_locked valid
  unload_setup_error id e context s h p = simp p (unload_in_error id e s h (simp p refl))

  unload_setup_retry :
      (id : Text) (e : ConfigEntry Json) (context : Ctx) (s : ConfigEntries Json Ctx)
      → get s id ≡ some e
      → e.state ≡ setup_retry
      → let (reply, t) = unload_locked id e context s in
        (reply ≡ ok tt) × ((j : Text) → get t j ≡ (if id == j then some (closed e) else get s j))
  unfolding unload_locked valid
  unload_setup_retry id e context s h p = simp p (unload_in_error id e s h (simp p refl))

  unload_not_loaded :
      (id : Text) (e : ConfigEntry Json) (context : Ctx) (s : ConfigEntries Json Ctx)
      → get s id ≡ some e
      → e.state ≡ not_loaded
      → unload_locked id e context s ≡ (ok tt, s)
  unfolding unload_locked
  unload_not_loaded id e context s h p = simp p refl

  same_entry :
      (id j : Text) (e : ConfigEntry Json) (s : ConfigEntries Json Ctx)
      → get s id ≡ some e
      → get s j ≡ (if id == j then some e else get s j)
  same_entry id j e s h = ground (arith, ==_iff id j, h)

  unload_locked_lem :
      (id : Text) (e : ConfigEntry Json) (context : Ctx) (s : ConfigEntries Json Ctx)
      → get s id ≡ some e
      → is_recoverable e.state ≡ true
      → let (reply, t) = unload_locked id e context s in
        let r = call_unload s e context in
        (reply ≡ unload_reply e.state r)
        × ((j : Text) → get t j ≡ (if id == j then some (unload_entry e.state r e) else get s j))
  unfolding is_recoverable
  unload_locked_lem id e context s h v = by_state e.state refl
    where
      by_state :
          (state : ConfigEntryState)
          → e.state ≡ state
          → let (reply, t) = unload_locked id e context s in
            let r = call_unload s e context in
            (reply ≡ unload_reply e.state r)
            × ((j : Text)
                → get t j ≡ (if id == j then some (unload_entry e.state r e) else get s j))
      by_state loaded p = simp p (unload_loaded id e context s h p)
      by_state setup_error p = simp p (unload_setup_error id e context s h p)
      by_state setup_retry p = simp p (unload_setup_retry id e context s h p)
      by_state not_loaded p =
          rw (unload_not_loaded id e context s h p) (simp p (refl, λ j. same_entry id j e s h))
      by_state _ p = absurd (ground (arith, p, v))

  unload-recoverable :
      (id : Text) (e : ConfigEntry Json) (context : Ctx) (s : ConfigEntries Json Ctx)
      → get s id ≡ some e
      → s.context ≡ some context
      → is_recoverable e.state ≡ true
      → unload id s ≡ unload_locked id e context s
  unfolding unload unload_of
  unload-recoverable id e context s h c v = ground arith

  unload-refused :
      (id : Text) (e : ConfigEntry Json) (s : ConfigEntries Json Ctx)
      → get s id ≡ some e
      → is_recoverable e.state ≡ false
      → unload id s ≡ (err (cannot_unload e.state), s)
  unfolding unload unload_of
  unload-refused id e s h v = ground arith

  kept :
      (id : Text) (e : ConfigEntry Json) (r : UnloadResult) (s : ConfigEntries Json Ctx)
      → get s id ≡ some e
      → is_recoverable e.state ≡ false
      → (err (cannot_unload e.state) ≡ unload_reply e.state r)
        × ((j : Text) → get s j ≡ (if id == j then some (unload_entry e.state r e) else get s j))
  unfolding is_recoverable
  kept id e r s h v = (ground arith, λ j. ground (arith, same_entry id j e s h))

  -- Unloading an entry, in every state: a loaded entry goes to the state of the handler's result, one
  -- in an error state to `NotLoaded`, one in any other state stays; the reply fits; no other entry
  -- changes.
  pub unload_lem :
      (id : Text) (e : ConfigEntry Json) (context : Ctx) (s : ConfigEntries Json Ctx)
      → get s id ≡ some e
      → s.context ≡ some context
      → let (reply, t) = unload id s in
        let r = call_unload s e context in
        (reply ≡ unload_reply e.state r)
        × ((j : Text) → get t j ≡ (if id == j then some (unload_entry e.state r e) else get s j))
  unload_lem id e context s h c = elim (Bool-cases (is_recoverable e.state)) [
    | inl v ↦ rw (unload-recoverable id e context s h c v) (unload_locked_lem id e context s h v)
    | inr v ↦ rw (unload-refused id e s h v) (kept id e (call_unload s e context) s h v)
  ]

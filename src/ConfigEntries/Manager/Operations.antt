-- ===== src/ConfigEntries/Manager/Operations.antt =====
-- Setting up, unloading and reloading of manager.rs are put together of lawful actions.
use homeassistant_rs.Base.{not, Option, none, some, list_eq, nat_eq, option_eq, pair_eq, ok, err}
use homeassistant_rs.Base.Text.{Text, text}
use homeassistant_rs.ConfigEntries.Lifecycle.{
  ConfigEntryState, not_loaded, setup_in_progress, unload_in_progress, is_recoverable,
}
use homeassistant_rs.ConfigEntries.Entry.{ConfigEntry, is_disabled}
use homeassistant_rs.ConfigEntries.Manager.{
  SetupResult, UnloadResult, not_found, cannot_unload, setup_failed, unload_failed, pure, ◌>>◌, get,
}
use homeassistant_rs.ConfigEntries.Manager.Setup.{
  is_in_error, is_not_loaded, set_state, call_setup, finish_setup, setup_locked, with_context,
  setup_of, setup, call_unload, finish_unload, unload_error_state, unload_locked, unload_of, unload,
  reload,
}
use homeassistant_rs.ConfigEntries.Manager.Lawful.{
  IsLawful, IsLawful-throw, IsLawful-pure, IsLawful-bind, IsLawful-with_context, IsLawful-if,
  IsLawful-read,
}
use homeassistant_rs.ConfigEntries.Manager.Modify.{set_state-IsLawful, count_try-IsLawful}

module _ {Json Ctx : Type 0} where
  ruleset lawful_rules =
      (IsLawful-throw, IsLawful-pure, IsLawful-bind, set_state-IsLawful, count_try-IsLawful)

  finish_setup-IsLawful :
      (id : Text) (r : SetupResult) → IsLawful {Json = Json} {Ctx = Ctx} (finish_setup id r)
  unfolding finish_setup
  finish_setup-IsLawful id (SetupResult.auth_failed why) = search lawful_rules
  finish_setup-IsLawful id _ = search lawful_rules

  setup_locked-IsLawful :
      (id : Text) (e : ConfigEntry Json) (c : Ctx)
      → IsLawful {Json = Json} {Ctx = Ctx} (setup_locked id e c)
  unfolding setup_locked
  setup_locked-IsLawful id e c =
      IsLawful-bind (set_state id setup_in_progress none) _
        (set_state-IsLawful id setup_in_progress none)
        (λ _. record {
          indexed = λ s. (finish_setup-IsLawful id (call_setup s e c)).indexed s;
          follows = λ s. (finish_setup-IsLawful id (call_setup s e c)).follows s;
        })

  setup_of-IsLawful :
      (o : Option (ConfigEntry Json)) (id : Text)
      → IsLawful {Json = Json} {Ctx = Ctx} (setup_of o id)
  unfolding setup_of
  setup_of-IsLawful none id = IsLawful-throw (not_found id)
  setup_of-IsLawful (some e) id =
      IsLawful-if (is_disabled e) (λ s. (ok tt, s)) _ (IsLawful-pure tt)
        (IsLawful-read (λ s. s.context)
          (λ c. with_context c (setup_failed (text "Setup context not set")) (setup_locked id e))
          (λ c. IsLawful-with_context c _ _ (setup_locked-IsLawful id e)))

  finish_unload-IsLawful :
      (id : Text) (r : UnloadResult) → IsLawful {Json = Json} {Ctx = Ctx} (finish_unload id r)
  unfolding finish_unload
  finish_unload-IsLawful id (UnloadResult.failed why) = search lawful_rules
  finish_unload-IsLawful id _ = search lawful_rules

  unload_error_state-IsLawful :
      (id : Text) (t : ConfigEntryState)
      → IsLawful {Json = Json} {Ctx = Ctx} (unload_error_state id t)
  unfolding unload_error_state
  unload_error_state-IsLawful id t =
      IsLawful-if (not (is_not_loaded t))
        (set_state id unload_in_progress none >> (set_state id not_loaded none >> pure tt))
        (λ s. (ok tt, s)) (search lawful_rules) (IsLawful-pure tt)

  unload_locked-IsLawful :
      (id : Text) (e : ConfigEntry Json) (c : Ctx)
      → IsLawful {Json = Json} {Ctx = Ctx} (unload_locked id e c)
  unfolding unload_locked
  unload_locked-IsLawful id e c =
      IsLawful-if (is_in_error e.state) (unload_error_state id e.state) _
        (unload_error_state-IsLawful id e.state)
        (IsLawful-bind (set_state id unload_in_progress none) _
          (set_state-IsLawful id unload_in_progress none)
          (λ _.
            IsLawful-read (λ s. call_unload s e c) (finish_unload id) (finish_unload-IsLawful id)))

  unload_of-IsLawful :
      (o : Option (ConfigEntry Json)) (id : Text)
      → IsLawful {Json = Json} {Ctx = Ctx} (unload_of o id)
  unfolding unload_of
  unload_of-IsLawful none id = IsLawful-throw (not_found id)
  unload_of-IsLawful (some e) id =
      IsLawful-if (not (is_recoverable e.state)) (λ s. (err (cannot_unload e.state), s)) _
        (IsLawful-throw _)
        (IsLawful-read (λ s. s.context)
          (λ c. with_context c (unload_failed (text "Setup context not set")) (unload_locked id e))
          (λ c. IsLawful-with_context c _ _ (unload_locked-IsLawful id e)))

  pub setup-IsLawful : (id : Text) → IsLawful {Json = Json} {Ctx = Ctx} (setup id)
  unfolding setup
  setup-IsLawful id =
      IsLawful-read (λ s. get s id) (λ o. setup_of o id) (λ o. setup_of-IsLawful o id)

  pub unload-IsLawful : (id : Text) → IsLawful {Json = Json} {Ctx = Ctx} (unload id)
  unfolding unload
  unload-IsLawful id =
      IsLawful-read (λ s. get s id) (λ o. unload_of o id) (λ o. unload_of-IsLawful o id)

  pub reload-IsLawful : (id : Text) → IsLawful {Json = Json} {Ctx = Ctx} (reload id)
  unfolding reload
  reload-IsLawful id = IsLawful-bind (unload id) _ (unload-IsLawful id) (λ _. setup-IsLawful id)

-- ===== src/Script/Executor/Waiting.antt =====
-- The waits of crates/ha-script/src/executor.rs end.
use homeassistant_rs.Base.{
  ℕ, zero, suc, ◌+◌, ◌-◌, ◌*◌, ◌≤◌, Bool, true, false, ◌≡◌, refl, ◌⊎◌, inl, inr, Option, none, some,
  Result, ok, err, arith, Bool-cases, unwrap_or,
}
use native.Mathlib.Decide.{dec_le}
use mathlib.Core.Logic.{dite}
use homeassistant_rs.Base.Text.{Text}
use homeassistant_rs.Base.Json.{Value}
use homeassistant_rs.Automation.EvalContext.{is_truthy}
use homeassistant_rs.Script.Action.{WaitTemplateAction}
use homeassistant_rs.Script.Context.{ExecutionContext, WaitContext}
use homeassistant_rs.Script.Durations.{Duration, per_second}
use homeassistant_rs.Script.Machine.{
  Machine, Outcome, Failure, error, timeout, ActionResult, proceed,
}
use homeassistant_rs.Script.Templates.{render}
use homeassistant_rs.Script.Steps.{
  poll, look, poll_interval, poll_then_end, poll_from_now, end_wait, template_vars, wait_timeout,
  execute_wait_template,
}

module _ {World : Type 0} (m : Machine World) (vars : Value) (s : Text) where
  -- The template is true in the world.
  abbrev pub IsTrue : World → Type 0
  IsTrue w =
      (result : Text) × (render m.rt (m.state_machine w) vars s ≡ ok result)
      × (is_truthy result ≡ true)

  -- What the polling found in the world in which it ended.
  abbrev pub Polled : ℕ → Duration → Result Failure Bool × World → Type 0
  Polled start max_wait (ok true, w) = IsTrue w
  Polled start max_wait (ok false, w) = max_wait ≤ m.instant_now w - start
  Polled start max_wait (err e, w) = render m.rt (m.state_machine w) vars s ≡ err e

  look-Polled :
      (start : ℕ) (max_wait : Duration) (w : World) (later : Result Failure Bool × World)
      (r : Result Failure Text)
      → render m.rt (m.state_machine w) vars s ≡ r
      → Polled start max_wait later
      → Polled start max_wait (look m r w later)
  unfolding look
  look-Polled start max_wait w later (err e) p h = p
  look-Polled start max_wait w later (ok result) p h = elim (Bool-cases (is_truthy result)) [
    | inl yes_true ↦ rw yes_true (result, p, yes_true)
    | inr not_true ↦ rw not_true h
  ]

  poll-Polled :
      (start max_wait rounds : ℕ) (w : World) (h : start + max_wait ≤ m.instant_now w + rounds)
      → Polled start max_wait (poll m vars s start max_wait rounds w h)
  unfolding poll
  poll-Polled start max_wait zero w h =
      look-Polled start max_wait w (ok false, w) (render m.rt (m.state_machine w) vars s) refl
        (omega arith)
  poll-Polled start max_wait (suc rounds) w h =
      look-Polled start max_wait w _ (render m.rt (m.state_machine w) vars s) refl
        (elim (dec_le max_wait (m.instant_now w - start))
          as (λ d. Polled start max_wait (
            dite d (λ _. (ok false, w))
              (λ early.
                poll m vars s start max_wait rounds (m.sleep (poll_interval m) w)
                  (omega (arith, m.sleep_advances (poll_interval m) w))))) [
                    | yes late ↦ late
                    | no early ↦ poll-Polled start max_wait rounds (m.sleep (poll_interval m) w) _
                  ])

abbrev pub waited : Bool → WaitContext
waited completed = record { trigger = none; remaining_secs = 0; completed = completed }

module _ {World : Type 0} (m : Machine World) (a : WaitTemplateAction) where
  -- How a wait that began at `start` ended: the template is true, or the time is over, or the template
  -- cannot be rendered.
  abbrev pub Waited : Value → ℕ → Duration → Outcome World ActionResult → Type 0
  Waited vars start max_wait (ok r, ctx, w) =
      ((ctx.wait ≡ some (waited true)) × IsTrue m vars a.wait_template w)
      ⊎ ((ctx.wait ≡ some (waited false))
          × (max_wait ≤ m.instant_now w - start)
          × (a.continue_on_timeout ≡ true))
  Waited vars start max_wait (err e, ctx, w) =
      ((e ≡ error timeout) × (max_wait ≤ m.instant_now w - start) × (a.continue_on_timeout ≡ false))
      ⊎ (render m.rt (m.state_machine w) vars a.wait_template ≡ err e)

  end-Waited :
      (vars : Value) (start : ℕ) (max_wait : Duration) (r : Result Failure Bool)
      (ctx : ExecutionContext) (w : World)
      → Polled m vars a.wait_template start max_wait (r, w)
      → Waited vars start max_wait (proceed (r, ctx, w) (λ b. end_wait m b a.continue_on_timeout))
  unfolding end_wait
  end-Waited vars start max_wait (err e) ctx w h = inr h
  end-Waited vars start max_wait (ok true) ctx w h = inl (refl, h)
  end-Waited vars start max_wait (ok false) ctx w h = elim (Bool-cases a.continue_on_timeout) [
    | inl goes_on ↦ rw goes_on (inr (refl, h, refl))
    | inr gives_up ↦ rw gives_up (inl (refl, h, refl))
  ]

  poll_then_end-Waited :
      (t : Option Duration) (ctx : ExecutionContext) (w : World)
      → Waited
          (template_vars m ctx)
          (m.instant_now w)
          (unwrap_or t (3600 * per_second))
          (poll_then_end m a t ctx w)
  unfolding poll_then_end poll_from_now
  poll_then_end-Waited t ctx w =
      let max_wait = unwrap_or t (3600 * per_second) in
      let start = m.instant_now w in
      let vars = template_vars m ctx in
      end-Waited vars start max_wait
        (poll m vars a.wait_template start max_wait max_wait w (omega arith)).0 ctx
        (poll m vars a.wait_template start max_wait max_wait w (omega arith)).1
        (poll-Polled m vars a.wait_template start max_wait max_wait w (omega arith))

  -- Where its timeout is read, a wait for a template ends with the template true, or with the time,
  -- an hour by default, over, or with an error of the template. The wait context says which, and a
  -- timeout is an error exactly when the action does not continue on it.
  pub execute_wait_template-Waited :
      (t : Option Duration) (ctx : ExecutionContext) (w : World)
      → wait_timeout m a.timeout ctx w ≡ (ok t, ctx, w)
      → Waited
          (template_vars m ctx)
          (m.instant_now w)
          (unwrap_or t (3600 * per_second))
          (execute_wait_template m a ctx w)
  unfolding execute_wait_template
  execute_wait_template-Waited t ctx w h = rw h (poll_then_end-Waited t ctx w)

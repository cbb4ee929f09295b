-- ===== src/Automation/Evaluation/Windows.antt =====
-- When a time condition of crates/ha-automation/src/eval.rs holds.
use homeassistant_rs.Base.{
  ℕ, ◌≤◌, ◌<◌, Bool, true, false, ◌≡◌, refl, sym, ap, ◌∙◌, ◌↔◌, ◌⊎◌, inl, inr, Option, none, some,
  List, [], ◌∷◌, ok, err, arith, ltb, leb, any, not, Bool-cases, if◌then◌else◌, nat_eq, ==_iff,
  ◌>>=◌,
}
use homeassistant_rs.Automation.Condition.{
  TimeCondition, TimeSpec, ConditionError, NaiveTime, fixed, Weekday, WeekdaySpec, from_spec,
  weekday_beq, weekday_number,
}
use homeassistant_rs.Automation.Runtime.{Store, Moment, Runtime}
use homeassistant_rs.Base.Text.{Text}
use homeassistant_rs.StateStore.{get_state}
use homeassistant_rs.Automation.EvalContext.{ConditionResult, parse_time, ok_or}
use homeassistant_rs.Automation.Evaluation.{
  eval_time, on_weekday, is_after, is_before, resolve_time_spec, state_value,
}

-- The weekdays that a condition names, numbered from Monday as `weekday_number` does.
abbrev pub day_number : WeekdaySpec → ℕ
day_number WeekdaySpec.mon = 0
day_number WeekdaySpec.tue = 1
day_number WeekdaySpec.wed = 2
day_number WeekdaySpec.thu = 3
day_number WeekdaySpec.fri = 4
day_number WeekdaySpec.sat = 5
day_number WeekdaySpec.sun = 6

number-from_spec : (w : WeekdaySpec) → weekday_number (from_spec w) ≡ day_number w
unfolding from_spec
number-from_spec WeekdaySpec.mon = refl
number-from_spec WeekdaySpec.tue = refl
number-from_spec WeekdaySpec.wed = refl
number-from_spec WeekdaySpec.thu = refl
number-from_spec WeekdaySpec.fri = refl
number-from_spec WeekdaySpec.sat = refl
number-from_spec WeekdaySpec.sun = refl

abbrev pub IsNamed : Weekday → List WeekdaySpec → Type 0
IsNamed day [] = ⊥
IsNamed day (w ∷ ws) = (day_number w ≡ weekday_number day) ⊎ IsNamed day ws

-- The list names the weekday, or is empty.
abbrev pub IsOn : Weekday → List WeekdaySpec → Type 0
IsOn day [] = Unit
IsOn day (w ∷ ws) = IsNamed day (w ∷ ws)

any-IsNamed :
    (day : Weekday) (ws : List WeekdaySpec)
    → (any (λ w. weekday_beq (from_spec w) day) ws ≡ true) ↔ IsNamed day ws
any-IsNamed day [] = (λ h. cc, λ h. absurd h)
any-IsNamed day (w ∷ ws) = (to (any-IsNamed day ws).0, from (any-IsNamed day ws).1)
  where
    to :
        (any (λ w. weekday_beq (from_spec w) day) ws ≡ true → IsNamed day ws)
        → any (λ w. weekday_beq (from_spec w) day) (w ∷ ws) ≡ true
        → IsNamed day (w ∷ ws)
    to rest h = elim (Bool-cases (weekday_beq (from_spec w) day)) [
      | inl t ↦ inl (
          sym (number-from_spec w)
          ∙ (==_iff (weekday_number (from_spec w)) (weekday_number day)).0 t)
      | inr t ↦ inr (rest (ground (arith, t, h)))
    ]

    from :
        (IsNamed day ws → any (λ w. weekday_beq (from_spec w) day) ws ≡ true)
        → IsNamed day (w ∷ ws)
        → any (λ w. weekday_beq (from_spec w) day) (w ∷ ws) ≡ true
    from rest (inl p) =
        let same : weekday_beq (from_spec w) day ≡ true =
          (==_iff (weekday_number (from_spec w)) (weekday_number day)).1 (number-from_spec w ∙ p) in
        ground (arith, same)
    from rest (inr h) = ground (arith, rest h)

on_weekday-IsOn :
    (ws : List WeekdaySpec) (current : Moment)
    → (on_weekday ws current ≡ true) ↔ IsOn current.weekday ws
on_weekday-IsOn [] current = (λ h. tt, λ h. refl)
on_weekday-IsOn (w ∷ ws) current = any-IsNamed current.weekday (w ∷ ws)

ok_or_iff :
    (o : Option NaiveTime) (e : ConditionError) (t : NaiveTime) → (ok_or o e ≡ ok t) ↔ (o ≡ some t)
unfolding ok_or
ok_or_iff none e t = (λ h. absurd (ground (arith, h)), λ h. absurd (ground (arith, h)))
ok_or_iff (some u) e t = (λ h. ground (arith, h), λ h. ground (arith, h))

-- What is read of the state that an entity may have.
reads_iff :
    (found : Option Text) (missing : ConditionError) (parse : Text → Option NaiveTime)
    (unread : Text → ConditionError) (t : NaiveTime)
    → ((ok_or found missing >>= λ s. ok_or (parse s) (unread s)) ≡ ok t)
      ↔ ((s : Text) × (found ≡ some s) × (parse s ≡ some t))
unfolding ok_or
reads_iff none missing parse unread t =
    (λ h. absurd (ground (arith, h)), λ h. absurd (ground (arith, h.1)))
reads_iff (some s) missing parse unread t = (
  λ h. (s, refl, (ok_or_iff (parse s) (unread s) t).0 h),
  λ h.
      let same : s ≡ h.0 = ground (arith, h.1) in
      (ok_or_iff (parse s) (unread s) t).1 (ap parse same ∙ h.2),
)

module _ (rt : Runtime) (store : Store) where
  -- The time that a specification stands for: itself, or what the state of an entity reads as.
  abbrev pub Denotes : TimeSpec → NaiveTime → Type 0
  Denotes (fixed time) t = time ≡ t
  Denotes (TimeSpec.entity id) t =
      (s : Text) × (get_state store id ≡ some s) × (parse_time rt s ≡ some t)

  abbrev pub IsFrom : Option TimeSpec → NaiveTime → Type 0
  IsFrom none time = Unit
  IsFrom (some spec) time = (t : NaiveTime) × Denotes spec t × (t ≤ time)

  abbrev pub IsUntil : Option TimeSpec → NaiveTime → Type 0
  IsUntil none time = Unit
  IsUntil (some spec) time = (t : NaiveTime) × Denotes spec t × (time < t)

  after_iff :
      (r : ConditionResult NaiveTime) (time : NaiveTime)
      → ((r >>= λ t. ok (not (ltb time t))) ≡ ok true) ↔ ((t : NaiveTime) × (r ≡ ok t) × (t ≤ time))
  after_iff (ok t) time = (λ h. (t, refl, ground (arith, h)), λ h. late h.1 h.2)
    where
      late :
          {u : NaiveTime}
          → ◌≡◌ {A = ConditionResult NaiveTime} (ok t) (ok u)
          → u ≤ time
          → ◌≡◌ {A = ConditionResult Bool} (ok (not (ltb time t))) (ok true)
      late p le = ground arith
  after_iff (err e) time = (λ h. absurd (ground (arith, h)), λ h. absurd (ground (arith, h.1)))

  before_iff :
      (r : ConditionResult NaiveTime) (time : NaiveTime)
      → ((r >>= λ t. ok (not (leb t time))) ≡ ok true) ↔ ((t : NaiveTime) × (r ≡ ok t) × (time < t))
  before_iff (ok t) time = (λ h. (t, refl, ground (arith, h)), λ h. early h.1 h.2)
    where
      early :
          {u : NaiveTime}
          → ◌≡◌ {A = ConditionResult NaiveTime} (ok t) (ok u)
          → time < u
          → ◌≡◌ {A = ConditionResult Bool} (ok (not (leb t time))) (ok true)
      early p lt = ground arith
  before_iff (err e) time = (λ h. absurd (ground (arith, h)), λ h. absurd (ground (arith, h.1)))

  resolve_time_spec-Denotes :
      (id : Text) (t : NaiveTime)
      → (resolve_time_spec rt store (TimeSpec.entity id) ≡ ok t) ↔ Denotes (TimeSpec.entity id) t
  unfolding resolve_time_spec state_value
  resolve_time_spec-Denotes id t = reads_iff (get_state store id) _ (parse_time rt) _ t

  is_after-IsFrom :
      (spec : Option TimeSpec) (time : NaiveTime)
      → (is_after rt store spec time ≡ ok true) ↔ IsFrom spec time
  unfolding is_after resolve_time_spec
  is_after-IsFrom none time = (λ h. tt, λ h. refl)
  is_after-IsFrom (some (fixed u)) time =
      (λ h. (u, refl, ground (arith, h)), λ h. ground (arith, h.1, h.2))
  is_after-IsFrom (some (TimeSpec.entity id)) time = (
    λ h.
        let found = (after_iff (resolve_time_spec rt store (TimeSpec.entity id)) time).0 h in
        (found.0, (resolve_time_spec-Denotes id found.0).0 found.1, found.2),
    λ h.
        (after_iff (resolve_time_spec rt store (TimeSpec.entity id)) time).1
          (h.0, (resolve_time_spec-Denotes id h.0).1 (h.1.0, h.1.1, h.1.2), h.2),
  )

  is_before-IsUntil :
      (spec : Option TimeSpec) (time : NaiveTime)
      → (is_before rt store spec time ≡ ok true) ↔ IsUntil spec time
  unfolding is_before resolve_time_spec
  is_before-IsUntil none time = (λ h. tt, λ h. refl)
  is_before-IsUntil (some (fixed u)) time =
      (λ h. (u, refl, ground (arith, h)), λ h. ground (arith, h.1, h.2))
  is_before-IsUntil (some (TimeSpec.entity id)) time = (
    λ h.
        let found = (before_iff (resolve_time_spec rt store (TimeSpec.entity id)) time).0 h in
        (found.0, (resolve_time_spec-Denotes id found.0).0 found.1, found.2),
    λ h.
        (before_iff (resolve_time_spec rt store (TimeSpec.entity id)) time).1
          (h.0, (resolve_time_spec-Denotes id h.0).1 (h.1.0, h.1.1, h.1.2), h.2),
  )

  eval_time_passes :
      (on : Bool) (after before : ConditionResult Bool)
      → ((if on then (after >>= λ late. if late then before else ok false) else ok false) ≡ ok true)
        ↔ ((on ≡ true) × (after ≡ ok true) × (before ≡ ok true))
  eval_time_passes true (ok true) before = (λ h. (refl, refl, h), λ h. h.2)
  eval_time_passes true (ok false) before =
      (λ h. absurd (ground (arith, h)), λ h. absurd (ground (arith, h.1)))
  eval_time_passes true (err e) before =
      (λ h. absurd (ground (arith, h)), λ h. absurd (ground (arith, h.1)))
  eval_time_passes false after before =
      (λ h. absurd (ground (arith, h)), λ h. absurd (ground (arith, h.0)))

  -- A time condition holds exactly when it names no weekday or the current one, the current time is
  -- not before its `after` and it is before its `before`, where it has them. Either stands for its own time,
  -- or for the time that the state of its entity reads as.
  pub eval_time-true_iff :
      (c : TimeCondition) (current : Moment)
      → (eval_time rt store c current ≡ ok true) ↔ (
          IsOn current.weekday c.weekday
          × IsFrom c.after current.time
          × IsUntil c.before current.time)
  unfolding eval_time
  eval_time-true_iff c current = (
    λ h.
        let all = (passes).0 h in
        (
          (on_weekday-IsOn c.weekday current).0 all.0,
          (is_after-IsFrom c.after current.time).0 all.1,
          (is_before-IsUntil c.before current.time).0 all.2,
        ),
    λ h. passes.1 (
      (on_weekday-IsOn c.weekday current).1 h.0,
      (is_after-IsFrom c.after current.time).1 h.1,
      (is_before-IsUntil c.before current.time).1 h.2,
    ),
  )
    where
      passes : (eval_time rt store c current ≡ ok true) ↔ (
          (on_weekday c.weekday current ≡ true)
          × (is_after rt store c.after current.time ≡ ok true)
          × (is_before rt store c.before current.time ≡ ok true))
      passes =
          eval_time_passes (on_weekday c.weekday current) (is_after rt store c.after current.time)
            (is_before rt store c.before current.time)

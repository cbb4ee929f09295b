-- ===== src/AutomationEngine/Interleaving.antt =====
-- The runs of automations in crates/ha-server/src/automation_engine.rs, which are tasks of their own:
-- any run may be admitted, or end, between the steps of the others.
use homeassistant_rs.Base.{
  ℕ, zero, suc, ◌+◌, ◌-◌, ◌≤◌, true, false, ◌≡◌, refl, sym, ap, ◌∙◌, Bool-cases, none, some, List,
  [], ◌∷◌, ◌++◌, ◌==◌, nat_eq, list_eq, ==_iff, ==_refl, arith, if◌then◌else◌, inl, inr,
}
use mathlib.Core.Path.{subst}
use homeassistant_rs.Base.Text.{Text}
use homeassistant_rs.Base.Map
use homeassistant_rs.Base.Map.{lookup-insert, lookup-modify}
use homeassistant_rs.Automation.Manager.{ExecutionMode, single, restart, queued, parallel, has_room}
use homeassistant_rs.AutomationEngine.{Executing, runs_of, admit, release}

-- The tasks are those between their admission and their end, each given by the id of its automation,
-- and `panicked` has those that a panic of the executor ended before they released their count.
pub record State : Type 0 where
  pub executing : Executing
  pub tasks : List Text
  pub panicked : List Text

abbrev pub count_of : Text → List Text → ℕ
count_of id [] = 0
count_of id (task ∷ tasks) = (if task == id then 1 else 0) + count_of id tasks

-- The modes of the automations do not change.
module _ (mode : Text → ExecutionMode) where
  pub data Step : State → State → Type 0 where
    begin :
        (id : Text) (s : State) (admitted : Executing)
        → admit (mode id) id s.executing ≡ some admitted
        → Step s (record s { executing = admitted; tasks = id ∷ s.tasks })
    finish :
        (id : Text) (executing : Executing) (before after panicked : List Text) (s : State)
        → s ≡ record { executing = executing; tasks = before ++ (id ∷ after); panicked = panicked }
        → Step s (record {
          executing = release id executing;
          tasks = before ++ after;
          panicked = panicked;
        })
    unwind :
        (id : Text) (executing : Executing) (before after panicked : List Text) (s : State)
        → s ≡ record { executing = executing; tasks = before ++ (id ∷ after); panicked = panicked }
        → Step s
            (record { executing = executing; tasks = before ++ after; panicked = id ∷ panicked })

  pub data Reach : State → Type 0 where
    start : Reach (record { executing = []; tasks = []; panicked = [] })
    next : {s t : State} → Reach s → Step s t → Reach t

abbrev pub IsWithin : ExecutionMode → ℕ → Type 0
IsWithin single n = n ≤ 1
IsWithin restart n = Unit
IsWithin (queued max) n = n ≤ max
IsWithin (parallel max) n = n ≤ max

-- The tasks of an automation that run or have panicked.
abbrev pub unreleased : Text → State → ℕ
unreleased id s = count_of id s.tasks + count_of id s.panicked

-- Each count is that of the unreleased tasks, and within the limit of the mode.
abbrev pub IsCounted : (Text → ExecutionMode) → State → Type 0
IsCounted mode s =
    (id : Text) → (runs_of id s.executing ≡ unreleased id s) × IsWithin (mode id) (unreleased id s)

count_of-append :
    (id : Text) (xs ys : List Text) → count_of id (xs ++ ys) ≡ count_of id xs + count_of id ys
count_of-append id [] ys = omega arith
count_of-append id (x ∷ xs) ys = omega (arith, count_of-append id xs ys)

pub room-IsWithin : (mode : ExecutionMode) (n : ℕ) → has_room mode n ≡ true → IsWithin mode (n + 1)
unfolding has_room
room-IsWithin single n h = ground arith
room-IsWithin restart n h = tt
room-IsWithin (queued max) n h = ground arith
room-IsWithin (parallel max) n h = ground arith

fewer-IsWithin : (mode : ExecutionMode) (n k : ℕ) → k ≤ n → IsWithin mode n → IsWithin mode k
fewer-IsWithin single n k le h = omega arith
fewer-IsWithin restart n k le h = tt
fewer-IsWithin (queued max) n k le h = omega arith
fewer-IsWithin (parallel max) n k le h = omega arith

admit_lem :
    (mode : ExecutionMode) (id : Text) (e admitted : Executing)
    → admit mode id e ≡ some admitted
    → (has_room mode (runs_of id e) ≡ true) × (Map.insert id (runs_of id e + 1) e ≡ admitted)
unfolding admit
admit_lem mode id e admitted h = elim (Bool-cases (has_room mode (runs_of id e))) [
  | inl room ↦ (room, ground arith)
  | inr full ↦ absurd (ground arith)
]

runs_of-insert :
    (id j : Text) (n : ℕ) (e : Executing)
    → runs_of j (Map.insert id n e) ≡ (if id == j then n else runs_of j e)
unfolding runs_of
runs_of-insert id j n e = ground (arith, lookup-insert id j n e)

runs_of-release :
    (id j : Text) (e : Executing)
    → runs_of j (release id e) ≡ (if id == j then runs_of j e - 1 else runs_of j e)
unfolding runs_of release
runs_of-release id j e = ground (arith, lookup-modify id j (λ n. n - 1) e)

module _ (mode : Text → ExecutionMode) where
  -- The run that begins, and the others.
  begin_self :
      (id : Text) (s : State) (admitted : Executing)
      → IsCounted mode s
      → admit (mode id) id s.executing ≡ some admitted
      → (runs_of id admitted ≡ unreleased id (record s { tasks = id ∷ s.tasks }))
        × IsWithin (mode id) (unreleased id (record s { tasks = id ∷ s.tasks }))
  begin_self id s admitted c h =
      let (room, is_inserted) = admit_lem (mode id) id s.executing admitted h in
      let n : unreleased id (record s { tasks = id ∷ s.tasks }) ≡ runs_of id s.executing + 1 =
        ground (arith, ==_refl id, (c id).0) in
      let r : runs_of id admitted ≡ runs_of id s.executing + 1 =
        ap (runs_of id) (sym is_inserted)
        ∙ ground
            (arith, runs_of-insert id id (runs_of id s.executing + 1) s.executing, ==_refl id) in
      (r ∙ sym n, rw n (room-IsWithin (mode id) (runs_of id s.executing) room))

  begin_other :
      (id j : Text) (s : State) (admitted : Executing)
      → IsCounted mode s
      → admit (mode id) id s.executing ≡ some admitted
      → (id == j) ≡ false
      → (runs_of j admitted ≡ unreleased j (record s { tasks = id ∷ s.tasks }))
        × IsWithin (mode j) (unreleased j (record s { tasks = id ∷ s.tasks }))
  begin_other id j s admitted c h other =
      let (room, is_inserted) = admit_lem (mode id) id s.executing admitted h in
      let n : unreleased j (record s { tasks = id ∷ s.tasks }) ≡ unreleased j s =
        rw other (omega arith) in
      let r : runs_of j admitted ≡ runs_of j s.executing =
        ap (runs_of j) (sym is_inserted)
        ∙ ground (arith, runs_of-insert id j (runs_of id s.executing + 1) s.executing) in
      (r ∙ ((c j).0 ∙ sym n), rw n (c j).1)

  finish-IsCounted :
      (id : Text) (executing : Executing) (before after panicked : List Text)
      → IsCounted mode
          (record { executing = executing; tasks = before ++ (id ∷ after); panicked = panicked })
      → IsCounted mode (record {
        executing = release id executing;
        tasks = before ++ after;
        panicked = panicked;
      })
  finish-IsCounted id executing before after panicked c j =
      let (counted, within) = c j in
      let a : count_of j (before ++ (id ∷ after))
          ≡ count_of j before + ((if id == j then 1 else 0) + count_of j after) =
        count_of-append j before (id ∷ after) in
      let b : count_of j (before ++ after) ≡ count_of j before + count_of j after =
        count_of-append j before after in
      (
        ground (arith, runs_of-release id j executing),
        fewer-IsWithin (mode j) (count_of j (before ++ (id ∷ after)) + count_of j panicked)
            (count_of j (before ++ after) + count_of j panicked) (omega arith) within,
      )

  unwind-IsCounted :
      (id : Text) (executing : Executing) (before after panicked : List Text)
      → IsCounted mode
          (record { executing = executing; tasks = before ++ (id ∷ after); panicked = panicked })
      → IsCounted mode
          (record { executing = executing; tasks = before ++ after; panicked = id ∷ panicked })
  unwind-IsCounted id executing before after panicked c j =
      let (counted, within) = c j in
      let moved : count_of j (before ++ (id ∷ after)) + count_of j panicked
          ≡ count_of j (before ++ after) + count_of j (id ∷ panicked) =
        omega (arith, count_of-append j before (id ∷ after), count_of-append j before after) in
      (counted ∙ moved, rw (sym moved) within)

  Step-IsCounted : {s t : State} → Step mode s t → IsCounted mode s → IsCounted mode t
  Step-IsCounted (begin id s admitted h) c j = elim (Bool-cases (id == j)) [
    | inl same ↦
        subst
          (λ k.
            (runs_of k admitted ≡ unreleased k (record s { tasks = id ∷ s.tasks }))
            × IsWithin (mode k) (unreleased k (record s { tasks = id ∷ s.tasks })))
          ((==_iff id j).0 same) (begin_self id s admitted c h)
    | inr other ↦ begin_other id j s admitted c h other
  ]
  Step-IsCounted (finish id executing before after panicked s p) c j =
      finish-IsCounted id executing before after panicked (subst (IsCounted mode) p c) j
  Step-IsCounted (unwind id executing before after panicked s p) c j =
      unwind-IsCounted id executing before after panicked (subst (IsCounted mode) p c) j

  zero-IsWithin : (md : ExecutionMode) → IsWithin md 0
  zero-IsWithin single = omega arith
  zero-IsWithin restart = tt
  zero-IsWithin (queued max) = omega arith
  zero-IsWithin (parallel max) = omega arith

  -- However runs are admitted and end, normally or by a panic of the executor, the count of each
  -- automation is the number of its tasks that run or have panicked, and that is 1 at most in the mode
  -- `Single` and the maximum at most in the modes `Queued` and `Parallel`.
  pub Reach-IsCounted : {s : State} → Reach mode s → IsCounted mode s
  unfolding runs_of Map.lookup
  Reach-IsCounted start id = (refl, zero-IsWithin (mode id))
  Reach-IsCounted (next r st) id = Step-IsCounted st (Reach-IsCounted r) id

  always :
      (id : Text) (s : State)
      → mode id ≡ restart
      → admit (mode id) id s.executing
        ≡ some (Map.insert id (runs_of id s.executing + 1) s.executing)
  unfolding admit has_room
  always id s p = rw p refl

  -- An automation in the mode `Restart` can have any number of runs at the same time: a new one does not
  -- end those before it.
  pub restart_piles_up :
      (id : Text)
      → mode id ≡ restart
      → (n : ℕ) → (s : State) × Reach mode s × (count_of id s.tasks ≡ n)
  restart_piles_up id is_restart zero =
      (record { executing = []; tasks = []; panicked = [] }, start, refl)
  restart_piles_up id is_restart (suc n) =
      let (s, r, e) = restart_piles_up id is_restart n in
      (
        record s {
          executing = Map.insert id (runs_of id s.executing + 1) s.executing;
          tasks = id ∷ s.tasks;
        },
        next r (
            begin id s (Map.insert id (runs_of id s.executing + 1) s.executing)
              (always id s is_restart)),
        ground (arith, ==_refl id),
      )

  stays_full :
      (id : Text) (e : Executing)
      → mode id ≡ single
      → 1 ≤ runs_of id e
      → admit (mode id) id e ≡ none
  unfolding admit has_room
  stays_full id e is_single some_run = rw is_single (ground arith)

  -- Once a run of an automation in the mode `Single` has panicked, every later run of it is refused.
  pub panicked_refuses :
      {s : State} (id : Text)
      → Reach mode s
      → mode id ≡ single
      → 1 ≤ count_of id s.panicked
      → admit (mode id) id s.executing ≡ none
  panicked_refuses {s} id r is_single some_panic =
      stays_full id s.executing is_single (omega (arith, (Reach-IsCounted r id).0))

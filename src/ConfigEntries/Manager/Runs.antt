-- ===== src/ConfigEntries/Manager/Runs.antt =====
-- Any sequence of the calls on manager.rs that move entries along the lifecycle: each succeeds or
-- fails, and the next is made all the same.
use homeassistant_rs.Base.{◌≡◌, Option, some, List, [], ◌∷◌, list_eq, nat_eq}
use homeassistant_rs.Base.Text.{Text}
use homeassistant_rs.ConfigEntries.Lifecycle.{ConfigEntryState}
use homeassistant_rs.ConfigEntries.Lifecycle.Graph.{IsTerminal, terminal_stays}
use homeassistant_rs.ConfigEntries.Entry.{ConfigEntry}
use homeassistant_rs.ConfigEntries.Manager.{ConfigEntries, get, entry_ids}
use homeassistant_rs.ConfigEntries.Manager.Setup.{
  set_state, setup, unload, reload, setup_each, setup_all,
}
use homeassistant_rs.ConfigEntries.Manager.Indexes.{IsIndexed}
use homeassistant_rs.ConfigEntries.Manager.Lawful.{Follows, Follows-refl, Follows-trans}
use homeassistant_rs.ConfigEntries.Manager.Modify.{set_state-IsLawful}
use homeassistant_rs.ConfigEntries.Manager.Operations.{
  setup-IsLawful, unload-IsLawful, reload-IsLawful,
}

pub data Call : Type 0 where
  set_state_call : Text → ConfigEntryState → Option Text → Call
  setup_call unload_call reload_call : Text → Call
  setup_all_call : Call

module _ {Json Ctx : Type 0} where
  unfoldable pub operate : Call → ConfigEntries Json Ctx → ConfigEntries Json Ctx
  unfolding set_state setup unload reload setup_all
  operate (set_state_call id state reason) s = (set_state id state reason s).1
  operate (setup_call id) s = (setup id s).1
  operate (unload_call id) s = (unload id s).1
  operate (reload_call id) s = (reload id s).1
  operate setup_all_call s = (setup_all s).1

  unfoldable pub run : List Call → ConfigEntries Json Ctx → ConfigEntries Json Ctx
  unfolding operate
  run [] s = s
  run (c ∷ cs) s = run cs (operate c s)

  abbrev pub Advances : ConfigEntries Json Ctx → ConfigEntries Json Ctx → Type 0
  Advances s t = (IsIndexed s → IsIndexed t) × Follows s t

  Advances-trans : (s t u : ConfigEntries Json Ctx) → Advances s t → Advances t u → Advances s u
  Advances-trans s t u (i, f) (j, g) = (λ h. j (i h), Follows-trans s t u f g)

  setup_each-Advances :
      (ids : List Text) (s : ConfigEntries Json Ctx) → Advances s (setup_each ids s).1
  unfolding setup_each
  setup_each-Advances [] s = (λ i. i, Follows-refl s)
  setup_each-Advances (id ∷ ids) s =
      let l = setup-IsLawful {Json = Json} {Ctx = Ctx} id in
      Advances-trans s (setup id s).1 _ (l.indexed s, l.follows s)
        (setup_each-Advances ids (setup id s).1)

  operate-Advances : (c : Call) (s : ConfigEntries Json Ctx) → Advances s (operate c s)
  unfolding operate setup_all
  operate-Advances (set_state_call id state reason) s =
      let l = set_state-IsLawful {Json = Json} {Ctx = Ctx} id state reason in
      (l.indexed s, l.follows s)
  operate-Advances (setup_call id) s =
      let l = setup-IsLawful {Json = Json} {Ctx = Ctx} id in (l.indexed s, l.follows s)
  operate-Advances (unload_call id) s =
      let l = unload-IsLawful {Json = Json} {Ctx = Ctx} id in (l.indexed s, l.follows s)
  operate-Advances (reload_call id) s =
      let l = reload-IsLawful {Json = Json} {Ctx = Ctx} id in (l.indexed s, l.follows s)
  operate-Advances setup_all_call s = setup_each-Advances (entry_ids s) s

  -- Whatever calls of `set_state`, `setup`, `unload`, `reload` and `setup_all` are made, and
  -- whatever the handlers' results, every entry stays under its id and moves only along the edges
  -- of the lifecycle's diagram, and indexes that were right stay right.
  pub run-Advances : (cs : List Call) (s : ConfigEntries Json Ctx) → Advances s (run cs s)
  unfolding run
  run-Advances [] s = (λ i. i, Follows-refl s)
  run-Advances (c ∷ cs) s =
      Advances-trans s (operate c s) (run cs (operate c s)) (operate-Advances c s)
        (run-Advances cs (operate c s))

  -- An entry whose migration or unload failed is in that state after any calls.
  pub run-terminal :
      (cs : List Call) (s : ConfigEntries Json Ctx) (id : Text) (a : ConfigEntry Json)
      → get s id ≡ some a
      → IsTerminal a.state
      → (b : ConfigEntry Json) × (get (run cs s) id ≡ some b) × (a.state ≡ b.state)
  run-terminal cs s id a h terminal =
      let (b, there, path) = (run-Advances cs s).1 id a h in
      (b, there, terminal_stays path terminal)

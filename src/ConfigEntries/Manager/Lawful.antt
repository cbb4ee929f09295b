-- ===== src/ConfigEntries/Manager/Lawful.antt =====
-- An action on the manager of manager.rs that keeps the indexes right and moves the entries along the
-- diagram of the lifecycle, whatever its result is; how such actions are put together.
use homeassistant_rs.Base.{
  ◌≡◌, Bool, true, false, Option, none, some, list_eq, nat_eq, option_eq, pair_eq, if◌then◌else◌,
  Result, ok, err,
}
use homeassistant_rs.Base.Text.{Text}
use homeassistant_rs.ConfigEntries.Lifecycle.Graph.{◌⟶*◌, here, ⟶*-trans}
use homeassistant_rs.ConfigEntries.Entry.{ConfigEntry}
use homeassistant_rs.ConfigEntries.Manager.{
  ConfigEntriesError, ConfigEntries, Action, continue, ◌>>=◌, get,
}
use homeassistant_rs.ConfigEntries.Manager.Setup.{with_context}
use homeassistant_rs.ConfigEntries.Manager.Indexes.{IsIndexed}

module _ {Json Ctx : Type 0} where
  -- Each entry is still there, in a state that the diagram leads to.
  abbrev pub Follows : ConfigEntries Json Ctx → ConfigEntries Json Ctx → Type 0
  Follows s t =
      (id : Text) (a : ConfigEntry Json)
      → get s id ≡ some a
      → (b : ConfigEntry Json) × (get t id ≡ some b) × (a.state ⟶* b.state)

  pub Follows-refl : (s : ConfigEntries Json Ctx) → Follows s s
  Follows-refl s id a h = (a, h, here)

  pub Follows-trans : (s t u : ConfigEntries Json Ctx) → Follows s t → Follows t u → Follows s u
  Follows-trans s t u f g id a h =
      let (b, hb, p) = f id a h in let (c, hc, q) = g id b hb in (c, hc, ⟶*-trans p q)

  pub record IsLawful {A : Type 0} (m : Action (ConfigEntries Json Ctx) A) : Type 0 where
    pub indexed : (s : ConfigEntries Json Ctx) → IsIndexed s → IsIndexed (m s).1
    pub follows : (s : ConfigEntries Json Ctx) → Follows s (m s).1

  pub IsLawful-throw : {A : Type 0} (e : ConfigEntriesError) → IsLawful {A = A} (λ s. (err e, s))
  IsLawful-throw e = record { indexed = λ s i. i; follows = Follows-refl }

  pub IsLawful-pure : {A : Type 0} (a : A) → IsLawful (λ s. (ok a, s))
  IsLawful-pure a = record { indexed = λ s i. i; follows = Follows-refl }

  pub IsLawful-continue :
      {A B : Type 0} (r : Result ConfigEntriesError A) (f : A → Action (ConfigEntries Json Ctx) B)
      → ((a : A) → IsLawful (f a))
      → IsLawful (continue r f)
  IsLawful-continue (ok a) f k = k a
  IsLawful-continue (err e) f k = IsLawful-throw e

  pub IsLawful-bind :
      {A B : Type 0} (m : Action (ConfigEntries Json Ctx) A)
      (f : A → Action (ConfigEntries Json Ctx) B)
      → IsLawful m
      → ((a : A) → IsLawful (f a))
      → IsLawful (m >>= f)
  IsLawful-bind m f l k = record {
    indexed = λ s i. let (r, t) = m s in (IsLawful-continue r f k).indexed t (l.indexed s i);
    follows = λ s.
        let (r, t) = m s in
        Follows-trans s t (continue r f t).1 (l.follows s) ((IsLawful-continue r f k).follows t);
  }

  pub IsLawful-with_context :
      (c : Option Ctx) (e : ConfigEntriesError)
      (f : Ctx → Action (ConfigEntries Json Ctx) (Unit {0}))
      → ((c : Ctx) → IsLawful (f c))
      → IsLawful (with_context c e f)
  IsLawful-with_context none e f k = IsLawful-throw e
  IsLawful-with_context (some c) e f k = k c

  pub IsLawful-if :
      {A : Type 0} (b : Bool) (m n : Action (ConfigEntries Json Ctx) A)
      → IsLawful m
      → IsLawful n
      → IsLawful (λ s. if b then m s else n s)
  IsLawful-if true m n k l = record { indexed = k.indexed; follows = k.follows }
  IsLawful-if false m n k l = record { indexed = l.indexed; follows = l.follows }

  -- An action that first looks at the manager, and then is one or another lawful action.
  pub IsLawful-read :
      {A B : Type 0} (look : ConfigEntries Json Ctx → B) (f : B → Action (ConfigEntries Json Ctx) A)
      → ((b : B) → IsLawful (f b))
      → IsLawful (λ s. f (look s) s)
  IsLawful-read look f k = record {
    indexed = λ s. (k (look s)).indexed s;
    follows = λ s. (k (look s)).follows s;
  }

-- ===== src/Base/Members.antt =====
-- What `ids.iter().filter_map(f)` holds, for the ids that stand in a list.
use Prim.Native.Nat.{◌<◌}
use mathlib.Core.Path.{◌≡◌, refl, sym, ap, ◌∙◌}
use mathlib.Core.Logic.{inl, inr}
use mathlib.Core.Option.{Option, none, some}
use mathlib.Core.List.{List, [], ◌∷◌, Memᴰ}
use native.Mathlib.Omega.{arith}
use homeassistant_rs.Base.Equality.{◌==◌, ==_iff, ==_refl, list_eq, nat_eq}
use homeassistant_rs.Base.IdSet.{count}
use homeassistant_rs.Base.Lists.{filter_map, cons_some}
use homeassistant_rs.Base.Tests.{Bool-cases, Option-cases}
use homeassistant_rs.Base.Text.{Text}

module _ {A : Type 0} where
  pub filter_map-mem :
      (f : Text → Option A) (v : A) (k : Text) (ids : List Text)
      → f k ≡ some v
      → 0 < count k ids
      → Memᴰ v (filter_map f ids)
  unfolding count
  filter_map-mem f v k [] h c = absurd (omega arith)
  filter_map-mem f v k (i ∷ ids) h c = elim (Bool-cases (i == k)) [
    | inl t ↦ rw ((==_iff i k).0 t) (rw h (Memᴰ.head refl))
    | inr t ↦ elim (Option-cases (f i)) [
      | inl n ↦ rw n (filter_map-mem f v k ids h (ground arith))
      | inr m ↦ rw m.1 (Memᴰ.tail (filter_map-mem f v k ids h (ground arith)))
    ]
  ]

  abbrev pub Found : (Text → Option A) → A → List Text → Type 0
  Found f v ids = (k : Text) × (f k ≡ some v) × (0 < count k ids)

  mem-cons_some :
      (f : Text → Option A) (v : A) (i : Text) (ids : List Text) (o : Option A)
      → f i ≡ o
      → (Memᴰ v (filter_map f ids) → Found f v ids)
      → Memᴰ v (cons_some o (filter_map f ids))
      → Found f v (i ∷ ids)
  unfolding count
  mem-cons_some f v i ids none h ih m = let (k, p, c) = ih m in (k, p, ground arith)
  mem-cons_some f v i ids (some w) h ih (Memᴰ.head e) =
      (i, h ∙ ap some (sym e), ground (arith, ==_refl i))
  mem-cons_some f v i ids (some w) h ih (Memᴰ.tail m) = let (k, p, c) = ih m in (k, p, ground arith)

  pub mem-filter_map :
      (f : Text → Option A) (v : A) (ids : List Text) → Memᴰ v (filter_map f ids) → Found f v ids
  mem-filter_map f v [] m = elim m [ ]
  mem-filter_map f v (i ∷ ids) m = mem-cons_some f v i ids (f i) refl (mem-filter_map f v ids) m

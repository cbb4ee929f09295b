-- ===== src/Registries/AreaRegistry/Clearing.antt =====
-- Clearing a floor or a label from the areas of crates/ha-registries/src/area_registry.rs.
use mathlib.Core.Path.{subst}
use homeassistant_rs.Base.{
  ℕ, ◌≡◌, refl, sym, ap, ◌∙◌, Bool, false, not, ◌&&◌, Option, none, some, List, [], ◌∷◌, list_eq,
  nat_eq, option_eq, ◌==◌, ==_iff, arith, filter, if◌then◌else◌, Bool-cases, inl, inr,
}
use homeassistant_rs.Base.Text.{Text}
use homeassistant_rs.Base.Map
use homeassistant_rs.Base.Map.{Map, lookup-remove, lookup-modify, map_option}
use homeassistant_rs.Base.IdSet
use homeassistant_rs.Base.IdSet.{contains-count}
use homeassistant_rs.EntityRegistry.Grouping.{Groups, to_list, found, ids}
use homeassistant_rs.Registries.Naming.{Unicode}
use homeassistant_rs.Registries.Indexing.{has, owns, IsGrouped}
use homeassistant_rs.Registries.AreaRegistry.{
  AreaEntry, AreaRegistry, get, rewrite, without_floor, without_label, clear_floor_id,
  clear_label_id,
}
use homeassistant_rs.Registries.AreaRegistry.Integrity.{floors, labels, name, IsNormal, IsIndexed}

-- A change that, done twice, is the same as done once.
abbrev IsIdempotent : (AreaEntry → AreaEntry) → Type 0
IsIdempotent f = (e : AreaEntry) → f (f e) ≡ f e

map_option-twice :
    (f : AreaEntry → AreaEntry)
    → IsIdempotent f
    → (o : Option AreaEntry) → map_option f (map_option f o) ≡ map_option f o
map_option-twice f twice none = refl
map_option-twice f twice (some e) = ap some (twice e)

lookup-rewrite :
    (f : AreaEntry → AreaEntry) (area_ids : List Text) (r : AreaRegistry) (id : Text)
    → IsIdempotent f
    → Map.lookup id (rewrite f area_ids r).by_id ≡ (
        if IdSet.contains id area_ids
        then map_option f (Map.lookup id r.by_id)
        else Map.lookup id r.by_id)
unfolding rewrite IdSet.contains
lookup-rewrite f [] r id twice = refl
lookup-rewrite f (i ∷ is) r id twice = ground (
  arith,
  lookup-rewrite f is (record r { by_id = Map.modify i f r.by_id }) id twice,
  lookup-modify i id f r.by_id,
  map_option-twice f twice (Map.lookup id r.by_id),
)

-- The indexes are not touched.
rewrite_lem :
    (f : AreaEntry → AreaEntry) (area_ids : List Text) (r : AreaRegistry)
    → ((rewrite f area_ids r).by_name ≡ r.by_name)
      × ((rewrite f area_ids r).by_floor_id ≡ r.by_floor_id)
      × ((rewrite f area_ids r).by_label_id ≡ r.by_label_id)
unfolding rewrite
rewrite_lem f [] r = (refl, refl, refl)
rewrite_lem f (i ∷ is) r = rewrite_lem f is (record r { by_id = Map.modify i f r.by_id })

found-remove :
    (gone key id : Text) (index : Groups)
    → found (Map.remove gone index) key id ≡ (if gone == key then 0 else found index key id)
unfolding ids IdSet.count
found-remove gone key id index = ground (arith, lookup-remove gone key index)

contains-filter :
    (gone key : Text) (xs : List Text)
    → IdSet.contains key (filter (λ x. not (x == gone)) xs)
      ≡ (not (key == gone) && IdSet.contains key xs)
unfolding IdSet.contains
contains-filter gone key [] = ground arith
contains-filter gone key (x ∷ xs) =
    ground (arith, contains-filter gone key xs, ==_iff x gone, ==_iff x key, ==_iff key gone)

filter-twice : (p : Text → Bool) (xs : List Text) → filter p (filter p xs) ≡ filter p xs
filter-twice p [] = refl
filter-twice p (x ∷ xs) = ground (arith, filter-twice p xs)

-- What is done to the entries that have the key in the field, and to no others.
abbrev changed :
    (AreaEntry → AreaEntry) → (AreaEntry → List Text) → Text → Option AreaEntry → Option AreaEntry
changed f field gone o = if has field gone o == 0 then o else map_option f o

lookup-changed :
    (f : AreaEntry → AreaEntry) (field : AreaEntry → List Text) (index : Groups) (gone id : Text)
    (r : AreaRegistry)
    → IsIdempotent f
    → IsGrouped field index r.by_id
    → Map.lookup id (rewrite f (ids index gone) r).by_id
      ≡ changed f field gone (Map.lookup id r.by_id)
lookup-changed f field index gone id r twice g = ground (
  arith,
  lookup-rewrite f (ids index gone) r id twice,
  contains-count id (ids index gone),
  g gone id,
)

changed_keeps :
    {B : Type 0} (P : Option AreaEntry → B) (f : AreaEntry → AreaEntry)
    (field : AreaEntry → List Text) (gone : Text) (o : Option AreaEntry)
    → ((e : AreaEntry) → P (some (f e)) ≡ P (some e))
    → P (changed f field gone o) ≡ P o
changed_keeps P f field gone none kept = refl
changed_keeps P f field gone (some e) kept = elim (Bool-cases (has field gone (some e) == 0)) [
  | inl t ↦ ap P (ground (arith, t))
  | inr t ↦ ap P (ground (arith, t)) ∙ kept e
]

changed-IsNormal :
    (unicode : Unicode) (f : AreaEntry → AreaEntry) (field : AreaEntry → List Text) (gone id : Text)
    (o : Option AreaEntry) (w : AreaEntry)
    → ((e : AreaEntry) → IsNormal unicode id e → IsNormal unicode id (f e))
    → ((e : AreaEntry) → o ≡ some e → IsNormal unicode id e)
    → changed f field gone o ≡ some w
    → IsNormal unicode id w
changed-IsNormal unicode f field gone id none w kept normal h = ground (arith, h)
changed-IsNormal unicode f field gone id (some e) w kept normal h =
    elim (Bool-cases (has field gone (some e) == 0)) [
      | inl t ↦ normal w (ground (arith, t, h))
      | inr t ↦
          let same : f e ≡ w = ground (arith, t, h) in
          subst (IsNormal unicode id) same (kept e (normal e refl))
    ]

contains-nothing : (key : Text) → IdSet.contains key [] ≡ false
unfolding IdSet.contains
contains-nothing key = refl

contains-only_floor :
    (gone key : Text) (floor_id : Option Text)
    → (not (IdSet.contains gone (to_list floor_id)) && IdSet.contains key (to_list floor_id))
      ≡ (not (gone == key) && IdSet.contains key (to_list floor_id))
unfolding IdSet.contains
contains-only_floor gone key none = ground arith
contains-only_floor gone key (some id) =
    ground (arith, ==_iff id gone, ==_iff id key, ==_iff gone key)

has_no_floor :
    (clock : ℕ) (gone key : Text) (o : Option AreaEntry)
    → has floors key (changed (without_floor clock) floors gone o)
      ≡ (if gone == key then 0 else has floors key o)
unfolding without_floor
has_no_floor clock gone key none = ground arith
has_no_floor clock gone key (some e) =
    ground (arith, contains-only_floor gone key e.floor_id, contains-nothing key)

has_no_label :
    (clock : ℕ) (gone key : Text) (o : Option AreaEntry)
    → has labels key (changed (without_label gone clock) labels gone o)
      ≡ (if gone == key then 0 else has labels key o)
unfolding without_label
has_no_label clock gone key none = ground arith
has_no_label clock gone key (some e) =
    ground (arith, contains-filter gone key e.labels, ==_iff key gone, ==_iff gone key)

module _ (unicode : Unicode) where
  pub clear_floor_id-IsIndexed :
      (clock : ℕ) (floor_id : Text) (r : AreaRegistry)
      → IsIndexed unicode r
      → IsIndexed unicode (clear_floor_id clock floor_id r)
  unfolding clear_floor_id get without_floor
  clear_floor_id-IsIndexed clock floor_id r i =
      let f = without_floor clock in
      let s = rewrite f (ids r.by_floor_id floor_id) r in
      let kept = rewrite_lem f (ids r.by_floor_id floor_id) r in
      let at =
        λ (id : Text). lookup-changed f floors r.by_floor_id floor_id id r (λ e. refl) i.on_floor in
      record {
        normal = λ id w h.
            changed-IsNormal unicode f floors floor_id id (Map.lookup id r.by_id) w (λ e n. n)
              (i.normal id) (sym (at id) ∙ h);
        named = λ key id.
            ap (λ m. Map.lookup key m == some id) kept.0
            ∙ i.named key id
            ∙ sym (
                ap (owns name key) (at id)
                ∙ changed_keeps (owns name key) f floors floor_id (Map.lookup id r.by_id)
                    (λ e. refl));
        on_floor = λ key id.
            ap (λ m. found (Map.remove floor_id m) key id) kept.1
            ∙ found-remove floor_id key id r.by_floor_id
            ∙ ap (λ n. if floor_id == key then 0 else n) (i.on_floor key id)
            ∙ sym (
                ap (has floors key) (at id)
                ∙ has_no_floor clock floor_id key (Map.lookup id r.by_id));
        labelled = λ key id.
            ap (λ m. found m key id) kept.2
            ∙ i.labelled key id
            ∙ sym (
                ap (has labels key) (at id)
                ∙ changed_keeps (has labels key) f floors floor_id (Map.lookup id r.by_id)
                    (λ e. refl));
      }

  pub clear_label_id-IsIndexed :
      (clock : ℕ) (label_id : Text) (r : AreaRegistry)
      → IsIndexed unicode r
      → IsIndexed unicode (clear_label_id clock label_id r)
  unfolding clear_label_id get without_label
  clear_label_id-IsIndexed clock label_id r i =
      let f = without_label label_id clock in
      let kept = rewrite_lem f (ids r.by_label_id label_id) r in
      let at = λ (id : Text).
        lookup-changed f labels r.by_label_id label_id id r
          (λ e.
            ap (λ ls. record e { labels = ls; modified_at = clock })
              (filter-twice (λ l. not (l == label_id)) e.labels))
          i.labelled in
      record {
        normal = λ id w h.
            changed-IsNormal unicode f labels label_id id (Map.lookup id r.by_id) w (λ e n. n)
              (i.normal id) (sym (at id) ∙ h);
        named = λ key id.
            ap (λ m. Map.lookup key m == some id) kept.0
            ∙ i.named key id
            ∙ sym (
                ap (owns name key) (at id)
                ∙ changed_keeps (owns name key) f labels label_id (Map.lookup id r.by_id)
                    (λ e. refl));
        on_floor = λ key id.
            ap (λ m. found m key id) kept.1
            ∙ i.on_floor key id
            ∙ sym (
                ap (has floors key) (at id)
                ∙ changed_keeps (has floors key) f labels label_id (Map.lookup id r.by_id)
                    (λ e. refl));
        labelled = λ key id.
            ap (λ m. found (Map.remove label_id m) key id) kept.2
            ∙ found-remove label_id key id r.by_label_id
            ∙ ap (λ n. if label_id == key then 0 else n) (i.labelled key id)
            ∙ sym (
                ap (has labels key) (at id)
                ∙ has_no_label clock label_id key (Map.lookup id r.by_id));
      }

-- ===== src/Registries/Indexing.antt =====
-- The indexes of crates/ha-registries/src: which of them are right, and the writes that keep them so.
use homeassistant_rs.Base.{
  ℕ, ◌≡◌, Bool, false, Option, none, some, List, arith, ==_iff, ◌==◌, list_eq, nat_eq, option_eq,
  if◌then◌else◌,
}
use homeassistant_rs.Base.Text.{Text}
use homeassistant_rs.Base.Map
use homeassistant_rs.Base.Map.{Map, lookup-insert, lookup-remove}
use homeassistant_rs.Base.IdSet
use homeassistant_rs.EntityRegistry.Grouping.{
  Groups, add_each, discard_each, found, found-add_each, found-discard_each,
}
use homeassistant_rs.Registries.Naming.{insert_name, remove_name}

pub lookup-insert_name :
    (o : Option Text) (id key : Text) (index : Map Text Text)
    → Map.lookup key (insert_name o id index)
      ≡ (if o == some key then some id else Map.lookup key index)
unfolding insert_name
lookup-insert_name none id key index = ground arith
lookup-insert_name (some name) id key index = lookup-insert name key id index

pub lookup-remove_name :
    (o : Option Text) (key : Text) (index : Map Text Text)
    → Map.lookup key (remove_name o index) ≡ (if o == some key then none else Map.lookup key index)
unfolding remove_name
lookup-remove_name none key index = ground arith
lookup-remove_name (some name) key index = lookup-remove name key index

module _ {Entry : Type 0} where
  -- 1 if the entry has the value, and 0 otherwise.
  abbrev pub has : (Entry → List Text) → Text → Option Entry → ℕ
  has field key none = 0
  has field key (some e) = if IdSet.contains key (field e) then 1 else 0

  -- The index of a field holds each entry that has the value once, and no other.
  abbrev pub IsGrouped : (Entry → List Text) → Groups → Map Text Entry → Type 0
  IsGrouped field index entries =
      (key id : Text) → found index key id ≡ has field key (Map.lookup id entries)

  pub IsGrouped-insert :
      (field : Entry → List Text) (index : Groups) (id : Text) (e : Entry)
      (entries : Map Text Entry)
      → Map.lookup id entries ≡ none
      → IsGrouped field index entries
      → IsGrouped field (add_each id (field e) index) (Map.insert id e entries)
  IsGrouped-insert field index i e entries fresh g key id = ground (
    arith,
    found-add_each i (field e) index key id,
    lookup-insert i id e entries,
    ==_iff i id,
    g key id,
    fresh,
  )

  pub IsGrouped-remove :
      (field : Entry → List Text) (index : Groups) (id : Text) (e : Entry)
      (entries : Map Text Entry)
      → Map.lookup id entries ≡ some e
      → IsGrouped field index entries
      → IsGrouped field (discard_each id (field e) index) (Map.remove id entries)
  IsGrouped-remove field index i e entries there g key id = ground (
    arith,
    found-discard_each i (field e) index key id,
    lookup-remove i id entries,
    ==_iff i id,
    g key id,
    there,
  )

  abbrev pub owns : (Entry → Option Text) → Text → Option Entry → Bool
  owns name key none = false
  owns name key (some e) = name e == some key

  -- A name leads to the entry that has it, and to no other.
  abbrev pub IsNamed : (Entry → Option Text) → Map Text Text → Map Text Entry → Type 0
  IsNamed name index entries =
      (key id : Text) → (Map.lookup key index == some id) ≡ owns name key (Map.lookup id entries)

  pub IsNamed-insert :
      (name : Entry → Option Text) (index : Map Text Text) (id : Text) (e : Entry)
      (entries : Map Text Entry)
      → Map.lookup id entries ≡ none
      → ((key : Text) → name e ≡ some key → Map.lookup key index ≡ none)
      → IsNamed name index entries
      → IsNamed name (insert_name (name e) id index) (Map.insert id e entries)
  IsNamed-insert name index i e entries fresh free n key id = ground (
    arith,
    lookup-insert_name (name e) i key index,
    lookup-insert i id e entries,
    ==_iff i id,
    ==_iff (name e) (some key),
    free key,
    n key id,
    n key i,
    fresh,
  )

  pub IsNamed-remove :
      (name : Entry → Option Text) (index : Map Text Text) (id : Text) (e : Entry)
      (entries : Map Text Entry)
      → Map.lookup id entries ≡ some e
      → IsNamed name index entries
      → IsNamed name (remove_name (name e) index) (Map.remove id entries)
  IsNamed-remove name index i e entries there n key id = ground (
    arith,
    lookup-remove_name (name e) key index,
    lookup-remove i id entries,
    ==_iff i id,
    ==_iff (Map.lookup key index) (some id),
    ==_iff (Map.lookup key index) (some i),
    n key id,
    n key i,
    there,
  )

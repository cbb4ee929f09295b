-- ===== src/EntityRegistry/Grouping.antt =====
-- The indexes of crates/ha-registries/src/entity_registry.rs that lead from a value of a field to the
-- set of the entities that have it: the writes, and what they do to how often an id is found.
use homeassistant_rs.Base.{
  ℕ, ◌≡◌, refl, ◌&&◌, Option, none, some, List, [], ◌∷◌, arith, ==_iff, ◌==◌, list_eq, nat_eq,
  if◌then◌else◌, unwrap_or,
}
use homeassistant_rs.Base.Text.{Text}
use homeassistant_rs.Base.Map
use homeassistant_rs.Base.Map.{Map, lookup-insert, lookup-modify, map_option}
use homeassistant_rs.Base.IdSet
use homeassistant_rs.Base.IdSet.{count, count-insert, count-remove}

abbrev pub Groups : Type 0
Groups = Map Text (List Text)

-- `entry(key).or_default().insert(id)`.
unfoldable pub add : Text → Text → Groups → Groups
add id key index = Map.insert key (IdSet.insert id (unwrap_or (Map.lookup key index) [])) index

-- `if let Some(mut ids) = get_mut(key) { ids.remove(id); }`.
unfoldable pub discard : Text → Text → Groups → Groups
discard id key index = Map.modify key (IdSet.remove id) index

-- For a field that may be unset.
unfoldable pub add_option : Text → Option Text → Groups → Groups
unfolding add
add_option id none index = index
add_option id (some key) index = add id key index

unfoldable pub discard_option : Text → Option Text → Groups → Groups
unfolding discard
discard_option id none index = index
discard_option id (some key) index = discard id key index

-- For the labels.
unfoldable pub add_each : Text → List Text → Groups → Groups
unfolding add
add_each id [] index = index
add_each id (key ∷ keys) index = add_each id keys (add id key index)

unfoldable pub discard_each : Text → List Text → Groups → Groups
unfolding discard
discard_each id [] index = index
discard_each id (key ∷ keys) index = discard_each id keys (discard id key index)

-- The ids of a group, and how often an id is among them.
unfoldable pub ids : Groups → Text → List Text
ids index key = unwrap_or (Map.lookup key index) []

abbrev pub found : Groups → Text → Text → ℕ
found index key id = count id (ids index key)

abbrev at_least_one : ℕ → ℕ
at_least_one n = if n == 0 then 1 else n

found-add :
    (i k : Text) (index : Groups) (key id : Text)
    → found (add i k index) key id
      ≡ (if k == key && i == id then at_least_one (found index key id) else found index key id)
unfolding add ids
found-add i k index key id = ground (
  arith,
  lookup-insert k key (IdSet.insert i (unwrap_or (Map.lookup k index) [])) index,
  count-insert i id (unwrap_or (Map.lookup k index) []),
  ==_iff k key,
  ==_iff i id,
)

found-discard :
    (i k : Text) (index : Groups) (key id : Text)
    → found (discard i k index) key id ≡ (if k == key && i == id then 0 else found index key id)
unfolding discard ids IdSet.remove
found-discard i k index key id = ground (
  arith,
  lookup-modify k key (IdSet.remove i) index,
  count-remove i id (unwrap_or (Map.lookup key index) []),
)

pub found-add_each :
    (i : Text) (ks : List Text) (index : Groups) (key id : Text)
    → found (add_each i ks index) key id ≡ (
        if IdSet.contains key ks && i == id
        then at_least_one (found index key id)
        else found index key id)
unfolding add_each IdSet.contains
found-add_each i [] index key id = ground arith
found-add_each i (k ∷ ks) index key id =
    ground (arith, found-add_each i ks (add i k index) key id, found-add i k index key id)

pub found-discard_each :
    (i : Text) (ks : List Text) (index : Groups) (key id : Text)
    → found (discard_each i ks index) key id
      ≡ (if IdSet.contains key ks && i == id then 0 else found index key id)
unfolding discard_each IdSet.contains
found-discard_each i [] index key id = ground arith
found-discard_each i (k ∷ ks) index key id =
    ground
      (arith, found-discard_each i ks (discard i k index) key id, found-discard i k index key id)

-- The values of an optional field, as those of a field with many.
abbrev pub to_list : Option Text → List Text
to_list none = []
to_list (some key) = key ∷ []

pub add_option-add_each :
    (i : Text) (o : Option Text) (index : Groups)
    → add_option i o index ≡ add_each i (to_list o) index
unfolding add_option add_each
add_option-add_each i none index = refl
add_option-add_each i (some k) index = refl

pub discard_option-discard_each :
    (i : Text) (o : Option Text) (index : Groups)
    → discard_option i o index ≡ discard_each i (to_list o) index
unfolding discard_option discard_each
discard_option-discard_each i none index = refl
discard_option-discard_each i (some k) index = refl

pub add-add_each : (i k : Text) (index : Groups) → add i k index ≡ add_each i (k ∷ []) index
unfolding add_each
add-add_each i k index = refl

pub discard-discard_each :
    (i k : Text) (index : Groups) → discard i k index ≡ discard_each i (k ∷ []) index
unfolding discard_each
discard-discard_each i k index = refl

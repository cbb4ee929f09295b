-- ===== src/ConfigEntries/Manager/Indexes.antt =====
-- The invariant of the manager: the entries stand under their ids, the index of a domain holds the
-- ids of its entries once each, and the unique ids of a domain lead to their entries and back.
use homeassistant_rs.Base.{
  ℕ, ◌≡◌, refl, Bool, true, false, ◌&&◌, Option, none, some, List, arith, ==_iff, ◌==◌, list_eq,
  nat_eq, option_eq, pair_eq, if◌then◌else◌,
}
use homeassistant_rs.Base.Text.{Text}
use homeassistant_rs.Base.Map
use homeassistant_rs.Base.Map.{Map, lookup-insert, lookup-remove, lookup-modify}
use homeassistant_rs.Base.IdSet
use homeassistant_rs.Base.IdSet.{count, count-insert, count-remove}
use homeassistant_rs.ConfigEntries.Entry.{ConfigEntry}
use homeassistant_rs.ConfigEntries.Manager.{
  ConfigEntries, new, index_entry, unindex_entry, insert_unique_id, remove_unique_id, get,
  domain_ids,
}

module _ {Json : Type 0} where
  abbrev pub in_domain : Text → Option (ConfigEntry Json) → ℕ
  in_domain d none = 0
  in_domain d (some e) = if e.domain == d then 1 else 0

  -- The entry is of that domain and has that unique id.
  abbrev pub owns : Text → Text → Option (ConfigEntry Json) → Bool
  owns d u none = false
  owns d u (some e) = e.domain == d && e.unique_id == some u

lookup-insert_unique_id :
    (o : Option Text) (domain id : Text) (m : Map (Text × Text) Text) (d u : Text)
    → Map.lookup (d, u) (insert_unique_id o domain id m)
      ≡ (if domain == d && o == some u then some id else Map.lookup (d, u) m)
lookup-insert_unique_id none domain id m d u = ground arith
lookup-insert_unique_id (some v) domain id m d u = lookup-insert (domain, v) (d, u) id m

lookup-remove_unique_id :
    (o : Option Text) (domain : Text) (m : Map (Text × Text) Text) (d u : Text)
    → Map.lookup (d, u) (remove_unique_id o domain m)
      ≡ (if domain == d && o == some u then none else Map.lookup (d, u) m)
lookup-remove_unique_id none domain m d u = ground arith
lookup-remove_unique_id (some v) domain m d u = lookup-remove (domain, v) (d, u) m

module _ {Json Ctx : Type 0} where
  -- The id that the index has for a unique id.
  abbrev pub owner : ConfigEntries Json Ctx → Text → Text → Option Text
  owner s d u = Map.lookup (d, u) s.by_unique_id

  pub record IsIndexed (s : ConfigEntries Json Ctx) : Type 0 where
    pub keyed : (id : Text) (e : ConfigEntry Json) → get s id ≡ some e → e.entry_id ≡ id
    pub domains : (d id : Text) → count id (domain_ids s d) ≡ in_domain d (get s id)
    pub owned : (d u id : Text) → owner s d u ≡ some id → owns d u (get s id) ≡ true
    pub found : (d u id : Text) → owns d u (get s id) ≡ true → owner s d u ≡ some id

  pub get-index_entry :
      (e : ConfigEntry Json) (s : ConfigEntries Json Ctx) (j : Text)
      → get (index_entry e s) j ≡ (if e.entry_id == j then some e else get s j)
  unfolding get index_entry
  get-index_entry e s j = lookup-insert e.entry_id j e s.entries

  pub get-unindex_entry :
      (e : ConfigEntry Json) (s : ConfigEntries Json Ctx) (j : Text)
      → get (unindex_entry e s) j ≡ (if e.entry_id == j then none else get s j)
  unfolding get unindex_entry
  get-unindex_entry e s j = lookup-remove e.entry_id j s.entries

  domain_ids-index_entry :
      (e : ConfigEntry Json) (s : ConfigEntries Json Ctx) (d : Text)
      → domain_ids (index_entry e s) d
        ≡ (if e.domain == d then IdSet.insert e.entry_id (domain_ids s d) else domain_ids s d)
  unfolding domain_ids index_entry
  domain_ids-index_entry e s d = ground (
    arith,
    ==_iff e.domain d,
    lookup-insert e.domain d (IdSet.insert e.entry_id (domain_ids s e.domain)) s.by_domain,
  )

  domain_ids-unindex_entry :
      (e : ConfigEntry Json) (s : ConfigEntries Json Ctx) (d : Text)
      → domain_ids (unindex_entry e s) d
        ≡ (if e.domain == d then IdSet.remove e.entry_id (domain_ids s d) else domain_ids s d)
  unfolding domain_ids unindex_entry IdSet.remove
  domain_ids-unindex_entry e s d =
      ground (arith, lookup-modify e.domain d (IdSet.remove e.entry_id) s.by_domain)

  pub owner-index_entry :
      (e : ConfigEntry Json) (s : ConfigEntries Json Ctx) (d u : Text)
      → owner (index_entry e s) d u ≡ (if owns d u (some e) then some e.entry_id else owner s d u)
  unfolding index_entry
  owner-index_entry e s d u =
      lookup-insert_unique_id e.unique_id e.domain e.entry_id s.by_unique_id d u

  pub owner-unindex_entry :
      (e : ConfigEntry Json) (s : ConfigEntries Json Ctx) (d u : Text)
      → owner (unindex_entry e s) d u ≡ (if owns d u (some e) then none else owner s d u)
  unfolding unindex_entry
  owner-unindex_entry e s d u = lookup-remove_unique_id e.unique_id e.domain s.by_unique_id d u

  pub new-IsIndexed : (file : Option (List (ConfigEntry Json))) → IsIndexed (new file)
  unfolding new get domain_ids Map.lookup count
  new-IsIndexed file = record {
    keyed = λ id e h. ground arith;
    domains = λ d id. refl;
    owned = λ d u id h. ground arith;
    found = λ d u id h. ground arith;
  }

  -- No entry has the unique id of `e` yet.
  abbrev pub IsFree : ConfigEntry Json → ConfigEntries Json Ctx → Type 0
  IsFree e s = (d u : Text) → owns d u (some e) ≡ true → owner s d u ≡ none

  -- Indexing an entry whose id and unique id are free keeps the indexes right.
  pub index_entry-IsIndexed :
      (e : ConfigEntry Json) (s : ConfigEntries Json Ctx)
      → get s e.entry_id ≡ none
      → IsFree e s
      → IsIndexed s
      → IsIndexed (index_entry e s)
  unfolding count
  index_entry-IsIndexed e s fresh free i = record {
    keyed = λ id w h. ground (arith, get-index_entry e s id, ==_iff e.entry_id id, i.keyed id w);
    domains = λ d id. ground (
      arith,
      get-index_entry e s id,
      domain_ids-index_entry e s d,
      count-insert e.entry_id id (domain_ids s d),
      ==_iff e.entry_id id,
      i.domains d id,
      i.domains d e.entry_id,
      fresh,
    );
    owned = λ d u id h. ground (
      arith,
      owner-index_entry e s d u,
      get-index_entry e s id,
      i.owned d u id,
      ==_iff e.entry_id id,
      fresh,
    );
    found = λ d u id h. ground (
      arith,
      owner-index_entry e s d u,
      get-index_entry e s id,
      i.found d u id,
      free d u,
      ==_iff e.entry_id id,
      fresh,
    );
  }

  -- Unindexing an entry that is there keeps the indexes right.
  pub unindex_entry-IsIndexed :
      (e : ConfigEntry Json) (s : ConfigEntries Json Ctx)
      → get s e.entry_id ≡ some e
      → IsIndexed s
      → IsIndexed (unindex_entry e s)
  unindex_entry-IsIndexed e s there i = record {
    keyed = λ id w h. ground (arith, get-unindex_entry e s id, i.keyed id w);
    domains = λ d id. ground (
      arith,
      get-unindex_entry e s id,
      domain_ids-unindex_entry e s d,
      count-remove e.entry_id id (domain_ids s d),
      ==_iff e.entry_id id,
      i.domains d id,
      there,
    );
    owned = λ d u id h. ground (
      arith,
      owner-unindex_entry e s d u,
      get-unindex_entry e s id,
      i.owned d u id,
      ==_iff e.entry_id id,
      there,
    );
    found = λ d u id h. ground (
      arith,
      owner-unindex_entry e s d u,
      get-unindex_entry e s id,
      i.found d u id,
      i.found d u e.entry_id,
      ==_iff e.entry_id id,
      there,
    );
  }

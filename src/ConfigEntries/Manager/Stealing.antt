-- ===== src/ConfigEntries/Manager/Stealing.antt =====
-- What `update` of manager.rs does to the indexes when the unique id that it gives is taken.
use homeassistant_rs.Base.{
  ◌≡◌, ◌≢◌, refl, sym, ap, ◌∙◌, Option, none, some, arith, ==_iff, list_eq, nat_eq, option_eq,
  pair_eq,
}
use homeassistant_rs.Base.Text.{Text}
use homeassistant_rs.Core.State.{Time}
use homeassistant_rs.ConfigEntries.Entry.{ConfigEntry, ConfigEntryUpdate, apply_update}
use homeassistant_rs.ConfigEntries.Manager.{
  StorageError, ConfigEntries, index_entry, unindex_entry, get,
}
use homeassistant_rs.ConfigEntries.Manager.Entries.{update_of, update}
use homeassistant_rs.ConfigEntries.Manager.Indexes.{
  owner, IsIndexed, get-unindex_entry, get-index_entry, owner-index_entry,
}

module _ {Json : Type 0} where
  entry_id-apply_update :
      (now : Time) (changes : ConfigEntryUpdate Json) (e : ConfigEntry Json)
      → (apply_update changes e now).entry_id ≡ e.entry_id
  unfolding apply_update
  entry_id-apply_update now changes e = refl

module _ {Json Ctx : Type 0} where
  set_unique_id-owner :
      (now : Time) (changes : ConfigEntryUpdate Json) (s : ConfigEntries Json Ctx)
      (e : ConfigEntry Json) (u : Text)
      → changes.unique_id ≡ some (some u)
      → owner (index_entry (apply_update changes e now) (unindex_entry e s)) e.domain u
        ≡ some e.entry_id
  unfolding apply_update
  set_unique_id-owner now changes s e u c = ground (
    arith,
    owner-index_entry (apply_update changes e now) (unindex_entry e s) e.domain u,
    ==_iff e.domain e.domain,
    ==_iff u u,
  )

  update_of-maps :
      (disk : Option StorageError) (now : Time) (id : Text) (changes : ConfigEntryUpdate Json)
      (s : ConfigEntries Json Ctx) (e : ConfigEntry Json) (j d u : Text)
      → let t = (update_of (some e) disk now id changes s).1 in
        let reindexed = index_entry (apply_update changes e now) (unindex_entry e s) in
        (get t j ≡ get reindexed j) × (owner t d u ≡ owner reindexed d u)
  unfolding update_of get
  update_of-maps (some x) now id changes s e j d u = (refl, refl)
  update_of-maps none now id changes s e j d u = (refl, refl)

  update-maps :
      (disk : Option StorageError) (now : Time) (id : Text) (changes : ConfigEntryUpdate Json)
      (s : ConfigEntries Json Ctx) (e : ConfigEntry Json) (j d u : Text)
      → get s id ≡ some e
      → let t = (update disk now id changes s).1 in
        let reindexed = index_entry (apply_update changes e now) (unindex_entry e s) in
        (get t j ≡ get reindexed j) × (owner t d u ≡ owner reindexed d u)
  unfolding update
  update-maps disk now id changes s e j d u h = rw h (update_of-maps disk now id changes s e j d u)

  get-reindexed_ne :
      (now : Time) (changes : ConfigEntryUpdate Json) (s : ConfigEntries Json Ctx)
      (e : ConfigEntry Json) (j : Text)
      → e.entry_id ≢ j
      → get (index_entry (apply_update changes e now) (unindex_entry e s)) j ≡ get s j
  get-reindexed_ne now changes s e j ne = ground (
    arith,
    get-index_entry (apply_update changes e now) (unindex_entry e s) j,
    get-unindex_entry e s j,
    entry_id-apply_update now changes e,
    ==_iff (apply_update changes e now).entry_id j,
    ==_iff e.entry_id j,
  )

  -- An update does not look whether the unique id is taken: giving an entry the unique id of another
  -- entry of its domain breaks the indexes.
  pub update_steals_unique_id :
      (disk : Option StorageError) (now : Time) (changes : ConfigEntryUpdate Json)
      (s : ConfigEntries Json Ctx) (a b : Text) (ea eb : ConfigEntry Json) (u : Text)
      → IsIndexed s
      → get s a ≡ some ea
      → get s b ≡ some eb
      → a ≢ b
      → ea.domain ≡ eb.domain
      → ea.unique_id ≡ some u
      → changes.unique_id ≡ some (some u)
      → ¬ IsIndexed (update disk now b changes s).1
  update_steals_unique_id disk now changes s a b ea eb u i ha hb ne d ua c j =
      let t = (update disk now b changes s).1 in
      let key : eb.entry_id ≡ b = i.keyed b eb hb in
      let (kept, owned) = update-maps disk now b changes s eb a ea.domain u hb in
      let there : get t a ≡ some ea =
        kept ∙ get-reindexed_ne now changes s eb a (λ p. ne (sym (sym key ∙ p))) ∙ ha in
      let stolen : owner t eb.domain u ≡ some eb.entry_id =
        (update-maps disk now b changes s eb a eb.domain u hb).1
        ∙ set_unique_id-owner now changes s eb u c in
      let held : owner t ea.domain u ≡ some a =
        j.found ea.domain u a
          (ground (arith, there, ua, ==_iff ea.domain ea.domain, ==_iff ea.unique_id (some u))) in
      let moved : owner t ea.domain u ≡ owner t eb.domain u = ap (λ x. owner t x u) d in
      let same : some a ≡ some eb.entry_id = sym held ∙ moved ∙ stolen in ne (cc (same, key))

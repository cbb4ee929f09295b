-- ===== src/ConfigEntries/Manager/Integrity.antt =====
-- Which methods of manager.rs keep the indexes right.
use homeassistant_rs.Base.{
  ◌≡◌, refl, ap, ◌∙◌, false, Option, none, some, arith, ==_iff, ==_refl, list_eq, nat_eq, option_eq,
  pair_eq, if◌then◌else◌, Bool-cases, Option-cases, inl, inr, ok, err,
}
use homeassistant_rs.Base.Text.{Text}
use homeassistant_rs.Core.State.{Time}
use homeassistant_rs.ConfigEntries.Entry.{ConfigEntry, ConfigEntryUpdate, apply_update}
use homeassistant_rs.ConfigEntries.Manager.{
  StorageError, already_exists, ConfigEntries, ◌>>=◌, index_entry, unindex_entry, get, domain_ids,
  get_by_unique_id,
}
use homeassistant_rs.ConfigEntries.Manager.Entries.{
  save, is_duplicate, add, update_of, update, remove_of, remove,
}
use homeassistant_rs.ConfigEntries.Manager.Indexes.{
  owner, IsIndexed, IsFree, index_entry-IsIndexed, unindex_entry-IsIndexed, get-unindex_entry,
}

module _ {Json Ctx : Type 0} where
  not_duplicate-IsFree :
      (e : ConfigEntry Json) (s : ConfigEntries Json Ctx)
      → IsIndexed s
      → is_duplicate s e.domain e.unique_id ≡ false
      → IsFree e s
  unfolding is_duplicate get_by_unique_id
  not_duplicate-IsFree e s i n d u h = elim (Option-cases (owner s d u)) [
    | inl free ↦ free
    | inr (id, taken) ↦
        absurd
          (ground (arith, taken, i.owned d u id, ==_iff e.domain d, ==_iff e.unique_id (some u)))
  ]

  -- A save reads the entries and writes the file alone.
  save-IsIndexed :
      {A : Type 0} (disk : Option StorageError) (a : A) (s : ConfigEntries Json Ctx)
      → IsIndexed s
      → IsIndexed ((save disk >>= λ u t. (ok a, t)) s).1
  unfolding save get domain_ids
  save-IsIndexed (some e) a s i = i
  save-IsIndexed none a s i = record {
    keyed = i.keyed;
    domains = i.domains;
    owned = i.owned;
    found = i.found;
  }

  -- Adding an entry with a fresh id keeps the indexes right, whether it is accepted or not, and
  -- whether it is saved or not.
  pub add-IsIndexed :
      (disk : Option StorageError) (e : ConfigEntry Json) (s : ConfigEntries Json Ctx)
      → get s e.entry_id ≡ none
      → IsIndexed s
      → IsIndexed (add disk e s).1
  unfolding add
  add-IsIndexed disk e s fresh i = elim (Bool-cases (is_duplicate s e.domain e.unique_id)) [
    | inl d ↦ rw d i
    | inr n ↦ rw n (
        save-IsIndexed disk e (index_entry e s)
          (index_entry-IsIndexed e s fresh (not_duplicate-IsFree e s i n) i))
  ]

  -- An entry whose unique id another entry of its domain has is refused, and nothing changes.
  pub add_duplicate :
      (disk : Option StorageError) (e w : ConfigEntry Json) (u id : Text)
      (s : ConfigEntries Json Ctx)
      → IsIndexed s
      → e.unique_id ≡ some u
      → get s id ≡ some w
      → w.domain ≡ e.domain
      → w.unique_id ≡ some u
      → add disk e s ≡ (err (already_exists e.domain u), s)
  unfolding add is_duplicate get_by_unique_id
  add_duplicate disk e w u id s i eu there d wu =
      ground (arith, i.found e.domain u id, ==_iff w.domain e.domain, ==_iff w.unique_id (some u))

  remove_of-IsIndexed :
      (old : Option (ConfigEntry Json)) (disk : Option StorageError) (id : Text)
      (s : ConfigEntries Json Ctx)
      → get s id ≡ old
      → IsIndexed s
      → IsIndexed (remove_of old disk id s).1
  unfolding remove_of
  remove_of-IsIndexed none disk id s h i = i
  remove_of-IsIndexed (some e) disk id s h i =
      save-IsIndexed disk e (unindex_entry e s)
        (unindex_entry-IsIndexed e s (ap (get s) (i.keyed id e h) ∙ h) i)

  -- Removing an entry, or an id that no entry has, keeps the indexes right.
  pub remove-IsIndexed :
      (disk : Option StorageError) (id : Text) (s : ConfigEntries Json Ctx)
      → IsIndexed s
      → IsIndexed (remove disk id s).1
  unfolding remove
  remove-IsIndexed disk id s i = remove_of-IsIndexed (get s id) disk id s refl i

  -- No entry but the one of that id has the unique id that the update gives.
  abbrev pub IsFreeUpdate : Time → Text → ConfigEntryUpdate Json → ConfigEntries Json Ctx → Type 0
  IsFreeUpdate now id changes s =
      (e : ConfigEntry Json)
      → get s id ≡ some e
      → IsFree (apply_update changes e now) (unindex_entry e s)

  update_of-IsIndexed :
      (old : Option (ConfigEntry Json)) (disk : Option StorageError) (now : Time) (id : Text)
      (changes : ConfigEntryUpdate Json) (s : ConfigEntries Json Ctx)
      → get s id ≡ old
      → IsFreeUpdate now id changes s
      → IsIndexed s
      → IsIndexed (update_of old disk now id changes s).1
  unfolding update_of apply_update
  update_of-IsIndexed none disk now id changes s h free i = i
  update_of-IsIndexed (some e) disk now id changes s h free i =
      let updated = apply_update changes e now in
      let there : get s e.entry_id ≡ some e = ap (get s) (i.keyed id e h) ∙ h in
      save-IsIndexed disk updated (index_entry updated (unindex_entry e s)) (
        index_entry-IsIndexed updated (unindex_entry e s)
          (get-unindex_entry e s e.entry_id
            ∙ ap (λ b. if b then none else get s e.entry_id) (==_refl e.entry_id))
          (free e h) (unindex_entry-IsIndexed e s there i))

  -- Updating an entry keeps the indexes right where its unique id stays free of other entries.
  pub update-IsIndexed :
      (disk : Option StorageError) (now : Time) (id : Text) (changes : ConfigEntryUpdate Json)
      (s : ConfigEntries Json Ctx)
      → IsFreeUpdate now id changes s
      → IsIndexed s
      → IsIndexed (update disk now id changes s).1
  unfolding update
  update-IsIndexed disk now id changes s free i =
      update_of-IsIndexed (get s id) disk now id changes s refl free i

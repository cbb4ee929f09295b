-- ===== src/ConfigEntries/Manager/Modify.antt =====
-- manager.rs: `set_state` and `increment_tries` keep the indexes right and follow the diagram.
use mathlib.Core.Path.{subst}
use homeassistant_rs.Base.{
  ◌≡◌, refl, sym, ap, ◌∙◌, Option, none, some, [], arith, ==_iff, ◌==◌, list_eq, nat_eq, option_eq,
  pair_eq, if◌then◌else◌, Bool-cases, Option-cases, inl, inr,
}
use homeassistant_rs.Base.Text.{Text}
use homeassistant_rs.Base.Map
use homeassistant_rs.Base.Map.{Map, map_option, lookup-modify}
use homeassistant_rs.ConfigEntries.Lifecycle.{ConfigEntryState, try_transition, valid}
use homeassistant_rs.ConfigEntries.Lifecycle.Graph.{◌⟶*◌, here, step, try_transition-ok_iff}
use homeassistant_rs.ConfigEntries.Entry.{ConfigEntry, apply_state, try_set_state, increment_tries}
use homeassistant_rs.ConfigEntries.Manager.{ConfigEntries, get, domain_ids}
use homeassistant_rs.ConfigEntries.Manager.Setup.{set_state, set_state_of, count_try}
use homeassistant_rs.ConfigEntries.Manager.Indexes.{owns, owner, in_domain, IsIndexed}
use homeassistant_rs.ConfigEntries.Manager.Lawful.{Follows, Follows-refl, IsLawful}

module _ {Json Ctx : Type 0} where
  -- Changing an entry where it stands, but for its id, its domain and its unique id.
  pub modify_entry :
      Text → (ConfigEntry Json → ConfigEntry Json) → ConfigEntries Json Ctx → ConfigEntries Json Ctx
  modify_entry id f s = record s { entries = Map.modify id f s.entries }

  get-modify_entry :
      (id : Text) (f : ConfigEntry Json → ConfigEntry Json) (s : ConfigEntries Json Ctx) (j : Text)
      → get (modify_entry id f s) j ≡ (if id == j then map_option f (get s j) else get s j)
  unfolding get modify_entry
  get-modify_entry id f s j = lookup-modify id j f s.entries

  abbrev Keeps : Text → (ConfigEntry Json → ConfigEntry Json) → ConfigEntries Json Ctx → Type 0
  Keeps id f s =
      (e : ConfigEntry Json)
      → get s id ≡ some e
      → ((f e).entry_id ≡ e.entry_id)
        × ((f e).domain ≡ e.domain)
        × ((f e).unique_id ≡ e.unique_id)
        × (e.state ⟶* (f e).state)

  domain_ids-modify_entry :
      (id : Text) (f : ConfigEntry Json → ConfigEntry Json) (s : ConfigEntries Json Ctx) (d : Text)
      → domain_ids (modify_entry id f s) d ≡ domain_ids s d
  unfolding domain_ids modify_entry
  domain_ids-modify_entry id f s d = refl

  owner-modify_entry :
      (id : Text) (f : ConfigEntry Json → ConfigEntry Json) (s : ConfigEntries Json Ctx)
      (d u : Text)
      → owner (modify_entry id f s) d u ≡ owner s d u
  unfolding modify_entry
  owner-modify_entry id f s d u = refl

  -- What the indexes read of an entry stays.
  seen-modify_entry :
      (id : Text) (f : ConfigEntry Json → ConfigEntry Json) (s : ConfigEntries Json Ctx)
      (k : Keeps id f s) (d u j : Text)
      → let t = modify_entry id f s in
        (in_domain d (get t j) ≡ in_domain d (get s j)) × (owns d u (get t j) ≡ owns d u (get s j))
  seen-modify_entry id f s k d u j = elim (Option-cases (get s id)) [
    | inl n ↦ (
      ground (arith, get-modify_entry id f s j, ==_iff id j, n),
      ground (arith, get-modify_entry id f s j, ==_iff id j, n),
    )
    | inr (e, h) ↦
        let (i, same_domain, same_unique_id, p) = k e h in
        let x : ((f e).domain == d) ≡ (e.domain == d) = ap (λ v. v == d) same_domain in
        let y : ((f e).unique_id == some u) ≡ (e.unique_id == some u) =
          ap (λ v. v == some u) same_unique_id in
        (
          ground (arith, get-modify_entry id f s j, ==_iff id j, h, x),
          ground (arith, get-modify_entry id f s j, ==_iff id j, h, x, y),
        )
  ]

  keyed-modify_entry :
      (id : Text) (f : ConfigEntry Json → ConfigEntry Json) (s : ConfigEntries Json Ctx)
      → Keeps id f s
      → IsIndexed s
      → (j : Text) (w : ConfigEntry Json) → get (modify_entry id f s) j ≡ some w
      → w.entry_id ≡ j
  keyed-modify_entry id f s k i j w h = elim (Option-cases (get s j)) [
    | inl n ↦ ground (arith, get-modify_entry id f s j, n, h)
    | inr (e, p) ↦ elim (Bool-cases (id == j)) [
      | inl t ↦
          let same : (f e).entry_id ≡ e.entry_id = (k e (ap (get s) ((==_iff id j).0 t) ∙ p)).0 in
          let result : f e ≡ w = ground (arith, get-modify_entry id f s j, t, p, h) in
          ap (λ (x : ConfigEntry Json). x.entry_id) (sym result) ∙ same ∙ i.keyed j e p
      | inr t ↦ ground (arith, get-modify_entry id f s j, t, p, h, i.keyed j w)
    ]
  ]

  pub modify_entry-IsIndexed :
      (id : Text) (f : ConfigEntry Json → ConfigEntry Json) (s : ConfigEntries Json Ctx)
      → Keeps id f s
      → IsIndexed s
      → IsIndexed (modify_entry id f s)
  modify_entry-IsIndexed id f s k i = record {
    keyed = λ j w h. keyed-modify_entry id f s k i j w h;
    domains = λ d j.
        rw (domain_ids-modify_entry id f s d)
          (i.domains d j ∙ sym (seen-modify_entry id f s k d [] j).0);
    owned = λ d u j h.
        (seen-modify_entry id f s k d u j).1
        ∙ i.owned d u j (sym (owner-modify_entry id f s d u) ∙ h);
    found = λ d u j h.
        owner-modify_entry id f s d u
        ∙ i.found d u j (sym (seen-modify_entry id f s k d u j).1 ∙ h);
  }

  pub modify_entry-Follows :
      (id : Text) (f : ConfigEntry Json → ConfigEntry Json) (s : ConfigEntries Json Ctx)
      → Keeps id f s
      → Follows s (modify_entry id f s)
  modify_entry-Follows id f s k j a h = elim (Bool-cases (id == j)) [
    | inl t ↦ (
      f a,
      ground (arith, get-modify_entry id f s j, t, h),
      (k a (ap (get s) ((==_iff id j).0 t) ∙ h)).3,
    )
    | inr t ↦ (a, ground (arith, get-modify_entry id f s j, t, h), here)
  ]

  set_state_of-lawful :
      (old : Option (ConfigEntry Json)) (id : Text) (t : ConfigEntryState) (why : Option Text)
      (s : ConfigEntries Json Ctx)
      → get s id ≡ old
      → (IsIndexed s → IsIndexed (set_state_of old id t why s).1)
        × Follows s (set_state_of old id t why s).1
  unfolding set_state_of try_set_state try_transition modify_entry apply_state
  set_state_of-lawful none id t why s h = (λ i. i, Follows-refl s)
  set_state_of-lawful (some e) id t why s h = elim (Bool-cases (valid e.state t)) [
    | inr n ↦ rw n (λ i. i, Follows-refl s)
    | inl v ↦
        let k : Keeps id (λ _. apply_state e t why) s = λ e' h'.
          let same : e ≡ e' = cc in
          let edge : e.state ⟶* t =
            step ((try_transition-ok_iff e.state t t).0 (rw v refl)).0 here in
          (
            ap (λ (x : ConfigEntry Json). x.entry_id) same,
            ap (λ (x : ConfigEntry Json). x.domain) same,
            ap (λ (x : ConfigEntry Json). x.unique_id) same,
            subst (λ (x : ConfigEntry Json). x.state ⟶* t) same edge,
          ) in
        rw v (
          modify_entry-IsIndexed id (λ _. apply_state e t why) s k,
          modify_entry-Follows id (λ _. apply_state e t why) s k,
        )
  ]

  pub set_state-IsLawful :
      (id : Text) (t : ConfigEntryState) (why : Option Text)
      → IsLawful {Json = Json} {Ctx = Ctx} (set_state id t why)
  unfolding set_state
  set_state-IsLawful id t why = record {
    indexed = λ s. (set_state_of-lawful (get s id) id t why s refl).0;
    follows = λ s. (set_state_of-lawful (get s id) id t why s refl).1;
  }

  pub count_try-IsLawful : (id : Text) → IsLawful {Json = Json} {Ctx = Ctx} (count_try id)
  unfolding count_try modify_entry increment_tries
  count_try-IsLawful id =
      let k : (s : ConfigEntries Json Ctx) → Keeps id increment_tries s =
        λ s e h. (refl, refl, refl, here) in
      record {
        indexed = λ s. modify_entry-IsIndexed id increment_tries s (k s);
        follows = λ s. modify_entry-Follows id increment_tries s (k s);
      }

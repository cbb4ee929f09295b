-- ===== src/Core/EntityId/Parsing.antt =====
-- What `EntityId::new`, `from_str` and `Display` of entity_id.rs promise together.
use homeassistant_rs.Base.{
  ◌≡◌, ◌≢◌, refl, sym, ap, ◌∙◌, ◌↔◌, true, List, [], ◌∷◌, arith, all, length, ok, err,
}
use homeassistant_rs.Base.Text.{Text, split}
use homeassistant_rs.Core.EntityId.{
  EntityId, EntityIdError, invalid_format, empty_domain, empty_object_id, invalid_domain_chars,
  invalid_object_id_chars, is_id_char, is_valid_object_id, is_valid_domain, new, from_parts,
  from_str, to_string,
}
use homeassistant_rs.Core.EntityId.Grammar.{
  DomainName, ObjectName, is_valid_object_id_iff, is_valid_domain_iff,
}
use homeassistant_rs.Core.EntityId.Split.{
  join, lacks, count, join-split, split-lacks, split-append, length-split,
}

-- The ids that the grammars allow.
pub record IsValidId (id : EntityId) : Type 0 where
  pub domain : DomainName id.domain
  pub object_id : ObjectName id.object_id

new-ok_of_names :
    {d o : Text} → DomainName d → ObjectName o → new d o ≡ ok (record { domain = d; object_id = o })
unfolding new
new-ok_of_names (DomainName.name {c} {s} a t) (ObjectName.name {c = e} {s = o} b u) = ground (
  arith,
  (is_valid_domain_iff c s).1 (DomainName.name a t),
  (is_valid_object_id_iff e o).1 (ObjectName.name b u),
)

names_of_new-ok :
    (d o : Text) (id : EntityId)
    → new d o ≡ ok id
    → DomainName d × ObjectName o × (id ≡ record { domain = d; object_id = o })
unfolding new
names_of_new-ok [] o id h = cc
names_of_new-ok (c ∷ d) [] id h = cc
names_of_new-ok (c ∷ d) (e ∷ o) id h = (
  (is_valid_domain_iff c d).0 (ground arith),
  (is_valid_object_id_iff e o).0 (ground arith),
  ground arith,
)

-- A valid name has no dot.
lacks_of_id_chars : (s : Text) → all is_id_char s ≡ true → lacks b'.' s ≡ true
unfolding is_id_char
lacks_of_id_chars [] h = refl
lacks_of_id_chars (c ∷ s) h = ground (arith, lacks_of_id_chars s)

pub lacks_of_ObjectName : {s : Text} → ObjectName s → lacks b'.' s ≡ true
unfolding is_valid_object_id
lacks_of_ObjectName (ObjectName.name {c} {s} a t) =
    lacks_of_id_chars (c ∷ s) (ground (arith, (is_valid_object_id_iff c s).1 (ObjectName.name a t)))

pub lacks_of_DomainName : {s : Text} → DomainName s → lacks b'.' s ≡ true
unfolding is_valid_domain is_valid_object_id
lacks_of_DomainName (DomainName.name {c} {s} a t) =
    lacks_of_id_chars (c ∷ s) (ground (arith, (is_valid_domain_iff c s).1 (DomainName.name a t)))

split-to_string :
    (id : EntityId) → IsValidId id → split (to_string id) b'.' ≡ id.domain ∷ id.object_id ∷ []
unfolding to_string
split-to_string id v =
    split-append id.domain id.object_id b'.' (lacks_of_DomainName v.domain)
    ∙ ap (λ r. id.domain ∷ r) (split-lacks id.object_id b'.' (lacks_of_ObjectName v.object_id))

-- Printing a valid id and parsing the text gives the id back.
pub from_str-to_string : (id : EntityId) → IsValidId id → from_str (to_string id) ≡ ok id
unfolding from_str
from_str-to_string id v = rw (split-to_string id v) (new-ok_of_names v.domain v.object_id)

from_parts-ok :
    (parts : List Text) (id : EntityId)
    → from_parts parts ≡ ok id
    → IsValidId id × (join b'.' parts ≡ to_string id)
unfolding from_parts to_string
from_parts-ok [] id h = cc
from_parts-ok (d ∷ []) id h = cc
from_parts-ok (d ∷ o ∷ []) id h =
    let (m, n, e) = names_of_new-ok d o id h in rw e (record { domain = m; object_id = n }, refl)
from_parts-ok (d ∷ o ∷ p ∷ parts) id h = cc

-- What a text that parses tells: the id is valid, and the text is its print.
from_str-ok : (s : Text) (id : EntityId) → from_str s ≡ ok id → IsValidId id × (s ≡ to_string id)
unfolding from_str
from_str-ok s id h =
    let (v, e) = from_parts-ok (split s b'.') id h in (v, sym (join-split s b'.') ∙ e)

-- A text parses as an entity id exactly when the id is valid by the grammars of domains and
-- object ids and the text is its print.
pub from_str-ok_iff :
    (s : Text) (id : EntityId) → (from_str s ≡ ok id) ↔ (IsValidId id × (s ≡ to_string id))
from_str-ok_iff s id = (from_str-ok s id, λ h. rw (h.1) (from_str-to_string id h.0))

-- Two valid ids with one print are one id, so that the print can serve as a map's key.
pub to_string_injective :
    (a b : EntityId) → IsValidId a → IsValidId b → to_string a ≡ to_string b → a ≡ b
to_string_injective a b va vb e =
    cc (from_str-to_string a va, from_str-to_string b vb, ap from_str e)

new-ne-invalid_format : (d o : Text) → new d o ≢ err invalid_format
unfolding new
new-ne-invalid_format d o h = ground arith

from_parts-invalid_format :
    (parts : List Text) → (from_parts parts ≡ err invalid_format) ↔ (length parts ≢ 2)
unfolding from_parts
from_parts-invalid_format [] = (λ h. ground arith, λ h. refl)
from_parts-invalid_format (d ∷ []) = (λ h. ground arith, λ h. refl)
from_parts-invalid_format (d ∷ o ∷ []) =
    (λ h. absurd (new-ne-invalid_format d o h), λ h. absurd (h refl))
from_parts-invalid_format (d ∷ o ∷ p ∷ parts) = (λ h. omega arith, λ h. refl)

-- The format error is given exactly for the texts that do not have one dot.
pub from_str-invalid_format_iff :
    (s : Text) → (from_str s ≡ err invalid_format) ↔ (count b'.' s ≢ 1)
unfolding from_str
from_str-invalid_format_iff s =
    let (to, from) = from_parts-invalid_format (split s b'.') in
    (
      λ h c. to h (omega (arith, length-split s b'.')),
      λ h. from (omega (arith, length-split s b'.', h)),
    )

abbrev pub Explains : EntityIdError → Text → Text → Type 0
Explains invalid_format d o = ⊥
Explains empty_domain d o = d ≡ []
Explains empty_object_id d o = (d ≢ []) × (o ≡ [])
Explains invalid_domain_chars d o = (d ≢ []) × (o ≢ []) × ¬ DomainName d
Explains invalid_object_id_chars d o = DomainName d × (o ≢ []) × ¬ ObjectName o

-- Each error of `new` tells what is wrong with the names, and that what is checked before it holds.
pub new-err : (d o : Text) (e : EntityIdError) → new d o ≡ err e → Explains e d o
unfolding new
new-err [] o empty_domain h = refl
new-err [] o _ h = absurd (ground arith)
new-err (c ∷ d) [] empty_object_id h = (λ e. ground arith, refl)
new-err (c ∷ d) [] _ h = absurd (ground arith)
new-err (c ∷ d) (x ∷ o) invalid_domain_chars h =
    (λ e. ground arith, λ e. ground arith, λ m. ground (arith, (is_valid_domain_iff c d).1 m))
new-err (c ∷ d) (x ∷ o) invalid_object_id_chars h = (
  (is_valid_domain_iff c d).0 (ground arith),
  λ e. ground arith,
  λ m. ground (arith, (is_valid_object_id_iff x o).1 m),
)
new-err (c ∷ d) (x ∷ o) _ h = absurd (ground arith)

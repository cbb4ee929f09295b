-- ===== src/Core/EntityId/Grammar.antt =====
-- The names that entity_id.rs accepts, as grammars that say nothing of the tests in the code.
use homeassistant_rs.Base.{
  ℕ, ◌≤◌, ◌≡◌, refl, sym, ◌∙◌, ◌↔◌, ◌⊎◌, inl, inr, Bool, true, not, ◌&&◌, [], ◌∷◌, arith, all,
}
use homeassistant_rs.Base.Text.{Text, text, starts_with, ends_with, contains_text}
use homeassistant_rs.Core.EntityId.{is_id_char, is_valid_object_id, is_valid_domain}

-- A lowercase ASCII letter or a digit.
abbrev pub IsAlnum : ℕ → Type 0
IsAlnum c = ((b'a' ≤ c) × (c ≤ b'z')) ⊎ ((b'0' ≤ c) × (c ≤ b'9'))

-- Words of letters and digits, with one underscore between two words.
pub data DomainTail : Text → Type 0 where
  stop : DomainTail []
  letter : {c : ℕ} {s : Text} → IsAlnum c → DomainTail s → DomainTail (c ∷ s)
  word : {u c : ℕ} {s : Text} → u ≡ b'_' → IsAlnum c → DomainTail s → DomainTail (u ∷ c ∷ s)

pub data DomainName : Text → Type 0 where
  name : {c : ℕ} {s : Text} → IsAlnum c → DomainTail s → DomainName (c ∷ s)

-- The same with any number of underscores between two words.
pub data ObjectTail : Text → Type 0 where
  stop : ObjectTail []
  letter : {c : ℕ} {s : Text} → IsAlnum c → ObjectTail s → ObjectTail (c ∷ s)
  underscore : {u c : ℕ} {s : Text} → u ≡ b'_' → ObjectTail (c ∷ s) → ObjectTail (u ∷ c ∷ s)

pub data ObjectName : Text → Type 0 where
  name : {c : ℕ} {s : Text} → IsAlnum c → ObjectTail s → ObjectName (c ∷ s)

is_id_char-cases : (c : ℕ) → is_id_char c ≡ true → IsAlnum c ⊎ (c ≡ b'_')
unfolding is_id_char
is_id_char-cases c h = ground arith

is_id_char-alnum : (c : ℕ) → IsAlnum c → is_id_char c ≡ true
unfolding is_id_char
is_id_char-alnum c h = ground arith

-- What is left to check of a name behind a letter or a digit.
object_rest : Text → Bool
object_rest s = not (ends_with s b'_') && all is_id_char s

domain_rest : Text → Bool
unfolding object_rest
domain_rest s = not (contains_text s (text "__")) && object_rest s

is_valid_object_id-letter :
    (c : ℕ) (s : Text) → IsAlnum c → is_valid_object_id (c ∷ s) ≡ object_rest s
unfolding is_valid_object_id object_rest starts_with ends_with
is_valid_object_id-letter c [] a = ground (arith, is_id_char-alnum c a)
is_valid_object_id-letter c (d ∷ s) a = ground (arith, is_id_char-alnum c a)

is_valid_domain-letter : (c : ℕ) (s : Text) → IsAlnum c → is_valid_domain (c ∷ s) ≡ domain_rest s
unfolding is_valid_domain domain_rest contains_text
is_valid_domain-letter c s a = ground (arith, is_valid_object_id-letter c s a)

object_rest-ObjectTail : (s : Text) → object_rest s ≡ true → ObjectTail s
unfolding object_rest ends_with
object_rest-ObjectTail [] h = ObjectTail.stop
object_rest-ObjectTail (d ∷ []) h = elim (is_id_char-cases d (ground arith)) [
  | inl a ↦ ObjectTail.letter a ObjectTail.stop
  | inr u ↦ absurd (ground arith)
]
object_rest-ObjectTail (d ∷ e ∷ s) h = elim (is_id_char-cases d (ground arith)) [
  | inl a ↦ ObjectTail.letter a (object_rest-ObjectTail (e ∷ s) (ground arith))
  | inr u ↦ ObjectTail.underscore u (object_rest-ObjectTail (e ∷ s) (ground arith))
]

object_rest-letter : (c : ℕ) (s : Text) → IsAlnum c → object_rest (c ∷ s) ≡ object_rest s
unfolding object_rest ends_with
object_rest-letter c [] a = ground (arith, is_id_char-alnum c a)
object_rest-letter c (d ∷ s) a = ground (arith, is_id_char-alnum c a)

object_rest-underscore :
    (u c : ℕ) (s : Text) → u ≡ b'_' → object_rest (u ∷ c ∷ s) ≡ object_rest (c ∷ s)
unfolding object_rest ends_with is_id_char
object_rest-underscore u c s e = ground arith

ObjectTail-object_rest : {s : Text} → ObjectTail s → object_rest s ≡ true
unfolding object_rest ends_with
ObjectTail-object_rest ObjectTail.stop = refl
ObjectTail-object_rest (ObjectTail.letter {c} {s} a t) =
    object_rest-letter c s a ∙ ObjectTail-object_rest t
ObjectTail-object_rest (ObjectTail.underscore {u} {c} {s} e t) =
    object_rest-underscore u c s e ∙ ObjectTail-object_rest t

domain_rest-letter : (c : ℕ) (s : Text) → IsAlnum c → domain_rest (c ∷ s) ≡ domain_rest s
unfolding domain_rest contains_text
domain_rest-letter c s a = ground (arith, object_rest-letter c s a)

domain_rest-word :
    (u c : ℕ) (s : Text) → u ≡ b'_' → IsAlnum c → domain_rest (u ∷ c ∷ s) ≡ domain_rest s
unfolding domain_rest contains_text
domain_rest-word u c s e a =
    ground (arith, object_rest-underscore u c s e, object_rest-letter c s a)

domain_rest-DomainTail : (s : Text) → domain_rest s ≡ true → DomainTail s
unfolding domain_rest contains_text ends_with
domain_rest-DomainTail [] h = DomainTail.stop
domain_rest-DomainTail (d ∷ []) h = elim (is_id_char-cases d (ground arith)) [
  | inl a ↦ DomainTail.letter a DomainTail.stop
  | inr u ↦ absurd (ground arith)
]
domain_rest-DomainTail (d ∷ e ∷ s) h = elim (is_id_char-cases d (ground arith)) [
  | inl a ↦
      DomainTail.letter a
        (domain_rest-DomainTail (e ∷ s) (sym (domain_rest-letter d (e ∷ s) a) ∙ h))
  | inr u ↦ elim (is_id_char-cases e (ground arith)) [
    | inl a ↦ DomainTail.word u a (domain_rest-DomainTail s (sym (domain_rest-word d e s u a) ∙ h))
    | inr v ↦ absurd (ground arith)
  ]
]

DomainTail-domain_rest : {s : Text} → DomainTail s → domain_rest s ≡ true
unfolding domain_rest contains_text ends_with
DomainTail-domain_rest DomainTail.stop = refl
DomainTail-domain_rest (DomainTail.letter {c} {s} a t) =
    domain_rest-letter c s a ∙ DomainTail-domain_rest t
DomainTail-domain_rest (DomainTail.word {u} {c} {s} e a t) =
    domain_rest-word u c s e a ∙ DomainTail-domain_rest t

-- The first character of an accepted name.
is_valid_object_id-first : (c : ℕ) (s : Text) → is_valid_object_id (c ∷ s) ≡ true → IsAlnum c
unfolding is_valid_object_id starts_with
is_valid_object_id-first c s h = elim (is_id_char-cases c (ground arith)) [
  | inl a ↦ a
  | inr u ↦ absurd (ground arith)
]

is_valid_domain-object_id : (s : Text) → is_valid_domain s ≡ true → is_valid_object_id s ≡ true
unfolding is_valid_domain
is_valid_domain-object_id s h = ground arith

-- A name that is not empty passes `is_valid_object_id` exactly when the grammar has it.
pub is_valid_object_id_iff :
    (c : ℕ) (s : Text) → (is_valid_object_id (c ∷ s) ≡ true) ↔ ObjectName (c ∷ s)
is_valid_object_id_iff c s = (
  λ h.
      let a : IsAlnum c = is_valid_object_id-first c s h in
      ObjectName.name a (object_rest-ObjectTail s (sym (is_valid_object_id-letter c s a) ∙ h)),
  accept,
)
  where
    accept : ObjectName (c ∷ s) → is_valid_object_id (c ∷ s) ≡ true
    accept (ObjectName.name a t) = is_valid_object_id-letter c s a ∙ ObjectTail-object_rest t

-- A name that is not empty passes `is_valid_domain` exactly when the grammar has it.
pub is_valid_domain_iff : (c : ℕ) (s : Text) → (is_valid_domain (c ∷ s) ≡ true) ↔ DomainName (c ∷ s)
is_valid_domain_iff c s = (
  λ h.
      let a : IsAlnum c = is_valid_object_id-first c s (is_valid_domain-object_id (c ∷ s) h) in
      DomainName.name a (domain_rest-DomainTail s (sym (is_valid_domain-letter c s a) ∙ h)),
  accept,
)
  where
    accept : DomainName (c ∷ s) → is_valid_domain (c ∷ s) ≡ true
    accept (DomainName.name a t) = is_valid_domain-letter c s a ∙ DomainTail-domain_rest t

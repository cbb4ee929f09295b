-- ===== src/Core/EntityId/Split.antt =====
-- `str::split` undone by joining, and on a text with one separator.
use homeassistant_rs.Base.{
  ℕ, ◌+◌, ◌≡◌, refl, Bool, true, false, not, List, [], ◌∷◌, ◌++◌, arith, nat_beq, all, length,
  if◌then◌else◌,
}
use homeassistant_rs.Base.Text.{Text, split, cons_head}

abbrev pub join : ℕ → List Text → Text
join c [] = []
join c (part ∷ []) = part
join c (part ∷ next ∷ parts) = part ++ c ∷ join c (next ∷ parts)

abbrev pub lacks : ℕ → Text → Bool
lacks c = all (λ a. not (nat_beq a c))

abbrev pub count : ℕ → Text → ℕ
count c [] = 0
count c (a ∷ s) = let rest = count c s in if nat_beq a c then rest + 1 else rest

join-cons_head : (c a : ℕ) (parts : List Text) → join c (cons_head a parts) ≡ a ∷ join c parts
join-cons_head c a [] = refl
join-cons_head c a (part ∷ []) = refl
join-cons_head c a (part ∷ next ∷ parts) = refl

-- The first part of `cons_head a parts` when the rest is cut at `a`.
cut : Bool → ℕ → List Text → List Text
cut b a rest = if b then [] ∷ rest else cons_head a rest

split-cons_head :
    (b : Bool) (a : ℕ) (rest : List Text) → (p : Text) × (ps : List Text) × (cut b a rest ≡ p ∷ ps)
unfolding cut
split-cons_head true a rest = ([], rest, refl)
split-cons_head false a [] = (a ∷ [], [], refl)
split-cons_head false a (q ∷ qs) = (a ∷ q, qs, refl)

split-cons : (s : Text) (c : ℕ) → (p : Text) × (ps : List Text) × (split s c ≡ p ∷ ps)
unfolding split cut
split-cons [] c = ([], [], refl)
split-cons (a ∷ s) c = split-cons_head (nat_beq a c) a (split s c)

join-nil-cons : (c : ℕ) (p : Text) (ps : List Text) → join c ([] ∷ p ∷ ps) ≡ c ∷ join c (p ∷ ps)
join-nil-cons c p ps = refl

-- Joining the parts of a text gives the text.
pub join-split : (s : Text) (c : ℕ) → join c (split s c) ≡ s
unfolding split
join-split [] c = refl
join-split (a ∷ s) c =
    let (p, ps, e) = split-cons s c in
    let ih : join c (p ∷ ps) ≡ s = rw e at (join-split s c) in
    ground (arith, e, ih, join-cons_head c a (split s c), join-split s c, join-nil-cons c p ps)

pub split-lacks : (s : Text) (c : ℕ) → lacks c s ≡ true → split s c ≡ s ∷ []
unfolding split
split-lacks [] c h = refl
split-lacks (a ∷ s) c h = ground (arith, split-lacks s c)

pub split-append : (s t : Text) (c : ℕ) → lacks c s ≡ true → split (s ++ c ∷ t) c ≡ s ∷ split t c
unfolding split
split-append [] t c h = ground arith
split-append (a ∷ s) t c h = ground (arith, split-append s t c)

-- The number of parts is the number of separators and one more.
pub length-split : (s : Text) (c : ℕ) → length (split s c) ≡ count c s + 1
unfolding split
length-split [] c = refl
length-split (a ∷ s) c =
    let (p, ps, e) = split-cons s c in
    let ih : length (p ∷ ps) ≡ count c s + 1 = rw e at (length-split s c) in
    rw e (ground (arith, e, ih))

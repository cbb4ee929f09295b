-- ===== src/Base/Sort.antt =====
-- `Vec<String>::sort` and `dedup`, and what `sort` and `dedup` together leave. The order of the
-- UTF-8 bytes of two strings is the order of their scalar values.
use homeassistant_rs.Base.Equality.{◌==◌, ==_iff, list_eq, nat_eq}
use homeassistant_rs.Base.IdSet.{contains}
use homeassistant_rs.Base.Tests.{if◌then◌else◌, ltb}
use homeassistant_rs.Base.Text.{Text}
use mathlib.Core.Path.{◌≡◌, refl}
use mathlib.Core.Bool.{Bool, true, false, not, ◌&&◌, ◌||◌}
use mathlib.Core.List.{List, [], ◌∷◌}
use native.Mathlib.Omega.{arith}

unfoldable pub text_leb : Text → Text → Bool
text_leb [] t = true
text_leb (a ∷ s) [] = false
text_leb (a ∷ s) (b ∷ t) = ltb a b || a == b && text_leb s t

pub text_leb_total : (s t : Text) → text_leb s t ≡ false → text_leb t s ≡ true
unfolding text_leb
text_leb_total [] t h = ground arith
text_leb_total (a ∷ s) [] h = refl
text_leb_total (a ∷ s) (b ∷ t) h = ground (arith, text_leb_total s t, ==_iff a b, ==_iff b a)

unfoldable pub insert_sorted : Text → List Text → List Text
unfolding text_leb
insert_sorted x [] = x ∷ []
insert_sorted x (y ∷ ys) =
    let rest = insert_sorted x ys in if text_leb x y then x ∷ y ∷ ys else y ∷ rest

unfoldable pub sort : List Text → List Text
unfolding insert_sorted
sort [] = []
sort (x ∷ xs) = insert_sorted x (sort xs)

-- The equal elements that follow one another are one.
abbrev cons_new : Text → List Text → List Text
cons_new x [] = x ∷ []
cons_new x (y ∷ ys) = if x == y then y ∷ ys else x ∷ y ∷ ys

unfoldable pub dedup : List Text → List Text
dedup [] = []
dedup (x ∷ xs) = cons_new x (dedup xs)

abbrev at_most_head : Text → List Text → Bool
at_most_head x [] = true
at_most_head x (y ∷ ys) = text_leb x y

abbrev pub is_sorted : List Text → Bool
is_sorted [] = true
is_sorted (x ∷ xs) = at_most_head x xs && is_sorted xs

-- Each element is less than the next.
abbrev less_than_head : Text → List Text → Bool
less_than_head x [] = true
less_than_head x (y ∷ ys) = text_leb x y && not (x == y)

abbrev pub is_ascending : List Text → Bool
is_ascending [] = true
is_ascending (x ∷ xs) = less_than_head x xs && is_ascending xs

at_most_head-insert_sorted :
    (a x : Text) (ys : List Text)
    → text_leb a x ≡ true
    → at_most_head a ys ≡ true
    → at_most_head a (insert_sorted x ys) ≡ true
unfolding insert_sorted
at_most_head-insert_sorted a x [] h g = h
at_most_head-insert_sorted a x (y ∷ ys) h g = ground arith

insert_sorted-is_sorted :
    (x : Text) (ys : List Text) → is_sorted ys ≡ true → is_sorted (insert_sorted x ys) ≡ true
unfolding insert_sorted
insert_sorted-is_sorted x [] h = refl
insert_sorted-is_sorted x (y ∷ ys) h =
    ground
      (arith, insert_sorted-is_sorted x ys, text_leb_total x y, at_most_head-insert_sorted y x ys)

sort-is_sorted : (xs : List Text) → is_sorted (sort xs) ≡ true
unfolding sort
sort-is_sorted [] = refl
sort-is_sorted (x ∷ xs) = insert_sorted-is_sorted x (sort xs) (sort-is_sorted xs)

at_most_head-cons_new :
    (a x : Text) (ys : List Text) → text_leb a x ≡ true → at_most_head a (cons_new x ys) ≡ true
at_most_head-cons_new a x [] h = h
at_most_head-cons_new a x (y ∷ ys) h = ground (arith, ==_iff x y)

at_most_head-dedup :
    (a : Text) (xs : List Text) → at_most_head a xs ≡ true → at_most_head a (dedup xs) ≡ true
unfolding dedup
at_most_head-dedup a [] h = refl
at_most_head-dedup a (x ∷ xs) h = at_most_head-cons_new a x (dedup xs) h

cons_new-is_ascending :
    (x : Text) (ys : List Text)
    → at_most_head x ys ≡ true
    → is_ascending ys ≡ true
    → is_ascending (cons_new x ys) ≡ true
cons_new-is_ascending x [] h g = refl
cons_new-is_ascending x (y ∷ ys) h g = ground (arith, ==_iff x y)

dedup-is_ascending : (xs : List Text) → is_sorted xs ≡ true → is_ascending (dedup xs) ≡ true
unfolding dedup
dedup-is_ascending [] h = refl
dedup-is_ascending (x ∷ xs) h =
    cons_new-is_ascending x (dedup xs) (at_most_head-dedup x xs (ground arith))
      (dedup-is_ascending xs (ground arith))

pub dedup-sort-is_ascending : (xs : List Text) → is_ascending (dedup (sort xs)) ≡ true
dedup-sort-is_ascending xs = dedup-is_ascending (sort xs) (sort-is_sorted xs)

contains-insert_sorted :
    (a x : Text) (ys : List Text) → contains a (insert_sorted x ys) ≡ (x == a || contains a ys)
unfolding contains insert_sorted
contains-insert_sorted a x [] = refl
contains-insert_sorted a x (y ∷ ys) = ground (arith, contains-insert_sorted a x ys)

contains-sort : (a : Text) (xs : List Text) → contains a (sort xs) ≡ contains a xs
unfolding contains sort
contains-sort a [] = refl
contains-sort a (x ∷ xs) = ground (arith, contains-insert_sorted a x (sort xs), contains-sort a xs)

contains-cons_new :
    (a x : Text) (ys : List Text) → contains a (cons_new x ys) ≡ (x == a || contains a ys)
unfolding contains
contains-cons_new a x [] = refl
contains-cons_new a x (y ∷ ys) = ground (arith, ==_iff x y, ==_iff x a)

contains-dedup : (a : Text) (xs : List Text) → contains a (dedup xs) ≡ contains a xs
unfolding contains dedup
contains-dedup a [] = refl
contains-dedup a (x ∷ xs) = ground (arith, contains-cons_new a x (dedup xs), contains-dedup a xs)

pub contains-dedup-sort : (a : Text) (xs : List Text) → contains a (dedup (sort xs)) ≡ contains a xs
contains-dedup-sort a xs = ground (arith, contains-dedup a (sort xs), contains-sort a xs)

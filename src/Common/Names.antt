-- ===== src/Common/Names.antt =====
-- Lists of names as sets: membership as a test, and maps from names to lists of names.
use Prim.Native.Nat.{suc, ◌+◌, ◌≤◌}
use Prim.Native.String.{String}
use mathlib.Core.Path.{◌≡◌, refl}
use mathlib.Core.Bool.{Bool, false, not, ◌&&◌, ◌||◌}
use mathlib.Core.List.{List, [], ◌∷◌, ◌++◌, reverse, reverse_aux}
use native.Mathlib.Omega.{arith}
use text.Mathlib.Text.{◌==◌}
use text.Mathlib.TextEquality.{eq_iff}
use graph_skill_runtime.Common.Tests.{if◌then◌else◌, or_else}
use graph_skill_runtime.Common.Lists.{length, keep, length-append}
use graph_skill_runtime.Common.Dict.{Dict, get}
use graph_skill_runtime.Common.Text.{insert_by, sort_by}

-- x in xs
unfoldable pub has : String → List String → Bool
has x [] = false
has x (y ∷ ys) = y == x || has x ys

pub has-append : (x : String) (xs ys : List String) → has x (xs ++ ys) ≡ (has x xs || has x ys)
unfolding has
has-append x [] ys = refl
has-append x (z ∷ xs) ys = ground (arith, has-append x xs ys)

-- set.add
abbrev pub add : String → List String → List String
add x xs = if has x xs then xs else xs ++ x ∷ []

-- set.update
unfoldable pub add_all : List String → List String → List String
add_all [] xs = xs
add_all (y ∷ ys) xs = add_all ys (add y xs)

pub has-add : (x y : String) (xs : List String) → has x (add y xs) ≡ (y == x || has x xs)
unfolding has
has-add x y xs = ground (arith, eq_iff y x, has-append x xs (y ∷ []))

pub has-add_all :
    (x : String) (ys xs : List String) → has x (add_all ys xs) ≡ (has x ys || has x xs)
unfolding add_all has
has-add_all x [] xs = refl
has-add_all x (y ∷ ys) xs = ground (arith, has-add_all x ys (add y xs), has-add x y xs)

pub length-add_all : (ys xs : List String) → length (add_all ys xs) ≤ length ys + length xs
unfolding add_all
length-add_all [] xs = omega arith
length-add_all (y ∷ ys) xs = ground (arith, length-add_all ys (add y xs), length-append xs (y ∷ []))

-- The items of xs that are not in ys.
abbrev pub without : List String → List String → List String
without ys = keep (λ x. not (has x ys))

pub has-keep :
    (p : String → Bool) (x : String) (xs : List String) → has x (keep p xs) ≡ (p x && has x xs)
unfolding has
has-keep p x [] = ground arith
has-keep p x (y ∷ xs) = ground (arith, eq_iff y x, has-keep p x xs)

pub length-keep {ℓ} : {A : Type ℓ} (p : A → Bool) (xs : List A) → length (keep p xs) ≤ length xs
length-keep p [] = omega arith
length-keep p (x ∷ xs) = ground (arith, length-keep p xs)

has-insert :
    (x y : String) (xs : List String) → has x (insert_by (λ n. n) y xs) ≡ (y == x || has x xs)
unfolding has insert_by
has-insert x y [] = refl
has-insert x y (z ∷ xs) = ground (arith, has-insert x y xs)

-- sorted(xs)
abbrev pub sorted : List String → List String
sorted xs = sort_by (λ n. n) xs

pub has-sorted : (x : String) (xs : List String) → has x (sorted xs) ≡ has x xs
unfolding has sort_by
has-sorted x [] = refl
has-sorted x (y ∷ xs) = ground (arith, has-insert x y (sorted xs), has-sorted x xs)

length-insert : (y : String) (xs : List String) → length (insert_by (λ n. n) y xs) ≡ suc (length xs)
unfolding insert_by
length-insert y [] = refl
length-insert y (z ∷ xs) = ground (arith, length-insert y xs)

pub length-sorted : (xs : List String) → length (sorted xs) ≡ length xs
unfolding sort_by
length-sorted [] = refl
length-sorted (y ∷ xs) = omega (arith, length-insert y (sorted xs), length-sorted xs)

has-reverse_aux :
    (x : String) (xs acc : List String) → has x (reverse_aux xs acc) ≡ (has x xs || has x acc)
unfolding has
has-reverse_aux x [] acc = refl
has-reverse_aux x (y ∷ xs) acc = ground (arith, has-reverse_aux x xs (y ∷ acc))

pub has-reverse : (x : String) (xs : List String) → has x (reverse xs) ≡ has x xs
unfolding has
has-reverse x xs = ground (arith, has-reverse_aux x xs [])

length-reverse_aux : (xs acc : List String) → length (reverse_aux xs acc) ≡ length xs + length acc
length-reverse_aux [] acc = omega arith
length-reverse_aux (x ∷ xs) acc = omega (arith, length-reverse_aux xs (x ∷ acc))

pub length-reverse : (xs : List String) → length (reverse xs) ≡ length xs
length-reverse xs = omega (arith, length-reverse_aux xs [])

-- d.get(x, [])
abbrev pub entries : Dict (List String) → String → List String
entries d x = or_else [] (get d x)

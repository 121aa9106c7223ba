-- ===== src/Common/Text.antt =====
-- Text as its code points, for what walks it: len, strip and slices count code points.
use Prim.Native.Nat.{ℕ, zero, suc}
use Prim.Native.Char.{code}
use Prim.Native.String
use Prim.Native.String.{String}
use mathlib.Core.Bool.{Bool, true, false, ◌&&◌, ◌||◌}
use mathlib.Core.List.{List, [], ◌∷◌, reverse}
use graph_skill_runtime.Common.Tests.{leb, nat_eq, if◌then◌else◌}

abbrev pub codes : String → List ℕ
codes String.[] = []
codes (String.◌∷◌ c s) = code c ∷ codes s

-- str.isspace for one character
unfoldable pub is_space : ℕ → Bool
is_space c =
    (leb 9 c && leb c 13)
    || (leb 28 c && leb c 32)
    || nat_eq c 133
    || nat_eq c 160
    || nat_eq c 5760
    || (leb 8192 c && leb c 8202)
    || nat_eq c 8232
    || nat_eq c 8233
    || nat_eq c 8239
    || nat_eq c 8287
    || nat_eq c 12288

unfoldable pub strip_left : List ℕ → List ℕ
strip_left [] = []
strip_left (c ∷ s) = let rest = strip_left s in if is_space c then rest else c ∷ s

-- str.strip()
unfoldable pub strip : List ℕ → List ℕ
unfolding is_space strip_left
strip s = reverse (strip_left (reverse (strip_left s)))

-- s[:n]
unfoldable pub take : ℕ → List ℕ → List ℕ
take zero s = []
take (suc n) [] = []
take (suc n) (c ∷ s) = c ∷ take n s

-- s.startswith(p)
unfoldable pub starts_with : List ℕ → List ℕ → Bool
starts_with s [] = true
starts_with [] (p ∷ ps) = false
starts_with (c ∷ s) (p ∷ ps) = nat_eq c p && starts_with s ps

-- s.endswith(p)
unfoldable pub ends_with : List ℕ → List ℕ → Bool
unfolding starts_with
ends_with s p = starts_with (reverse s) (reverse p)

abbrev pub codes_eq : List ℕ → List ℕ → Bool
codes_eq [] [] = true
codes_eq (x ∷ xs) (y ∷ ys) = nat_eq x y && codes_eq xs ys
codes_eq _ _ = false

-- The order of texts: code point by code point.
abbrev pub codes_leb : List ℕ → List ℕ → Bool
codes_leb [] ys = true
codes_leb (x ∷ xs) [] = false
codes_leb (x ∷ xs) (y ∷ ys) = if nat_eq x y then codes_leb xs ys else leb x y

abbrev pub text_leb : String → String → Bool
text_leb s t = codes_leb (codes s) (codes t)

-- sorted(xs, key=key), which keeps the order of equal keys
unfoldable pub insert_by {ℓ} : {A : Type ℓ} → (A → String) → A → List A → List A
insert_by key x [] = x ∷ []
insert_by key x (y ∷ ys) = if text_leb (key x) (key y) then x ∷ y ∷ ys else y ∷ insert_by key x ys

unfoldable pub sort_by {ℓ} : {A : Type ℓ} → (A → String) → List A → List A
unfolding insert_by
sort_by key [] = []
sort_by key (x ∷ xs) = insert_by key x (sort_by key xs)

-- s.split(c, 1)[0]
unfoldable pub before : ℕ → List ℕ → List ℕ
before c [] = []
before c (x ∷ xs) = let rest = before c xs in if nat_eq x c then [] else x ∷ rest

-- "".join(parts), which an f-string is too
unfoldable pub concat : List String → String
concat [] = ""
concat (part ∷ parts) = String.◌++◌ part (concat parts)

-- separator.join(parts)
unfoldable pub join : String → List String → String
join separator [] = ""
join separator (part ∷ []) = part
join separator (part ∷ next ∷ parts) =
    String.◌++◌ part (String.◌++◌ separator (join separator (next ∷ parts)))

-- ===== src/Prelude/Text.antt =====
-- Python's string operations on the native texts.
use Prim.Native.Nat.{ℕ, zero, suc, pred, compare}
use Prim.Native.String.{String, count}
use Prim.Native.Char.{Char, code}
use mathlib.Core.Bool.{Bool, true, false, ◌||◌, ◌&&◌, not}
use mathlib.Core.List.{List, [], ◌∷◌}
use text.Mathlib.Text.{is_eq, starts_with as prefix_of, ◌==◌ as text_eq}
use routstr_core.Prelude.Tests.{if◌then◌else◌, leb}

abbrev pub str_eq : String → String → Bool
str_eq a b = text_eq a b

-- `s.startswith(p)`
abbrev pub starts_with : String → String → Bool
starts_with s p = prefix_of s p

-- `s[n:]`
abbrev pub str_drop : ℕ → String → String
str_drop zero s = s
str_drop (suc n) String.[] = String.[]
str_drop (suc n) (String.◌∷◌ c s) = str_drop n s

-- `p in s`, for a text
abbrev pub str_contains : String → String → Bool
str_contains p String.[] = text_eq p String.[]
str_contains p (String.◌∷◌ c s) = prefix_of (String.◌∷◌ c s) p || str_contains p s

-- `s.endswith(p)`
abbrev pub ends_with : String → String → Bool
ends_with String.[] p = text_eq String.[] p
ends_with (String.◌∷◌ c s) p = text_eq (String.◌∷◌ c s) p || ends_with s p

-- truth of a text: it is not empty
abbrev pub non_empty : String → Bool
non_empty String.[] = false
non_empty (String.◌∷◌ c s) = true

-- `k in xs`, for a list of texts
abbrev pub str_elem : String → List String → Bool
str_elem k [] = false
str_elem k (x ∷ xs) = text_eq k x || str_elem k xs

-- the code points of a text
abbrev pub codes : String → List ℕ
codes String.[] = []
codes (String.◌∷◌ c s) = code c ∷ codes s

-- what is left of a text without each occurrence of `p`, of which `skip` characters are still to go
abbrev removed : String → ℕ → String → String
removed p skip String.[] = String.[]
removed p (suc skip) (String.◌∷◌ c s) = removed p skip s
removed p zero (String.◌∷◌ c s) = elim (prefix_of (String.◌∷◌ c s) p) [
  | true ↦ removed p (pred (count p)) s
  | false ↦ String.◌∷◌ c (removed p zero s)
]

-- `s.replace(p, "")`, for a `p` that is not empty
abbrev pub str_remove : String → String → String
str_remove p s = removed p 0 s

-- `s.split(" ")[1]`, or the empty text if there is no space
abbrev first_word : String → String
first_word String.[] = String.[]
first_word (String.◌∷◌ c s) = elim (is_eq (compare (code c) b' ')) [
  | true ↦ String.[]
  | false ↦ String.◌∷◌ c (first_word s)
]

abbrev pub second_word : String → String
second_word String.[] = String.[]
second_word (String.◌∷◌ c s) = elim (is_eq (compare (code c) b' ')) [
  | true ↦ first_word s
  | false ↦ second_word s
]

abbrev pub str_append : String → String → String
str_append String.[] t = t
str_append (String.◌∷◌ c s) t = String.◌∷◌ c (str_append s t)

-- the ASCII white space of `str.strip`
abbrev pub is_white : ℕ → Bool
is_white c = is_eq (compare c 32) || (leb 9 c && leb c 13) || (leb 28 c && leb c 31)

abbrev pub str_lstrip : String → String
str_lstrip String.[] = String.[]
str_lstrip (String.◌∷◌ c s) = if is_white (code c) then str_lstrip s else String.◌∷◌ c s

abbrev pub str_rstrip : String → String
str_rstrip String.[] = String.[]
str_rstrip (String.◌∷◌ c s) =
    let rest = str_rstrip s in
    if is_white (code c) && not (non_empty rest) then String.[] else String.◌∷◌ c rest

abbrev pub str_strip : String → String
str_strip s = str_rstrip (str_lstrip s)

-- `s[:n]`
abbrev pub str_take : ℕ → String → String
str_take zero s = String.[]
str_take (suc n) String.[] = String.[]
str_take (suc n) (String.◌∷◌ c s) = String.◌∷◌ c (str_take n s)

-- `s.split(",")`
abbrev onto_first : Char → List String → List String
onto_first c [] = []
onto_first c (x ∷ xs) = String.◌∷◌ c x ∷ xs

abbrev pub split_commas : String → List String
split_commas String.[] = "" ∷ []
split_commas (String.◌∷◌ c s) = elim (is_eq (compare (code c) b',')) [
  | true ↦ "" ∷ split_commas s
  | false ↦ onto_first c (split_commas s)
]

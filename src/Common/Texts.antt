-- ===== src/Common/Texts.antt =====
-- Go strings as lists of bytes, with what the program uses of the package `strings`.
use Prim.Native.Char.{code}
use Prim.Native.Nat.{suc, zero, ℕ, ◌+◌}
use Prim.Native.String.{String}
use mathlib.Core.Bool.{Bool, false, true, ◌&&◌, ◌||◌}
use mathlib.Core.List.{List, [], reverse, ◌∷◌, ◌++◌}
use mathlib.Core.Logic.{◌↔◌, inl, inr}
use mathlib.Core.Option.{Option, none, some}
use mathlib.Core.Path.{refl, ◌≡◌}
use native.Mathlib.Omega.{arith}
use s_ingress.Common.Tests.{Bool-cases, if◌then◌else◌, leb, nat_eq}
use s_ingress.Common.Keys.{Comparable}
use s_ingress.Common.Lists.{drop, length}

abbrev pub Text : Type 0
Text = List ℕ

-- The bytes of an ASCII literal.
abbrev pub codes : String → Text
codes String.[] = []
codes (String.◌∷◌ c s) = code c ∷ codes s

unfoldable pub text_eq : Text → Text → Bool
text_eq [] [] = true
text_eq (a ∷ s) (b ∷ t) = nat_eq a b && text_eq s t
text_eq _ _ = false

text_eq_sound : (s t : Text) → text_eq s t ≡ true → s ≡ t
unfolding text_eq
text_eq_sound [] [] h = refl
text_eq_sound (a ∷ s) (b ∷ t) h = ground (arith, text_eq_sound s t)
text_eq_sound _ _ h = cc

text_eq_refl : (s : Text) → text_eq s s ≡ true
unfolding text_eq
text_eq_refl [] = refl
text_eq_refl (a ∷ s) = ground (arith, text_eq_refl s)

pub text_eq_iff : (s t : Text) → (text_eq s t ≡ true) ↔ (s ≡ t)
text_eq_iff s t = (text_eq_sound s t, λ e. rw e (text_eq_refl t))

instance abbrev pub text_keys : Comparable Text
text_keys = record { beq = text_eq; beq_iff = text_eq_iff }

-- `strings.HasPrefix(s, p)`
unfoldable pub has_prefix : Text → Text → Bool
has_prefix s [] = true
has_prefix [] (_ ∷ _) = false
has_prefix (a ∷ s) (b ∷ p) = nat_eq a b && has_prefix s p

-- `strings.Index(s, sep)` at a one-byte separator: -1 is `none`.
unfoldable pub index : Text → ℕ → Option ℕ
index [] c = none
index (a ∷ s) c =
    if nat_eq a c then some 0 else elim (index s c) [ none ↦ none | some i ↦ some (suc i) ]

abbrev glue : ℕ → List Text → List Text
glue a [] = (a ∷ []) ∷ []
glue a (part ∷ parts) = (a ∷ part) ∷ parts

-- `strings.Split(s, sep)` at a one-byte separator.
unfoldable pub split : Text → ℕ → List Text
split [] c = [] ∷ []
split (a ∷ s) c = let rest = split s c in if nat_eq a c then [] ∷ rest else glue a rest

-- `strings.SplitN(s, sep, 2)` at a one-byte separator: the second part is there if the separator is.
unfoldable pub split_two : Text → ℕ → Text × Option Text
split_two [] c = ([], none)
split_two (a ∷ s) c =
    let (before, after) = split_two s c in if nat_eq a c then ([], some s) else (a ∷ before, after)

wide : ℕ → Text → ℕ
wide a (b ∷ c ∷ t) =
    if nat_eq a 0xC2 && (nat_eq b 0x85 || nat_eq b 0xA0)
    then 2
    else if nat_eq a 0xE1 && nat_eq b 0x9A && nat_eq c 0x80
    then 3
    else if nat_eq a 0xE2
        && nat_eq b 0x80
        && ((leb 0x80 c && leb c 0x8A) || nat_eq c 0xA8 || nat_eq c 0xA9 || nat_eq c 0xAF)
    then 3
    else if nat_eq a 0xE2 && nat_eq b 0x81 && nat_eq c 0x9F
    then 3
    else if nat_eq a 0xE3 && nat_eq b 0x80 && nat_eq c 0x80
    then 3
    else 0
wide a (b ∷ []) = if nat_eq a 0xC2 && (nat_eq b 0x85 || nat_eq b 0xA0) then 2 else 0
wide a [] = 0

-- The length of the UTF-8 white space that the bytes begin with, and 0 if they begin with none.
space_width : Text → ℕ
unfolding wide
space_width [] = 0
space_width (a ∷ s) = if (leb 9 a && leb a 13) || nat_eq a 32 then 1 else wide a s

-- The same at the end of the bytes, read from the back.
space_width_back : Text → ℕ
space_width_back [] = 0
space_width_back (a ∷ []) = space_width (a ∷ [])
space_width_back (a ∷ b ∷ []) =
    if nat_eq (space_width (a ∷ [])) 1 then 1 else space_width (b ∷ a ∷ [])
space_width_back (a ∷ b ∷ c ∷ s) =
    if nat_eq (space_width (a ∷ [])) 1
    then 1
    else if nat_eq (space_width (b ∷ a ∷ [])) 2
    then 2
    else if nat_eq (space_width (c ∷ b ∷ a ∷ [])) 3
    then 3
    else 0

-- Drops white space, of which `pending` bytes are still to go.
trim_by : (Text → ℕ) → ℕ → Text → Text
trim_by width pending [] = []
trim_by width zero (a ∷ s) = elim (width (a ∷ s)) [ zero ↦ a ∷ s | suc more ↦ trim_by width more s ]
trim_by width (suc pending) (a ∷ s) = trim_by width pending s

-- `strings.TrimSpace(s)`
unfoldable pub trim_space : Text → Text
unfolding trim_by space_width space_width_back
trim_space s = reverse (trim_by space_width_back 0 (reverse (trim_by space_width 0 s)))

-- `strings.ToLower(s)`, on ASCII.
unfoldable pub to_lower : Text → Text
to_lower [] = []
to_lower (a ∷ s) = (if leb b'A' a && leb a b'Z' then a + 32 else a) ∷ to_lower s

-- `strings.Replace(s, old, new, 1)` at an `old` that is not empty.
unfoldable pub replace_first : Text → Text → Text → Text
replace_first [] old new = []
replace_first (a ∷ s) old new =
    let rest = a ∷ replace_first s old new in
    if has_prefix (a ∷ s) old then new ++ drop (length old) (a ∷ s) else rest

-- Splitting gives at least one part.
pub split_cons :
    (s : Text) (c : ℕ) → (part : Text) × (parts : List Text) × (split s c ≡ part ∷ parts)
unfolding split
split_cons [] c = ([], [], refl)
split_cons (a ∷ s) c =
    let (part, parts, e) = split_cons s c in
    elim (Bool-cases (nat_eq a c)) [
      | inl same ↦ ([], split s c, rw same)
      | inr other ↦ (a ∷ part, parts, rw (other, e))
    ]

-- ===== src/Config/ByteSize.antt =====
-- `ParseByteSize` of pkg/config/config_yaml.go
use s_ingress.Common.Int.{to_int64, ℤ}
use s_ingress.Common.Texts.{Text, codes, text_keys, to_lower}
use s_ingress.Common.{
  Bool, Map, Option, Result, [], err, false, if◌then◌else◌, leb, lookup, ltb, none, not, ok, some,
  true, ℕ, ◌&&◌, ◌*◌, ◌+◌, ◌-◌, ◌^◌, ◌∷◌,
}

abbrev pub size_map : Map Text ℕ
size_map =
    (codes "", 1)
    ∷ (codes "k", 1000)
    ∷ (codes "kb", 1000)
    ∷ (codes "kib", 2 * 2 ^ 9)
    ∷ (codes "m", 10_000_000)
    ∷ (codes "mb", 10_000_000)
    ∷ (codes "mib", 2 * 2 ^ 19)
    ∷ (codes "g", 10_000_000_000)
    ∷ (codes "gb", 10_000_000_000)
    ∷ (codes "gib", 2 * 2 ^ 29)
    ∷ []

pub data SizeError : Type 0 where
  invalid_size invalid_unit : SizeError

abbrev pub is_digit : ℕ → Bool
is_digit c = leb b'0' c && leb c b'9'

-- The class `[A-z]`, which has six signs between the letters.
abbrev pub is_unit_byte : ℕ → Bool
is_unit_byte c = leb b'A' c && leb c b'z'

abbrev pub all_bytes : (ℕ → Bool) → Text → Bool
all_bytes p [] = true
all_bytes p (c ∷ t) = p c && all_bytes p t

-- The digits that a text begins with, and the rest.
unfoldable pub span_digits : Text → Text × Text
span_digits [] = ([], [])
span_digits (c ∷ t) =
    let (digits, rest) = span_digits t in if is_digit c then (c ∷ digits, rest) else ([], c ∷ t)

abbrev pub is_nil : Text → Bool
is_nil [] = true
is_nil (c ∷ t) = false

-- `FindStringSubmatch` of `^(\d+)([A-z]*)$`: the two groups.
unfoldable pub match_size : Text → Option (Text × Text)
unfolding span_digits
match_size size_raw =
    let (digits, rest) = span_digits size_raw in
    if not (is_nil digits) && all_bytes is_unit_byte rest then some (digits, rest) else none

unfoldable pub digits_value : ℕ → Text → ℕ
digits_value n [] = n
digits_value n (c ∷ t) = digits_value (n * 10 + (c - b'0')) t

-- `strconv.ParseInt(s, 10, 64)`, of digits: an error if the number is no `int64`.
unfoldable pub parse_int : Text → Option ℕ
unfolding digits_value
parse_int digits = let n = digits_value 0 digits in if ltb n (2 ^ 63) then some n else none

unfoldable pub parse_byte_size : Text → Result SizeError ℤ
unfolding match_size parse_int
parse_byte_size size_raw = elim (match_size size_raw) [
  | none ↦ err invalid_size
  | some (digits, suffix) ↦ elim (parse_int digits) [
    | none ↦ err invalid_size
    | some size ↦ elim (lookup (to_lower suffix) size_map) [
      | none ↦ err invalid_unit
      | some multiplier ↦ ok (to_int64 (size * multiplier))
    ]
  ]
]

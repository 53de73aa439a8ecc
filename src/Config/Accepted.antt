-- ===== src/Config/Accepted.antt =====
-- pkg/config/config_yaml.go: the texts that `ParseByteSize` accepts.
use s_ingress.Common.Int.{to_int64, ℤ}
use s_ingress.Common.Texts.{Text, text_keys, to_lower}
use s_ingress.Common.{
  &&-eq-true, Bool-cases, Option-cases, [], ap, arith, inl, inr, lookup, ltb, not, ok, ok-injective,
  refl, some, sym, true, ℕ, ◌&&◌, ◌*◌, ◌++◌, ◌<◌, ◌^◌, ◌↔◌, ◌∙◌, ◌∷◌, ◌≡◌, ◌≢◌,
}
use s_ingress.Config.ByteSize.{
  all_bytes, digits_value, is_digit, is_nil, is_unit_byte, match_size, parse_byte_size, parse_int,
  size_map, span_digits,
}
use s_ingress.Config.Sizes.{parse_byte_size-append}

-- A text that stands for a size: decimal digits below 2 ^ 63 and a unit of the table.
pub record IsSize (size_raw : Text) (n : ℤ) : Type 0 where
  pub digits : Text
  pub suffix : Text
  pub multiplier : ℕ
  pub splits : size_raw ≡ digits ++ suffix
  pub has_digits : digits ≢ []
  pub in_decimal : all_bytes is_digit digits ≡ true
  pub has_unit : all_bytes is_unit_byte suffix ≡ true
  pub fits : digits_value 0 digits < 2 ^ 63
  pub in_table : lookup (to_lower suffix) size_map ≡ some multiplier
  pub product : n ≡ to_int64 (digits_value 0 digits * multiplier)

span_digits-splits : (t : Text) → t ≡ (span_digits t).0 ++ (span_digits t).1
unfolding span_digits
span_digits-splits [] = refl
span_digits-splits (c ∷ t) = elim (Bool-cases (is_digit c)) [
  | inl h ↦ rw h (ap (λ x. c ∷ x) (span_digits-splits t))
  | inr h ↦ rw h refl
]

span_digits-digits : (t : Text) → all_bytes is_digit (span_digits t).0 ≡ true
unfolding span_digits
span_digits-digits [] = refl
span_digits-digits (c ∷ t) = elim (Bool-cases (is_digit c)) [
  | inl h ↦ rw h (rw h (span_digits-digits t))
  | inr h ↦ rw h refl
]

not-nil : (t : Text) → not (is_nil t) ≡ true → t ≢ []
not-nil [] h e = cc
not-nil (c ∷ t) h e = cc

same_value : {A : Type 0} {a b : A} → some a ≡ some b → a ≡ b
same_value e = cc

match_size-inverse :
    (t digits suffix : Text)
    → match_size t ≡ some (digits, suffix)
    → (t ≡ digits ++ suffix)
      × (digits ≢ [])
      × (all_bytes is_digit digits ≡ true)
      × (all_bytes is_unit_byte suffix ≡ true)
unfolding match_size
match_size-inverse t digits suffix e =
    elim (Bool-cases (not (is_nil (span_digits t).0) && all_bytes is_unit_byte (span_digits t).1)) [
      | inl b ↦
          let (filled, unit) = &&-eq-true _ _ b in
          let p : ((span_digits t).0, (span_digits t).1) ≡ (digits, suffix) =
            same_value (rw b at e) in
          let d : (span_digits t).0 ≡ digits = ap (λ q. q.0) p in
          let x : (span_digits t).1 ≡ suffix = ap (λ q. q.1) p in
          (
            rw (sym d, sym x) (span_digits-splits t),
            rw (sym d) (not-nil (span_digits t).0 filled),
            rw (sym d) (span_digits-digits t),
            rw (sym x) unit,
          )
      | inr b ↦ cc (rw b at e)
    ]

parse_int-inverse :
    (digits : Text) (n : ℕ)
    → parse_int digits ≡ some n
    → (n ≡ digits_value 0 digits) × (digits_value 0 digits < 2 ^ 63)
unfolding parse_int
parse_int-inverse digits n e = elim (Bool-cases (ltb (digits_value 0 digits) (2 ^ 63))) [
  | inl b ↦ (sym (same_value (rw b at e)), ground (arith, b))
  | inr b ↦ cc (rw b at e)
]

parse_byte_size-IsSize :
    (size_raw : Text) (n : ℤ) → parse_byte_size size_raw ≡ ok n → IsSize size_raw n
unfolding parse_byte_size
parse_byte_size-IsSize size_raw n e = elim (Option-cases (match_size size_raw)) [
  | inl h ↦ cc (rw (parse_byte_size, h) at e)
  | inr ((digits, suffix), h) ↦ elim (Option-cases (parse_int digits)) [
    | inl i ↦ cc (rw (parse_byte_size, h, i) at e)
    | inr (size, i) ↦ elim (Option-cases (lookup (to_lower suffix) size_map)) [
      | inl u ↦ cc (rw (parse_byte_size, h, i, u) at e)
      | inr (multiplier, u) ↦
          let (s, d, a, b) = match_size-inverse size_raw digits suffix h in
          let (v, f) = parse_int-inverse digits size i in
          record {
            digits = digits;
            suffix = suffix;
            multiplier = multiplier;
            splits = s;
            has_digits = d;
            in_decimal = a;
            has_unit = b;
            fits = f;
            in_table = u;
            product =
                sym (ok-injective (rw (parse_byte_size, h, i, u) at e))
                ∙ ap (λ k. to_int64 (k * multiplier)) v;
          }
    ]
  ]
]

-- ParseByteSize gives a size exactly for the texts that are decimal digits below 2 ^ 63 with a unit
-- of the table, in any case of its letters, and the size is the product with the unit, wrapped to an
-- int64.
pub parse_byte_size_iff :
    (size_raw : Text) (n : ℤ) → parse_byte_size size_raw ≡ ok n ↔ IsSize size_raw n
parse_byte_size_iff size_raw n = (
  parse_byte_size-IsSize size_raw n,
  λ h.
      rw (h.splits, h.product)
        (parse_byte_size-append h.digits h.suffix h.multiplier h.has_digits h.in_decimal h.has_unit
          h.fits h.in_table),
)

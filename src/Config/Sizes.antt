-- ===== src/Config/Sizes.antt =====
-- What `ParseByteSize` returns.
use s_ingress.Common.Int.{to_int64}
use s_ingress.Common.Texts.{Text, text_keys, to_lower}
use s_ingress.Common.{
  &&-eq-true, [], arith, false, lookup, ok, refl, some, true, ℕ, ◌*◌, ◌++◌, ◌<◌, ◌^◌, ◌∷◌, ◌≡◌, ◌≢◌,
}
use s_ingress.Config.ByteSize.{
  all_bytes, digits_value, is_digit, is_unit_byte, match_size, parse_byte_size, parse_int, size_map,
  span_digits,
}

digit-unit : (c : ℕ) → is_unit_byte c ≡ true → is_digit c ≡ false
digit-unit c h = ground arith

span_digits-append :
    (digits suffix : Text)
    → all_bytes is_digit digits ≡ true
    → all_bytes is_unit_byte suffix ≡ true
    → span_digits (digits ++ suffix) ≡ (digits, suffix)
unfolding span_digits
span_digits-append [] [] h k = refl
span_digits-append [] (c ∷ t) h k =
    rw (digit-unit c (&&-eq-true (is_unit_byte c) (all_bytes is_unit_byte t) k).0) refl
span_digits-append (c ∷ d) suffix h k =
    let (first, more) = &&-eq-true (is_digit c) (all_bytes is_digit d) h in
    rw (span_digits-append d suffix more k, first) refl

matched :
    (digits suffix : Text)
    → digits ≢ []
    → all_bytes is_digit digits ≡ true
    → all_bytes is_unit_byte suffix ≡ true
    → match_size (digits ++ suffix) ≡ some (digits, suffix)
unfolding match_size
matched [] suffix n h k = absurd (n refl)
matched (c ∷ d) suffix n h k = rw (match_size, span_digits-append (c ∷ d) suffix h k, k) refl

parsed :
    (digits : Text)
    → digits_value 0 digits < 2 ^ 63
    → parse_int digits ≡ some (digits_value 0 digits)
unfolding parse_int
parsed digits b = ground (arith, b)

-- A number in decimal digits with a unit of the table becomes the product, as an `int64`, where
-- the number itself is below 2 ^ 63; a product that is not wraps around.
pub parse_byte_size-append :
    (digits suffix : Text) (multiplier : ℕ)
    → digits ≢ []
    → all_bytes is_digit digits ≡ true
    → all_bytes is_unit_byte suffix ≡ true
    → digits_value 0 digits < 2 ^ 63
    → lookup (to_lower suffix) size_map ≡ some multiplier
    → parse_byte_size (digits ++ suffix) ≡ ok (to_int64 (digits_value 0 digits * multiplier))
unfolding parse_byte_size digits_value
parse_byte_size-append digits suffix multiplier n h k b u =
    rw (parse_byte_size, matched digits suffix n h k, parsed digits b, u) refl

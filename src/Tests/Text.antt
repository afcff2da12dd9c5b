-- ===== src/Tests/Text.antt =====
-- The theorems on util.go at concrete inputs.
use cow.Base.{◌%◌, ◌≡◌, refl, inl, [], ◌∷◌, map, arith, codes, signed_neg, int64_half, int64_mod}
use cow.Util.Space.{trim_space}
use cow.Util.Space.Trim.{IsTrimOf, trim_space-IsTrimOf}
use cow.Util.ParseInt.{parse_int_from_bytes, ok}
use cow.Util.ParseInt.Digits.{digit_char, value, parse_int-digits}
use cow.Util.ParseInt.HighBytes.{parse_int_high}
use cow.Util.Host.{host2domain}
use cow.Util.Host.Suffix.{DomainOf, host2domain-DomainOf}

trim_space-IsTrimOf_example : IsTrimOf (codes "  a b ") (trim_space (codes "  a b "))
trim_space-IsTrimOf_example = trim_space-IsTrimOf (codes "  a b ")

parse_int-digits_example :
    (parse_int_from_bytes (map digit_char (4 ∷ 2 ∷ [])) 10 ≡ ok (value 10 (4 ∷ 2 ∷ []) % int64_mod))
    × (parse_int_from_bytes (b'+' ∷ map digit_char (4 ∷ 2 ∷ [])) 10
        ≡ ok (value 10 (4 ∷ 2 ∷ []) % int64_mod))
    × (parse_int_from_bytes (b'-' ∷ map digit_char (4 ∷ 2 ∷ [])) 10
        ≡ ok (signed_neg int64_half (value 10 (4 ∷ 2 ∷ []) % int64_mod)))
parse_int-digits_example =
    parse_int-digits 10 4 (2 ∷ []) (inl refl) (omega arith, (omega arith, tt))

host2domain-DomainOf_example : DomainOf (codes "www.b.com.cn") (host2domain (codes "www.b.com.cn"))
host2domain-DomainOf_example = host2domain-DomainOf (codes "www.b.com.cn")

parse_int_high_example : parse_int_from_bytes (200 ∷ 255 ∷ []) 10 ≡ ok 0
parse_int_high_example = parse_int_high 10 200 (255 ∷ []) (inl refl) (omega arith) (omega arith, tt)

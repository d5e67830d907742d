-- ===== src/Pattern/Parse/Tests.antt =====
-- Patterns parsed, and some that are refused, where runes are the bytes of ASCII.
use oohttp.Base.{ℕ, Bool, true, false, ◌&&◌, ◌||◌, List, [], ◌∷◌, ◌≡◌, refl, Bytes, codes, leb}
use oohttp.Paths.Clean.{clean_path}
use oohttp.Pattern.Parse.Result.{ParseResult, parse_pattern-ParseResult}
use oohttp.Pattern.{Pattern}
use oohttp.Pattern.Parse.{
  Parsed, parsed, failed, empty_pattern, duplicate_name, multi_not_end, unclean, invalid_method,
  parse_pattern,
}

abbrev runes : Bytes → List ℕ
runes s = s

abbrev is_letter : ℕ → Bool
is_letter c = (leb b'a' c && leb c b'z') || (leb b'A' c && leb c b'Z')

abbrev is_digit : ℕ → Bool
is_digit c = leb b'0' c && leb c b'9'

abbrev parse : Bytes → Parsed
parse s = parse_pattern runes is_letter is_digit is_letter s

parse_pattern-ParseResult_example :
    ParseResult runes is_letter is_digit is_letter (parse (codes "GET a.b/x/{y}/{z...}"))
parse_pattern-ParseResult_example =
    parse_pattern-ParseResult runes is_letter is_digit is_letter (codes "GET a.b/x/{y}/{z...}")

abbrev dotted : Pattern
dotted = record {
  method = [];
  host = [];
  segments =
      record { s = codes "a.b"; wild = false; multi = false }
      ∷ record { s = codes "y"; wild = true; multi = false }
      ∷ record { s = codes "/"; wild = false; multi = false }
      ∷ [];
}

runs :
    (parse (codes "GET h/x/{y}/")
      ≡ parsed (record {
        method = codes "GET";
        host = codes "h";
        segments =
            record { s = codes "x"; wild = false; multi = false }
            ∷ record { s = codes "y"; wild = true; multi = false }
            ∷ record { s = []; wild = true; multi = true }
            ∷ [];
      }))
    × (parse (codes "/{x}/{x}") ≡ failed 5 duplicate_name)
    × (parse (codes "/{x...}/a") ≡ failed 1 multi_not_end)
    × (parse (codes "G /a/../b") ≡ failed 2 unclean)
    × (parse (codes "G= /a") ≡ failed 0 invalid_method)
    × (parse [] ≡ empty_pattern)
unfolding parse_pattern clean_path
runs = (refl, refl, refl, refl, refl, refl)

-- ===== src/Mux/Handle.antt =====
-- The whole of `registerErr` in server.go: parsing, then the registration of the pattern.
use oohttp.Base.{ℕ, Bool, List, Option, none, some, if◌then◌else◌, Bytes, is_empty}
use oohttp.Mux.{ServeMux, Registered, register_pattern}
use oohttp.Pattern.Parse.{Problem, Parsed, parsed, failed, empty_pattern, stuck, parse_pattern}
use oohttp.Pattern.{Pattern}

-- What `registerErr` returns: the errors of its first lines, those of parsing, or what follows.
pub data Handled : Type 0 where
  invalid_pattern : Handled
  nil_handler : Handled
  parsing : ℕ → Problem → Handled
  after_parsing : Registered → Handled
  never : Handled

module _ (runes : Bytes → List ℕ) (is_letter is_digit is_token_rune : ℕ → Bool) where
  abbrev pub handle_parsed : Parsed → ℕ → ServeMux → Handled
  handle_parsed (parsed p) h mux = after_parsing (register_pattern p h mux)
  handle_parsed (failed off problem) h mux = parsing off problem
  handle_parsed empty_pattern h mux = invalid_pattern
  handle_parsed stuck h mux = never

  abbrev pub handle_some : Bytes → Option ℕ → ServeMux → Handled
  handle_some s none mux = nil_handler
  handle_some s (some h) mux =
      handle_parsed (parse_pattern runes is_letter is_digit is_token_rune s) h mux

  -- `registerErr`; the handler `none` is nil, or a nil `HandlerFunc`.
  unfoldable pub register : Bytes → Option ℕ → ServeMux → Handled
  unfolding parse_pattern register_pattern
  register s h mux = if is_empty s then invalid_pattern else handle_some s h mux

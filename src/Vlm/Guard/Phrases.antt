-- ===== src/Vlm/Guard/Phrases.antt =====
-- vlm/guard.py: the phrases that clear a cargo, as patterns that ignore case.
use loyiha.Base.{String, not, ◌==◌, List, [], ◌∷◌, any}
use loyiha.Contracts.Common.{Text, codes}
use loyiha.Datalayer.Quality.{is_space}
use loyiha.Vlm.Text.{Unicode}
use loyiha.Vlm.Pattern.{Pattern, nothing, word_end, item, many, then, either}

-- `(r1|r2|...)`, of at least one
abbrev any_of : Pattern → List Pattern → Pattern
any_of r [] = r
any_of r (r' ∷ rs) = either r (any_of r' rs)

abbrev in_order : List Pattern → Pattern
in_order [] = nothing
in_order (r ∷ rs) = then r (in_order rs)

-- `r?`
abbrev optional : Pattern → Pattern
optional r = either r nothing

-- `\s+`
abbrev spaces : Pattern
spaces = then (item is_space) (many is_space)

-- `[ʻ’'`]?`
abbrev apostrophe : Pattern
apostrophe = optional (item (λ c. any (λ a. c == a) (codes "ʻ’'`")))

-- `.`
abbrev any_char : Pattern
any_char = item (λ c. not (c == 10))

module _ (u : Unicode) where
  abbrev literal : Text → Pattern
  literal [] = nothing
  literal (c ∷ cs) = then (item (λ d. u.fold d == c)) (literal cs)

  -- `\w*`
  abbrev tail : Pattern
  tail = many u.is_word

  -- `_FORBIDDEN_UZ`, in its order, joined by `|`
  unfoldable pub forbidden_phrases : Pattern
  forbidden_phrases =
      let lit = λ (s : String). literal (codes s) in
      any_of
        (in_order
          (lit "yo" ∷ apostrophe ∷ lit "l" ∷ spaces ∷ lit "qo" ∷ apostrophe ∷ lit "ying" ∷ []))
        (in_order (lit "yo" ∷ any_char ∷ lit "l" ∷ spaces ∷ lit "q" ∷ any_char ∷ lit "ying" ∷ [])
          ∷ in_order (lit "xavfsiz" ∷ tail ∷ [])
          ∷ in_order (lit "xavf" ∷ optional (lit "li") ∷ spaces ∷ lit "emas" ∷ tail ∷ [])
          ∷ in_order (lit "xatar" ∷ optional (lit "li") ∷ spaces ∷ lit "emas" ∷ tail ∷ [])
          ∷ in_order (lit "ruxsat" ∷ spaces ∷ lit "ber" ∷ tail ∷ [])
          ∷ in_order (
              lit "o"
              ∷ apostrophe
              ∷ lit "tkaz"
              ∷ tail
              ∷ spaces
              ∷ either (in_order (lit "yubor" ∷ tail ∷ []))
                  (in_order (lit "bo" ∷ apostrophe ∷ lit "l" ∷ tail ∷ []))
              ∷ [])
          ∷ in_order (
              lit "o"
              ∷ apostrophe
              ∷ lit "tkaz"
              ∷ either (lit "sa") (lit "ish")
              ∷ spaces
              ∷ lit "bo"
              ∷ apostrophe
              ∷ lit "l"
              ∷ tail
              ∷ [])
          ∷ in_order (lit "bemalol" ∷ spaces ∷ lit "o" ∷ apostrophe ∷ lit "t" ∷ tail ∷ [])
          ∷ in_order (
              lit "tashvish"
              ∷ either (in_order (lit "lan" ∷ tail ∷ [])) (in_order (lit "siz" ∷ tail ∷ []))
              ∷ [])
          ∷ in_order (
              lit "xavotir"
              ∷ either (in_order (lit "lan" ∷ tail ∷ [])) (in_order (lit "siz" ∷ tail ∷ []))
              ∷ [])
          ∷ in_order (lit "muammo" ∷ spaces ∷ lit "yo" ∷ apostrophe ∷ lit "q" ∷ tail ∷ [])
          ∷ in_order (
              lit "hech"
              ∷ spaces
              ∷ either (lit "narsa") (in_order (lit "qanday" ∷ spaces ∷ lit "xavf" ∷ []))
              ∷ spaces
              ∷ lit "yo"
              ∷ apostrophe
              ∷ lit "q"
              ∷ tail
              ∷ [])
          ∷ in_order (lit "xatar" ∷ spaces ∷ lit "yo" ∷ apostrophe ∷ lit "q" ∷ tail ∷ [])
          ∷ in_order (lit "xavf" ∷ spaces ∷ lit "yo" ∷ apostrophe ∷ lit "q" ∷ tail ∷ [])
          ∷ in_order (lit "toza" ∷ either (lit "dir") word_end ∷ tail ∷ [])
          ∷ in_order (lit "normal" ∷ tail ∷ spaces ∷ lit "yuk" ∷ [])
          ∷ in_order (
              lit "o"
              ∷ apostrophe
              ∷ lit "tkaz"
              ∷ either (lit "ish") (lit "sa")
              ∷ spaces
              ∷ lit "mumkin"
              ∷ [])
          ∷ [])

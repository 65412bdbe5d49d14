-- ===== src/Text.antt =====
-- JavaScript strings as lists of UTF-16 code units, and the operations on them that the program
-- uses: `includes`, a regular expression `\bneedle\b` for a needle of word characters, and the
-- conversion of a number.
pub mod Search
pub mod Dict
use Prim.Native.Char.{code}
use Prim.Native.String
use winny.Base.{
  ℕ, zero, suc, ◌+◌, ◌/◌, ◌%◌, String, Bool, true, false, ◌&&◌, ◌||◌, not, List, [], ◌∷◌, ◌++◌, ltb,
  leb, ◌==◌, if◌then◌else◌,
}

abbrev pub JsString : Type 0
JsString = List ℕ

-- A literal of the source, all of ASCII.
abbrev pub codes : String → JsString
codes String.[] = []
codes (String.◌∷◌ letter rest) = code letter ∷ codes rest

-- s === t
unfoldable pub same_text : JsString → JsString → Bool
same_text [] [] = true
same_text (c ∷ s) (d ∷ t) = c == d && same_text s t
same_text _ _ = false

-- The code units that `trim` takes away.
unfoldable pub is_space : ℕ → Bool
is_space c =
    (leb 9 c && leb c 13)
    || c == 32
    || c == 160
    || c == 5760
    || (leb 8192 c && leb c 8202)
    || c == 8232
    || c == 8233
    || c == 8239
    || c == 8287
    || c == 12288
    || c == 65279

unfoldable pub trim_start : JsString → JsString
trim_start [] = []
trim_start (c ∷ s) = let rest = trim_start s in if is_space c then rest else c ∷ s

-- Without the spaces at the end.
unfoldable pub trim_end : JsString → JsString
trim_end [] = []
trim_end (c ∷ s) = elim (trim_end s) [ [] ↦ if is_space c then [] else c ∷ [] | d ∷ t ↦ c ∷ d ∷ t ]

-- s.trim()
unfoldable pub trim : JsString → JsString
unfolding trim_start trim_end
trim s = trim_end (trim_start s)

-- s.startsWith(needle)
unfoldable pub starts_with : JsString → JsString → Bool
starts_with [] s = true
starts_with (c ∷ needle) [] = false
starts_with (c ∷ needle) (d ∷ s) = c == d && starts_with needle s

-- s.includes(needle)
unfoldable pub includes : JsString → JsString → Bool
unfolding starts_with
includes needle [] = starts_with needle []
includes needle (d ∷ s) = starts_with needle (d ∷ s) || includes needle s

-- The class `\w` of a regular expression.
unfoldable pub is_word_char : ℕ → Bool
is_word_char c =
    (leb b'a' c && leb c b'z')
    || (leb b'A' c && leb c b'Z')
    || (leb b'0' c && leb c b'9')
    || c == b'_'

-- The text goes on with the needle, and no word character follows it.
unfoldable pub starts_with_word : JsString → JsString → Bool
unfolding is_word_char
starts_with_word [] [] = true
starts_with_word [] (d ∷ s) = not (is_word_char d)
starts_with_word (c ∷ needle) [] = false
starts_with_word (c ∷ needle) (d ∷ s) = c == d && starts_with_word needle s

-- `/\bneedle\b/.test(s)`, behind a word character or not.
unfoldable pub includes_word_after : Bool → JsString → JsString → Bool
unfolding starts_with_word
includes_word_after inside needle [] = not inside && starts_with_word needle []
includes_word_after inside needle (d ∷ s) =
    (not inside && starts_with_word needle (d ∷ s)) || includes_word_after (is_word_char d) needle s

unfoldable pub includes_word : JsString → JsString → Bool
unfolding includes_word_after
includes_word needle s = includes_word_after false needle s

-- String(n): the decimal digits, the last one first, with fuel for their number.
unfoldable pub decimal_before : ℕ → ℕ → JsString → JsString
decimal_before zero n later = later
decimal_before (suc fuel) n later =
    let rest = decimal_before fuel (n / 10) ((b'0' + n % 10) ∷ later) in
    if ltb n 10 then (b'0' + n) ∷ later else rest

unfoldable pub decimal : ℕ → JsString
unfolding decimal_before
decimal n = decimal_before (suc n) n []

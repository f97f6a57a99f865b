-- ===== src/Base/Words.antt =====
-- The methods of Python's texts that the program uses.
use Prim.Native.String.{String}
use Prim.Native.Char.{Char, code}
use mathlib.Core.Bool.{Bool, true, false, ◌&&◌, ◌||◌, not}
use mathlib.Core.List.{List, [], ◌∷◌}
use Prim.Native.Nat.{ℕ, zero, suc, ◌/◌, ◌%◌}
use text.Mathlib.Text.{◌==◌}
use ai_control_center.Base.Tests.{leb, ltb, same_number, if◌then◌else◌}
use ai_control_center.Base.Lists.{any}
use ai_control_center.Base.Paths.{starts_with}

-- `s + t`
abbrev pub append_text : String → String → String
append_text String.[] t = t
append_text (String.◌∷◌ c s) t = String.◌∷◌ c (append_text s t)

-- `str.isspace` of a character
abbrev pub is_space : ℕ → Bool
is_space c =
    (leb 9 c && leb c 13)
    || (leb 28 c && leb c 32)
    || (leb 8192 c && leb c 8202)
    || any (same_number c) (133 ∷ 160 ∷ 5760 ∷ 8232 ∷ 8233 ∷ 8239 ∷ 8287 ∷ 12288 ∷ [])

-- `bool(text.strip())`
unfoldable pub is_worded : String → Bool
is_worded String.[] = false
is_worded (String.◌∷◌ c s) = not (is_space (code c)) || is_worded s

abbrev pub is_empty_text : String → Bool
is_empty_text String.[] = true
is_empty_text (String.◌∷◌ c s) = false

-- `text.lstrip()`, `text.rstrip()` and `text.strip()`
unfoldable pub strip_left : String → String
strip_left String.[] = String.[]
strip_left (String.◌∷◌ c s) =
    let rest = strip_left s in if is_space (code c) then rest else String.◌∷◌ c s

unfoldable pub strip_right : String → String
strip_right String.[] = String.[]
strip_right (String.◌∷◌ c s) =
    let rest = strip_right s in
    if is_space (code c) && is_empty_text rest then String.[] else String.◌∷◌ c rest

unfoldable pub strip : String → String
strip s = strip_left (strip_right s)

-- The ends of lines that `splitlines` knows.
abbrev pub is_line_end : ℕ → Bool
is_line_end c =
    (leb 10 c && leb c 13) || (leb 28 c && leb c 30) || any (same_number c) (133 ∷ 8232 ∷ 8233 ∷ [])

abbrev pub is_return_newline : ℕ → String → Bool
is_return_newline c String.[] = false
is_return_newline c (String.◌∷◌ d s) = same_number c 13 && same_number (code d) 10

abbrev pub add_to_first : Char → List String → List String
add_to_first c [] = String.◌∷◌ c String.[] ∷ []
add_to_first c (line ∷ lines) = String.◌∷◌ c line ∷ lines

-- `text.splitlines()`
unfoldable pub split_lines : String → List String
split_lines String.[] = []
split_lines (String.◌∷◌ c s) =
    let rest = split_lines s in
    if is_return_newline (code c) s
    then rest
    else if is_line_end (code c)
    then String.[] ∷ rest
    else add_to_first c rest

abbrev pub starts_with_space : String → Bool
starts_with_space String.[] = true
starts_with_space (String.◌∷◌ c s) = is_space (code c)

-- `text.split()`
unfoldable pub split_words : String → List String
split_words String.[] = []
split_words (String.◌∷◌ c s) =
    let rest = split_words s in
    if is_space (code c)
    then rest
    else if starts_with_space s
    then String.◌∷◌ c String.[] ∷ rest
    else add_to_first c rest

-- `" ".join(words)`
abbrev pub join_words : List String → String
join_words [] = String.[]
join_words (word ∷ []) = word
join_words (word ∷ (other ∷ words)) =
    append_text word (append_text " " (join_words (other ∷ words)))

-- `needle in text`
unfoldable pub contains_text : String → String → Bool
contains_text needle String.[] = starts_with String.[] needle
contains_text needle (String.◌∷◌ c s) =
    starts_with (String.◌∷◌ c s) needle || contains_text needle s

-- `text.endswith(suffix)`
unfoldable pub ends_with : String → String → Bool
ends_with String.[] suffix = suffix == String.[]
ends_with (String.◌∷◌ c s) suffix = (String.◌∷◌ c s == suffix) || ends_with s suffix

abbrev pub swap_char : String → String → Char → Char
swap_char (String.◌∷◌ d from) (String.◌∷◌ e to) c =
    if same_number (code c) (code d) then e else swap_char from to c
swap_char _ _ c = c

-- `text.lower()` for the letters of ASCII. A letter beyond them is left as it is; in lower case it has no
-- letter of ASCII but the `i` with a mark of its own that the Turkish `İ` gives.
unfoldable pub lower : String → String
lower String.[] = String.[]
lower (String.◌∷◌ c s) =
    String.◌∷◌ (swap_char "ABCDEFGHIJKLMNOPQRSTUVWXYZ" "abcdefghijklmnopqrstuvwxyz" c) (lower s)

-- `text.upper()` for the letters of ASCII; a letter beyond them is left as it is.
unfoldable pub upper : String → String
upper String.[] = String.[]
upper (String.◌∷◌ c s) =
    String.◌∷◌ (swap_char "abcdefghijklmnopqrstuvwxyz" "ABCDEFGHIJKLMNOPQRSTUVWXYZ" c) (upper s)

abbrev take_text : ℕ → List String → String
take_text n [] = ""
take_text zero (t ∷ ts) = t
take_text (suc n) (t ∷ ts) = take_text n ts

abbrev pub digit_text : ℕ → String
digit_text n = take_text n ("0" ∷ "1" ∷ "2" ∷ "3" ∷ "4" ∷ "5" ∷ "6" ∷ "7" ∷ "8" ∷ "9" ∷ [])

abbrev pub decimal_from : ℕ → ℕ → String → String
decimal_from zero n rest = rest
decimal_from (suc fuel) n rest =
    let text = append_text (digit_text (n % 10)) rest in
    let longer = decimal_from fuel (n / 10) text in if ltb n 10 then text else longer

-- `str` of a number; a number has fewer digits than the fuel.
abbrev pub decimal : ℕ → String
decimal n = decimal_from (suc n) n ""

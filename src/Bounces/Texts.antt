-- ===== src/Bounces/Texts.antt =====
-- lib/bounces.js: `formatSMTPResponse`, and the regular expressions of the module as functions of texts.
use Prim.Native.Char.{Char, code}
use Prim.Native.String.{String, [], ◌∷◌, ◌++◌}
use zone_mta.Prelude.{
  ℕ, zero, suc, ◌+◌, ◌-◌, Bool, true, false, not, Option, none, some, if◌then◌else◌, leb, ◌==◌,
  ◌&&◌, ◌||◌,
}

abbrev between : ℕ → ℕ → ℕ → Bool
between a b n = leb a n && leb n b

-- `\d`, `\s`, `\w` and the ends of a line
unfoldable pub is_digit : Char → Bool
is_digit c = between 48 57 (code c)

unfoldable pub is_space : Char → Bool
is_space c =
    between 9 13 (code c)
    || code c == 32
    || code c == 160
    || code c == 0x1680
    || between 0x2000 0x200a (code c)
    || between 0x2028 0x2029 (code c)
    || code c == 0x202f
    || code c == 0x205f
    || code c == 0x3000
    || code c == 0xfeff

unfoldable pub is_word : Char → Bool
unfolding is_digit
is_word c = is_digit c || between 65 90 (code c) || between 97 122 (code c) || code c == 95

unfoldable pub is_line_end : Char → Bool
is_line_end c = code c == 10 || code c == 13 || between 0x2028 0x2029 (code c)

abbrev pub is_empty : String → Bool
is_empty [] = true
is_empty (c ∷ s) = false

-- `trim`, `substr` and `replace(/\s+/g, ' ')`; `after` tells whether the text goes on after a space.
unfoldable pub trim_start : String → String
trim_start [] = []
trim_start (c ∷ s) = if is_space c then trim_start s else c ∷ s

unfoldable pub trim_end : String → String
trim_end [] = []
trim_end (c ∷ s) = let rest = trim_end s in if is_space c && is_empty rest then [] else c ∷ rest

unfoldable pub trim : String → String
unfolding trim_start trim_end
trim s = trim_end (trim_start s)

unfoldable pub take_text : ℕ → String → String
take_text zero s = []
take_text (suc n) [] = []
take_text (suc n) (c ∷ s) = c ∷ take_text n s

unfoldable pub drop_text : ℕ → String → String
drop_text zero s = s
drop_text (suc n) [] = []
drop_text (suc n) (c ∷ s) = drop_text n s

unfoldable pub squeeze : Bool → String → String
squeeze after [] = []
squeeze after (c ∷ s) =
    let rest = squeeze (is_space c) s in
    if is_space c then (if after then rest else " " ∷ rest) else c ∷ rest

-- How long the first run of characters of a kind is.
unfoldable pub run_length : (Char → Bool) → String → ℕ
run_length p [] = 0
run_length p (c ∷ s) = let rest = run_length p s in if p c then suc rest else 0

abbrev pub is_separator : Char → Bool
is_separator c = is_space c || code c == 45

abbrev pub is_dotted : Char → Bool
is_dotted c = is_digit c || code c == 46

-- How much of what follows three digits belongs to `[\s-]+([\d.]+\s*)?`; 0 where nothing does.
unfoldable pub rest_length : String → ℕ
unfolding run_length drop_text
rest_length s =
    let separators = run_length is_separator s in
    let dotted = run_length is_dotted (drop_text separators s) in
    let spaces = run_length is_space (drop_text (separators + dotted) s) in
    if separators == 0 then 0 else separators + dotted + (if dotted == 0 then 0 else spaces)

-- How long the match of `/^\d{3}[\s-]+([\d.]+\s*)?/` is, 0 where there is none.
unfoldable pub code_length : String → ℕ
unfolding rest_length
code_length (a ∷ b ∷ c ∷ s) =
    if is_digit a && is_digit b && is_digit c && not (rest_length s == 0)
    then 3 + rest_length s
    else 0
code_length s = 0

-- `replace(…, ' ')` of that expression at the start of every line: `skip` characters belong to a
-- match, and `start` tells whether a line starts here.
unfoldable pub strip_codes : ℕ → Bool → String → String
unfolding code_length
strip_codes skip start [] = []
strip_codes (suc skip) start (c ∷ s) = strip_codes skip (is_line_end c) s
strip_codes zero start (c ∷ s) =
    let kept = strip_codes 0 (is_line_end c) s in
    let stripped = strip_codes (code_length (c ∷ s) - 1) (is_line_end c) s in
    if start && not (code_length (c ∷ s) == 0) then " " ∷ stripped else c ∷ kept

unfoldable pub format_smtp_response : String → String
unfolding trim code_length strip_codes take_text drop_text squeeze
format_smtp_response text =
    let s = trim text in
    let n = code_length s in
    trim (squeeze false (take_text n s ++ strip_codes 0 true (drop_text n s)))

-- `/^\d{3}\b/`
unfoldable pub starts_with_code : String → Bool
starts_with_code (a ∷ b ∷ c ∷ []) = is_digit a && is_digit b && is_digit c
starts_with_code (a ∷ b ∷ c ∷ d ∷ s) = is_digit a && is_digit b && is_digit c && not (is_word d)
starts_with_code s = false

-- `/pattern/i` at the start of a text, for a pattern of small letters and signs: what follows it.
abbrev pub lower : Char → ℕ
lower c = if between 65 90 (code c) then code c + 32 else code c

unfoldable pub match_start : String → String → Option String
match_start [] s = some s
match_start (p ∷ ps) [] = none
match_start (p ∷ ps) (c ∷ s) =
    let rest = match_start ps s in if lower c == code p then rest else none

-- `\b` after a match that ends in a word
unfoldable pub ends_word : Option String → Bool
ends_word none = false
ends_word (some []) = true
ends_word (some (c ∷ s)) = not (is_word c)

-- `/\bpattern\b/i`, for a pattern that starts and ends with a letter: `in_word` tells whether a
-- word goes on.
unfoldable pub has_word : String → Bool → String → Bool
unfolding match_start ends_word
has_word p in_word [] = false
has_word p in_word (c ∷ s) =
    let later = has_word p (is_word c) s in
    (not in_word && ends_word (match_start p (c ∷ s))) || later

-- ===== src/Sender/Connect/Words.antt =====
-- lib/sender.js: the regular expressions on the message of an error.
use Prim.Native.String.{String, [], ◌∷◌}
use mathlib.Core.List.{[] as nil, ◌∷◌ as ◌▹◌}
use zone_mta.Prelude.{Bool, true, false, ◌||◌, Option, none, some, List, is_some, if◌then◌else◌}
use zone_mta.Bounces.Texts.{match_start, trim_start, is_space}

-- `/text/i`, for a text of small letters, digits and signs
unfoldable pub contains : String → String → Bool
unfolding match_start
contains p [] = is_some (match_start p [])
contains p (c ∷ s) = let later = contains p s in is_some (match_start p (c ∷ s)) || later

abbrev pub after_spaces : String → Option String
after_spaces [] = none
after_spaces (c ∷ s) = if is_space c then some (trim_start s) else none

-- `/first\s+second…/i` at the start of a text
unfoldable pub starts_phrase : List String → String → Bool
unfolding match_start trim_start
starts_phrase nil s = true
starts_phrase (w ▹ nil) s = is_some (match_start w s)
starts_phrase (w ▹ ws) s = elim (match_start w s) [
  | none ↦ false
  | some rest ↦ elim (after_spaces rest) [ none ↦ false | some next ↦ starts_phrase ws next ]
]

unfoldable pub has_phrase : List String → String → Bool
unfolding starts_phrase
has_phrase ws [] = false
has_phrase ws (c ∷ s) = let later = has_phrase ws s in starts_phrase ws (c ∷ s) || later

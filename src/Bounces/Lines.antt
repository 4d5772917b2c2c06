-- ===== src/Bounces/Lines.antt =====
-- lib/bounces.js: a formatted response is one line.
use Prim.Native.Char.{Char, code}
use Prim.Native.String.{String, [], ◌∷◌, ◌++◌}
use zone_mta.Prelude.{
  Bool-cases, inl, inr, ◌≡◌, refl, Bool, true, false, not, ◌&&◌, ◌||◌, if◌then◌else◌, ◌==◌, arith,
}
use zone_mta.Bounces.Texts.{
  is_space, is_empty, trim, trim_start, trim_end, squeeze, strip_codes, take_text, drop_text,
  code_length, format_smtp_response,
}

-- Every space is the character 32 and follows no other space; `after` tells whether a space stands
-- before the text.
unfoldable pub is_tidy : Bool → String → Bool
is_tidy after [] = true
is_tidy after (c ∷ s) =
    if is_space c then not after && code c == 32 && is_tidy true s else is_tidy false s

-- A tidy text that has no space at its end.
unfoldable pub is_closed : Bool → String → Bool
is_closed after [] = not after
is_closed after (c ∷ s) =
    if is_space c then not after && code c == 32 && is_closed true s else is_closed false s

-- Words with one blank between two of them, and none at the ends.
unfoldable pub is_line : String → Bool
unfolding is_closed
is_line s = is_empty s || is_closed true s

blank_is_space : is_space " " ≡ true
unfolding is_space
blank_is_space = refl

squeeze-is_tidy : (after : Bool) (s : String) → is_tidy after (squeeze after s) ≡ true
unfolding is_tidy squeeze
squeeze-is_tidy after [] = refl
squeeze-is_tidy after (c ∷ s) = ground (arith, squeeze-is_tidy (is_space c) s, blank_is_space)

trim_start-is_tidy :
    (after : Bool) (s : String) → is_tidy after s ≡ true → is_tidy true (trim_start s) ≡ true
unfolding is_tidy trim_start
trim_start-is_tidy after [] h = refl
trim_start-is_tidy after (c ∷ s) h = ground (arith, trim_start-is_tidy true s)

-- One step of `trim_end`.
closed_step :
    (after : Bool) (c : Char) (rest : String)
    → (is_space c ≡ true → not after && code c == 32 ≡ true)
    → is_empty rest || is_closed (is_space c) rest ≡ true
    → is_empty (if is_space c && is_empty rest then [] else c ∷ rest)
        || is_closed after (if is_space c && is_empty rest then [] else c ∷ rest)
      ≡ true
unfolding is_closed
closed_step after c [] h g = elim (Bool-cases (is_space c)) [
  | inl e ↦ rw e refl
  | inr e ↦ rw (e, is_closed) (rw e refl)
]
closed_step after c (d ∷ rest) h g = ground arith

trim_end-is_closed :
    (after : Bool) (s : String)
    → is_tidy after s ≡ true
    → is_empty (trim_end s) || is_closed after (trim_end s) ≡ true
unfolding is_tidy trim_end
trim_end-is_closed after [] h = refl
trim_end-is_closed after (c ∷ s) h =
    closed_step after c (trim_end s) (λ e. ground arith)
      (trim_end-is_closed (is_space c) s (ground arith))

-- A formatted response is a line of words, whatever the reply was: one blank between two words,
-- none at the ends, no end of a line.
pub format_smtp_response-is_line : (text : String) → is_line (format_smtp_response text) ≡ true
unfolding is_line format_smtp_response trim
format_smtp_response-is_line text =
    let s = trim text in
    let n = code_length s in
    let joined = take_text n s ++ strip_codes 0 true (drop_text n s) in
    trim_end-is_closed true (trim_start (squeeze false joined))
      (trim_start-is_tidy false (squeeze false joined) (squeeze-is_tidy false joined))

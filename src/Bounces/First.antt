-- ===== src/Bounces/First.antt =====
-- lib/bounces.js: which rule decides.
use Prim.Native.String.{String}
use zone_mta.Prelude.{ℕ, ◌≡◌, refl, true, false, none, some, List, [], ◌∷◌, ◌++◌, All}
use zone_mta.Bounces.{
  Rule, verdict_of, first_rule, check, judge, text_is, first_part, second_part, status_of,
}
use zone_mta.Bounces.Texts.{is_empty, format_smtp_response, take_text}

first_rule-append :
    (before after : List Rule) (r : Rule) (s : String)
    → All (λ x. x.re s ≡ false) before
    → r.re s ≡ true
    → first_rule (before ++ r ∷ after) s ≡ some r
unfolding first_rule
first_rule-append [] after r s h e = rw e refl
first_rule-append (x ∷ xs) after r s h e = rw h.0 (first_rule-append xs after r s h.1 e)

first_rule-none :
    (rules : List Rule) (s : String) → All (λ x. x.re s ≡ false) rules → first_rule rules s ≡ none
unfolding first_rule
first_rule-none [] s h = refl
first_rule-none (x ∷ xs) s h = rw h.0 (first_rule-none xs s h.1)

judge-first_rule :
    (number : String → ℕ) (rules : List Rule) (s category : String)
    → is_empty s ≡ false
    → text_is category "dns" ≡ false
    → judge number rules s category
      ≡ verdict_of
          (first_rule rules s)
          (number (first_part (take_text 100 s)))
          (status_of (second_part (take_text 100 s)))
unfolding judge
judge-first_rule number rules s category full other = rw (judge, full) (rw other refl)

-- On a reply that is not empty and not of category `dns`, where no rule before a rule matches the
-- formatted reply and that rule does, its action, category, message and line are the answer,
-- whatever rules follow; with the rules before it alone the answer is to reject.
pub check-first_rule :
    (number : String → ℕ) (before : List Rule) (r : Rule) (after : List Rule)
    (input category : String)
    → is_empty (format_smtp_response input) ≡ false
    → text_is category "dns" ≡ false
    → All (λ x. x.re (format_smtp_response input) ≡ false) before
    → r.re (format_smtp_response input) ≡ true
    → ((check number before input category).action ≡ "reject")
      × ((check number (before ++ r ∷ after) input category).action ≡ r.action)
      × ((check number (before ++ r ∷ after) input category).category ≡ r.category)
      × ((check number (before ++ r ∷ after) input category).message ≡ r.message)
      × ((check number (before ++ r ∷ after) input category).line ≡ some r.line)
unfolding check
check-first_rule number before r after input category full other h e =
    let s = format_smtp_response input in
    let decided = judge-first_rule number (before ++ r ∷ after) s category full other in
    let alone = judge-first_rule number before s category full other in
    rw (decided, alone, first_rule-append before after r s h e, first_rule-none before s h)
      (refl, refl, refl, refl, refl)

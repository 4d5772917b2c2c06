-- ===== src/Bounces/Tests.antt =====
-- Runs of lib/bounces.js: concrete cases of its theorems.
use Prim.Native.String.{String}
use zone_mta.Prelude.{map, ℕ, ◌≡◌, refl, Bool, true, false, none, some, List, [], ◌∷◌, ◌++◌}
use zone_mta.Bounces.{Rule, Verdict, Origin, check, can_send_bounce, reload_bounces, text_is}
use zone_mta.Bounces.Texts.{format_smtp_response, is_empty, starts_with_code, match_start}
use zone_mta.Bounces.Lines.{is_line, format_smtp_response-is_line}
use zone_mta.Bounces.First.{check-first_rule}

formatted : format_smtp_response "550-5.1.1 No  such\r\n550 5.1.1 user " ≡ "550-5.1.1 No such user"
unfolding format_smtp_response zone_mta.Bounces.Texts.is_space zone_mta.Bounces.Texts.is_digit
    zone_mta.Bounces.Texts.is_line_end
formatted = refl

coded : starts_with_code "4500 x" ≡ false
unfolding starts_with_code zone_mta.Bounces.Texts.is_digit zone_mta.Bounces.Texts.is_word
coded = refl

abbrev five : String → Bool
five s = text_is s "550 full"

abbrev busy_rule : Rule
busy_rule = record {
  re = λ s. false;
  action = "defer";
  category = "busy";
  message = "Busy";
  line = 1;
}

abbrev full_rule : Rule
full_rule = record {
  re = five;
  action = "slowdown";
  category = "capacity";
  message = "Full";
  line = 3;
}

check-first_rule_example :
    ((check (λ s. 550) (busy_rule ∷ []) "550 full" "").action ≡ "reject")
    × ((check (λ s. 550) (busy_rule ∷ full_rule ∷ []) "550 full" "").action ≡ "slowdown")
    × ((check (λ s. 550) (busy_rule ∷ full_rule ∷ []) "550 full" "").category ≡ "capacity")
    × ((check (λ s. 550) (busy_rule ∷ full_rule ∷ []) "550 full" "").message ≡ "Full")
    × ((check (λ s. 550) (busy_rule ∷ full_rule ∷ []) "550 full" "").line ≡ some 3)
unfolding format_smtp_response zone_mta.Bounces.Texts.is_space zone_mta.Bounces.Texts.is_digit
    zone_mta.Bounces.Texts.is_line_end zone_mta.Prelude.text_discrete
check-first_rule_example =
    check-first_rule (λ s. 550) (busy_rule ∷ []) full_rule [] "550 full" "" refl refl (refl, tt)
      refl

-- Two lines of rules between a comment and an empty line.
reloaded :
    map {B = String × (String × ℕ)}
      (λ r. (r.action, (r.message, r.line)))
      (reload_bounces
        (λ s. some (λ t. true))
        "# rules\r\nspam,reject,spam,No, thanks\r\n\ngrey,defer,greylist,Later")
    ≡ ("reject", ("No, thanks", 2)) ∷ ("defer", ("Later", 4)) ∷ []
unfolding reload_bounces zone_mta.Bounces.Texts.is_space
reloaded = refl

suppressed :
    can_send_bounce (record {
      skip_bounce = false;
      from = "ann@example.com";
      x_auto_response_suppress = "OOF, All";
      auto_submitted = "";
      content_type = "text/plain";
      parsed_from = none;
    })
    ≡ false
unfolding can_send_bounce zone_mta.Bounces.Texts.is_word zone_mta.Bounces.Texts.is_digit
suppressed = refl

format_smtp_response-is_line_example :
    is_line (format_smtp_response "421 4.7.0  Try\n421 later") ≡ true
format_smtp_response-is_line_example = format_smtp_response-is_line "421 4.7.0  Try\n421 later"

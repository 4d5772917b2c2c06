-- ===== src/Bounces.antt =====
-- lib/bounces.js: what a reply of a server means for a delivery, and whether a bounce message is sent.
--
-- A text that is absent is empty. `number` is `Number(text) || 0`, and `compile` is `new
-- RegExp(text, 'im').test`, `none` where that throws; both belong to the language. What `getFirst`
-- answers for a header is a field.
pub mod Texts
pub mod Lines
pub mod First
mod Tests
use Prim.Native.Char.{Char, code}
use Prim.Native.String.{String, [], ◌∷◌, ◌++◌}
use mathlib.Core.List.{[] as nil, ◌∷◌ as ◌▹◌}
use zone_mta.Prelude.{
  ℕ, zero, suc, Bool, true, false, not, Option, none, some, if◌then◌else◌, ltb, ◌==◌, ◌&&◌, ◌||◌,
  List, ite, text_discrete, is_some,
}
use zone_mta.Bounces.Texts.{
  is_digit, is_space, is_word, is_separator, is_dotted, is_empty, trim, run_length, take_text,
  drop_text, format_smtp_response, match_start, has_word, ends_word,
}

pub record Rule : Type 0 where
  pub re : String → Bool
  pub action : String
  pub category : String
  pub message : String
  pub line : ℕ

pub record Verdict : Type 0 where
  pub action : String
  pub category : String
  pub message : String
  pub code : ℕ
  pub status : Option String
  pub line : Option ℕ

abbrev pub text_is : String → String → Bool
text_is s t = ite (text_discrete s t) true false

abbrev pub or_text : String → String → String
or_text s t = if is_empty s then t else s

-- A character joins the first text of a list.
abbrev pub join_first : Char → List String → List String
join_first c nil = (c ∷ []) ▹ nil
join_first c (s ▹ ss) = (c ∷ s) ▹ ss

abbrev pub starts_at : ℕ → String → Bool
starts_at n [] = false
starts_at n (c ∷ s) = code c == n

-- `text.split(/\r?\n/)` and `text.split(',')`
unfoldable pub split_lines : String → List String
split_lines [] = [] ▹ nil
split_lines (c ∷ s) =
    let rest = split_lines s in
    if code c == 10
    then [] ▹ rest
    else if code c == 13 && starts_at 10 s
    then rest
    else join_first c rest

unfoldable pub split_commas : String → List String
split_commas [] = [] ▹ nil
split_commas (c ∷ s) =
    let rest = split_commas s in if code c == 44 then [] ▹ rest else join_first c rest

unfoldable pub join_commas : List String → String
join_commas nil = ""
join_commas (s ▹ nil) = s
join_commas (s ▹ ss) = let rest = join_commas ss in s ++ "," ++ rest

-- `parts[n]`, and `parts.slice(n)`
unfoldable pub part : ℕ → List String → String
part n nil = ""
part zero (s ▹ ss) = s
part (suc n) (s ▹ ss) = part n ss

unfoldable pub parts_from : ℕ → List String → List String
parts_from zero ss = ss
parts_from (suc n) nil = nil
parts_from (suc n) (s ▹ ss) = parts_from n ss

-- A line of the file of rules, which may have none: it is empty, a comment, or its expression is refused.
unfoldable pub parse_rule : (String → Option (String → Bool)) → ℕ → String → Option Rule
unfolding split_commas part parts_from join_commas trim
parse_rule compile nr text =
    let line = trim text in
    let parts = split_commas line in
    if is_empty line || starts_at 35 line then none else elim (compile (part 0 parts)) [
      | none ↦ none
      | some re ↦ some (record {
        re = re;
        action = part 1 parts;
        category = part 2 parts;
        message = join_commas (parts_from 3 parts);
        line = suc nr;
      })
    ]

unfoldable pub parse_rules : (String → Option (String → Bool)) → ℕ → List String → List Rule
unfolding parse_rule
parse_rules compile nr nil = nil
parse_rules compile nr (line ▹ lines) =
    let rest = parse_rules compile (suc nr) lines in
    elim (parse_rule compile nr line) [ none ↦ rest | some rule ↦ rule ▹ rest ]

-- `reloadBounces` of a body that was read
unfoldable pub reload_bounces : (String → Option (String → Bool)) → String → List Rule
unfolding split_lines parse_rules
reload_bounces compile body = parse_rules compile 0 (split_lines body)

-- `/^(\d+\.)+\d+$/`: whether a dot was met, and whether a digit stands before the text.
unfoldable pub is_status : Bool → Bool → String → Bool
is_status dotted digit [] = dotted && digit
is_status dotted digit (c ∷ s) =
    let after_digit = is_status dotted true s in
    let after_dot = is_status true false s in
    if is_digit c then after_digit else if digit && code c == 46 then after_dot else false

abbrev not_separator : Char → Bool
not_separator c = not (is_separator c)

-- `str.split(/[-\s]+/)`, its first and its second part
unfoldable pub first_part : String → String
unfolding run_length take_text
first_part s = take_text (run_length not_separator s) s

unfoldable pub second_part : String → Option String
unfolding run_length take_text drop_text first_part
second_part s =
    let after = drop_text (run_length not_separator s) s in
    let second = drop_text (run_length is_separator after) after in
    if is_empty after then none else some (first_part second)

abbrev is_dotted_or_space : Char → Bool
is_dotted_or_space c = is_dotted c || is_space c

unfoldable pub status_of : Option String → Option String
unfolding is_status
status_of none = none
status_of (some s) = if is_status false false s then some s else none

-- The loop over the rules.
unfoldable pub first_rule : List Rule → String → Option Rule
first_rule nil s = none
first_rule (r ▹ rs) s = let rest = first_rule rs s in if r.re s then some r else rest

abbrev pub verdict_of : Option Rule → ℕ → Option String → Verdict
verdict_of none code status = record {
  action = "reject";
  category = "";
  message = "Unknown";
  code = code;
  status = status;
  line = none;
}
verdict_of (some r) code status = record {
  action = r.action;
  category = r.category;
  message = r.message;
  code = code;
  status = status;
  line = some r.line;
}

-- `check` of a formatted response
unfoldable pub judge : (String → ℕ) → List Rule → String → String → Verdict
unfolding first_part second_part status_of first_rule run_length drop_text
judge number rules s category =
    let parts = take_text 100 s in
    let code = number (first_part parts) in
    let status = status_of (second_part parts) in
    if is_empty s
    then record {
      action = "reject";
      category = or_text category "other";
      message = "Unknown";
      code = 0;
      status = none;
      line = none;
    }
    else if text_is category "dns" && not (ltb 500 code)
    then record {
      action = "defer";
      category = category;
      message = drop_text (run_length is_dotted_or_space s) s;
      code = code;
      status = status;
      line = none;
    }
    else verdict_of (first_rule rules s) code status

unfoldable pub check : (String → ℕ) → List Rule → String → String → Verdict
unfolding judge format_smtp_response
check number rules input category = judge number rules (format_smtp_response input) category

-- What `canSendBounce` reads of a delivery; `parsed_from` is `parsedEnvelope.from`.
pub record Origin : Type 0 where
  pub skip_bounce : Bool
  pub from : String
  pub x_auto_response_suppress : String
  pub auto_submitted : String
  pub content_type : String
  pub parsed_from : Option String

-- `/^mailer-daemon@/i`
abbrev pub is_daemon : String → Bool
is_daemon s = is_some (match_start "mailer-daemon@" s)

abbrev pub parsed_daemon : Option String → Bool
parsed_daemon none = false
parsed_daemon (some s) = is_daemon s

unfoldable pub can_send_bounce : Origin → Bool
unfolding match_start has_word ends_word
can_send_bounce d =
    if d.skip_bounce
    then false
    else if is_daemon d.from || is_empty d.from
    then false
    else if has_word "all" false d.x_auto_response_suppress
    then false
    else if has_word "auto-generated" false d.auto_submitted
        || has_word "auto-replied" false d.auto_submitted
    then false
    else if ends_word (match_start "multipart/report" d.content_type)
    then false
    else not (parsed_daemon d.parsed_from)

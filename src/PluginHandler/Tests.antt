-- ===== src/PluginHandler/Tests.antt =====
-- Runs of the hooks of lib/plugin-handler.js.
use zone_mta.Prelude.{ℕ, ◌+◌, String, ◌≡◌, refl, Option, none, some, List, [], ◌∷◌, text_discrete}
use zone_mta.Prelude.Maps
use zone_mta.PluginHandler.{HookError, Hook, add_hooks, run_hooks}
use zone_mta.PluginHandler.Order.{added_to, IsOutcome, calls_of, run_hooks-add_hooks}

abbrev as_is : String → String
as_is text = text

abbrev refusal : HookError
refusal = record { message = "no"; category = ""; source_name = none }

-- The arguments are a number: a hook that counts, one of another name, one that refuses, and one
-- that is not reached.
abbrev hooks : List (Hook ℕ)
hooks =
    record { title = "counter"; name = "queue:route"; action = some (λ n. (n + 1, none)) }
    ∷ record { title = "other"; name = "message:store"; action = some (λ n. (n + 10, none)) }
    ∷ record { title = "refuser"; name = "queue:route"; action = some (λ n. (n + 2, some refusal)) }
    ∷ record { title = "late"; name = "queue:route"; action = some (λ n. (n + 100, none)) }
    ∷ []

run_hooks-add_hooks_example :
    (b : ℕ) × (told : Option HookError) × IsOutcome (added_to as_is "queue:route" hooks) 0 b told
    × (run_hooks as_is (add_hooks as_is hooks []) "queue:route" 0 none ≡ (b, calls_of told none))
run_hooks-add_hooks_example = run_hooks-add_hooks as_is hooks "queue:route" 0 none

refused :
    run_hooks as_is (add_hooks as_is hooks []) "queue:route" 0 none
    ≡ (3, some (record { message = "no"; category = "plugin"; source_name = some "refuser" }) ∷ [])
unfolding run_hooks add_hooks text_discrete Maps.get Maps.set
refused = refl

-- A callback that throws is called again.
called_twice :
    (run_hooks {A = ℕ} as_is [] "queue:route" 0 (some refusal)).1 ≡ none ∷ some refusal ∷ []
unfolding run_hooks Maps.get
called_twice = refl

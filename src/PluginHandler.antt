-- ===== src/PluginHandler.antt =====
-- lib/plugin-handler.js: the hooks of the plugins, and how they are run.
--
-- `A` is the state of the arguments, which an action may change; what its callback or its promise
-- ends with is an error or nothing. An action that never ends is not covered. `normal` is
-- `toLowerCase().trim()`.
pub mod Order
mod Tests
use zone_mta.Prelude.{
  String, Bool, true, false, Option, none, some, List, [], ◌∷◌, ◌++◌, if◌then◌else◌, ite,
  text_discrete,
}
use zone_mta.Prelude.Maps
use zone_mta.Prelude.Maps.{Map}

-- What the handler writes into an error: its category, and the title of the plugin.
pub record HookError : Type 0 where
  pub message : String
  pub category : String
  pub source_name : Option String

-- `action` is `none` where it is not a function.
pub record Hook {ℓ} (A : Type ℓ) : Type ℓ where
  pub title : String
  pub name : String
  pub action : Option (A → A × Option HookError)

abbrev pub tagged : String → HookError → HookError
tagged title e = record e {
  category = ite (text_discrete e.category "") "plugin" e.category;
  source_name = some title;
}

module _ {ℓ} {A : Type ℓ} where
  abbrev pub hooks_of : String → Map (List (Hook A)) → List (Hook A)
  hooks_of name m = elim (Maps.get name m) [ none ↦ [] | some hooks ↦ hooks ]

  unfoldable pub add_hook : (String → String) → Hook A → Map (List (Hook A)) → Map (List (Hook A))
  add_hook normal h m =
      let hook = record h { name = normal h.name } in
      elim (Maps.get (normal h.name) m) [
        | none ↦ Maps.set (normal h.name) (hook ∷ []) m
        | some hooks ↦ Maps.set (normal h.name) (hooks ++ hook ∷ []) m
      ]

  unfoldable pub add_hooks :
      (String → String) → List (Hook A) → Map (List (Hook A)) → Map (List (Hook A))
  unfolding add_hook
  add_hooks normal [] m = m
  add_hooks normal (h ∷ hs) m = add_hooks normal hs (add_hook normal h m)

  -- The loop of `runHooksAsync`, which ends with an error or with nothing.
  unfoldable pub run_chain : List (Hook A) → A → A × Option HookError
  run_chain [] a = (a, none)
  run_chain (h ∷ hs) a = elim h.action [
    | none ↦ run_chain hs a
    | some f ↦ elim (f a).1 [
      | none ↦ run_chain hs (f a).0
      | some e ↦ ((f a).0, some (tagged h.title e))
    ]
  ]

  unfoldable pub run_hooks_async :
      (String → String) → Map (List (Hook A)) → String → A → A × Option HookError
  unfolding run_chain
  run_hooks_async normal m name a = run_chain (hooks_of (normal name) m) a

  -- The calls of `done`: what its call without an error throws goes to `catch`.
  abbrev pub report : A × Option HookError → Option HookError → A × List (Option HookError)
  report (a, some e) throws = (a, some e ∷ [])
  report (a, none) none = (a, none ∷ [])
  report (a, none) (some e) = (a, none ∷ some e ∷ [])

  unfoldable pub run_hooks :
      (String → String)
      → Map (List (Hook A))
      → String
      → A
      → Option HookError
      → A × List (Option HookError)
  unfolding run_hooks_async
  run_hooks normal m name a throws = report (run_hooks_async normal m name a) throws

-- ===== src/PluginHandler/Order.antt =====
-- lib/plugin-handler.js: which hooks are run, in which order, and what the caller is told.
use zone_mta.Prelude.{
  String, ◌≡◌, refl, sym, ap, subst, ◌∙◌, Option, none, some, List, [], ◌∷◌, ◌++◌, arith, ite,
  text_discrete, append_assoc, append-nil, Option-cases, inl, inr, ◌⊎◌, ◌≢◌,
}
use zone_mta.Prelude.Maps
use zone_mta.Prelude.Maps.{Map, get-set}
use zone_mta.PluginHandler.{
  HookError, Hook, hooks_of, add_hook, add_hooks, run_chain, run_hooks_async, run_hooks, report,
  tagged,
}

-- What `done` is called with.
abbrev pub calls_of : Option HookError → Option HookError → List (Option HookError)
calls_of (some e) throws = some e ∷ []
calls_of none none = none ∷ []
calls_of none (some e) = none ∷ some e ∷ []

-- The error that is told of a hook: the one that it gave, with the hook's title, and with the
-- category `plugin` where it had none.
abbrev pub IsTold : String → HookError → HookError → Type 0
IsTold title given e =
    (e.message ≡ given.message)
    × (e.source_name ≡ some title)
    × (given.category ≡ "" → e.category ≡ "plugin")
    × (given.category ≢ "" → e.category ≡ given.category)

tagged_lem : (title : String) (given : HookError) → IsTold title given (tagged title given)
tagged_lem title given = (refl, refl, λ h. ground (arith, h), λ h. ground (arith, h))

module _ {ℓ} {A : Type ℓ} where
  -- Every hook in turn ended without an error, and they led from the arguments `a` to `b`; one
  -- without a function is passed over.
  abbrev pub AllPass : List (Hook A) → A → A → Type ℓ
  AllPass [] a b = b ≡ a
  AllPass (h ∷ hs) a b =
      ((h.action ≡ none) × AllPass hs a b)
      ⊎ ((f : A → A × Option HookError) × (h.action ≡ some f)
          × ((f a).1 ≡ none)
          × AllPass hs (f a).0 b)

  -- Of the hooks either all pass, and nothing is told; or those before one pass, which fails, and
  -- its error is told: those after it do not run.
  abbrev pub IsOutcome : List (Hook A) → A → A → Option HookError → Type ℓ
  IsOutcome hooks a b told =
      (AllPass hooks a b × (told ≡ none))
      ⊎ ((before : List (Hook A)) × (h : Hook A) × (after : List (Hook A)) × (c : A) × (f : A
            → A × Option HookError)
          × (given : HookError) × (e : HookError) × (hooks ≡ before ++ h ∷ after)
          × AllPass before a c
          × (h.action ≡ some f)
          × (f c ≡ (b, some given))
          × (told ≡ some e)
          × IsTold h.title given e)

  -- One more hook that passes, in front.
  IsOutcome-passed :
      (h : Hook A) (hs : List (Hook A)) (a a' b : A) (told : Option HookError)
      → ((c : A) (gs : List (Hook A)) → AllPass gs a' c → AllPass (h ∷ gs) a c)
      → IsOutcome hs a' b told
      → IsOutcome (h ∷ hs) a b told
  IsOutcome-passed h hs a a' b told more (inl (all, quiet)) = inl (more b hs all, quiet)
  IsOutcome-passed h hs a a' b told more
        (inr (before, g, after, c, f, given, e, split, passed, action, fails, tells, is_told)) =
      inr (
        h ∷ before,
        g,
        after,
        c,
        f,
        given,
        e,
        ap (λ xs. h ∷ xs) split,
        more c before passed,
        action,
        fails,
        tells,
        is_told,
      )

  run_chain-none :
      (h : Hook A) (hs : List (Hook A)) (a : A)
      → h.action ≡ none
      → run_chain (h ∷ hs) a ≡ run_chain hs a
  unfolding run_chain
  run_chain-none h hs a e = rw (run_chain, e) refl

  run_chain-passes :
      (h : Hook A) (hs : List (Hook A)) (a : A) (f : A → A × Option HookError)
      → h.action ≡ some f
      → (f a).1 ≡ none
      → run_chain (h ∷ hs) a ≡ run_chain hs (f a).0
  unfolding run_chain
  run_chain-passes h hs a f e g = rw (run_chain, e) (rw g refl)

  run_chain-fails :
      (h : Hook A) (hs : List (Hook A)) (a : A) (f : A → A × Option HookError) (given : HookError)
      → h.action ≡ some f
      → (f a).1 ≡ some given
      → run_chain (h ∷ hs) a ≡ ((f a).0, some (tagged h.title given))
  unfolding run_chain
  run_chain-fails h hs a f given e g = rw (run_chain, e) (rw g refl)

  run_chain-IsOutcome :
      (hs : List (Hook A)) (a : A) → IsOutcome hs a (run_chain hs a).0 (run_chain hs a).1
  unfolding run_chain
  run_chain-IsOutcome [] a = inl (refl, refl)
  run_chain-IsOutcome (h ∷ hs) a =
      let Done : A × Option HookError → Type ℓ = λ r. IsOutcome (h ∷ hs) a r.0 r.1 in
      elim (Option-cases h.action) [
        | inl e ↦
            subst Done (sym (run_chain-none h hs a e))
              (IsOutcome-passed h hs a a _ _ (λ c gs p. inl (e, p)) (run_chain-IsOutcome hs a))
        | inr (f, e) ↦ elim (Option-cases (f a).1) [
          | inl g ↦ subst Done (sym (run_chain-passes h hs a f e g)) (
              IsOutcome-passed h hs a (f a).0 _ _ (λ c gs p. inr (f, e, g, p))
                (run_chain-IsOutcome hs (f a).0))
          | inr (given, g) ↦ subst Done (sym (run_chain-fails h hs a f given e g)) (
              inr (
                [],
                h,
                hs,
                a,
                f,
                given,
                tagged h.title given,
                refl,
                refl,
                e,
                λ i. ((f a).0, g i),
                refl,
                tagged_lem h.title given,
              ))
        ]
      ]

  -- The hooks of a name, in the order in which they were added.
  unfoldable pub added_to : (String → String) → String → List (Hook A) → List (Hook A)
  added_to normal name [] = []
  added_to normal name (h ∷ hs) =
      let rest = added_to normal name hs in
      ite (text_discrete (normal h.name) name) (record h { name = normal h.name } ∷ rest) rest

  hooks_of-add_hook :
      (normal : String → String) (name : String) (h : Hook A) (m : Map (List (Hook A)))
      → hooks_of name (add_hook normal h m)
        ≡ ite
            (text_discrete (normal h.name) name)
            (hooks_of name m ++ record h { name = normal h.name } ∷ [])
            (hooks_of name m)
  unfolding add_hook
  hooks_of-add_hook normal name h m = elim (Option-cases (Maps.get (normal h.name) m)) [
    | inl e ↦
        rw (add_hook, e)
          (ground (
            arith,
            e,
            get-set (normal h.name) name (record h { name = normal h.name } ∷ []) m,
            ap (λ x. Maps.get x m),
          ))
    | inr (hooks, e) ↦
        rw (add_hook, e)
          (ground (
            arith,
            e,
            get-set (normal h.name) name (hooks ++ record h { name = normal h.name } ∷ []) m,
            ap (λ x. Maps.get x m),
          ))
  ]

  hooks_of-add_hooks :
      (normal : String → String) (name : String) (hs : List (Hook A)) (m : Map (List (Hook A)))
      → hooks_of name (add_hooks normal hs m) ≡ hooks_of name m ++ added_to normal name hs
  unfolding add_hooks added_to
  hooks_of-add_hooks normal name [] m = sym (append-nil (hooks_of name m))
  hooks_of-add_hooks normal name (h ∷ hs) m =
      let one = hooks_of-add_hook normal name h m in
      let more = hooks_of-add_hooks normal name hs (add_hook normal h m) in
      elim (text_discrete (normal h.name) name) [
        | yes e ↦ ground (
          arith,
          one,
          more,
          e,
          append_assoc (hooks_of name m) (record h { name = normal h.name } ∷ [])
              (added_to normal name hs),
        )
        | no e ↦ ground (arith, one, more, e)
      ]

  report_lem :
      (r : A × Option HookError) (throws : Option HookError)
      → report r throws ≡ (r.0, calls_of r.1 throws)
  report_lem (a, some e) throws = refl
  report_lem (a, none) none = refl
  report_lem (a, none) (some e) = refl

  -- The hooks of the name run in the order in which they were added, each on what the one before it
  -- left, up to the first that fails. The callback is called once, with the error of that hook,
  -- which has its title and the category `plugin` where it had none, or with nothing; only where
  -- its call without an error throws, it is called a second time, with what it threw.
  pub run_hooks-add_hooks :
      (normal : String → String) (hs : List (Hook A)) (name : String) (a : A)
      (throws : Option HookError)
      → (b : A) × (told : Option HookError) × IsOutcome (added_to normal (normal name) hs) a b told
        × (run_hooks normal (add_hooks normal hs []) name a throws ≡ (b, calls_of told throws))
  unfolding run_hooks run_hooks_async Maps.get
  run_hooks-add_hooks normal hs name a throws =
      let added = added_to normal (normal name) hs in
      (
        (run_chain added a).0,
        (run_chain added a).1,
        run_chain-IsOutcome added a,
        ap (λ l. report (run_chain l a) throws) (hooks_of-add_hooks normal (normal name) hs [])
            ∙ report_lem (run_chain added a) throws,
      )

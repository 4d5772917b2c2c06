-- ===== src/Prelude/Maps.antt =====
-- The `Map` of JavaScript with text keys: entries in the order of their first insertion. `set` of a
-- key that is there keeps its place.
use Prim.Native.String.{String}
use mathlib.Core.Path.{◌≡◌, refl}
use mathlib.Core.Logic.{ite}
use mathlib.Core.List.{List, [], ◌∷◌}
use mathlib.Core.Option.{Option, none, some}
use native.Mathlib.Omega.{arith}
use zone_mta.Prelude.Tests.{text_discrete}

abbrev pub Map {ℓ} : Type ℓ → Type ℓ
Map V = List (String × V)

module _ {ℓ} {V : Type ℓ} where
  unfoldable pub get : String → Map V → Option V
  get k [] = none
  get k ((j, v) ∷ m) = ite (text_discrete j k) (some v) (get k m)

  unfoldable pub set : String → V → Map V → Map V
  set k v [] = (k, v) ∷ []
  set k v ((j, w) ∷ m) = ite (text_discrete j k) ((k, v) ∷ m) ((j, w) ∷ set k v m)

  unfoldable pub delete : String → Map V → Map V
  delete k [] = []
  delete k ((j, v) ∷ m) = let rest = delete k m in ite (text_discrete j k) rest ((j, v) ∷ rest)

  pub get-set :
      (k j : String) (v : V) (m : Map V)
      → get j (set k v m) ≡ ite (text_discrete k j) (some v) (get j m)
  unfolding get set
  get-set k j v [] = refl
  get-set k j v ((i, w) ∷ m) = ground (arith, get-set k j v m)

  pub get-delete :
      (k j : String) (m : Map V) → get j (delete k m) ≡ ite (text_discrete k j) none (get j m)
  unfolding get delete
  get-delete k j [] = ground arith
  get-delete k j ((i, w) ∷ m) = ground (arith, get-delete k j m)

  -- A map with no entry has no key.
  pub get_of_nil : (k : String) (m : Map V) → m ≡ [] → get k m ≡ none
  unfolding get
  get_of_nil k [] h = refl
  get_of_nil k (e ∷ m) h = cc

  -- Every key stands once.
  abbrev pub DistinctKeys : Map V → Type ℓ
  DistinctKeys [] = Unit
  DistinctKeys ((j, v) ∷ m) = (get j m ≡ none) × DistinctKeys m

  pub set-DistinctKeys :
      (k : String) (v : V) (m : Map V) → DistinctKeys m → DistinctKeys (set k v m)
  unfolding get set
  set-DistinctKeys k v [] d = (refl, tt)
  set-DistinctKeys k v ((j, w) ∷ m) d = ground (arith, set-DistinctKeys k v m d.1, get-set k j v m)

  pub delete-DistinctKeys : (k : String) (m : Map V) → DistinctKeys m → DistinctKeys (delete k m)
  unfolding get delete
  delete-DistinctKeys k [] d = tt
  delete-DistinctKeys k ((j, w) ∷ m) d =
      ground (arith, delete-DistinctKeys k m d.1, get-delete k j m)

pub ruleset map_laws = (get-set, get-delete)

-- ===== src/Prelude/Sets.antt =====
-- The `Set` of JavaScript over texts, in the order of insertion.
use Prim.Native.String.{String}
use mathlib.Core.Path.{◌≡◌, refl}
use mathlib.Core.Logic.{ite}
use mathlib.Core.Bool.{Bool, true, false}
use mathlib.Core.List.{List, [], ◌∷◌, ◌++◌}
use native.Mathlib.Omega.{arith}
use zone_mta.Prelude.Tests.{text_discrete, if◌then◌else◌}

unfoldable pub has_text : String → List String → Bool
has_text d [] = false
has_text d (x ∷ xs) = ite (text_discrete x d) true (has_text d xs)

unfoldable pub delete_text : String → List String → List String
delete_text d [] = []
delete_text d (x ∷ xs) = let rest = delete_text d xs in ite (text_discrete x d) rest (x ∷ rest)

pub has_text-append :
    (d : String) (xs ys : List String)
    → has_text d (xs ++ ys) ≡ (if has_text d xs then true else has_text d ys)
unfolding has_text
has_text-append d [] ys = refl
has_text-append d (x ∷ xs) ys = ground (arith, has_text-append d xs ys)

pub has_text-delete_text :
    (d e : String) (xs : List String)
    → has_text d (delete_text e xs) ≡ ite (text_discrete e d) false (has_text d xs)
unfolding has_text delete_text
has_text-delete_text d e [] = ground arith
has_text-delete_text d e (x ∷ xs) = ground (arith, has_text-delete_text d e xs)

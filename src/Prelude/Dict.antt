-- ===== src/Prelude/Dict.antt =====
-- A dictionary with text keys, as the objects of the JSON files are: a change of a key that is there
-- keeps its place, a new key comes last.
use Prim.Native.String.{String}
use mathlib.Core.Path.{◌≡◌, refl}
use mathlib.Core.Option.{Option, none, some}
use mathlib.Core.List.{List, [], ◌∷◌}
use text.Mathlib.Text.{◌==◌}
use text.Mathlib.TextEquality.{eq_iff}
use text.Mathlib.TextPositions.{eq_refl}
use native.Mathlib.Omega.{arith}
use codex_waiting_plgin.Prelude.Tests.{if◌then◌else◌}

abbrev pub Dict {ℓ} : Type ℓ → Type ℓ
Dict A = List (String × A)

module _ {ℓ} {A : Type ℓ} where
  abbrev pub get : String → Dict A → Option A
  get k [] = none
  get k ((j, x) ∷ d) = if j == k then some x else get k d

  abbrev pub put : String → A → Dict A → Dict A
  put k x [] = (k, x) ∷ []
  put k x ((j, y) ∷ d) = if j == k then (k, x) ∷ d else (j, y) ∷ put k x d

  pub get-put :
      (k j : String) (x : A) (d : Dict A) → get j (put k x d) ≡ (if k == j then some x else get j d)
  get-put k j x [] = ground arith
  get-put k j x ((i, y) ∷ d) = ground (arith, eq_iff k j, eq_iff i k, eq_iff i j, get-put k j x d)

  pub get-put_self : (k : String) (x : A) (d : Dict A) → get k (put k x d) ≡ some x
  get-put_self k x d = rw (get-put k k x d, eq_refl k) refl

  pub put-put : (k : String) (x y : A) (d : Dict A) → put k y (put k x d) ≡ put k y d
  put-put k x y [] = ground (arith, eq_refl k)
  put-put k x y ((i, z) ∷ d) = ground (arith, eq_refl k, eq_iff i k, put-put k x y d)

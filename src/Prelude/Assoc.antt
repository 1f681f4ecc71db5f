-- ===== src/Prelude/Assoc.antt =====
-- A `Map` from strings: its entries in the order of their first insertion.
use native.Mathlib.Omega.{arith}
use centry.Prelude.Tests.{if◌then◌else◌, Bool-cases}
use centry.Prelude.Lists.{All}
use centry.Prelude.Text.{Text, text_eq, text_eq_refl, text_eq_iff}
use mathlib.Core.Path.{◌≡◌, refl}
use mathlib.Core.Logic.{inl, inr}
use mathlib.Core.Option.{Option, none, some}
use mathlib.Core.List.{List, [], ◌∷◌}

module _ {ℓ} {V : Type ℓ} where
  unfoldable pub lookup : Text → List (Text × V) → Option V
  lookup k [] = none
  lookup k ((j, v) ∷ m) = if text_eq j k then some v else lookup k m

  -- `set`: a key that is there keeps its place.
  unfoldable pub insert : Text → V → List (Text × V) → List (Text × V)
  insert k v [] = (k, v) ∷ []
  insert k v ((j, w) ∷ m) = if text_eq j k then (k, v) ∷ m else (j, w) ∷ insert k v m

  pub lookup-insert :
      (k j : Text) (v : V) (m : List (Text × V))
      → lookup j (insert k v m) ≡ (if text_eq k j then some v else lookup j m)
  unfolding lookup insert
  lookup-insert k j v [] = refl
  lookup-insert k j v ((i, w) ∷ m) =
      ground (arith, text_eq_iff i k, text_eq_iff k j, text_eq_iff i j, lookup-insert k j v m)

  pub insert-insert :
      (k : Text) (v w : V) (m : List (Text × V)) → insert k w (insert k v m) ≡ insert k w m
  unfolding insert
  insert-insert k v w [] = rw (text_eq_refl k)
  insert-insert k v w ((j, u) ∷ m) = elim (Bool-cases (text_eq j k)) [
    | inl same ↦ rw (same, text_eq_refl k)
    | inr other ↦ rw (other, insert) (rw other (rw (insert-insert k v w m)))
  ]

  pub insert-All {κ} :
      (P : Text × V → Type κ) (k : Text) (v : V) (m : List (Text × V))
      → All P m
      → P (k, v)
      → All P (insert k v m)
  unfolding insert
  insert-All P k v [] h p = (p, tt)
  insert-All P k v ((j, w) ∷ m) (q, h) p = elim (Bool-cases (text_eq j k)) [
    | inl here ↦ rw here (p, h)
    | inr other ↦ rw other (q, insert-All P k v m h p)
  ]

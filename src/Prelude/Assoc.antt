-- ===== src/Prelude/Assoc.antt =====
-- A Go map with text keys, as an association list: the first entry of a key counts.
use mathlib.Core.Path.{◌≡◌, ◌∙◌}
use mathlib.Core.Bool.{Bool}
use mathlib.Core.Logic.{inl, inr}
use mathlib.Core.Option.{Option, none, some}
use mathlib.Core.List.{List, [], ◌∷◌}
use Prim.Native.String.{String}
use text.Mathlib.Text.{◌==◌}
use text.Mathlib.TextEquality.{eq_iff}
use native.Mathlib.Omega.{arith}
use randomshitgo_go.Prelude.Tests.{if◌then◌else◌, Bool-cases}

abbrev pub Assoc {ℓ} : Type ℓ → Type ℓ
Assoc V = List (String × V)

-- A Go map has no order, so a new binding goes to the front.
module _ {ℓ} {V : Type ℓ} where
  abbrev bound_to : String → String × V → Bool
  bound_to k binding = binding.0 == k

  unfoldable pub lookup : String → Assoc V → Option V
  lookup k [] = none
  lookup k (binding ∷ m) = if bound_to k binding then some binding.1 else lookup k m

  -- Every binding of the key goes.
  unfoldable pub delete_key : String → Assoc V → Assoc V
  delete_key k [] = []
  delete_key k (binding ∷ m) =
      let others = delete_key k m in if bound_to k binding then others else binding ∷ others

  unfoldable pub insert : String → V → Assoc V → Assoc V
  insert k v m = (k, v) ∷ delete_key k m

  pub lookup-delete_key :
      (gone j : String) (m : Assoc V)
      → lookup j (delete_key gone m) ≡ (if gone == j then none else lookup j m)
  unfolding lookup delete_key
  lookup-delete_key gone j [] = elim (Bool-cases (gone == j)) [ inl e ↦ rw e | inr e ↦ rw e ]
  lookup-delete_key gone j (binding ∷ m) =
      let after = lookup-delete_key gone j m in
      ground (arith, after, eq_iff binding.0 gone, eq_iff binding.0 j, eq_iff gone j)

  pub lookup-insert :
      (k j : String) (v : V) (m : Assoc V)
      → lookup j (insert k v m) ≡ (if k == j then some v else lookup j m)
  unfolding lookup insert
  lookup-insert k j v m = elim (Bool-cases (k == j)) [
    | inl e ↦ rw e
    | inr e ↦ rw e (lookup-delete_key k j m ∙ (rw e))
  ]

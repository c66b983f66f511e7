-- ===== src/Base/Dict.antt =====
-- A Go map with text keys: an association list read from its front. `insert` writes `m[k] = v`,
-- `erase` is `delete(m, k)`, and `lookup` is `v, ok := m[k]`.
use mathlib.Core.Path.{◌≡◌, refl}
use Prim.Native.String.{String}
use mathlib.Core.List.{List, [], ◌∷◌}
use mathlib.Core.Option.{Option, none, some}
use dst_go.Base.Tests.{str_eq, if◌then◌else◌}
use text.Mathlib.TextPositions.{eq_refl}
use text.Mathlib.TextEquality.{eq_iff}
use native.Mathlib.Omega.{arith}

abbrev pub Dict {ℓ} : Type ℓ → Type ℓ
Dict V = List (String × V)

module _ {ℓ} {V : Type ℓ} where
  unfoldable pub lookup : String → Dict V → Option V
  lookup key [] = none
  lookup key ((at, value) ∷ later) =
      let found = lookup key later in if str_eq at key then some value else found

  unfoldable pub insert : String → V → Dict V → Dict V
  insert key value [] = (key, value) ∷ []
  insert key value ((at, old) ∷ later) =
      let kept = insert key value later in
      if str_eq at key then (key, value) ∷ later else (at, old) ∷ kept

  unfoldable pub erase : String → Dict V → Dict V
  erase key [] = []
  erase key ((at, old) ∷ later) =
      let kept = erase key later in if str_eq at key then kept else (at, old) ∷ kept

  pub lookup-insert :
      (key other : String) (value : V) (dict : Dict V)
      → lookup other (insert key value dict)
        ≡ (if str_eq key other then some value else lookup other dict)
  unfolding insert lookup
  lookup-insert key other value [] = refl
  lookup-insert key other value ((at, old) ∷ later) =
      ground (
        lookup-insert key other value later,
        eq_iff at other,
        eq_iff at key,
        eq_iff key other,
        arith,
      )

  pub lookup-insert_self :
      (key : String) (value : V) (dict : Dict V) → lookup key (insert key value dict) ≡ some value
  lookup-insert_self key value dict = rw (lookup-insert key key value dict, eq_refl key)

  pub lookup-erase :
      (key other : String) (dict : Dict V)
      → lookup other (erase key dict) ≡ (if str_eq key other then none else lookup other dict)
  unfolding erase lookup
  lookup-erase key other [] = ground arith
  lookup-erase key other ((at, old) ∷ later) =
      ground (lookup-erase key other later, eq_iff at other, eq_iff at key, eq_iff key other, arith)

  pub lookup-erase_self : (key : String) (dict : Dict V) → lookup key (erase key dict) ≡ none
  lookup-erase_self key dict = rw (lookup-erase key key dict, eq_refl key)

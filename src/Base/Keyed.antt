-- ===== src/Base/Keyed.antt =====
-- Python's `dict` with string keys as a list of pairs in insertion order.
use Prim.Native.String.{String}
use mathlib.Core.Path.{◌≡◌, refl}
use mathlib.Core.Bool.{Bool, true, false, ◌||◌}
use mathlib.Core.Option.{Option, none, some}
use mathlib.Core.List.{List, [], ◌∷◌, ◌++◌}
use native.Mathlib.Omega.{arith}
use text.Mathlib.Text.{◌==◌}
use text.Mathlib.TextEquality.{eq_iff}
use ai_control_center.Base.Tests.{if◌then◌else◌}

abbrev pub Keyed {ℓ} : Type ℓ → Type ℓ
Keyed V = List (String × V)

-- `text in texts`
abbrev pub contains : List String → String → Bool
contains [] k = false
contains (j ∷ l) k = (j == k) || contains l k

pub contains-append_last : (k : String) (l : List String) → contains (l ++ k ∷ []) k ≡ true
contains-append_last k [] = ground (arith, eq_iff k k)
contains-append_last k (j ∷ l) = ground (arith, contains-append_last k l)

pub contains-append_left :
    (k : String) (l m : List String) → contains l k ≡ true → contains (l ++ m) k ≡ true
contains-append_left k [] m h = absurd (cc)
contains-append_left k (j ∷ l) m h = ground (arith, contains-append_left k l m)

module _ {ℓ} {V : Type ℓ} where
  -- `d.get(k)`
  unfoldable pub lookup : String → Keyed V → Option V
  lookup k [] = none
  lookup k ((j, v) ∷ d) = if j == k then some v else lookup k d

  -- `d[k] = v`, which keeps the place of a key that is there
  unfoldable pub insert : String → V → Keyed V → Keyed V
  insert k v [] = (k, v) ∷ []
  insert k v ((j, w) ∷ d) = if j == k then (j, v) ∷ d else (j, w) ∷ insert k v d

  -- `d.setdefault(k, v)`, for the dictionary that it leaves
  unfoldable pub set_default : String → V → Keyed V → Keyed V
  set_default k v d = elim (lookup k d) [ none ↦ insert k v d | some _ ↦ d ]

  pub lookup-insert :
      (k j : String) (v : V) (d : Keyed V)
      → lookup j (insert k v d) ≡ (if k == j then some v else lookup j d)
  unfolding lookup insert
  lookup-insert k j v [] = refl
  lookup-insert k j v ((i, w) ∷ d) =
      ground (arith, eq_iff k j, eq_iff i k, eq_iff i j, lookup-insert k j v d)

  pub lookup-insert_ne :
      (k j : String) (v : V) (d : Keyed V) → k == j ≡ false → lookup j (insert k v d) ≡ lookup j d
  lookup-insert_ne k j v d h = rw (lookup-insert k j v d) (rw h refl)

  pub lookup-insert_self : (k : String) (v : V) (d : Keyed V) → lookup k (insert k v d) ≡ some v
  lookup-insert_self k v d = ground (arith, lookup-insert k k v d, eq_iff k k)

-- ===== src/Base/Lists.antt =====
-- Lists over the native numbers, tests on their items, and the predicate that holds of each item.
use Prim.Native.Nat.{ℕ, zero, suc, ◌+◌, ◌≤◌}
use mathlib.Core.Path.{◌≡◌, refl, sym, ap, subst}
use mathlib.Core.Logic.{inl, inr}
use mathlib.Core.Bool.{Bool, true, false, ◌&&◌, ◌||◌}
use mathlib.Core.Option.{Option, none, some, some-injective}
use mathlib.Core.List.{List, [], ◌∷◌, ◌++◌}
use native.Mathlib.Omega.{arith}
use ai_control_center.Base.Tests.{Bool-cases, if◌then◌else◌}

abbrev shift : Option ℕ → Option ℕ
shift none = none
shift (some i) = some (suc i)

module _ {ℓ} {A : Type ℓ} where
  abbrev pub length : List A → ℕ
  length [] = 0
  length (x ∷ xs) = suc (length xs)

  abbrev pub get_elem? : List A → ℕ → Option A
  get_elem? [] i = none
  get_elem? (x ∷ xs) zero = some x
  get_elem? (x ∷ xs) (suc i) = get_elem? xs i

  abbrev pub is_empty_list : List A → Bool
  is_empty_list [] = true
  is_empty_list (x ∷ xs) = false

  -- Python's `xs[-1]` of a list that may be empty.
  abbrev pub get_last? : List A → Option A
  get_last? [] = none
  get_last? (x ∷ []) = some x
  get_last? (x ∷ (y ∷ ys)) = get_last? (y ∷ ys)

  -- Changes the item at a place, by reference as the source does; out of range nothing changes.
  abbrev pub modify : (A → A) → List A → ℕ → List A
  modify f [] i = []
  modify f (x ∷ xs) zero = f x ∷ xs
  modify f (x ∷ xs) (suc i) = x ∷ modify f xs i

  -- `all(test(item) for item in items)`
  abbrev pub all : (A → Bool) → List A → Bool
  all test [] = true
  all test (x ∷ xs) = test x && all test xs

  -- `any(test(item) for item in items)`
  abbrev pub any : (A → Bool) → List A → Bool
  any test [] = false
  any test (x ∷ xs) = test x || any test xs

  -- `[item for item in items if test(item)]`
  abbrev pub select_items : (A → Bool) → List A → List A
  select_items test [] = []
  select_items test (x ∷ xs) = let rest = select_items test xs in if test x then x ∷ rest else rest

  -- `sum(test(item) for item in items)`
  abbrev pub count_items : (A → Bool) → List A → ℕ
  count_items test [] = 0
  count_items test (x ∷ xs) = (if test x then 1 else 0) + count_items test xs

  -- `next((index for index, item in enumerate(items) if test(item)), None)`
  abbrev pub find_index : (A → Bool) → List A → Option ℕ
  find_index test [] = none
  find_index test (x ∷ xs) = let rest = find_index test xs in if test x then some 0 else shift rest

  abbrev pub All {κ} : (A → Type κ) → List A → Type κ
  All P [] = Unit
  All P (x ∷ xs) = P x × All P xs

  pub length-append : (xs ys : List A) → length (xs ++ ys) ≡ length xs + length ys
  length-append [] ys = omega arith
  length-append (x ∷ xs) ys = omega (arith, length-append xs ys)

  pub length-modify : (f : A → A) (xs : List A) (i : ℕ) → length (modify f xs i) ≡ length xs
  length-modify f [] i = refl
  length-modify f (x ∷ xs) zero = refl
  length-modify f (x ∷ xs) (suc i) = ap suc (length-modify f xs i)

  pub count_items-le-length : (test : A → Bool) (xs : List A) → count_items test xs ≤ length xs
  count_items-le-length test [] = omega arith
  count_items-le-length test (x ∷ xs) = ground (arith, count_items-le-length test xs)

  -- Every item passes exactly when the count is the length.
  pub count_items-all :
      (test : A → Bool) (xs : List A) → all test xs ≡ true → count_items test xs ≡ length xs
  count_items-all test [] h = refl
  count_items-all test (x ∷ xs) h = ground (arith, count_items-all test xs)

  shift_sound :
      (test : A → Bool) (x : A) (xs : List A) (o : Option ℕ) (i : ℕ)
      → ((j : ℕ) → o ≡ some j → (y : A) × (get_elem? xs j ≡ some y) × (test y ≡ true))
      → shift o ≡ some i
      → (y : A) × (get_elem? (x ∷ xs) i ≡ some y) × (test y ≡ true)
  shift_sound test x xs none i ih h = absurd (cc)
  shift_sound test x xs (some j) zero ih h = absurd (ground arith)
  shift_sound test x xs (some j) (suc i) ih h = ih i (ground arith)

  first_sound :
      (test : A → Bool) (x : A) (xs : List A) (i : ℕ)
      → test x ≡ true
      → ◌≡◌ {A = Option ℕ} (some 0) (some i)
      → (y : A) × (get_elem? (x ∷ xs) i ≡ some y) × (test y ≡ true)
  first_sound test x xs zero t h = (x, refl, t)
  first_sound test x xs (suc i) t h = absurd (ground arith)

  -- What the search finds stands there and passes the test.
  pub find_index_sound :
      (test : A → Bool) (xs : List A) (i : ℕ)
      → find_index test xs ≡ some i
      → (y : A) × (get_elem? xs i ≡ some y) × (test y ≡ true)
  find_index_sound test [] i h = absurd (cc)
  find_index_sound test (x ∷ xs) i h = elim (Bool-cases (test x)) [
    | inl t ↦ first_sound test x xs i t (rw t at h)
    | inr t ↦ shift_sound test x xs (find_index test xs) i (find_index_sound test xs) (rw t at h)
  ]

pub All-append_last {ℓ κ} :
    {A : Type ℓ} (P : A → Type κ) (x : A) (xs : List A) → All P xs → P x → All P (xs ++ x ∷ [])
All-append_last P x [] h p = (p, tt)
All-append_last P x (y ∷ ys) h p = (h.0, All-append_last P x ys h.1 p)

-- What stands at a place of a list all of whose items have a property.
pub All-get_elem? {ℓ κ} :
    {A : Type ℓ} (P : A → Type κ) (xs : List A) (i : ℕ) (x : A)
    → get_elem? xs i ≡ some x
    → All P xs
    → P x
All-get_elem? P [] i x e h = absurd (cc)
All-get_elem? P (y ∷ ys) zero x e h = subst P (some-injective y x e) h.0
All-get_elem? P (y ∷ ys) (suc i) x e h = All-get_elem? P ys i x e h.1

-- A change of the item at a place that keeps its property keeps that of all items.
pub All-modify {ℓ κ} :
    {A : Type ℓ} (P : A → Type κ) (f : A → A) (xs : List A) (i : ℕ) (x : A)
    → get_elem? xs i ≡ some x
    → (P x → P (f x))
    → All P xs
    → All P (modify f xs i)
All-modify P f [] i x e k h = h
All-modify P f (y ∷ ys) zero x e k h =
    (subst (λ z. P z → P (f z)) (sym (some-injective y x e)) k h.0, h.1)
All-modify P f (y ∷ ys) (suc i) x e k h = (h.0, All-modify P f ys i x e k h.1)

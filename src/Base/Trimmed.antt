-- ===== src/Base/Trimmed.antt =====
-- What is trimmed or has forward slashes stays so.
use Prim.Native.String.{String}
use Prim.Native.Char.{Char, code}
use mathlib.Core.Path.{◌≡◌, refl, ap, ◌∙◌}
use mathlib.Core.Logic.{inl, inr}
use mathlib.Core.Bool.{Bool, true, false, ◌&&◌, not}
use native.Mathlib.Omega.{arith}
use ai_control_center.Base.Tests.{same_number, Bool-cases, if◌then◌else◌}
use ai_control_center.Base.Paths.{forward_slashes}
use ai_control_center.Base.Words.{is_space, is_empty_text, strip, strip_left, strip_right}

-- The text has no backslash.
abbrev pub is_forward : String → Bool
is_forward String.[] = true
is_forward (String.◌∷◌ c s) = not (same_number (code c) 92) && is_forward s

pub forward_slashes-is_forward : (s : String) → is_forward (forward_slashes s) ≡ true
unfolding forward_slashes
forward_slashes-is_forward String.[] = refl
forward_slashes-is_forward (String.◌∷◌ c s) = elim (Bool-cases (same_number (code c) 92)) [
  | inl back ↦ rw back (forward_slashes-is_forward s)
  | inr other ↦ rw other (rw other (forward_slashes-is_forward s))
]

pub is_forward-forward_slashes : (s : String) → is_forward s ≡ true → forward_slashes s ≡ s
unfolding forward_slashes
is_forward-forward_slashes String.[] h = refl
is_forward-forward_slashes (String.◌∷◌ c s) h =
    let other : same_number (code c) 92 ≡ false = ground (arith, h) in
    rw other (ap (String.◌∷◌ c) (is_forward-forward_slashes s (ground (arith, h))))

pub strip_left-is_forward : (s : String) → is_forward s ≡ true → is_forward (strip_left s) ≡ true
unfolding strip_left
strip_left-is_forward String.[] h = refl
strip_left-is_forward (String.◌∷◌ c s) h = elim (Bool-cases (is_space (code c))) [
  | inl space ↦ rw space (strip_left-is_forward s (ground (arith, h)))
  | inr other ↦ rw other h
]

pub strip_right-is_forward : (s : String) → is_forward s ≡ true → is_forward (strip_right s) ≡ true
unfolding strip_right
strip_right-is_forward String.[] h = refl
strip_right-is_forward (String.◌∷◌ c s) h =
    elim (Bool-cases (is_space (code c) && is_empty_text (strip_right s))) [
      | inl space ↦ rw space refl
      | inr other ↦ rw other (ground (arith, strip_right-is_forward s (ground (arith, h))))
    ]

strip_left-strip_left : (s : String) → strip_left (strip_left s) ≡ strip_left s
unfolding strip_left
strip_left-strip_left String.[] = refl
strip_left-strip_left (String.◌∷◌ c s) = elim (Bool-cases (is_space (code c))) [
  | inl space ↦ rw space (strip_left-strip_left s)
  | inr other ↦ rw other (rw other refl)
]

strip_right-strip_right : (s : String) → strip_right (strip_right s) ≡ strip_right s
unfolding strip_right
strip_right-strip_right String.[] = refl
strip_right-strip_right (String.◌∷◌ c s) =
    elim (Bool-cases (is_space (code c) && is_empty_text (strip_right s))) [
      | inl space ↦ rw space refl
      | inr other ↦ rw other (rw (strip_right-strip_right s) (rw other refl))
    ]

tail_of_if :
    (test : Bool) (c : Char) (s t : String)
    → ◌≡◌ {A = String} (if test then String.[] else String.◌∷◌ c t) (String.◌∷◌ c s)
    → t ≡ s
tail_of_if true c s t h = cc
tail_of_if false c s t h = cc

strip_right-tail :
    (c : Char) (s : String) → strip_right (String.◌∷◌ c s) ≡ String.◌∷◌ c s → strip_right s ≡ s
unfolding strip_right
strip_right-tail c s h = tail_of_if _ c s (strip_right s) h

strip_right-strip_left :
    (s : String) → strip_right s ≡ s → strip_right (strip_left s) ≡ strip_left s
unfolding strip_left strip_right
strip_right-strip_left String.[] h = refl
strip_right-strip_left (String.◌∷◌ c s) h = elim (Bool-cases (is_space (code c))) [
  | inl space ↦ rw space (strip_right-strip_left s (strip_right-tail c s h))
  | inr other ↦ rw other h
]

pub strip-strip : (s : String) → strip (strip s) ≡ strip s
unfolding strip
strip-strip s =
    ap strip_left (strip_right-strip_left (strip_right s) (strip_right-strip_right s))
    ∙ strip_left-strip_left (strip_right s)

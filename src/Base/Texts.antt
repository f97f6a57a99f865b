-- ===== src/Base/Texts.antt =====
-- The order of texts, by their code points as Python compares them, and sorted sets of texts.
use Prim.Native.String.{String}
use Prim.Native.Char.{code}
use mathlib.Core.Path.{◌≡◌, refl}
use mathlib.Core.Bool.{Bool, true, false, ◌&&◌, ◌||◌}
use mathlib.Core.List.{List, [], ◌∷◌}
use native.Mathlib.Omega.{arith}
use text.Mathlib.Text.{◌==◌}
use text.Mathlib.TextEquality.{eq_iff}
use ai_control_center.Base.Tests.{ltb, same_number, if◌then◌else◌}
use ai_control_center.Base.Lists.{is_empty_list}
use ai_control_center.Base.Keyed.{contains}

-- `<=` on texts
unfoldable pub text_leb : String → String → Bool
text_leb String.[] t = true
text_leb (String.◌∷◌ c s) String.[] = false
text_leb (String.◌∷◌ c s) (String.◌∷◌ d t) =
    ltb (code c) (code d) || (same_number (code c) (code d) && text_leb s t)

-- `sorted` of a set of texts
unfoldable pub insert_text : String → List String → List String
insert_text t [] = t ∷ []
insert_text t (u ∷ us) =
    let rest = insert_text t us in
    if t == u then u ∷ us else if text_leb t u then t ∷ u ∷ us else u ∷ rest

unfoldable pub sort_set : List String → List String
sort_set [] = []
sort_set (t ∷ ts) = insert_text t (sort_set ts)

contains-insert_text :
    (k t : String) (ts : List String) → contains (insert_text t ts) k ≡ ((t == k) || contains ts k)
unfolding insert_text
contains-insert_text k t [] = refl
contains-insert_text k t (u ∷ us) =
    ground (arith, eq_iff t u, eq_iff t k, eq_iff u k, contains-insert_text k t us)

-- A sorted set has the texts that the list has.
pub contains-sort_set : (k : String) (ts : List String) → contains (sort_set ts) k ≡ contains ts k
unfolding sort_set
contains-sort_set k [] = refl
contains-sort_set k (t ∷ ts) =
    rw (contains-insert_text k t (sort_set ts)) (rw (contains-sort_set k ts) refl)

insert_text-nonempty : (t : String) (ts : List String) → is_empty_list (insert_text t ts) ≡ false
unfolding insert_text
insert_text-nonempty t [] = refl
insert_text-nonempty t (u ∷ us) = ground arith

pub sort_set-is_empty_list : (ts : List String) → is_empty_list (sort_set ts) ≡ is_empty_list ts
unfolding sort_set
sort_set-is_empty_list [] = refl
sort_set-is_empty_list (t ∷ ts) = insert_text-nonempty t (sort_set ts)

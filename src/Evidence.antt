-- ===== src/Evidence.antt =====
-- backend/control/evidence_registry.py: `EvidenceRegistry`, over the values that JSON can hold. A number
-- with a fraction is its text.
pub mod Registry
pub mod Records
pub mod Completion
pub mod Collecting
pub mod Proven
use ai_control_center.Base.{
  ℕ, zero, suc, String, Bool, true, false, ◌&&◌, ◌||◌, Option, none, some, List, [], ◌∷◌, ◌==◌,
  if◌then◌else◌,
}
use ai_control_center.Base.Int.{ℤ}

mutual
  pub data Json : Type 0 where
    null : Json
    truth : Bool → Json
    integer : ℤ → Json
    fraction : String → Json
    text : String → Json
    array : JsonItems → Json
    dictionary : JsonFields → Json

  pub data JsonItems : Type 0 where
    no_item : JsonItems
    item : Json → JsonItems → JsonItems

  pub data JsonFields : Type 0 where
    no_field : JsonFields
    field : String → Json → JsonFields → JsonFields

-- `fields.get(key)`
abbrev pub get_field : String → JsonFields → Option Json
get_field key no_field = none
get_field key (field name value fields) = if name == key then some value else get_field key fields

-- `value.get(key)` of a value that may be no dictionary.
abbrev pub get_key : String → Json → Option Json
get_key key (dictionary fields) = get_field key fields
get_key key _ = none

abbrev pub is_dictionary : Json → Bool
is_dictionary (dictionary fields) = true
is_dictionary _ = false

-- `value.get(key) not in (None, "", [], {})`
abbrev pub is_present : Option Json → Bool
is_present none = false
is_present (some null) = false
is_present (some (text words)) = if words == "" then false else true
is_present (some (array no_item)) = false
is_present (some (dictionary no_field)) = false
is_present (some _) = true

abbrev pub is_array : Option Json → Bool
is_array (some (array items)) = true
is_array _ = false

abbrev pub is_empty_array : Option Json → Bool
is_empty_array (some (array no_item)) = true
is_empty_array _ = false

abbrev pub is_filled_array : Option Json → Bool
is_filled_array (some (array (item value items))) = true
is_filled_array _ = false

abbrev pub is_filled_text : Option Json → Bool
is_filled_text (some (text words)) = if words == "" then false else true
is_filled_text _ = false

abbrev pub is_true : Option Json → Bool
is_true (some (truth true)) = true
is_true _ = false

abbrev pub is_text : String → Option Json → Bool
is_text words (some (text other)) = other == words
is_text words _ = false

abbrev pub is_zero : Option Json → Bool
is_zero (some (integer (ℤ.pos zero))) = true
is_zero _ = false

abbrev pub is_positive_integer : Option Json → Bool
is_positive_integer (some (integer (ℤ.pos (suc n)))) = true
is_positive_integer _ = false

-- Every item is a dictionary whose "passed" is true.
abbrev pub all_passed : JsonItems → Bool
all_passed no_item = true
all_passed (item value items) = is_true (get_key "passed" value) && all_passed items

abbrev pub checks_passed : Option Json → Bool
checks_passed (some (array items)) = all_passed items
checks_passed _ = false

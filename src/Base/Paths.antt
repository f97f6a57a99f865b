-- ===== src/Base/Paths.antt =====
-- Texts of paths.
use Prim.Native.String.{String}
use Prim.Native.Char.{code}
use mathlib.Core.Bool.{Bool, true, false, ◌&&◌}
use ai_control_center.Base.Tests.{same_number, if◌then◌else◌}

-- `text.replace("\\", "/")`
unfoldable pub forward_slashes : String → String
forward_slashes String.[] = String.[]
forward_slashes (String.◌∷◌ c s) =
    String.◌∷◌ (if same_number (code c) 92 then "/" else c) (forward_slashes s)

-- `text.startswith(prefix)`
unfoldable pub starts_with : String → String → Bool
starts_with s String.[] = true
starts_with String.[] (String.◌∷◌ d p) = false
starts_with (String.◌∷◌ c s) (String.◌∷◌ d p) = same_number (code c) (code d) && starts_with s p

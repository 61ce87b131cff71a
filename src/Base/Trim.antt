-- ===== src/Base/Trim.antt =====
-- What `strings.TrimSpace` leaves.
use Prim.Native.Nat.{◌≤◌}
use Prim.Native.String.{String}
use mathlib.Core.Path.{◌≡◌, refl, ap, ◌∙◌}
use mlx_swarm.Base.Text.{trim_left, is_empty, trim_right, trim_space, byte_length}
use native.Mathlib.Omega.{arith}

byte_length-trim_left : (s : String) → byte_length (trim_left s) ≤ byte_length s
unfolding byte_length trim_left
byte_length-trim_left String.[] = omega arith
byte_length-trim_left (String.◌∷◌ c s) = ground (arith, byte_length-trim_left s)

byte_length-trim_right : (s : String) → byte_length (trim_right s) ≤ byte_length s
unfolding byte_length trim_right
byte_length-trim_right String.[] = omega arith
byte_length-trim_right (String.◌∷◌ c s) = ground (arith, byte_length-trim_right s)

pub byte_length-trim_space : (s : String) → byte_length (trim_space s) ≤ byte_length s
unfolding trim_space
byte_length-trim_space s =
    omega (arith, byte_length-trim_right (trim_left s), byte_length-trim_left s)

trim_left_idem : (s : String) → trim_left (trim_left s) ≡ trim_left s
unfolding trim_left
trim_left_idem String.[] = refl
trim_left_idem (String.◌∷◌ c s) = ground (arith, trim_left_idem s)

trim_right_idem : (s : String) → trim_right (trim_right s) ≡ trim_right s
unfolding trim_right is_empty
trim_right_idem String.[] = refl
trim_right_idem (String.◌∷◌ c s) = ground (arith, trim_right_idem s)

-- A string that begins with no space still does once its end is trimmed.
trim_right-left : (s : String) → trim_left s ≡ s → trim_left (trim_right s) ≡ trim_right s
unfolding trim_left trim_right byte_length
trim_right-left String.[] h = refl
trim_right-left (String.◌∷◌ c s) h = ground (arith, byte_length-trim_left s, ap byte_length h)

pub trim_space_idem : (s : String) → trim_space (trim_space s) ≡ trim_space s
unfolding trim_space
trim_space_idem s =
    ap trim_right (trim_right-left (trim_left s) (trim_left_idem s)) ∙ trim_right_idem (trim_left s)

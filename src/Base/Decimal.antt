-- ===== src/Base/Decimal.antt =====
-- `%d` of a natural number.
use Prim.Native.String.{String}
use mlx_swarm.Base.Tests.{ltb, if◌then◌else◌}
use Prim.Native.Nat.{ℕ, zero, suc, ◌/◌, ◌%◌, ◌+◌}
use mathlib.Core.Path.{◌≡◌, refl}

digit_onto : ℕ → String → String
digit_onto zero s = String.◌∷◌ "0" s
digit_onto (suc zero) s = String.◌∷◌ "1" s
digit_onto (suc (suc zero)) s = String.◌∷◌ "2" s
digit_onto (suc (suc (suc zero))) s = String.◌∷◌ "3" s
digit_onto (suc (suc (suc (suc zero)))) s = String.◌∷◌ "4" s
digit_onto (suc (suc (suc (suc (suc zero))))) s = String.◌∷◌ "5" s
digit_onto (suc (suc (suc (suc (suc (suc zero)))))) s = String.◌∷◌ "6" s
digit_onto (suc (suc (suc (suc (suc (suc (suc zero))))))) s = String.◌∷◌ "7" s
digit_onto (suc (suc (suc (suc (suc (suc (suc (suc zero)))))))) s = String.◌∷◌ "8" s
digit_onto _ s = String.◌∷◌ "9" s

-- The digits of `n` before `out`; `n` halves at least in each round, so that `n + 1` rounds suffice.
emit : ℕ → ℕ → String → String
emit zero n out = out
emit (suc rounds) n out =
    let rest = emit rounds (n / 10) (digit_onto (n % 10) out) in
    if ltb n 10 then digit_onto n out else rest

unfoldable pub decimal : ℕ → String
unfolding emit digit_onto
decimal n = emit (n + 1) n ""

decimal_test : decimal 120 ≡ "120"
unfolding decimal
decimal_test = refl

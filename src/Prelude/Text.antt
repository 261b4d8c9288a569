-- ===== src/Prelude/Text.antt =====
-- Bytes, and C strings as the lists of their bytes before the NUL.
use Prim.Native.Char.{code}
use Prim.Native.String.{String}
use Prim.Native.Nat.{ℕ, zero, suc, ◌+◌, ◌/◌, ◌%◌, ◌≤◌}
use mathlib.Core.Bool.{Bool, true, false, ◌&&◌}
use mathlib.Core.List.{List, [], ◌∷◌}
use native.Mathlib.Omega.{arith}
use aims_libest.Prelude.Tests.{ltb, ◌==◌, if◌then◌else◌}
use aims_libest.Prelude.Lists.{length}

abbrev pub Bytes : Type 0
Bytes = List ℕ

-- The code points of a text: its bytes, since every literal of the source is ASCII.
abbrev pub codes : String → Bytes
codes String.[] = []
codes (String.◌∷◌ c s) = code c ∷ codes s

-- strncmp(s, p, strlen(p)) == 0: `p` is a prefix of `s`
unfoldable pub starts_with : Bytes → Bytes → Bool
starts_with [] s = true
starts_with (x ∷ xs) [] = false
starts_with (x ∷ xs) (y ∷ ys) = x == y && starts_with xs ys

-- `%d` of a number that is not negative; the fuel is the number itself
unfoldable pub decimal_onto : ℕ → ℕ → Bytes → Bytes
decimal_onto zero n out = out
decimal_onto (suc fuel) n out =
    let rest = decimal_onto fuel (n / 10) ((b'0' + n % 10) ∷ out) in
    if ltb n 10 then (b'0' + n) ∷ out else rest

unfoldable pub decimal : ℕ → Bytes
unfolding decimal_onto
decimal n = decimal_onto (suc n) n []

decimal_onto_longer : (fuel n : ℕ) (out : Bytes) → length out ≤ length (decimal_onto fuel n out)
unfolding decimal_onto
decimal_onto_longer zero n out = omega arith
decimal_onto_longer (suc fuel) n out =
    ground (arith, decimal_onto_longer fuel (n / 10) ((b'0' + n % 10) ∷ out))

-- `%d` prints a digit at least.
pub decimal_pos : (n : ℕ) → 1 ≤ length (decimal n)
unfolding decimal decimal_onto
decimal_pos n = ground (arith, decimal_onto_longer n (n / 10) ((b'0' + n % 10) ∷ []))

-- ===== src/Prelude/Hex.antt =====
-- Package encoding/hex, as grpc/idempotency and events use it.
use Prim.Native.Nat.{ℕ, ◌+◌, ◌-◌, ◌/◌, ◌%◌}
use mathlib.Core.List.{[], ◌∷◌}
use mathlib.Core.Logic.{◌≢◌}
use native.Mathlib.Omega.{arith}
use runtime_go.Prelude.Tests.{ltb, if◌then◌else◌}
use runtime_go.Prelude.Lists.{Bytes, All}

pub hex_digit : ℕ → ℕ
hex_digit n = if ltb n 10 then b'0' + n else b'a' + (n - 10)

-- EncodeToString
pub hex : Bytes → Bytes
hex [] = []
hex (b ∷ s) = hex_digit (b / 16) ∷ hex_digit (b % 16) ∷ hex s

hex_digit-differs : (n : ℕ) → hex_digit n ≢ b':'
unfolding hex_digit
hex_digit-differs n = ground arith

pub hex-no_colon : (s : Bytes) → All (λ c. c ≢ b':') (hex s)
unfolding hex
hex-no_colon [] = tt
hex-no_colon (b ∷ s) = (hex_digit-differs (b / 16), (hex_digit-differs (b % 16), hex-no_colon s))

-- ===== src/Prelude/Pow.antt =====
-- Powers of ten.
use Prim.Native.Nat.{ℕ, zero, suc, ◌+◌, ◌*◌, ◌^◌, ◌<◌}
use mathlib.Core.Path.{◌≡◌, ap}
use native.Mathlib.Omega.{arith}
use native.Mathlib.Nat.{pow-suc}

pub pow10-suc : (n : ℕ) → 10 ^ suc n ≡ 10 * 10 ^ n
pow10-suc n = omega (arith, pow-suc 10 n)

pub pow10-add : (m n : ℕ) → 10 ^ (m + n) ≡ 10 ^ m * 10 ^ n
pow10-add zero n = let e : 0 + n ≡ n = omega arith in rw e (omega arith)
pow10-add (suc m) n =
    let e : suc m + n ≡ suc (m + n) = omega arith in
    rw e (omega (arith, pow10-suc (m + n), pow10-add m n, ap (λ (t : ℕ). t * 10 ^ n) (pow10-suc m)))

pub pow10_pos : (n : ℕ) → 0 < 10 ^ n
pow10_pos zero = omega arith
pow10_pos (suc n) = omega (arith, pow10-suc n, pow10_pos n)

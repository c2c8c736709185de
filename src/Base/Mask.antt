-- ===== src/Base/Mask.antt =====
-- What a mask keeps: laws of `&` at every width.
use Prim.Native.Nat.{ℕ, zero, suc, ◌+◌, ◌*◌, ◌/◌, ◌%◌, ◌^◌, ◌≤◌, ◌<◌, bit_and}
use mathlib.Core.Path.{◌≡◌}
use native.Mathlib.Nat.{pow-suc, le_refl}
use native.Mathlib.Omega.{arith}
use light_modem.Base.Bits.{and_step, zero_of_le, double}

and-zero_le : (n a : ℕ) → a ≤ n → bit_and a 0 ≡ 0
and-zero_le zero a p = rw (zero_of_le a p)
and-zero_le (suc n) a p = omega (arith, and_step a 0, and-zero_le n (a / 2) (omega arith))

abbrev ones : ℕ → ℕ
ones zero = 0
ones (suc k) = ones k * 2 + 1

-- A mask of `k` ones keeps the lower field.
and_ones : (k q r : ℕ) → r < 2 ^ k → bit_and (q * 2 ^ k + r) (ones k) ≡ r
and_ones zero q r p =
    omega (arith, and-zero_le (q * 2 ^ 0 + r) (q * 2 ^ 0 + r) (le_refl (q * 2 ^ 0 + r)))
and_ones (suc k) q r p =
    let half : (q * 2 ^ suc k + r) / 2 ≡ q * 2 ^ k + r / 2 = omega (arith, double q k) in
    let half' : ones (suc k) / 2 ≡ ones k = omega arith in
    let ih : bit_and ((q * 2 ^ suc k + r) / 2) (ones (suc k) / 2) ≡ r / 2 =
      rw (half, half') (and_ones k q (r / 2) (omega (arith, pow-suc 2 k))) in
    omega (arith, double q k, and_step (q * 2 ^ suc k + r) (ones (suc k)), ih)

pub and_byte : (a : ℕ) → bit_and a 0xff ≡ a % 2 ^ 8
and_byte a = rw (split) at (and_ones 8 (a / 256) (a % 256) (omega arith))
  where
    split : a / 256 * 2 ^ 8 + a % 256 ≡ a
    split = omega arith

pub and_one : (a : ℕ) → bit_and a 1 ≡ a % 2
and_one a = rw (split) at (and_ones 1 (a / 2) (a % 2) (omega arith))
  where
    split : a / 2 * 2 ^ 1 + a % 2 ≡ a
    split = omega arith

pub and_half : (a : ℕ) → bit_and a 0xffff ≡ a % 2 ^ 16
and_half a = rw (split) at (and_ones 16 (a / 2 ^ 16) (a % 2 ^ 16) (omega arith))
  where
    split : a / 2 ^ 16 * 2 ^ 16 + a % 2 ^ 16 ≡ a
    split = omega arith

pub and_low : (a : ℕ) → bit_and a 0x7fff ≡ a % 2 ^ 15
and_low a = rw (split) at (and_ones 15 (a / 2 ^ 15) (a % 2 ^ 15) (omega arith))
  where
    split : a / 2 ^ 15 * 2 ^ 15 + a % 2 ^ 15 ≡ a
    split = omega arith

-- A mask with the one bit `k`.
and_bit : (k q d r : ℕ) → d < 2 → r < 2 ^ k → bit_and ((q * 2 + d) * 2 ^ k + r) (2 ^ k) ≡ d * 2 ^ k
and_bit zero q d r p h =
    let low : r ≡ 0 = zero_of_le r (omega arith) in
    let half : ((q * 2 + d) * 2 ^ 0 + r) / 2 ≡ q = omega arith in
    let ih : bit_and (((q * 2 + d) * 2 ^ 0 + r) / 2) (2 ^ 0 / 2) ≡ 0 =
      rw half (and-zero_le q q (le_refl q)) in
    omega (arith, and_step ((q * 2 + d) * 2 ^ 0 + r) (2 ^ 0), ih)
and_bit (suc k) q d r p h =
    let e = double (q * 2 + d) k in
    let half : ((q * 2 + d) * 2 ^ suc k + r) / 2 ≡ (q * 2 + d) * 2 ^ k + r / 2 = omega (arith, e) in
    let half' : 2 ^ suc k / 2 ≡ 2 ^ k = omega (arith, pow-suc 2 k) in
    let ih : bit_and (((q * 2 + d) * 2 ^ suc k + r) / 2) (2 ^ suc k / 2) ≡ d * 2 ^ k =
      rw (half, half') (and_bit k q d (r / 2) p (omega (arith, pow-suc 2 k))) in
    omega
      (arith, e, double d k, pow-suc 2 k, and_step ((q * 2 + d) * 2 ^ suc k + r) (2 ^ suc k), ih)

pub and_top : (a : ℕ) → bit_and a 0x8000 ≡ a / 2 ^ 15 % 2 * 2 ^ 15
and_top a =
    rw (split) at
      (and_bit 15 (a / 2 ^ 16) (a / 2 ^ 15 % 2) (a % 2 ^ 15) (omega arith) (omega arith))
  where
    split : (a / 2 ^ 16 * 2 + a / 2 ^ 15 % 2) * 2 ^ 15 + a % 2 ^ 15 ≡ a
    split = omega arith

-- A mask that ends in zeros.
and_shl : (k q r b : ℕ) → r < 2 ^ k → bit_and (q * 2 ^ k + r) (b * 2 ^ k) ≡ bit_and q b * 2 ^ k
and_shl zero q r b h =
    let low : r ≡ 0 = zero_of_le r (omega arith) in
    let one : q * 2 ^ 0 + r ≡ q = omega arith in
    let one' : b * 2 ^ 0 ≡ b = omega arith in rw (one, one') (omega arith)
and_shl (suc k) q r b h =
    let half : (q * 2 ^ suc k + r) / 2 ≡ q * 2 ^ k + r / 2 = omega (arith, double q k) in
    let half' : b * 2 ^ suc k / 2 ≡ b * 2 ^ k = omega (arith, double b k) in
    let ih : bit_and ((q * 2 ^ suc k + r) / 2) (b * 2 ^ suc k / 2) ≡ bit_and q b * 2 ^ k =
      rw (half, half') (and_shl k q (r / 2) b (omega (arith, pow-suc 2 k))) in
    omega (
      arith,
      double q k,
      double b k,
      double (bit_and q b) k,
      and_step (q * 2 ^ suc k + r) (b * 2 ^ suc k),
      ih,
    )

pub and_high : (a : ℕ) → bit_and a 0xff00 / 2 ^ 8 ≡ a / 2 ^ 8 % 2 ^ 8
and_high a =
    let whole : a / 2 ^ 8 * 2 ^ 8 + a % 2 ^ 8 ≡ a = omega arith in
    let masked : bit_and a 0xff00 ≡ bit_and (a / 2 ^ 8) 0xff * 2 ^ 8 =
      rw (whole) at (and_shl 8 (a / 2 ^ 8) (a % 2 ^ 8) 0xff (omega arith)) in
    omega (arith, masked, and_byte (a / 2 ^ 8))

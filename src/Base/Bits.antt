-- ===== src/Base/Bits.antt =====
-- The lowest digit of `&` and `^`, and the laws of `^` at every width.
use Prim.Native.Nat.{
  ℕ, zero, suc, ◌+◌, ◌*◌, ◌/◌, ◌%◌, ◌^◌, ◌≤◌, ◌<◌, min, differ, digits, bitwise, bit_and, bit_xor,
  bit_and-bitwise, bit_xor-bitwise, bit_or, bit_or-bitwise, max,
}
use mathlib.Core.Path.{◌≡◌, refl, ap, ◌∙◌, sym}
use native.Mathlib.Nat.{pow-suc, le_refl, div-add-mod', mod-lt, one-le-pow}
use native.Mathlib.Omega.{arith}

module _ (rest : ℕ → ℕ) (digit : ℕ → ℕ → ℕ) where
  digits_over : (fuel y : ℕ) → digits rest digit fuel 0 y ≡ rest y
  digits_over zero y = refl
  digits_over (suc fuel) y = refl

  -- Fuel beyond the first number changes nothing.
  more_fuel :
      (x y fuel more : ℕ)
      → x ≤ fuel
      → fuel ≤ more
      → digits rest digit more x y ≡ digits rest digit fuel x y
  more_fuel zero y fuel more h k = digits_over more y ∙ sym (digits_over fuel y)
  more_fuel (suc x) y zero more h k = absurd (omega arith)
  more_fuel (suc x) y (suc fuel) zero h k = absurd (omega arith)
  more_fuel (suc x) y (suc fuel) (suc more) h k =
      ap (λ (high : ℕ). high * 2 + digit (suc x % 2) (y % 2))
        (more_fuel (suc x / 2) (y / 2) fuel more (omega arith) (omega arith))

  lowest_digit :
      (y x : ℕ)
      → bitwise rest digit (suc x) y
        ≡ bitwise rest digit (suc x / 2) (y / 2) * 2 + digit (suc x % 2) (y % 2)
  lowest_digit y x =
      omega (arith, more_fuel (suc x / 2) (y / 2) (suc x / 2) x (omega arith) (omega arith))

differ_digits : (x y : ℕ) → x < 2 → y < 2 → differ x y ≡ (x + y) % 2
differ_digits zero y p q = omega arith
differ_digits (suc zero) zero p q = refl
differ_digits (suc zero) (suc zero) p q = refl
differ_digits (suc zero) (suc (suc y)) p q = absurd (omega arith)
differ_digits (suc (suc x)) y p q = absurd (omega arith)

pub xor_step : (a b : ℕ) → bit_xor a b ≡ bit_xor (a / 2) (b / 2) * 2 + (a % 2 + b % 2) % 2
xor_step zero b = simp bit_xor-bitwise (omega arith)
xor_step (suc a) b = simp bit_xor-bitwise (
    omega (
      arith,
      lowest_digit (λ y. y) differ b a,
      differ_digits (suc a % 2) (b % 2) (omega arith) (omega arith),
    ))

pub and_step : (a b : ℕ) → bit_and a b ≡ bit_and (a / 2) (b / 2) * 2 + min (a % 2) (b % 2)
and_step zero b = simp bit_and-bitwise (omega arith)
and_step (suc a) b = simp bit_and-bitwise (lowest_digit (λ y. 0) min b a)

pub or_step : (a b : ℕ) → bit_or a b ≡ bit_or (a / 2) (b / 2) * 2 + max (a % 2) (b % 2)
or_step zero b = simp bit_or-bitwise (omega arith)
or_step (suc a) b = simp bit_or-bitwise (lowest_digit (λ y. y) max b a)

-- The lowest digit is set.
pub or_one : (a : ℕ) → bit_or a 1 % 2 ≡ 1
or_one zero = refl
or_one (suc a) = simp bit_or-bitwise (omega (arith, lowest_digit (λ y. y) max 1 a))

pub zero-xor : (b : ℕ) → bit_xor 0 b ≡ b
zero-xor b = bit_xor-bitwise 0 b

pub zero_of_le : (a : ℕ) → a ≤ 0 → a ≡ 0
zero_of_le a p = omega arith

-- Laws for all numbers up to a bound, by induction on the bound.
xor_comm_le : (n a b : ℕ) → a ≤ n → b ≤ n → bit_xor a b ≡ bit_xor b a
xor_comm_le zero a b p q = rw (zero_of_le a p, zero_of_le b q)
xor_comm_le (suc n) a b p q =
    omega
      (arith, xor_step a b, xor_step b a, xor_comm_le n (a / 2) (b / 2) (omega arith) (omega arith))

pub xor_comm : (a b : ℕ) → bit_xor a b ≡ bit_xor b a
xor_comm a b = xor_comm_le (a + b) a b (omega arith) (omega arith)

xor_assoc_le :
    (n a b c : ℕ) → a ≤ n → b ≤ n → c ≤ n → bit_xor (bit_xor a b) c ≡ bit_xor a (bit_xor b c)
xor_assoc_le zero a b c p q r = rw (zero_of_le a p, zero_of_le b q, zero_of_le c r)
xor_assoc_le (suc n) a b c p q r =
    let ab : bit_xor a b / 2 ≡ bit_xor (a / 2) (b / 2) = omega (arith, xor_step a b) in
    let bc : bit_xor b c / 2 ≡ bit_xor (b / 2) (c / 2) = omega (arith, xor_step b c) in
    let ih = xor_assoc_le n (a / 2) (b / 2) (c / 2) (omega arith) (omega arith) (omega arith) in
    let left : bit_xor (bit_xor a b / 2) (c / 2) ≡ bit_xor (a / 2) (bit_xor b c / 2) =
      rw (ab, bc) ih in
    omega
      (arith, xor_step (bit_xor a b) c, xor_step a (bit_xor b c), xor_step a b, xor_step b c, left)

pub xor_assoc : (a b c : ℕ) → bit_xor (bit_xor a b) c ≡ bit_xor a (bit_xor b c)
xor_assoc a b c = xor_assoc_le (a + b + c) a b c (omega arith) (omega arith) (omega arith)

xor_self_le : (n a : ℕ) → a ≤ n → bit_xor a a ≡ 0
xor_self_le zero a p = rw (zero_of_le a p)
xor_self_le (suc n) a p = omega (arith, xor_step a a, xor_self_le n (a / 2) (omega arith))

pub xor_self : (a : ℕ) → bit_xor a a ≡ 0
xor_self a = xor_self_le a a (le_refl a)

pub xor_right_comm : (a b c : ℕ) → bit_xor (bit_xor a b) c ≡ bit_xor (bit_xor a c) b
xor_right_comm a b c = cc (xor_assoc a b c, xor_assoc a c b, xor_comm b c)

pub xor-zero : (a : ℕ) → bit_xor a 0 ≡ a
xor-zero a = xor_comm a 0 ∙ zero-xor a

-- The same value on both sides falls out.
pub xor_cancel : (a b c : ℕ) → bit_xor (bit_xor a c) (bit_xor b c) ≡ bit_xor a b
xor_cancel a b c =
    cc (xor_assoc a c (bit_xor b c), xor_comm b c, xor_assoc c c b, xor_self c, zero-xor b)

pub double : (q k : ℕ) → q * 2 ^ suc k ≡ 2 * (q * 2 ^ k)
double q k = omega (arith, ap (λ (t : ℕ). q * t) (pow-suc 2 k))

-- Two values that hold a high and a low field are combined field by field.
pub xor_fields :
    (k q r q' r' : ℕ)
    → r < 2 ^ k
    → r' < 2 ^ k
    → bit_xor (q * 2 ^ k + r) (q' * 2 ^ k + r') ≡ bit_xor q q' * 2 ^ k + bit_xor r r'
xor_fields zero q r q' r' p p' =
    let low : r ≡ 0 = zero_of_le r (omega arith) in
    let low' : r' ≡ 0 = zero_of_le r' (omega arith) in
    let one : q * 2 ^ 0 + r ≡ q = omega arith in
    let one' : q' * 2 ^ 0 + r' ≡ q' = omega arith in
    rw (one, one', low, low') (omega (arith, zero-xor 0))
xor_fields (suc k) q r q' r' p p' =
    let a = q * 2 ^ suc k + r in
    let b = q' * 2 ^ suc k + r' in
    let half : a / 2 ≡ q * 2 ^ k + r / 2 = omega (arith, double q k) in
    let half' : b / 2 ≡ q' * 2 ^ k + r' / 2 = omega (arith, double q' k) in
    let ih : bit_xor (a / 2) (b / 2) ≡ bit_xor q q' * 2 ^ k + bit_xor (r / 2) (r' / 2) =
      rw (half, half')
        (xor_fields k q (r / 2) q' (r' / 2) (omega (arith, pow-suc 2 k))
          (omega (arith, pow-suc 2 k))) in
    omega (arith, double q k, double q' k, double (bit_xor q q') k, xor_step a b, xor_step r r', ih)

split_at : (k a : ℕ) → a / 2 ^ k * 2 ^ k + a % 2 ^ k ≡ a
split_at k a = div-add-mod' a (2 ^ k)

-- The fields of two values, at bit `k`.
pub xor_split :
    (k a b : ℕ)
    → bit_xor a b ≡ bit_xor (a / 2 ^ k) (b / 2 ^ k) * 2 ^ k + bit_xor (a % 2 ^ k) (b % 2 ^ k)
xor_split k a b =
    rw (split_at k a, split_at k b) at
      (xor_fields k (a / 2 ^ k) (a % 2 ^ k) (b / 2 ^ k) (b % 2 ^ k)
        (mod-lt a (one-le-pow k 2 (omega arith))) (mod-lt b (one-le-pow k 2 (omega arith))))

pub xor-lt : (k a b : ℕ) → a < 2 ^ k → b < 2 ^ k → bit_xor a b < 2 ^ k
xor-lt zero a b p q = rw (zero_of_le a (omega arith), zero_of_le b (omega arith)) (omega arith)
xor-lt (suc k) a b p q = omega (
  arith,
  pow-suc 2 k,
  xor_step a b,
  xor-lt k (a / 2) (b / 2) (omega (arith, pow-suc 2 k)) (omega (arith, pow-suc 2 k)),
)

pub xor-shl : (k a b : ℕ) → bit_xor (a * 2 ^ k) (b * 2 ^ k) ≡ bit_xor a b * 2 ^ k
xor-shl zero a b = rw (one a, one b, one (bit_xor a b))
  where
    one : (n : ℕ) → n * 2 ^ 0 ≡ n
    one n = omega arith
xor-shl (suc k) a b =
    let half : a * 2 ^ suc k / 2 ≡ a * 2 ^ k = omega (arith, double a k) in
    let half' : b * 2 ^ suc k / 2 ≡ b * 2 ^ k = omega (arith, double b k) in
    let ih : bit_xor (a * 2 ^ suc k / 2) (b * 2 ^ suc k / 2) ≡ bit_xor a b * 2 ^ k =
      rw (half, half') (xor-shl k a b) in
    omega (
      arith,
      double a k,
      double b k,
      double (bit_xor a b) k,
      xor_step (a * 2 ^ suc k) (b * 2 ^ suc k),
      ih,
    )

-- Bit `k` of one value is set in the other.
or_field : (k q r : ℕ) → r < 2 ^ k → bit_or (q * 2 ^ k + r) (2 ^ k) ≡ bit_or q 1 * 2 ^ k + r
or_field zero q r p =
    let low : r ≡ 0 = zero_of_le r (omega arith) in
    let one : q * 2 ^ 0 + r ≡ q = omega arith in rw (one, low) (omega arith)
or_field (suc k) q r p =
    let half : (q * 2 ^ suc k + r) / 2 ≡ q * 2 ^ k + r / 2 = omega (arith, double q k) in
    let half' : 2 ^ suc k / 2 ≡ 2 ^ k = omega (arith, pow-suc 2 k) in
    let ih : bit_or ((q * 2 ^ suc k + r) / 2) (2 ^ suc k / 2) ≡ bit_or q 1 * 2 ^ k + r / 2 =
      rw (half, half') (or_field k q (r / 2) (omega (arith, pow-suc 2 k))) in
    omega (
      arith,
      double q k,
      double (bit_or q 1) k,
      pow-suc 2 k,
      or_step (q * 2 ^ suc k + r) (2 ^ suc k),
      ih,
    )

or_one_one : (q : ℕ) → q < 2 → bit_or q 1 ≡ 1
or_one_one zero p = refl
or_one_one (suc zero) p = refl
or_one_one (suc (suc q)) p = absurd (omega arith)

pub or_top : (a : ℕ) → a < 2 ^ 16 → bit_or a 0x8000 ≡ 2 ^ 15 + a % 2 ^ 15
or_top a p =
    let split : a / 2 ^ 15 * 2 ^ 15 + a % 2 ^ 15 ≡ a = omega arith in
    let masked : bit_or a 0x8000 ≡ bit_or (a / 2 ^ 15) 1 * 2 ^ 15 + a % 2 ^ 15 =
      rw (split) at (or_field 15 (a / 2 ^ 15) (a % 2 ^ 15) (omega arith)) in
    omega (arith, masked, or_one_one (a / 2 ^ 15) (omega arith))

-- ===== src/Crc/Table.antt =====
-- One round of `crc16_doCalcul` with the table of `crc16_init` is eight steps of a shift register,
-- since the steps are linear.
use light_modem.Base.{
  ℕ, zero, suc, ◌+◌, ◌*◌, ◌/◌, ◌%◌, ◌^◌, ◌<◌, ◌≤◌, ◌≡◌, refl, ap, ◌∙◌, sym, arith, u32, bit_and,
  bit_xor, ◌==◌, if◌then◌else◌, get_or, xor_split, xor_cancel, xor_right_comm, xor_assoc, xor_self,
  xor-zero, zero-xor, xor-lt, xor-shl, and_byte, and_half, and_top,
}
use native.Mathlib.Nat.{pow-suc, one-le-pow, le-mul_of_pos_right}
use light_modem.Crc.{shift_bit, shift_bits, entry, entries, init, update}

low_part : (c e : ℕ) → e < 2 ^ 16 → bit_xor (c * 256) e % 2 ^ 16 ≡ bit_xor (c % 256 * 256) e
low_part c e h = ground (arith, xor_split 16 (c * 256) e, xor-lt 16 (c * 256 % 2 ^ 16) (e % 2 ^ 16))

regroup : (c byte : ℕ) → bit_xor c (byte * 256) ≡ bit_xor (c % 256) (bit_xor (c / 256) byte * 256)
regroup c byte =
    let k = bit_xor (c / 256) byte in
    ground (arith, xor_split 8 c (byte * 256), xor_split 8 (c % 256) (k * 256), zero-xor k)

-- The register without input.
unfoldable pub step : ℕ → ℕ → ℕ
step polynome crc =
    let rest = crc % 2 ^ 15 * 2 in if crc / 2 ^ 15 == 0 then rest else bit_xor rest polynome

unfoldable pub steps : ℕ → ℕ → ℕ → ℕ
steps polynome zero crc = crc
steps polynome (suc n) crc = steps polynome n (step polynome crc)

module _ (polynome : ℕ) (poly_fits : polynome < 2 ^ 16) where
  pub step-lt : (c : ℕ) → step polynome c < 2 ^ 16
  unfolding step
  step-lt c = ground (arith, xor-lt 16 (c % 2 ^ 15 * 2) polynome)

  -- The uint32_t of the C code is not cut to 16 bits between rounds; its lower half is the register.
  shift_bit-step : (c : ℕ) → shift_bit polynome c % 2 ^ 16 ≡ step polynome (c % 2 ^ 16)
  unfolding shift_bit step
  shift_bit-step c = ground (
    arith,
    and_top c,
    xor_split 16 (u32 (c * 2)) polynome,
    xor-lt 16 (u32 (c * 2) % 2 ^ 16) polynome,
  )

  pub step-xor :
      (a b : ℕ)
      → a < 2 ^ 16
      → b < 2 ^ 16
      → step polynome (bit_xor a b) ≡ bit_xor (step polynome a) (step polynome b)
  unfolding step
  step-xor a b p q = ground (
    arith,
    xor_split 15 a b,
    xor-lt 15 (a % 2 ^ 15) (b % 2 ^ 15),
    xor-shl 1 (a % 2 ^ 15) (b % 2 ^ 15),
    zero-xor (b / 2 ^ 15),
    xor-zero (a / 2 ^ 15),
    xor_self (a / 2 ^ 15),
    xor_cancel (a % 2 ^ 15 * 2) (b % 2 ^ 15 * 2) polynome,
    xor_assoc (a % 2 ^ 15 * 2) (b % 2 ^ 15 * 2) polynome,
    xor_right_comm (a % 2 ^ 15 * 2) polynome (b % 2 ^ 15 * 2),
  )

  pub steps-lt : (n c : ℕ) → c < 2 ^ 16 → steps polynome n c < 2 ^ 16
  unfolding steps
  steps-lt zero c h = h
  steps-lt (suc n) c h = steps-lt n (step polynome c) (step-lt c)

  steps-xor :
      (n a b : ℕ)
      → a < 2 ^ 16
      → b < 2 ^ 16
      → steps polynome n (bit_xor a b) ≡ bit_xor (steps polynome n a) (steps polynome n b)
  unfolding steps
  steps-xor zero a b p q = refl
  steps-xor (suc n) a b p q =
      rw (step-xor a b p q)
        (steps-xor n (step polynome a) (step polynome b) (step-lt a) (step-lt b))

  shift_bits-steps : (n c : ℕ) → shift_bits polynome n c % 2 ^ 16 ≡ steps polynome n (c % 2 ^ 16)
  unfolding shift_bits steps
  shift_bits-steps zero c = refl
  shift_bits-steps (suc n) c =
      shift_bits-steps n (shift_bit polynome c) ∙ ap (steps polynome n) (shift_bit-step c)

  pub step_small : (v : ℕ) → v < 2 ^ 15 → step polynome v ≡ v * 2
  unfolding step
  step_small v h = ground arith

  entry_lem : (i : ℕ) → i < 256 → entry polynome i ≡ steps polynome 8 (i * 256)
  unfolding entry
  entry_lem i h =
      let small : u32 (i * 2 ^ 8) % 2 ^ 16 ≡ i * 256 = omega arith in
      rw (and_half) (shift_bits-steps 8 (u32 (i * 2 ^ 8)) ∙ ap (steps polynome 8) small)

  -- A value with room above is only shifted.
  steps_small : (n v : ℕ) → v * 2 ^ n < 2 ^ 16 → steps polynome n v ≡ v * 2 ^ n
  unfolding steps
  steps_small zero v h = omega arith
  steps_small (suc n) v h =
      let twice : v * 2 ^ suc n ≡ v * 2 * 2 ^ n =
        omega (arith, ap (λ (t : ℕ). v * t) (pow-suc 2 n)) in
      let some_room : v * 2 ≤ v * 2 * 2 ^ n =
        le-mul_of_pos_right (v * 2) (one-le-pow n 2 (omega arith)) in
      rw (step_small v (omega (arith, twice, some_room)))
        (steps_small n (v * 2) (omega (arith, twice)) ∙ sym twice)

  get_or-entries :
      (left i k : ℕ) → k < left → get_or (entries polynome left i) k 0 ≡ entry polynome (i + k)
  unfolding entries
  get_or-entries zero i k h = absurd (omega arith)
  get_or-entries (suc left) i zero h = ap (entry polynome) {x = i} (omega arith)
  get_or-entries (suc left) i (suc k) h =
      get_or-entries left (i + 1) k (omega arith)
      ∙ ap (entry polynome) {x = i + 1 + k} (omega arith)

  pub update_lem :
      (c byte : ℕ)
      → c < 2 ^ 16
      → byte < 256
      → update (init polynome) c byte ≡ steps polynome 8 (bit_xor c (byte * 256))
  unfolding update init
  update_lem c byte h b =
      let k = bit_xor (c / 256) byte in
      let k_fits : k < 256 = xor-lt 8 (c / 256) byte (omega arith) b in
      let index : bit_and k 0xff ≡ k = omega (arith, and_byte k, k_fits) in
      let e = steps polynome 8 (k * 256) in
      let e_fits : e < 2 ^ 16 = steps-lt 8 (k * 256) (omega arith) in
      let looked_up : get_or (entries polynome 256 0) k 0 ≡ e =
        get_or-entries 256 0 k k_fits
        ∙ ap (entry polynome) {y = k} (omega arith)
        ∙ entry_lem k k_fits in
      let low : bit_xor (c * 256) e % 2 ^ 16 ≡ bit_xor (c % 256 * 256) e = low_part c e e_fits in
      let joined : bit_xor c (byte * 256) ≡ bit_xor (c % 256) (k * 256) = regroup c byte in
      rw (index, looked_up, low, joined)
        (ap (λ t. bit_xor t e) (sym (steps_small 8 (c % 256) (omega arith)))
          ∙ sym (steps-xor 8 (c % 256) (k * 256) (omega arith) (omega arith)))

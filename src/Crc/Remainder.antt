-- ===== src/Crc/Remainder.antt =====
-- `crc16_doCalcul` against the division, for polynomials of 16 bits.
use native.Mathlib.Nat.{
  pow-suc, one-le-pow, mod-lt, mod-eq_of_lt, div-add-mod', mul-add-mod_self_right, mul-le-mul_right,
  zero-mul,
}
use light_modem.Base.{
  ℕ, zero, suc, ◌+◌, ◌*◌, ◌/◌, ◌%◌, ◌^◌, ◌<◌, ◌≤◌, ◌≡◌, refl, ap, ◌∙◌, sym, List, [], ◌∷◌, arith,
  done, bit_xor, IsBytes, IsBytes-take, load-done, take, length, zero-xor, xor-zero, xor_self,
  xor_split, xor_assoc, xor-lt,
}
use light_modem.Crc.{init, update, updates, do_calcul}
use light_modem.Crc.Division.{feed_bit, feed_bits, remainder}
use light_modem.Crc.Table.{step, steps, step-xor, steps-lt, step_small, update_lem}

-- The bits of `byte` up to bit `n`.
split_bit : (n byte : ℕ) → byte % 2 ^ suc n ≡ byte / 2 ^ n % 2 * 2 ^ n + byte % 2 ^ n
split_bit n byte =
    let high = byte / 2 ^ n in
    let rest = high % 2 * 2 ^ n + byte % 2 ^ n in
    let halves : (high / 2 * 2 + high % 2) * 2 ^ n ≡ high * 2 ^ n =
      ap (λ t. t * 2 ^ n) {x = high / 2 * 2 + high % 2} (omega arith) in
    let whole : high / 2 * 2 ^ suc n + rest ≡ byte =
      omega
        (arith, ap (λ (t : ℕ). high / 2 * t) (pow-suc 2 n), halves, div-add-mod' byte (2 ^ n)) in
    let below : byte % 2 ^ n < 2 ^ n = mod-lt byte (one-le-pow n 2 (omega arith)) in
    let digit : high % 2 * 2 ^ n ≤ 1 * 2 ^ n = mul-le-mul_right (2 ^ n) (omega arith) in
    let fits : rest < 2 ^ suc n = omega (arith, pow-suc 2 n, below, digit) in
    ap (λ t. t % 2 ^ suc n) (sym whole)
    ∙ mul-add-mod_self_right (high / 2) (2 ^ suc n) rest
    ∙ mod-eq_of_lt fits

join : (b rest : ℕ) → rest < 2 ^ 15 → b * 2 ^ 15 + rest ≡ bit_xor (b * 2 ^ 15) rest
join b rest h = ground (arith, xor_split 15 (b * 2 ^ 15) rest, xor-zero b, zero-xor rest)

positive_factor : (w t : ℕ) → w * t ≡ 2 ^ 15 → 0 < w
positive_factor zero t e = absurd (omega (arith, zero-mul t, e))
positive_factor (suc w) t e = omega arith

module _ (polynome : ℕ) (poly_fits : polynome < 2 ^ 16) where
  feed_bit-lt : (c b : ℕ) → feed_bit polynome c b < 2 ^ 16
  unfolding feed_bit
  feed_bit-lt c b = ground (arith, xor-lt 16 (c % 2 ^ 15 * 2) polynome)

  feed_bit_lem :
      (c b : ℕ)
      → c < 2 ^ 16
      → b < 2
      → feed_bit polynome c b ≡ step polynome (bit_xor c (b * 2 ^ 15))
  unfolding feed_bit step
  feed_bit_lem c b h p = ground (
    arith,
    xor_split 15 c (b * 2 ^ 15),
    xor-zero (c % 2 ^ 15),
    xor-zero (c / 2 ^ 15),
    zero-xor b,
    xor_self b,
  )

  -- The bits taken in one by one are those that a value in the upper part brings in at once.
  feed_bits_lem :
      (n byte c w : ℕ)
      → c < 2 ^ 16
      → w * 2 ^ n ≡ 2 ^ 16
      → feed_bits polynome n byte c ≡ steps polynome n (bit_xor c (byte % 2 ^ n * w))
  unfolding feed_bits steps
  feed_bits_lem zero byte c w h e =
      let nothing : byte % 2 ^ 0 * w ≡ 0 =
        ap (λ t. t * w) {x = byte % 2 ^ 0} {y = 0} (omega arith) ∙ zero-mul w in
      rw (nothing, xor-zero c)
  feed_bits_lem (suc n) byte c w h e =
      let b = byte / 2 ^ n % 2 in
      let v = byte % 2 ^ n in
      let c' = feed_bit polynome c b in
      let half : w * 2 ^ n ≡ 2 ^ 15 = omega (arith, ap (λ (t : ℕ). w * t) (pow-suc 2 n), e) in
      let value : byte % 2 ^ suc n * w ≡ b * 2 ^ 15 + v * w =
        omega (arith, ap (λ (t : ℕ). t * w) (split_bit n byte), ap (λ (t : ℕ). b * t) half) in
      let below : (v + 1) * w ≤ 2 ^ n * w =
        mul-le-mul_right w
          (omega (arith, mod-lt byte {m = 2 ^ n} (one-le-pow n 2 (omega arith)))) in
      let positive : 0 < w = positive_factor w (2 ^ n) half in
      let fits : v * w < 2 ^ 15 = omega (arith, below, half, positive) in
      let ih = feed_bits_lem n byte c' (w * 2) (feed_bit-lt c b) (omega (arith, half)) in
      let moved : v * w * 2 ≡ v * (w * 2) = omega arith in
      rw
        (
          value,
          join b (v * w) fits,
          ← xor_assoc c (b * 2 ^ 15) (v * w),
          step-xor polynome poly_fits (bit_xor c (b * 2 ^ 15)) (v * w)
              (xor-lt 16 c (b * 2 ^ 15) h (omega arith)) (omega arith),
          step_small polynome poly_fits (v * w) fits,
          ← feed_bit_lem c b h (omega arith),
          moved,
        )
        ih

  update-feed_bits :
      (c byte : ℕ)
      → c < 2 ^ 16
      → byte < 256
      → update (init polynome) c byte ≡ feed_bits polynome 8 byte c
  update-feed_bits c byte h b =
      let whole : byte * 256 ≡ byte % 2 ^ 8 * 256 = omega arith in
      update_lem polynome poly_fits c byte h b
      ∙ ap (λ t. steps polynome 8 (bit_xor c t)) whole
      ∙ sym (feed_bits_lem 8 byte c 256 h refl)

  pub update-lt : (c byte : ℕ) → c < 2 ^ 16 → byte < 256 → update (init polynome) c byte < 2 ^ 16
  update-lt c byte h b = rw (update_lem polynome poly_fits c byte h b) (
      steps-lt polynome poly_fits 8 (bit_xor c (byte * 256))
        (xor-lt 16 c (byte * 256) h (omega arith)))

  pub updates-lt :
      (c : ℕ) (bytes : List ℕ)
      → c < 2 ^ 16
      → IsBytes bytes
      → updates (init polynome) c bytes < 2 ^ 16
  unfolding updates
  updates-lt c [] h b = h
  updates-lt c (byte ∷ bytes) h b =
      updates-lt (update (init polynome) c byte) bytes (update-lt c byte h b.0) b.1

  updates-remainder :
      (c : ℕ) (bytes : List ℕ)
      → c < 2 ^ 16
      → IsBytes bytes
      → updates (init polynome) c bytes ≡ remainder polynome c bytes
  unfolding updates remainder
  updates-remainder c [] h b = refl
  updates-remainder c (byte ∷ bytes) h b =
      updates-remainder (update (init polynome) c byte) bytes (update-lt c byte h b.0) b.1
      ∙ ap (λ t. remainder polynome t bytes) (update-feed_bits c byte h b.0)

  pub remainder-lt :
      (c : ℕ) (bytes : List ℕ) → c < 2 ^ 16 → IsBytes bytes → remainder polynome c bytes < 2 ^ 16
  remainder-lt c bytes h b = rw (← updates-remainder c bytes h b) (updates-lt c bytes h b)

-- For every polynomial and start value of 16 bits, `crc16_doCalcul` on a context made by
-- `crc16_init` returns the remainder that the bitwise division leaves for the first `len` bytes,
-- combined with the final value by exclusive or, if the memory holds `len` bytes or more.
pub do_calcul-remainder :
    (polynome init_value xor_final len : ℕ) (buf : List ℕ)
    → polynome < 2 ^ 16
    → init_value < 2 ^ 16
    → IsBytes buf
    → len ≤ length buf
    → do_calcul (init polynome) buf len init_value xor_final
      ≡ done (bit_xor (remainder polynome init_value (take len buf)) xor_final)
unfolding do_calcul
do_calcul-remainder polynome init_value xor_final len buf poly_fits init_fits bytes enough =
    rw (load-done buf 0 len (omega arith), do_calcul)
      (ap (λ t. done (bit_xor t xor_final))
        (updates-remainder polynome poly_fits init_value (take len buf) init_fits
          (IsBytes-take len buf bytes)))

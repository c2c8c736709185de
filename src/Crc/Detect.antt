-- ===== src/Crc/Detect.antt =====
-- What the CRC of src/crc16.c tells apart.
use light_modem.Base.{
  ℕ, zero, suc, ◌+◌, ◌*◌, ◌%◌, ◌^◌, ◌<◌, ◌≡◌, ◌≢◌, ◌∙◌, sym, List, [], ◌∷◌, ◌++◌, arith, done,
  bit_xor, IsBytes, xor_comm, xor_assoc, xor_self, xor-zero, xor_step, xor-lt, load-done, take,
  take-length, length, length-append,
}
use light_modem.Crc.{init, update, updates, do_calcul}
use light_modem.Crc.Table.{step, steps, step-lt, update_lem}
use light_modem.Crc.Remainder.{update-lt}

xor_twice : (a p : ℕ) → bit_xor (bit_xor a p) p ≡ a
xor_twice a p = cc (xor_assoc a p p, xor_self p, xor-zero a)

xor_injective : (a b p : ℕ) → bit_xor a p ≡ bit_xor b p → a ≡ b
xor_injective a b p e = cc (xor_twice a p, xor_twice b p)

xor_parity : (a p : ℕ) → p % 2 ≡ 1 → bit_xor (a * 2) p % 2 ≡ 1
xor_parity a p odd = omega (arith, xor_step (a * 2) p)

module _ (polynome : ℕ) (poly_fits : polynome < 2 ^ 16) (odd : polynome % 2 ≡ 1) where
  -- The parity of the result tells the bit that fell out.
  step-injective : (a b : ℕ) → a < 2 ^ 16 → b < 2 ^ 16 → step polynome a ≡ step polynome b → a ≡ b
  unfolding step
  step-injective a b p q e = ground (
    arith,
    xor_parity (a % 2 ^ 15) polynome odd,
    xor_parity (b % 2 ^ 15) polynome odd,
    xor_injective (a % 2 ^ 15 * 2) (b % 2 ^ 15 * 2) polynome,
  )

  steps-injective :
      (n a b : ℕ) → a < 2 ^ 16 → b < 2 ^ 16 → steps polynome n a ≡ steps polynome n b → a ≡ b
  unfolding steps
  steps-injective zero a b p q e = e
  steps-injective (suc n) a b p q e = step-injective a b p q (
      steps-injective n (step polynome a) (step polynome b) (step-lt polynome poly_fits a)
        (step-lt polynome poly_fits b) e)

  update-injective :
      (a b x y : ℕ)
      → a < 2 ^ 16
      → b < 2 ^ 16
      → x < 256
      → y < 256
      → update (init polynome) a x ≡ update (init polynome) b y
      → bit_xor a (x * 256) ≡ bit_xor b (y * 256)
  update-injective a b x y ha hb hx hy e =
      steps-injective 8 (bit_xor a (x * 256)) (bit_xor b (y * 256))
        (xor-lt 16 a (x * 256) ha (omega arith)) (xor-lt 16 b (y * 256) hb (omega arith))
        (sym (update_lem polynome poly_fits a x ha hx)
          ∙ e
          ∙ update_lem polynome poly_fits b y hb hy)

  updates-injective :
      (bytes : List ℕ) (a b : ℕ)
      → a < 2 ^ 16
      → b < 2 ^ 16
      → IsBytes bytes
      → updates (init polynome) a bytes ≡ updates (init polynome) b bytes
      → a ≡ b
  unfolding updates
  updates-injective [] a b ha hb h e = e
  updates-injective (x ∷ bytes) a b ha hb h e = xor_injective a b (x * 256) (
      update-injective a b x x ha hb h.0 h.0 (
        updates-injective bytes (update (init polynome) a x) (update (init polynome) b x)
          (update-lt polynome poly_fits a x ha h.0) (update-lt polynome poly_fits b x hb h.0) h.1
          e))

  pub updates_detect :
      (before after : List ℕ) (x y crc : ℕ)
      → crc < 2 ^ 16
      → IsBytes before
      → IsBytes after
      → x < 256
      → y < 256
      → x ≢ y
      → updates (init polynome) crc (before ++ (x ∷ after))
        ≢ updates (init polynome) crc (before ++ (y ∷ after))
  unfolding updates
  updates_detect [] after x y crc h hb ha hx hy differ e =
      let first : update (init polynome) crc x ≡ update (init polynome) crc y =
        updates-injective after (update (init polynome) crc x) (update (init polynome) crc y)
          (update-lt polynome poly_fits crc x h hx) (update-lt polynome poly_fits crc y h hy) ha
          e in
      let same : bit_xor (x * 256) crc ≡ bit_xor (y * 256) crc = cc (
        update-injective crc crc x y h h hx hy first,
        xor_comm crc (x * 256),
        xor_comm crc (y * 256),
      ) in
      differ (omega (arith, xor_injective (x * 256) (y * 256) crc same))
  updates_detect (z ∷ before) after x y crc h hb ha hx hy differ e =
      updates_detect before after x y (update (init polynome) crc z)
        (update-lt polynome poly_fits crc z h hb.0) hb.1 ha hx hy differ e

-- `crc16_doCalcul` on the whole of an array.
do_calcul_whole :
    (polynome : ℕ) (buf : List ℕ) (len init_value xor_final : ℕ)
    → len ≡ length buf
    → do_calcul (init polynome) buf len init_value xor_final
      ≡ done (bit_xor (updates (init polynome) init_value buf) xor_final)
unfolding do_calcul
do_calcul_whole polynome buf len init_value xor_final e =
    let whole : take len buf ≡ buf = rw (e) (take-length buf) in
    rw (load-done buf 0 len (omega arith), do_calcul, whole)

-- With an odd polynomial of 16 bits, two messages of bytes that differ in exactly one byte have
-- different CRCs, wherever that byte stands and whatever the start and final values are.
pub do_calcul_detect :
    (polynome init_value xor_final x y : ℕ) (before after : List ℕ)
    → polynome < 2 ^ 16
    → polynome % 2 ≡ 1
    → init_value < 2 ^ 16
    → IsBytes before
    → IsBytes after
    → x < 256
    → y < 256
    → x ≢ y
    → let len = length before + suc (length after) in
      do_calcul (init polynome) (before ++ (x ∷ after)) len init_value xor_final
      ≢ do_calcul (init polynome) (before ++ (y ∷ after)) len init_value xor_final
do_calcul_detect polynome init_value xor_final x y before after pf odd h hb ha hx hy differ e =
    let len = length before + suc (length after) in
    let lx =
      do_calcul_whole polynome (before ++ (x ∷ after)) len init_value xor_final
        (sym (length-append before (x ∷ after))) in
    let ly =
      do_calcul_whole polynome (before ++ (y ∷ after)) len init_value xor_final
        (sym (length-append before (y ∷ after))) in
    updates_detect polynome pf odd before after x y init_value h hb ha hx hy differ (
      xor_injective (updates (init polynome) init_value (before ++ (x ∷ after)))
        (updates (init polynome) init_value (before ++ (y ∷ after))) xor_final
        (done-injective (sym lx ∙ e ∙ ly)))
  where
    done-injective : {a b : ℕ} → done a ≡ done b → a ≡ b
    done-injective h = cc

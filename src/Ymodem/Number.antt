-- ===== src/Ymodem/Number.antt =====
-- The numbers in block 0 of YMODEM: `lymodem_getValue` of src/lmodem_rx.c on what the formats of
-- src/lmodem_tx.c print.
use light_modem.Base.{
  ℕ, zero, suc, ◌+◌, ◌-◌, ◌*◌, ◌/◌, ◌%◌, ◌^◌, ◌<◌, ◌≤◌, ◌≡◌, refl, ap, ◌∙◌, Bool, true, false, List,
  [], ◌∷◌, ◌++◌, done, arith, ◌==◌, ltb, u32, Bool-cases, inl, inr, ==_iff, sym, load-done, subst,
}
use light_modem.Ymodem.Text.{
  scan, digits, octal, decimal, skip_spaces, read_sign, to_ulong, strtoul, is_digit, ulong_max,
  map_done,
}
use light_modem.Ymodem.Header.{get_number, field_mode}
use native.Mathlib.Nat.{pow-suc, pow-zero, div-add-mod', mod-lt, div-lt_iff_lt-mul, div-eq_of_lt}

-- The text starts with a decimal digit.
abbrev Digit : List ℕ → Type 0
Digit [] = Unit
Digit (c ∷ text) = (b'0' ≤ c) × (c < b'0' + 10)

Digit-sign :
    (c : ℕ) (text : List ℕ)
    → Digit (c ∷ text)
    → read_sign (skip_spaces (c ∷ text)) ≡ (false, c ∷ text)
unfolding skip_spaces read_sign
Digit-sign c text h = ground arith

sign_lem : (text : List ℕ) → Digit text → read_sign (skip_spaces text) ≡ (false, text)
unfolding skip_spaces read_sign
sign_lem [] h = refl
sign_lem (c ∷ text) h = Digit-sign c text h

fits_ulong : (n : ℕ) → n < 2 ^ 33 → ltb ulong_max n ≡ false
fits_ulong n h = ground arith

module _ (base : ℕ) (some_base : 0 < base) (small : base ≤ 10) where
  digits_append :
      (fuel n : ℕ) (out rest : List ℕ)
      → digits fuel base n out ++ rest ≡ digits fuel base n (out ++ rest)
  unfolding digits
  digits_append zero n out rest = refl
  digits_append (suc fuel) n out rest = elim (Bool-cases (n / base == 0)) [
    | inl e ↦ rw (e)
    | inr e ↦ rw (e) (digits_append fuel (n / base) ((b'0' + n % base) ∷ out) rest)
  ]

  scan_digit :
      (any : Bool) (number d : ℕ) (out : List ℕ)
      → d < base
      → scan base any number ((b'0' + d) ∷ out) ≡ scan base true (number * base + d) out
  unfolding scan
  scan_digit any number d out h =
      let digit : is_digit base (b'0' + d) ≡ true = ground arith in
      let value : number * base + (b'0' + d - b'0') ≡ number * base + d = omega arith in
      rw (digit) (ap (λ k. scan base true k out) value)

  one_digit :
      (n : ℕ) (any : Bool) (out : List ℕ)
      → n / base ≡ 0
      → scan base any 0 ((b'0' + n % base) ∷ out) ≡ scan base true n out
  one_digit n any out e =
      scan_digit any 0 (n % base) out (mod-lt n some_base)
      ∙ ap (λ k. scan base true k out)
          (ap (λ (k : ℕ). k * base + n % base) (sym e) ∙ div-add-mod' n base)

  -- Reading back a number that was printed, whatever follows it.
  scan-digits :
      (fuel n : ℕ) (any : Bool) (out : List ℕ)
      → n < base ^ suc fuel
      → scan base any 0 (digits (suc fuel) base n out) ≡ scan base true n out
  unfolding digits
  scan-digits zero n any out h =
      let last : n / base ≡ 0 = div-eq_of_lt (
        omega (
          arith,
          subst (λ k. n < k) (pow-suc base zero) h,
          ap (λ (k : ℕ). k * base) (pow-zero base),
        )) in
      let test : (n / base == 0) ≡ true = rw (last) in rw (test) (one_digit n any out last)
  scan-digits (suc fuel) n any out h = elim (Bool-cases (n / base == 0)) [
    | inl e ↦ rw (e) (one_digit n any out ((==_iff (n / base) 0).0 e))
    | inr e ↦ rw (e) (
        scan-digits fuel (n / base) any ((b'0' + n % base) ∷ out)
          ((div-lt_iff_lt-mul some_base).1 (subst (λ k. n < k) (pow-suc base (suc fuel)) h))
        ∙ scan_digit true (n / base) (n % base) out (mod-lt n some_base)
        ∙ ap (λ k. scan base true k out) (div-add-mod' n base))
  ]

  digits_first : (fuel n : ℕ) (out : List ℕ) → Digit (digits (suc fuel) base n out)
  unfolding digits
  digits_first zero n out = elim (Bool-cases (n / base == 0)) [
    | inl e ↦ rw (e) (omega arith, omega (arith, mod-lt n some_base))
    | inr e ↦ rw (e) (omega arith, omega (arith, mod-lt n some_base))
  ]
  digits_first (suc fuel) n out = elim (Bool-cases (n / base == 0)) [
    | inl e ↦ rw (e) (omega arith, omega (arith, mod-lt n some_base))
    | inr e ↦ rw (e) (digits_first fuel (n / base) ((b'0' + n % base) ∷ out))
  ]

  -- `strtoul` on a printed number, and on one behind a minus sign.
  strtoul-digits :
      (fuel n : ℕ) (rest : List ℕ)
      → n < base ^ suc fuel
      → n < 2 ^ 33
      → strtoul base (digits (suc fuel) base n (0 ∷ rest)) ≡ done (n, 0 ∷ rest)
  unfolding strtoul to_ulong scan
  strtoul-digits fuel n rest h small =
      let text = digits (suc fuel) base n (0 ∷ rest) in
      rw (
        sign_lem text (digits_first fuel n (0 ∷ rest)),
        scan-digits fuel n false (0 ∷ rest) h,
        fits_ulong n small,
      )

  strtoul-minus-digits :
      (fuel n : ℕ) (rest : List ℕ)
      → n < base ^ suc fuel
      → n < 2 ^ 33
      → strtoul base (b'-' ∷ digits (suc fuel) base n (0 ∷ rest))
        ≡ done ((2 ^ 64 - n) % 2 ^ 64, 0 ∷ rest)
  unfolding strtoul to_ulong scan skip_spaces read_sign
  strtoul-minus-digits fuel n rest h small =
      rw (scan-digits fuel n false (0 ∷ rest) h, fits_ulong n small)

get_number-strtoul :
    (mode n : ℕ) (text rest : List ℕ)
    → strtoul mode text ≡ done (n, 0 ∷ rest)
    → get_number mode text ≡ done (u32 n, true)
unfolding get_number
get_number-strtoul mode n text rest e =
    rw (get_number, e, map_done, load-done (0 ∷ rest) 0 1 (omega arith), map_done)

octal_read :
    (n : ℕ) (rest : List ℕ) → n < 2 ^ 32 → get_number 8 (octal n ++ (0 ∷ rest)) ≡ done (n, true)
unfolding octal
octal_read n rest h =
    let whole : u32 n ≡ n = omega arith in
    rw (digits_append 8 (omega arith) (omega arith) 11 n [] (0 ∷ rest)) (
      get_number-strtoul 8 n (digits 11 8 n (0 ∷ rest)) rest
        (strtoul-digits 8 (omega arith) (omega arith) 10 n rest (omega arith) (omega arith))
      ∙ ap (λ (k : ℕ). done (k, true)) whole)

decimal_read :
    (n : ℕ) (rest : List ℕ) → n < 2 ^ 32 → get_number 10 (decimal n ++ (0 ∷ rest)) ≡ done (n, true)
unfolding decimal
decimal_read n rest h = elim (Bool-cases (ltb n (2 ^ 31))) [
  | inl e ↦
      let whole : u32 n ≡ n = omega arith in
      rw (e, digits_append 10 (omega arith) (omega arith) 11 n [] (0 ∷ rest))
        (get_number-strtoul 10 n (digits 11 10 n (0 ∷ rest)) rest
            (strtoul-digits 10 (omega arith) (omega arith) 10 n rest (omega arith) (omega arith))
          ∙ ap (λ (k : ℕ). done (k, true)) whole)
  | inr e ↦
      let k = 2 ^ 32 - n in
      let whole : u32 ((2 ^ 64 - k) % 2 ^ 64) ≡ n = omega arith in
      rw (e, digits_append 10 (omega arith) (omega arith) 11 k [] (0 ∷ rest))
        (get_number-strtoul 10 ((2 ^ 64 - k) % 2 ^ 64) (b'-' ∷ digits 11 10 k (0 ∷ rest)) rest (
            strtoul-minus-digits 10 (omega arith) (omega arith) 10 k rest (omega arith)
              (omega arith))
          ∙ ap (λ (k : ℕ). done (k, true)) whole)
]

-- Every number of 32 bits that one of the formats of block 0 prints, %d for field 0, the size of
-- the file, and %o for every later field, is read back by `lymodem_getValue` as the same number and
-- as valid, if a NUL stands behind it; a size of 2 ^ 31 and more, too, which is printed with a
-- minus sign.
pub get_number-printed :
    (n nb : ℕ) (rest : List ℕ)
    → n < 2 ^ 32
    → (get_number (field_mode 0) (decimal n ++ (0 ∷ rest)) ≡ done (n, true))
      × (get_number (field_mode (suc nb)) (octal n ++ (0 ∷ rest)) ≡ done (n, true))
get_number-printed n nb rest h = (decimal_read n rest h, octal_read n rest h)

-- ===== src/Ymodem/Text.antt =====
-- `strlen`, `strtoul` and the conversions of `snprintf` of the C library, as src/lmodem_rx.c and
-- src/lmodem_tx.c use them. A string is the memory from its first byte on, and the functions fault
-- where they would read past it; `unsigned long` has 64 bits.
use light_modem.Base.{
  ℕ, zero, suc, ◌+◌, ◌-◌, ◌*◌, ◌/◌, ◌%◌, ◌^◌, Bool, true, false, ◌&&◌, ◌||◌, List, [], ◌∷◌, ◌++◌,
  Outcome, done, fault, spent, ltb, leb, ◌==◌, if◌then◌else◌, take,
}

-- The outcome with `f` of its result.
abbrev pub map_done : {A B : Type 0} → (A → B) → Outcome A → Outcome B
map_done f (done a) = done (f a)
map_done f fault = fault
map_done f spent = spent

unfoldable pub strlen : List ℕ → Outcome ℕ
strlen [] = fault
strlen (c ∷ text) = let rest = map_done suc (strlen text) in if c == 0 then done 0 else rest

abbrev pub ulong_max : ℕ
ulong_max = 2 ^ 64 - 1

abbrev is_space : ℕ → Bool
is_space c = c == b' ' || (leb 9 c && leb c 13)

abbrev pub is_digit : ℕ → ℕ → Bool
is_digit base c = leb b'0' c && ltb c (b'0' + base)

unfoldable pub skip_spaces : List ℕ → List ℕ
skip_spaces [] = []
skip_spaces (c ∷ text) = let rest = skip_spaces text in if is_space c then rest else c ∷ text

-- Whether there is a minus sign, and the text behind the sign.
unfoldable pub read_sign : List ℕ → Bool × List ℕ
read_sign [] = (false, [])
read_sign (c ∷ text) =
    if c == b'-' then (true, text) else if c == b'+' then (false, text) else (false, c ∷ text)

-- What the digits have given: whether there was one, the number, and the text behind them.
pub record Scanned : Type 0 where
  pub any : Bool
  pub number : ℕ
  pub rest : List ℕ

unfoldable pub scan : ℕ → Bool → ℕ → List ℕ → Outcome Scanned
scan base any number [] = fault
scan base any number (c ∷ text) =
    let more = scan base true (number * base + (c - b'0')) text in
    if is_digit base c then more else done (record { any = any; number = number; rest = c ∷ text })

-- A number that does not fit is replaced by the largest; a minus sign negates what fits.
unfoldable pub to_ulong : Bool → ℕ → ℕ
to_ulong negative number =
    if ltb ulong_max number
    then ulong_max
    else if negative
    then (2 ^ 64 - number) % 2 ^ 64
    else number

-- The number, and the text that `*endptr` points to: all of it if there is no number.
unfoldable pub strtoul : ℕ → List ℕ → Outcome (ℕ × List ℕ)
unfolding skip_spaces read_sign scan to_ulong
strtoul base text =
    let (negative, digits) = read_sign (skip_spaces text) in
    map_done (λ (s : Scanned). if s.any then (to_ulong negative s.number, s.rest) else (0, text))
      (scan base false 0 digits)

-- The digits of a number in front of `out`; `fuel` bounds their number.
unfoldable pub digits : ℕ → ℕ → ℕ → List ℕ → List ℕ
digits zero base n out = out
digits (suc fuel) base n out =
    let out' = (b'0' + n % base) ∷ out in
    let more = digits fuel base (n / base) out' in if n / base == 0 then out' else more

-- The conversions %o and %d of a uint32_t. Eleven digits are enough in either base, and %d takes
-- the bit pattern for an int32_t.
unfoldable pub octal : ℕ → List ℕ
unfolding digits
octal n = digits 11 8 n []

unfoldable pub decimal : ℕ → List ℕ
unfolding digits
decimal n = if ltb n (2 ^ 31) then digits 11 10 n [] else b'-' ∷ digits 11 10 (2 ^ 32 - n) []

-- The bytes that `snprintf` writes where `size` bytes are allowed.
unfoldable pub printed : ℕ → List ℕ → List ℕ
printed zero text = []
printed (suc room) text = take room text ++ (0 ∷ [])

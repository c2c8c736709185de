-- ===== src/Modem/Script.antt =====
-- A serial line with a script: the bytes that the other side has sent, and the record of what
-- `putchar` was given. When the bytes are used up, `getchar` times out.
use light_modem.Base.{
  ℕ, true, List, [], ◌∷◌, ◌++◌, ◌≡◌, refl, ◌≤◌, length, leb, take, drop, IsBytes, arith,
  length-take, leb→le, IsBytes-take, ap, suc, ◌%◌, ◌^◌,
}
use light_modem.Modem.{Received, Line}

-- `pending` are the bytes that the other side has sent.
pub record Script : Type 0 where
  pub pending : List ℕ
  pub sent : List (List ℕ)

-- Numbers are cut to bytes.
abbrev pub to_bytes : List ℕ → List ℕ
to_bytes [] = []
to_bytes (x ∷ xs) = x % 2 ^ 8 ∷ to_bytes xs

-- A call takes `n` bytes if there are as many, else what there is, and fails.
abbrev pub script_getchar : Script → ℕ → Received × Script
script_getchar s n = (
  record { ok = leb n (length s.pending); bytes = take n (to_bytes s.pending) },
  record s { pending = drop n s.pending },
)

abbrev pub script_putchar : Script → List ℕ → Script
script_putchar s bytes = record s { sent = s.sent ++ (bytes ∷ []) }

pub length-to_bytes : (xs : List ℕ) → length (to_bytes xs) ≡ length xs
length-to_bytes [] = refl
length-to_bytes (x ∷ xs) = ap suc (length-to_bytes xs)

pub to_bytes-IsBytes : (xs : List ℕ) → IsBytes (to_bytes xs)
to_bytes-IsBytes [] = tt
to_bytes-IsBytes (x ∷ xs) = (omega arith, to_bytes-IsBytes xs)

pub script_fits : (p : Script) (n : ℕ) → length (script_getchar p n).0.bytes ≤ n
script_fits p n = omega (arith, length-take n (to_bytes p.pending))

pub script_fills :
    (p : Script) (n : ℕ)
    → (script_getchar p n).0.ok ≡ true
    → length (script_getchar p n).0.bytes ≡ n
script_fills p n e = omega (
  arith,
  length-take n (to_bytes p.pending),
  length-to_bytes p.pending,
  leb→le n (length p.pending) e,
)

pub script_bytes : (p : Script) (n : ℕ) → IsBytes (script_getchar p n).0.bytes
script_bytes p n = IsBytes-take n (to_bytes p.pending) (to_bytes-IsBytes p.pending)

abbrev pub script_line : Line Script
script_line = record {
  getchar = script_getchar;
  putchar = script_putchar;
  getchar_fits = script_fits;
  getchar_fills = script_fills;
  getchar_bytes = script_bytes;
}

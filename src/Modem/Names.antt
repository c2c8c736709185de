-- ===== src/Modem/Names.antt =====
-- The name of the file: what `lmodem_metadata_get_filename` returns after
-- `lmodem_metadata_set_filename`.
use light_modem.Base.{
  ℕ, zero, suc, ◌+◌, ◌-◌, ◌<◌, ◌≤◌, ◌^◌, ◌≡◌, refl, ap, ◌∙◌, true, false, List, [], ◌∷◌, ◌++◌, some,
  done, ◌>>=◌, sub_u32, bit_and, bit_or, ◌==◌, load-done, store-done, put_bytes, length-put_bytes,
  replicate, length, length-replicate, length-append, length-take, drop-append, take, drop, arith,
  and_one, or_one, take-take_le, min,
}
use light_modem.Modem.{FileCharacteristics}
use light_modem.Modem.Metadata.{strncpy, set_filename, get_filename, has_filename, filename_valid}

-- No byte of a name is NUL.
abbrev pub NoNul : List ℕ → Type 0
NoNul [] = Unit
NoNul (c ∷ name) = (0 < c) × NoNul name

-- A name in a field of `n` bytes.
abbrev pub filled_up : ℕ → List ℕ → List ℕ
filled_up n name = name ++ replicate (n - length name) 0

pub strncpy_lem :
    (n : ℕ) (name rest : List ℕ)
    → NoNul name
    → length name < n
    → strncpy n (name ++ (0 ∷ rest)) ≡ done (filled_up n name)
unfolding strncpy
strncpy_lem zero name rest h lt = absurd (omega arith)
strncpy_lem (suc n) [] rest h lt = ap (λ k. done (replicate k 0)) {x = suc n} (omega arith)
strncpy_lem (suc n) (c ∷ name) rest h lt =
    let visible : (c == 0) ≡ false = ground arith in
    let left : suc n - suc (length name) ≡ n - length name = omega arith in
    rw (strncpy_lem n name rest h.1 (omega arith), visible, left)

take-append_le : (k : ℕ) (xs ys : List ℕ) → k ≤ length xs → take k (xs ++ ys) ≡ take k xs
take-append_le zero xs ys h = refl
take-append_le (suc k) [] ys h = absurd (omega arith)
take-append_le (suc k) (x ∷ xs) ys h = ap (λ l. x ∷ l) (take-append_le k xs ys (omega arith))

take-front :
    (xs ys : List ℕ) (k j : ℕ) → k ≤ j → j ≤ length xs → take k (take j xs ++ ys) ≡ take k xs
take-front xs ys k j kj h =
    let least : min k j ≡ k = omega arith in
    take-append_le k (take j xs) ys (omega (arith, length-take j xs))
    ∙ take-take_le k j xs
    ∙ ap (λ i. take i xs) least

-- Bytes copied to the start of `out`, and the last of them replaced.
copy_lem :
    (bytes out : List ℕ) (size : ℕ)
    → length bytes ≡ size
    → 0 < size
    → put_bytes (put_bytes out 0 bytes) (size - 1) (0 ∷ [])
      ≡ take (size - 1) bytes ++ (0 ∷ drop size out)
copy_lem bytes out size len some_size =
    let behind : drop (size - 1 + 1) (bytes ++ drop (0 + length bytes) out) ≡ drop size out =
      ap (λ k. drop k (bytes ++ drop (0 + length bytes) out)) {y = length bytes}
        (omega (arith, len))
      ∙ drop-append bytes (drop (0 + length bytes) out)
      ∙ ap (λ k. drop k out) (omega (arith, len)) in
    rw (take-append_le (size - 1) bytes (drop (0 + length bytes) out) (omega (arith, len)), behind)

set_flag : (v : ℕ) → (bit_and (bit_or v filename_valid) filename_valid == filename_valid) ≡ true
set_flag v = let one : bit_and (bit_or v 1) 1 ≡ 1 = and_one (bit_or v 1) ∙ or_one v in rw one

-- In a field for names whose size fits a uint32_t and its storage, a name without NUL that is
-- shorter than the field can be set and read back: of an argument of `size` bytes, at least one
-- and not more than the field or the argument's storage has, the last becomes NUL, and the others
-- are the first bytes of the name, filled up with NUL.
pub get_filename-set_filename :
    (d : FileCharacteristics) (dst name rest out : List ℕ) (size : ℕ)
    → d.filename ≡ some dst
    → d.filename_size ≤ length dst
    → d.filename_size < 2 ^ 32
    → NoNul name
    → length name < d.filename_size
    → 0 < size
    → size ≤ d.filename_size
    → size ≤ length out
    → (d' : FileCharacteristics) × (set_filename (name ++ (0 ∷ rest)) d ≡ done (tt, d'))
      × (get_filename (some out) size d'
          ≡ done (
            (true, some (take (size - 1) (filled_up d.filename_size name) ++ (0 ∷ drop size out))),
            d',
          ))
unfolding set_filename get_filename has_filename
get_filename-set_filename d dst name rest out size e fits small visible short some_size le room =
    let n = d.filename_size in
    let field = filled_up n name in
    let len : length field ≡ n = omega (
      arith,
      length-append name (replicate (n - length name) 0),
      length-replicate {A = ℕ} (n - length name) 0,
    ) in
    let copied = put_bytes dst 0 field in
    let size₁ : length copied ≡ length dst = length-put_bytes dst 0 field (omega (arith, len)) in
    let last : sub_u32 n 1 ≡ n - 1 = omega arith in
    let last' : sub_u32 size 1 ≡ size - 1 = omega arith in
    let stored = put_bytes copied (n - 1) (0 ∷ []) in
    let size₂ : length stored ≡ length dst =
      length-put_bytes copied (n - 1) (0 ∷ []) (omega (arith, size₁)) ∙ size₁ in
    let d' : FileCharacteristics = record d {
      filename = some stored;
      valid = bit_or d.valid filename_valid;
    } in
    let first = store-done dst 0 field (omega (arith, len)) in
    let second = store-done copied (n - 1) (0 ∷ []) (omega (arith, size₁)) in
    let got = take size stored in
    let len₂ : length got ≡ size = omega (arith, length-take size stored, size₂) in
    let third = store-done out 0 got (omega (arith, len₂)) in
    let fourth =
      store-done (put_bytes out 0 got) (size - 1) (0 ∷ [])
        (omega (arith, length-put_bytes out 0 got (omega (arith, len₂)))) in
    let name_read : take (size - 1) got ≡ take (size - 1) field =
      take-take_le (size - 1) size stored
      ∙ ap (λ i. take i stored) {y = size - 1} (omega arith)
      ∙ take-front copied (0 ∷ drop (n - 1 + 1) copied) (size - 1) (n - 1) (omega arith)
          (omega (arith, size₁))
      ∙ take-append_le (size - 1) field (drop (0 + length field) dst) (omega (arith, len)) in
    let result : put_bytes (put_bytes out 0 got) (size - 1) (0 ∷ [])
        ≡ take (size - 1) field ++ (0 ∷ drop size out) =
      copy_lem got out size len₂ some_size ∙ ap (λ l. l ++ (0 ∷ drop size out)) name_read in
    (
      d',
      rw (e, strncpy_lem n name rest visible short, ◌>>=◌, first, ◌>>=◌, last, second, ◌>>=◌),
      rw
          (
            set_flag d.valid,
            load-done stored 0 size (omega (arith, size₂)),
            ◌>>=◌,
            third,
            ◌>>=◌,
            last',
            fourth,
            ◌>>=◌,
          )
          (ap (λ l. done ((true, some l), d')) result),
    )

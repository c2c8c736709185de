-- ===== src/Modem/Flags.antt =====
-- What the getters of src/lmodem_init.c give back of the values that its setters took.
use light_modem.Base.{
  ℕ, zero, suc, ◌+◌, ◌*◌, ◌/◌, ◌%◌, ◌^◌, ◌≤◌, ◌≡◌, Bool-cases, inl, inr, refl, ap, true, none, some,
  bit_and, bit_or, ◌==◌, and_one, or_step, arith, if◌then◌else◌,
}
use light_modem.Modem.{FileCharacteristics}
use light_modem.Modem.Metadata.{
  filename_valid, filesize_valid, modifdate_valid, permission_valid, serial_valid, set_filesize,
  set_modif_time, set_permission, set_serial, has_filename, get_filesize, get_modif_time,
  get_permission, get_serial,
}

or_none_le : (n a : ℕ) → a ≤ n → bit_or a 0 ≡ a
or_none_le zero a h = let none : a ≡ 0 = omega arith in rw none refl
or_none_le (suc n) a h = elim (Bool-cases (a == 0)) [
  | inl e ↦ let none : a ≡ 0 = ground arith in rw none refl
  | inr e ↦
      let less : a / 2 ≤ n = ground arith in omega (arith, or_step a 0, or_none_le n (a / 2) less)
]

-- What setting one of the first five bits makes of a number.
or_1 : (v : ℕ) → bit_or v 1 ≡ v / 2 * 2 + 1
or_1 v = omega (arith, or_step v 1, or_none_le (v / 2) (v / 2) (omega arith))

or_2 : (v : ℕ) → bit_or v 2 ≡ v / 4 * 4 + 2 + v % 2
or_2 v = omega (arith, or_step v 2, or_1 (v / 2))

or_4 : (v : ℕ) → bit_or v 4 ≡ v / 8 * 8 + 4 + v % 4
or_4 v = omega (arith, or_step v 4, or_2 (v / 2))

or_8 : (v : ℕ) → bit_or v 8 ≡ v / 16 * 16 + 8 + v % 8
or_8 v = omega (arith, or_step v 8, or_4 (v / 2))

or_16 : (v : ℕ) → bit_or v 16 ≡ v / 32 * 32 + 16 + v % 16
or_16 v = omega (arith, or_step v 16, or_8 (v / 2))

all_flags : (v : ℕ) → bit_or (bit_or (bit_or (bit_or v 2) 4) 8) 16 ≡ v / 32 * 32 + 30 + v % 2
all_flags v =
    let a = bit_or v 2 in
    let b = bit_or a 4 in let c = bit_or b 8 in omega (arith, or_2 v, or_4 a, or_8 b, or_16 c)

-- The metadata after the four setters for numbers.
abbrev pub all_set : ℕ → ℕ → ℕ → ℕ → FileCharacteristics → FileCharacteristics
all_set size modif_date perm serial d =
    set_serial serial (set_permission perm (set_modif_time modif_date (set_filesize size d)))

valid-all_set :
    (size modif_date perm serial : ℕ) (d : FileCharacteristics)
    → (all_set size modif_date perm serial d).valid ≡ d.valid / 32 * 32 + 30 + d.valid % 2
unfolding set_filesize set_modif_time set_permission set_serial
valid-all_set size modif_date perm serial d = all_flags d.valid

has_filename-all_set :
    (size modif_date perm serial : ℕ) (d : FileCharacteristics)
    → has_filename (all_set size modif_date perm serial d) ≡ has_filename d
unfolding has_filename
has_filename-all_set size modif_date perm serial d =
    let d' = all_set size modif_date perm serial d in
    ap (λ n. n == filename_valid) {x = bit_and d'.valid 1} {y = bit_and d.valid 1}
      (omega
        (arith, and_one d'.valid, and_one d.valid, valid-all_set size modif_date perm serial d))

-- The setters of the size, the modification time, the permission and the serial number set their
-- four flags, whatever the flags were, and no other; and they keep the file name. Although the four
-- flags are then set, their getters, called with a pointer that is not NULL, give the values back, of
-- the permission its lower 16 bits, only if the flag of the file name was set before, and return
-- false otherwise.
pub getters_lem :
    (size modif_date perm serial : ℕ) (d : FileCharacteristics)
    → let d' = all_set size modif_date perm serial d in
      (d'.valid
        ≡ d.valid / 32 * 32
          + (filesize_valid + modifdate_valid + permission_valid + serial_valid)
          + d.valid % 2)
      × (d'.filename ≡ d.filename)
      × (get_filesize true d' ≡ (if has_filename d then some size else none))
      × (get_modif_time true d' ≡ (if has_filename d then some modif_date else none))
      × (get_permission true d' ≡ (if has_filename d then some (perm % 2 ^ 16) else none))
      × (get_serial true d' ≡ (if has_filename d then some serial else none))
unfolding get_filesize get_modif_time get_permission get_serial set_filesize set_modif_time
    set_permission set_serial
getters_lem size modif_date perm serial d =
    let same = has_filename-all_set size modif_date perm serial d in
    (
      valid-all_set size modif_date perm serial d,
      refl,
      rw same refl,
      rw same refl,
      rw same refl,
      rw same refl,
    )

-- ===== src/Crc/Tests.antt =====
-- Runs of crc16.c, and the theorems at concrete messages.
use light_modem.Base.{
  ℕ, ◌+◌, ◌≡◌, ◌≢◌, refl, List, [], ◌∷◌, ◌++◌, arith, done, fault, load, bit_xor, take, suc,
}
use light_modem.Crc.{init, entries, entry, shift_bits, shift_bit, updates, update, do_calcul}
use light_modem.Crc.Division.{remainder}
use light_modem.Crc.Remainder.{do_calcul-remainder}
use light_modem.Crc.Detect.{do_calcul_detect}

abbrev digits : List ℕ
digits = 0x31 ∷ 0x32 ∷ 0x33 ∷ 0x34 ∷ 0x35 ∷ 0x36 ∷ 0x37 ∷ 0x38 ∷ 0x39 ∷ []

-- The check value of CRC-16/XMODEM.
crc_of_digits : do_calcul (init 0x1021) digits 9 0 0 ≡ done 0x31c3
unfolding do_calcul init entries entry shift_bits shift_bit updates update load
crc_of_digits = refl

crc_outside : do_calcul (init 0x1021) digits 10 0 0 ≡ fault
unfolding do_calcul load
crc_outside = refl

do_calcul-remainder_example :
    do_calcul (init 0x1021) digits 3 0 0xffff
    ≡ done (bit_xor (remainder 0x1021 0 (take 3 digits)) 0xffff)
do_calcul-remainder_example =
    do_calcul-remainder 0x1021 0 0xffff 3 digits (omega arith) (omega arith) (omega arith)
      (omega arith)

do_calcul_detect_example :
    do_calcul (init 0x1021) ((7 ∷ []) ++ (1 ∷ 9 ∷ [])) (1 + suc 1) 0 0
    ≢ do_calcul (init 0x1021) ((7 ∷ []) ++ (2 ∷ 9 ∷ [])) (1 + suc 1) 0 0
do_calcul_detect_example =
    do_calcul_detect 0x1021 0 0 1 2 (7 ∷ []) (9 ∷ []) (omega arith) refl (omega arith) (omega arith)
      (omega arith) (omega arith) (omega arith) (omega arith)

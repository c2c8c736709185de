-- ===== src/Crc.antt =====
-- src/crc16.c and include/crc16.h
pub mod Table
pub mod Division
pub mod Remainder
pub mod Detect
mod Tests
use light_modem.Base.{
  ℕ, zero, suc, ◌+◌, List, [], ◌∷◌, Outcome, done, fault, spent, u16, u32, ◌<<<◌, ◌>>>◌, bit_and,
  bit_xor, ◌==◌, if◌then◌else◌, get_or, load,
}

-- `crc16_context_t`: `crctab` has 256 entries.
pub record CrcContext : Type 0 where
  pub crctab : List ℕ
  pub polynome : ℕ

-- One round of the inner loop of `crc16_init`, on a uint32_t.
unfoldable pub shift_bit : ℕ → ℕ → ℕ
shift_bit polynome crc =
    let highbit = bit_and crc 0x8000 in
    let shifted = u32 (crc <<< 1) in if highbit == 0 then shifted else bit_xor shifted polynome

unfoldable pub shift_bits : ℕ → ℕ → ℕ → ℕ
shift_bits polynome zero crc = crc
shift_bits polynome (suc left) crc = shift_bits polynome left (shift_bit polynome crc)

unfoldable pub entry : ℕ → ℕ → ℕ
entry polynome i = bit_and (shift_bits polynome 8 (u32 (i <<< 8))) 0xffff

-- The entries from `i` on.
unfoldable pub entries : ℕ → ℕ → ℕ → List ℕ
entries polynome zero i = []
entries polynome (suc left) i = entry polynome i ∷ entries polynome left (i + 1)

unfoldable pub init : ℕ → CrcContext
init polynome = record { crctab = entries polynome 256 0; polynome = polynome }

-- One round of the loop of `crc16_doCalcul`. The index is masked to a byte, so that it lies in
-- the table.
unfoldable pub update : CrcContext → ℕ → ℕ → ℕ
update c crc byte =
    let k = bit_and (bit_xor (crc >>> 8) byte) 0xff in
    u16 (bit_xor (crc <<< 8) (get_or c.crctab k 0))

unfoldable pub updates : CrcContext → ℕ → List ℕ → ℕ
updates c crc [] = crc
updates c crc (byte ∷ bytes) = updates c (update c crc byte) bytes

-- `buf` is the memory behind `data`.
unfoldable pub do_calcul : CrcContext → List ℕ → ℕ → ℕ → ℕ → Outcome ℕ
do_calcul c buf len init_value xor_final = elim (load buf 0 len) [
  | done bytes ↦ done (bit_xor (updates c init_value bytes) xor_final)
  | fault ↦ fault
  | spent ↦ spent
]

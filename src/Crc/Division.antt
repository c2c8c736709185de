-- ===== src/Crc/Division.antt =====
-- What a CRC is: the remainder of a division over GF(2), one message bit at a time, highest bit
-- of each byte first. This is the textbook register, with no table.
use light_modem.Base.{ℕ, zero, suc, ◌*◌, ◌/◌, ◌%◌, ◌^◌, List, [], ◌∷◌, bit_xor, ◌==◌, if◌then◌else◌}

-- The register takes one bit in: the polynomial is subtracted if the bit that falls out differs
-- from the message bit.
unfoldable pub feed_bit : ℕ → ℕ → ℕ → ℕ
feed_bit polynome crc bit =
    let rest = crc % 2 ^ 15 * 2 in if crc / 2 ^ 15 == bit then rest else bit_xor rest polynome

-- The `n` lowest bits of `byte`, the highest of them first.
unfoldable pub feed_bits : ℕ → ℕ → ℕ → ℕ → ℕ
feed_bits polynome zero byte crc = crc
feed_bits polynome (suc n) byte crc =
    feed_bits polynome n byte (feed_bit polynome crc (byte / 2 ^ n % 2))

unfoldable pub remainder : ℕ → ℕ → List ℕ → ℕ
remainder polynome crc [] = crc
remainder polynome crc (byte ∷ bytes) = remainder polynome (feed_bits polynome 8 byte crc) bytes

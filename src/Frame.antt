-- ===== src/Frame.antt =====
-- The block format of the protocol, written down without the C code: what stands on the line
-- behind the header character.
use light_modem.Base.{
  ℕ, ◌+◌, ◌-◌, ◌/◌, ◌%◌, Bool, List, [], ◌∷◌, ◌++◌, if◌then◌else◌, leb, length, replicate, ◌==◌,
}
use light_modem.Crc.Division.{remainder}

abbrev pub sum : List ℕ → ℕ
sum [] = 0
sum (x ∷ xs) = x + sum xs

-- CRC-16/XMODEM: the remainder by x^16 + x^12 + x^5 + 1, from 0.
abbrev pub crc_of_payload : List ℕ → ℕ
crc_of_payload payload = remainder 0x1021 0 payload

-- The trailer: the CRC, high byte first, or the sum of the bytes modulo 256.
abbrev pub trailer : Bool → List ℕ → List ℕ
trailer with_crc payload =
    if with_crc
    then crc_of_payload payload / 256 ∷ crc_of_payload payload % 256 ∷ []
    else sum payload % 256 ∷ []

-- The number of the block, its complement, the payload and the trailer.
abbrev pub block : Bool → ℕ → List ℕ → List ℕ
block with_crc number payload = number ∷ (255 - number) ∷ (payload ++ trailer with_crc payload)

-- What the transmitter makes of a chunk of the file: 128 or 1024 bytes, filled up with SUB, behind
-- SOH or STX; of an empty chunk, the end of the transfer, EOT.
abbrev pub size_for : ℕ → ℕ
size_for n = if leb n 128 then 128 else 1024

abbrev pub padded : List ℕ → List ℕ
padded chunk = chunk ++ replicate (size_for (length chunk) - length chunk) 0x1a

abbrev pub packet : Bool → ℕ → List ℕ → List ℕ
packet with_crc number chunk =
    (if leb (length chunk) 128 then 1 else 2) ∷ block with_crc number (padded chunk)

abbrev pub message : Bool → ℕ → List ℕ → List ℕ
message with_crc number chunk = if length chunk == 0 then 4 ∷ [] else packet with_crc number chunk

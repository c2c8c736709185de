-- ===== src/Ymodem/Delivered.antt =====
-- A whole reception by YMODEM, on a line that brings block 0, the blocks of the file and EOT.
use light_modem.Base.{ℕ, ◌<◌, ◌≤◌, ◌≡◌, ◌⊎◌, List, [], length, take}
use light_modem.Buffer.{Buffer}
use light_modem.Modem.{Modem}

-- `file` is `sent`, cut to `size` bytes, or filled up to them with bytes that are not described here;
-- it is `sent` itself if that is empty, or if `size` is more than there is room for.
abbrev pub IsCutTo : ℕ → ℕ → List ℕ → List ℕ → Type 0
IsCutTo size max sent file =
    (((sent ≡ []) ⊎ (max < size)) × (file ≡ sent))
    ⊎ ((size ≤ max) × (length file ≡ size) × (take (length sent) file ≡ take size sent))

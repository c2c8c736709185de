-- ===== src/Rzsz/Options.antt =====
-- The options of the tool: `parse_options` of src/tools/rzsz.c, on what `getopt_long` returns. A
-- text is its characters, without the NUL.
use light_modem.Base.{
  ℕ, zero, suc, ◌+◌, ◌-◌, ◌*◌, Bool, true, false, ◌&&◌, ◌||◌, List, [], ◌∷◌, Option, none, some,
  u32, bit_xor, ltb, leb, ◌==◌, if◌then◌else◌,
}
use light_modem.Modem.{Protocol, xmodem, ymodem}
use light_modem.Ymodem.Text.{skip_spaces, read_sign, to_ulong}

-- What a call of `getopt_long` returns, with `optarg`; the last option stands for '?'.
pub data Opt : Type 0 where
  protocol_opt device_opt speed_opt parity_opt ctrl_flow_opt nb_stop_opt file_opt : List ℕ → Opt
  crc_opt one_k_opt tx_opt rx_opt unknown_opt : Opt

-- `options_t`; `none` is NULL.
pub record Options : Type 0 where
  pub protocol : ℕ
  pub device : Option (List ℕ)
  pub speed : ℕ
  pub parity : ℕ
  pub ctrl_flow : ℕ
  pub nb_stop : ℕ
  pub crc : ℕ
  pub xmodem_blksize : ℕ
  pub tx : ℕ
  pub rx : ℕ
  pub filename : Option (List ℕ)

abbrev pub no_options : Options
no_options = record {
  protocol = 0;
  device = none;
  speed = 0;
  parity = 0;
  ctrl_flow = 0;
  nb_stop = 0;
  crc = 0;
  xmodem_blksize = 0;
  tx = 0;
  rx = 0;
  filename = none;
}

-- The value of a digit, 36 for any other character.
unfoldable pub digit_value : ℕ → ℕ
digit_value c =
    if leb b'0' c && leb c b'9'
    then c - b'0'
    else if leb b'a' c && leb c b'z'
    then c - b'a' + 10
    else if leb b'A' c && leb c b'Z'
    then c - b'A' + 10
    else 36

unfoldable pub leading_number : ℕ → ℕ → List ℕ → ℕ
leading_number base n [] = n
leading_number base n (c ∷ text) =
    let more = leading_number base (n * base + digit_value c) text in
    if ltb (digit_value c) base then more else n

-- The number that `strtoul` reads when it takes the base from the text: 16 behind 0x, 8 behind 0.
unfoldable pub number_of_any_base : List ℕ → ℕ
number_of_any_base (c ∷ x ∷ text) =
    if c == b'0' && (x == b'x' || x == b'X')
    then leading_number 16 0 text
    else if c == b'0'
    then leading_number 8 0 (x ∷ text)
    else leading_number 10 0 (c ∷ x ∷ text)
number_of_any_base text = leading_number 10 0 text

-- `strtoul(text, NULL, 0)`, stored in 32 bits.
unfoldable pub argument : List ℕ → ℕ
argument text =
    let (negative, digits) = read_sign (skip_spaces text) in
    u32 (to_ulong negative (number_of_any_base digits))

-- One option; `none` is the exit of the program.
unfoldable pub take_option : Opt → Options → Option Options
take_option (protocol_opt arg) o = some (record o { protocol = argument arg })
take_option (device_opt arg) o = some (record o { device = some arg })
take_option (speed_opt arg) o = some (record o { speed = argument arg })
take_option (parity_opt arg) o = some (record o { parity = argument arg })
take_option (ctrl_flow_opt arg) o = some (record o { ctrl_flow = argument arg })
take_option (nb_stop_opt arg) o = some (record o { nb_stop = argument arg })
take_option (file_opt arg) o = some (record o { filename = some arg })
take_option crc_opt o = some (record o { crc = 1 })
take_option one_k_opt o = some (record o { xmodem_blksize = 1 })
take_option tx_opt o = some (record o { tx = 1 })
take_option rx_opt o = some (record o { rx = 1 })
take_option unknown_opt o = none

unfoldable pub take_options : List Opt → Options → Option Options
take_options [] o = some o
take_options (opt ∷ opts) o = elim (take_option opt o) [
  | none ↦ none
  | some o' ↦ take_options opts o'
]

-- The protocol that the option names.
unfoldable pub protocol_of : ℕ → Option Protocol
protocol_of zero = some xmodem
protocol_of (suc zero) = some ymodem
protocol_of (suc (suc n)) = none

abbrev is_some : {A : Type 0} → Option A → Bool
is_some none = false
is_some (some a) = true

-- The checks of `parse_options` on the protocol, the device, both directions or none, and the name
-- of the file; the last value of `bOk`.
unfoldable pub checks : Option Protocol → Option (List ℕ) → Bool → Option (List ℕ) → Bool
checks protocol device undirected filename =
    let known = is_some protocol in
    let placed = if known then is_some device else known in
    let directed = if placed && undirected then false else placed in
    if directed then is_some filename else directed

unfoldable pub accepts : Options → Bool
accepts o = checks (protocol_of o.protocol) o.device (bit_xor o.tx o.rx == 0) o.filename

-- `parse_options`: the options if it returns true, `none` if it returns false or exits.
unfoldable pub parse_options : List Opt → Option Options
parse_options opts = elim (take_options opts no_options) [
  | none ↦ none
  | some o ↦ if accepts o then some o else none
]

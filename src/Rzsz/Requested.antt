-- ===== src/Rzsz/Requested.antt =====
-- What a command line of src/tools/rzsz.c asks for: a specification that uses nothing of the code
-- but the data types of the options, and `argument` for what `strtoul` makes of a text.
use light_modem.Base.{
  ℕ, Bool, true, false, List, [], ◌∷◌, Option, some, none, ◌≡◌, refl, if◌then◌else◌,
}
use light_modem.Rzsz.Options.{
  Opt, Options, no_options, take_option, take_options, argument, protocol_opt, device_opt,
  speed_opt, parity_opt, ctrl_flow_opt, nb_stop_opt, file_opt, crc_opt, one_k_opt, tx_opt, rx_opt,
  unknown_opt,
}

-- The last of the values that `pick` takes out of the options, or `initial`.
abbrev pub last_of : {A : Type 0} → (Opt → Option A) → A → List Opt → A
last_of pick initial [] = initial
last_of pick initial (opt ∷ opts) =
    last_of pick (elim (pick opt) [ none ↦ initial | some a ↦ a ]) opts

abbrev protocol_of : Opt → Option (ℕ)
protocol_of (protocol_opt arg) = some (argument arg)
protocol_of _ = none

abbrev speed_of : Opt → Option (ℕ)
speed_of (speed_opt arg) = some (argument arg)
speed_of _ = none

abbrev parity_of : Opt → Option (ℕ)
parity_of (parity_opt arg) = some (argument arg)
parity_of _ = none

abbrev ctrl_flow_of : Opt → Option (ℕ)
ctrl_flow_of (ctrl_flow_opt arg) = some (argument arg)
ctrl_flow_of _ = none

abbrev nb_stop_of : Opt → Option (ℕ)
nb_stop_of (nb_stop_opt arg) = some (argument arg)
nb_stop_of _ = none

abbrev device_of : Opt → Option (Option (List ℕ))
device_of (device_opt arg) = some (some arg)
device_of _ = none

abbrev file_of : Opt → Option (Option (List ℕ))
file_of (file_opt arg) = some (some arg)
file_of _ = none

abbrev crc_of : Opt → Option (ℕ)
crc_of crc_opt = some 1
crc_of _ = none

abbrev one_k_of : Opt → Option (ℕ)
one_k_of one_k_opt = some 1
one_k_of _ = none

abbrev tx_of : Opt → Option (ℕ)
tx_of tx_opt = some 1
tx_of _ = none

abbrev rx_of : Opt → Option (ℕ)
rx_of rx_opt = some 1
rx_of _ = none

-- The options of a command line, behind those of `o`.
abbrev over : Options → List Opt → Options
over o opts = record {
  protocol = last_of protocol_of o.protocol opts;
  device = last_of device_of o.device opts;
  speed = last_of speed_of o.speed opts;
  parity = last_of parity_of o.parity opts;
  ctrl_flow = last_of ctrl_flow_of o.ctrl_flow opts;
  nb_stop = last_of nb_stop_of o.nb_stop opts;
  crc = last_of crc_of o.crc opts;
  xmodem_blksize = last_of one_k_of o.xmodem_blksize opts;
  tx = last_of tx_of o.tx opts;
  rx = last_of rx_of o.rx opts;
  filename = last_of file_of o.filename opts;
}

abbrev pub requested : List Opt → Options
requested opts = over no_options opts

abbrev pub all_known : List Opt → Bool
all_known [] = true
all_known (unknown_opt ∷ opts) = false
all_known (_ ∷ opts) = all_known opts

take_options_over :
    (opts : List Opt) (o : Options)
    → take_options opts o ≡ (if all_known opts then some (over o opts) else none)
unfolding take_options take_option
take_options_over [] o = refl
take_options_over ((protocol_opt arg) ∷ opts) o =
    take_options_over opts (record o { protocol = argument arg })
take_options_over ((device_opt arg) ∷ opts) o =
    take_options_over opts (record o { device = some arg })
take_options_over ((speed_opt arg) ∷ opts) o =
    take_options_over opts (record o { speed = argument arg })
take_options_over ((parity_opt arg) ∷ opts) o =
    take_options_over opts (record o { parity = argument arg })
take_options_over ((ctrl_flow_opt arg) ∷ opts) o =
    take_options_over opts (record o { ctrl_flow = argument arg })
take_options_over ((nb_stop_opt arg) ∷ opts) o =
    take_options_over opts (record o { nb_stop = argument arg })
take_options_over ((file_opt arg) ∷ opts) o =
    take_options_over opts (record o { filename = some arg })
take_options_over (crc_opt ∷ opts) o = take_options_over opts (record o { crc = 1 })
take_options_over (one_k_opt ∷ opts) o = take_options_over opts (record o { xmodem_blksize = 1 })
take_options_over (tx_opt ∷ opts) o = take_options_over opts (record o { tx = 1 })
take_options_over (rx_opt ∷ opts) o = take_options_over opts (record o { rx = 1 })
take_options_over (unknown_opt ∷ opts) o = refl

pub take_options-requested :
    (opts : List Opt)
    → take_options opts no_options ≡ (if all_known opts then some (requested opts) else none)
take_options-requested opts = take_options_over opts no_options

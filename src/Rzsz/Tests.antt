-- ===== src/Rzsz/Tests.antt =====
-- Runs of the tool src/tools/rzsz.c on scripted system calls, and the theorems at concrete options.
use light_modem.Base.{
  ℕ, zero, suc, ◌≡◌, ◌≤◌, ap, subst, ◌⊎◌, inr, refl, Bool, true, false, List, [], ◌∷◌, none, some,
  done, arith, replicate, length-replicate, IsBytes,
}
use light_modem.Buffer.{Buffer}
use light_modem.Buffer.Laws.{IsValid}
use light_modem.Modem.{xmodem}
use light_modem.Receive.Ready.{IsReady}
use light_modem.Emit.{framing}
use light_modem.Emit.Sizes.{CanSend}
use light_modem.Serial.Scripted.{scripted_os}
use light_modem.Ymodem.Text.{skip_spaces, read_sign, to_ulong}
use light_modem.Rzsz.Options.{
  Opt, Options, no_options, argument, protocol_opt, device_opt, file_opt, rx_opt, parse_options,
  number_of_any_base, leading_number, digit_value,
}
use light_modem.Rzsz.Accepted.{IsComplete, parse_options_lem}
use light_modem.Rzsz.Requested.{requested, all_known}
use light_modem.Rzsz.Main.{Files, Stat, choose, set_up, main}
use light_modem.Rzsz.Ready.{with_file, set_up_lem}
use light_modem.Rzsz.Total.{main_total}

hexadecimal : argument (b'0' ∷ b'x' ∷ b'1' ∷ b'F' ∷ []) ≡ 31
unfolding argument skip_spaces read_sign to_ulong number_of_any_base leading_number digit_value
hexadecimal = refl

octal_argument : argument (b'0' ∷ b'1' ∷ b'7' ∷ b'8' ∷ []) ≡ 15
unfolding argument skip_spaces read_sign to_ulong number_of_any_base leading_number digit_value
octal_argument = refl

-- --protocol 0 --device d --rx --file f
abbrev arguments : List Opt
arguments = protocol_opt (b'0' ∷ []) ∷ device_opt (b'd' ∷ []) ∷ rx_opt ∷ file_opt (b'f' ∷ []) ∷ []

parse_options_lem_example :
    ((parse_options arguments ≡ some (requested arguments))
      × (all_known arguments ≡ true)
      × IsComplete (requested arguments))
    ⊎ ((parse_options arguments ≡ none)
        × ((all_known arguments ≡ false) ⊎ (¬ IsComplete (requested arguments))))
parse_options_lem_example = parse_options_lem arguments

abbrev arrivals : List (List ℕ)
arrivals = (7 ∷ 8 ∷ []) ∷ []

abbrev receiving : Options
receiving = record no_options { device = some (b'd' ∷ []); rx = 1; filename = some (b'f' ∷ []) }

zeros-IsBytes : (n : ℕ) → IsBytes (replicate n 0)
zeros-IsBytes zero = tt
zeros-IsBytes (suc n) = (omega arith, zeros-IsBytes n)

abbrev small_file : Buffer
small_file = record { buffer = 7 ∷ []; read_offset = 0; write_offset = 1; max_size = 1 }

small_file-IsValid : IsValid small_file
small_file-IsValid = record {
  read-le-write = omega arith;
  write-le-max = omega arith;
  in_storage = omega arith;
  small = omega arith;
}

set_up_lem_example :
    let (ok, m) = set_up receiving xmodem (replicate 132 0) arrivals in
    let f = framing xmodem m.opts in
    (ok ≡ true)
    × IsReady (with_file xmodem small_file m)
    × CanSend f.with_crc f.default_blksize (with_file xmodem small_file m)
unfolding choose
set_up_lem_example =
    set_up_lem receiving xmodem (replicate 132 0) arrivals small_file refl (zeros-IsBytes 132)
      small_file-IsValid (omega arith, tt)

-- Files that are empty.
abbrev no_files : Files (List (List ℕ))
no_files = record {
  stat = λ name w. (some (record { st_size = 0; st_mtime = 0; st_mode = 0 }), w);
  fopen_read = λ name w. (true, w);
  fopen_write = λ name w. (true, w);
  fread = λ size w. (replicate size 0, w);
  fwrite = λ bytes w. w;
  fclose = λ w. w;
  fread_size = λ size w. length-replicate {A = ℕ} size 0;
  fread_bytes = λ size w. zeros-IsBytes size;
}

abbrev empty_stat : Stat
empty_stat = record { st_size = 0; st_mtime = 0; st_mode = 0 }

no_size : (w : List (List ℕ)) (s : Stat) → some empty_stat ≡ some s → s.st_size ≤ 0
no_size w s e =
    subst (λ (n : ℕ). n ≤ 0) (ap (λ o. elim o [ none ↦ 0 | some x ↦ x.st_size ]) e) (omega arith)

main_total_example :
    (code : Bool) × (world' : List (List ℕ)) × (main scripted_os no_files 20000000
        (λ n. replicate n 0)
        receiving
        xmodem
        (b'd' ∷ [])
        (b'f' ∷ [])
        arrivals
      ≡ done (code, world'))
main_total_example =
    main_total scripted_os no_files 20000000 0 (λ n. replicate n 0) receiving (b'd' ∷ [])
      (b'f' ∷ []) arrivals (λ n. length-replicate {A = ℕ} n 0) zeros-IsBytes (inr refl) no_size
      (omega arith) (omega arith)

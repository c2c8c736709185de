-- ===== src/Modem/Tests.antt =====
-- Runs of the setters and getters of src/lmodem_init.c.
use light_modem.Base.{
  [], ◌∷◌, ◌++◌, ◌≡◌, refl, true, none, some, done, fault, load, store, take, drop, arith,
}
use light_modem.Modem.Flags.{all_set, getters_lem}
use light_modem.Modem.Names.{filled_up, get_filename-set_filename}
use light_modem.Modem.{FileCharacteristics, no_file}
use light_modem.Modem.Metadata.{
  strncpy, set_filename, get_filename, set_filesize, set_modif_time, set_permission, set_serial,
  get_filesize, has_filename, get_modif_time, get_permission, get_serial,
}

abbrev named : FileCharacteristics
named = record no_file { filename = some (1 ∷ 1 ∷ 1 ∷ 1 ∷ []); filename_size = 4 }

-- The size is set, and not given back as long as no name is.
size_alone : get_filesize true (set_filesize 9 no_file) ≡ none
unfolding get_filesize set_filesize has_filename
size_alone = refl

-- A name that is too long is cut.
name_cut :
    set_filename (b'a' ∷ b'b' ∷ b'c' ∷ b'd' ∷ b'e' ∷ 0 ∷ []) named
    ≡ done (tt, record named { filename = some (b'a' ∷ b'b' ∷ b'c' ∷ 0 ∷ []); valid = 1 })
unfolding set_filename strncpy load store
name_cut = refl

name_outside : set_filename (b'a' ∷ b'b' ∷ []) named ≡ fault
unfolding set_filename strncpy
name_outside = refl

get_filename-set_filename_example :
    (d' : FileCharacteristics) × (set_filename ((b'a' ∷ b'b' ∷ []) ++ (0 ∷ [])) named
      ≡ done (tt, d'))
    × (get_filename (some (5 ∷ 5 ∷ 5 ∷ 5 ∷ [])) 3 d'
        ≡ done (
          (
            true,
            some (take 2 (filled_up 4 (b'a' ∷ b'b' ∷ [])) ++ (0 ∷ drop 3 (5 ∷ 5 ∷ 5 ∷ 5 ∷ []))),
          ),
          d',
        ))
get_filename-set_filename_example =
    get_filename-set_filename named (1 ∷ 1 ∷ 1 ∷ 1 ∷ []) (b'a' ∷ b'b' ∷ []) [] (5 ∷ 5 ∷ 5 ∷ 5 ∷ [])
      3 refl (omega arith) (omega arith) (omega arith, (omega arith, tt)) (omega arith)
      (omega arith) (omega arith) (omega arith)

-- A name was set: the getters give back what was set, and of the permission 16 bits.
abbrev with_values : FileCharacteristics
with_values = all_set 9 10 0x181a4 12 (record named { valid = 1 })

getters_lem_example :
    (with_values.valid ≡ 0x1f)
    × (with_values.filename ≡ named.filename)
    × (get_filesize true with_values ≡ some 9)
    × (get_modif_time true with_values ≡ some 10)
    × (get_permission true with_values ≡ some 0x81a4)
    × (get_serial true with_values ≡ some 12)
unfolding has_filename set_filesize set_modif_time set_permission set_serial
getters_lem_example = getters_lem 9 10 0x181a4 12 (record named { valid = 1 })

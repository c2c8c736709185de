-- ===== src/Rzsz/Accepted.antt =====
-- The command lines that `parse_options` of src/tools/rzsz.c accepts, and what it makes of them.
use light_modem.Base.{
  ℕ, zero, suc, ◌<◌, ◌≡◌, ◌⊎◌, inl, inr, refl, ap, subst, ◌∙◌, sym, Bool, true, false, List, [],
  ◌∷◌, Option, some, none, arith, ◌==◌, bit_xor, Bool-cases, true-false, ◌↔◌,
}
use light_modem.Modem.{Protocol, xmodem, ymodem}
use light_modem.Rzsz.Requested.{requested, all_known, take_options-requested}
use light_modem.Rzsz.Options.{
  Opt, Options, no_options, take_option, take_options, accepts, checks, parse_options, protocol_of,
  protocol_opt, device_opt, speed_opt, parity_opt, ctrl_flow_opt, nb_stop_opt, file_opt, crc_opt,
  one_k_opt, tx_opt, rx_opt, unknown_opt,
}

-- The flags for the directions are 0 or 1.
abbrev HasFlags : Options → Type 0
HasFlags o = (o.tx < 2) × (o.rx < 2)

some_inj : {A : Type 0} {a b : A} → some a ≡ some b → a ≡ b
some_inj {a} e = ap (λ o. elim o [ none ↦ a | some x ↦ x ]) e

none-some : {A : Type 0} {a : A} → none ≡ some a → ⊥
none-some e = cc

undirected_lem :
    (tx rx : ℕ) → ((tx ≡ 1) × (rx ≡ 0)) ⊎ ((tx ≡ 0) × (rx ≡ 1)) → (bit_xor tx rx == 0) ≡ false
undirected_lem tx rx (inl (e, f)) = rw (e, f) refl
undirected_lem tx rx (inr (e, f)) = rw (e, f) refl

take_option-HasFlags :
    (opt : Opt) (o : Options)
    → HasFlags o
    → (take_option opt o ≡ none) ⊎ ((o' : Options) × (take_option opt o ≡ some o') × HasFlags o')
unfolding take_option
take_option-HasFlags (protocol_opt arg) o h = inr (_, refl, h)
take_option-HasFlags (device_opt arg) o h = inr (_, refl, h)
take_option-HasFlags (speed_opt arg) o h = inr (_, refl, h)
take_option-HasFlags (parity_opt arg) o h = inr (_, refl, h)
take_option-HasFlags (ctrl_flow_opt arg) o h = inr (_, refl, h)
take_option-HasFlags (nb_stop_opt arg) o h = inr (_, refl, h)
take_option-HasFlags (file_opt arg) o h = inr (_, refl, h)
take_option-HasFlags crc_opt o h = inr (_, refl, h)
take_option-HasFlags one_k_opt o h = inr (_, refl, h)
take_option-HasFlags tx_opt o h = inr (_, refl, (omega arith, h.1))
take_option-HasFlags rx_opt o h = inr (_, refl, (h.0, omega arith))
take_option-HasFlags unknown_opt o h = inl refl

take_options-HasFlags :
    (opts : List Opt) (o o' : Options) → HasFlags o → take_options opts o ≡ some o' → HasFlags o'
unfolding take_options
take_options-HasFlags [] o o' h e = subst HasFlags (some_inj e) h
take_options-HasFlags (opt ∷ opts) o o' h e = elim (take_option-HasFlags opt o h) [
  | inl stop ↦ absurd (cc (rw (take_options, stop) at e))
  | inr (next, step, h') ↦ take_options-HasFlags opts next o' h' (rw (take_options, step) at e)
]

-- One direction is asked for, and the other is not.
abbrev pub HasDirection : Options → Type 0
HasDirection o = ((o.tx ≡ 1) × (o.rx ≡ 0)) ⊎ ((o.tx ≡ 0) × (o.rx ≡ 1))

direction_lem :
    (tx rx : ℕ)
    → tx < 2
    → rx < 2
    → (bit_xor tx rx == 0) ≡ false
    → ((tx ≡ 1) × (rx ≡ 0)) ⊎ ((tx ≡ 0) × (rx ≡ 1))
direction_lem zero zero h k e = absurd (cc)
direction_lem zero (suc zero) h k e = inr (refl, refl)
direction_lem (suc zero) zero h k e = inl (refl, refl)
direction_lem (suc zero) (suc zero) h k e = absurd (cc)
direction_lem (suc (suc tx)) rx h k e = absurd (omega arith)
direction_lem tx (suc (suc rx)) h k e = absurd (omega arith)

-- One of the two protocols is named, the other options that a transfer needs are there, and one
-- direction of the two is asked for.
pub record IsComplete (o : Options) : Type 0 where
  pub protocol : o.protocol < 2
  pub device : (text : List ℕ) × (o.device ≡ some text)
  pub filename : (text : List ℕ) × (o.filename ≡ some text)
  pub direction : HasDirection o

AllThere : Option Protocol → Option (List ℕ) → Bool → Option (List ℕ) → Type 0
AllThere protocol device undirected filename =
    ((p : Protocol) × (protocol ≡ some p))
    × ((text : List ℕ) × (device ≡ some text))
    × (undirected ≡ false)
    × ((text : List ℕ) × (filename ≡ some text))

checks_lem :
    (protocol : Option Protocol) (device : Option (List ℕ)) (undirected : Bool)
    (filename : Option (List ℕ))
    → (checks protocol device undirected filename ≡ true)
      ↔ AllThere protocol device undirected filename
unfolding checks AllThere
checks_lem (some p) (some d) false (some f) =
    (λ _. ((p, refl), (d, refl), refl, (f, refl)), λ _. refl)
checks_lem (some p) (some d) false none = (λ e. absurd (cc), λ h. absurd (none-some (h.3.1)))
checks_lem (some p) (some d) true f = (λ e. absurd (cc), λ h. absurd (cc (h.2)))
checks_lem (some p) none u f = (λ e. absurd (cc), λ h. absurd (none-some (h.1.1)))
checks_lem none d u f = (λ e. absurd (cc), λ h. absurd (none-some (h.0.1)))

protocol_lem : (n : ℕ) → n < 2 → (p : Protocol) × (protocol_of n ≡ some p)
unfolding protocol_of
protocol_lem zero h = (xmodem, refl)
protocol_lem (suc zero) h = (ymodem, refl)
protocol_lem (suc (suc n)) h = absurd (omega arith)

protocol_below : (n : ℕ) (p : Protocol) → protocol_of n ≡ some p → n < 2
unfolding protocol_of
protocol_below zero p e = omega arith
protocol_below (suc zero) p e = omega arith
protocol_below (suc (suc n)) p e = absurd (none-some e)

accepts-IsComplete : (o : Options) → HasFlags o → (accepts o ≡ true) ↔ IsComplete o
unfolding accepts AllThere
accepts-IsComplete o h =
    let both = checks_lem (protocol_of o.protocol) o.device (bit_xor o.tx o.rx == 0) o.filename in
    (
      λ e.
          let (p, d, u, f) = both.0 e in
          record {
            protocol = protocol_below o.protocol p.0 p.1;
            device = d;
            filename = f;
            direction = direction_lem o.tx o.rx h.0 h.1 u;
          },
      λ c. both.1 (
        protocol_lem o.protocol c.protocol,
        c.device,
        undirected_lem o.tx o.rx c.direction,
        c.filename,
      ),
    )

-- If the command line has an option that is not known, `parse_options` accepts nothing. Otherwise,
-- `requested` says what it asks for: of each option with an argument the last one counts, numbers
-- are those of `strtoul`, each option without an argument is given or not, in any order, and what is
-- not given is 0 or NULL. These
-- are what `parse_options` returns if they name one of the two protocols, a device and a file and
-- ask for one direction of the two; if not, it accepts nothing.
pub parse_options_lem :
    (opts : List Opt)
    → ((parse_options opts ≡ some (requested opts))
        × (all_known opts ≡ true)
        × IsComplete (requested opts))
      ⊎ ((parse_options opts ≡ none) × ((all_known opts ≡ false) ⊎ (¬ IsComplete (requested opts))))
unfolding parse_options
parse_options_lem opts =
    let taken = take_options-requested opts in
    elim (Bool-cases (all_known opts)) [
      | inr e ↦
          let stop : take_options opts no_options ≡ none = taken ∙ rw e refl in
          inr (rw (parse_options, stop), inl e)
      | inl e ↦
          let o = requested opts in
          let go : take_options opts no_options ≡ some o = taken ∙ rw e refl in
          let flags = take_options-HasFlags opts no_options o (omega arith, omega arith) go in
          let both = accepts-IsComplete o flags in
          elim (Bool-cases (accepts o)) [
            | inl ok ↦ inl (rw (parse_options, go, ok), e, both.0 ok)
            | inr bad ↦
                inr (rw (parse_options, go, bad), inr (λ c. true-false (sym (both.1 c) ∙ bad)))
          ]
    ]

-- ===== src/DbgSerial/Safe.antt =====
-- The serial tracer src/tools/dbg_serial.c on any port.
use light_modem.Base.{
  ℕ, zero, suc, ◌≡◌, refl, sym, ◌∙◌, ap, Bool, true, false, ◌⊎◌, inl, inr, List, [], ◌∷◌, ◌++◌,
  none, Outcome, done, spent, arith, length, length-drop, drop, get_or, append_assoc, ◌==◌, ◌>>=◌,
  zoom, Bool-cases, Option-cases, true-false,
}
use light_modem.Serial.{Os}
use light_modem.Serial.Calls.{setup_lem, serial_send_char_returns}
use light_modem.Serial.Read.{serial_read_total}
use light_modem.DbgSerial.{
  codes, calcul_chksum, hex_of_byte, hex_of_char, dump, Tracer, newline, send_char, trace_block,
  trace_eot, trace_other, dispatch, body, loop, main,
}
use light_modem.DbgSerial.Session.{calcul_chksum_lem, name_of, name_printed, sum_shown, eot_shown}

-- A call that comes to a result.
abbrev Returns : {A W : Type 0} → Outcome (A × Tracer W) → Type 0
Returns {A} {W} r = (a : A) × (t : Tracer W) × (r ≡ done (a, t))

module _ {W : Type 0} (os : Os W) (fd : ℕ) where
  send_char_lem :
      (c : ℕ) (t : Tracer W) → (w : W) × (send_char os fd c t ≡ done (tt, record t { world = w }))
  send_char_lem c t =
      let (ok, w, sends) = serial_send_char_returns os fd c t.world in (w, rw (zoom, sends, ◌>>=◌))

  trace_block-Returns : (t : Tracer W) → Returns (trace_block os fd t)
  unfolding trace_block
  trace_block-Returns t =
      let r = serial_read_total os fd 135 132 t.world (omega arith) in
      elim (Bool-cases r.got.ok) [
        | inl ok ↦
            let size : length r.got.bytes ≡ 132 = elim r.fills [
              | inl failed ↦ absurd (true-false (sym ok ∙ failed))
              | inr full ↦ full
            ] in
            let sum_run : calcul_chksum (drop 2 r.got.bytes) 129 ≡ done (sum_shown r.got.bytes) =
              calcul_chksum_lem (drop 2 r.got.bytes) 129
                (omega (arith, length-drop 2 r.got.bytes)) in
            let (ok', w', sends) = serial_send_char_returns os fd 6 r.world in
            (
              tt,
              record {
                world = w';
                out =
                    ((((t.out ++ codes "SOH: ") ++ dump r.got.bytes) ++ newline)
                      ++ (codes "chksum = 0x" ++ hex_of_byte (sum_shown r.got.bytes)))
                    ++ newline;
              },
              rw (zoom, r.run, ◌>>=◌, ok, sum_run, ◌>>=◌, sends, ◌>>=◌),
            )
        | inr failed ↦ (
          tt,
          record { world = r.world; out = t.out ++ codes "SOH: " },
          rw (zoom, r.run, ◌>>=◌, failed),
        )
      ]

  trace_other_lem :
      (c : ℕ) (t : Tracer W) → (t' : Tracer W) × (trace_other os fd c t ≡ done (tt, t'))
  unfolding trace_other
  trace_other_lem c t = (
    record t {
      out =
          ((t.out ++ (b'>' ∷ c ∷ codes " (0x" ++ (hex_of_char c ++ codes ")"))) ++ name_of c)
          ++ newline;
    },
    rw (name_printed c, ◌>>=◌),
  )

  -- A round of the loop goes on, or it was one with EOT.
  abbrev Goes : Tracer W → Outcome (Bool × Tracer W) → Type 0
  Goes t r =
      (t' : Tracer W) × ((r ≡ done (false, t'))
        ⊎ ((r ≡ done (true, t')) × (t'.out ≡ t.out ++ eot_shown)))

  trace_eot_lem :
      (t : Tracer W)
      → (w : W) × (trace_eot os fd t ≡ done (tt, record { world = w; out = t.out ++ eot_shown }))
  unfolding trace_eot
  trace_eot_lem t =
      let (ok, w, sends) = serial_send_char_returns os fd 6 t.world in
      (
        w,
        rw (zoom, sends, ◌>>=◌)
            (ap (λ l. done (tt, record { world = w; out = l }))
              (append_assoc t.out (codes "EOT: ") newline)),
      )

  dispatch-Goes : (c : ℕ) (t : Tracer W) → Goes t (dispatch os fd c t)
  unfolding dispatch
  dispatch-Goes c t = elim (Bool-cases (c == 1)) [
    | inl e ↦ let (_, t', run) = trace_block-Returns t in (t', inl (rw (e, run, ◌>>=◌)))
    | inr ne ↦ elim (Bool-cases (c == 4)) [
      | inl e ↦
          let (w, run) = trace_eot_lem t in
          (record { world = w; out = t.out ++ eot_shown }, inr (rw (ne, e, run, ◌>>=◌), refl))
      | inr ne' ↦ let (t', run) = trace_other_lem c t in (t', inl (rw (ne, ne', run, ◌>>=◌)))
    ]
  ]

  body-Goes :
      (t : Tracer W)
      → (t' : Tracer W) × ((body os fd t ≡ done (false, t'))
          ⊎ ((body os fd t ≡ done (true, t')) × (text : List ℕ) × (t'.out ≡ text ++ eot_shown)))
  unfolding body
  body-Goes t =
      let r = serial_read_total os fd 4 1 t.world (omega arith) in
      let t₀ : Tracer W = record t { world = r.world } in
      elim (Bool-cases r.got.ok) [
        | inr failed ↦ (t₀, inl (rw (zoom, r.run, ◌>>=◌, failed)))
        | inl ok ↦
            let (t', goes) = dispatch-Goes (get_or r.got.bytes 0 0) t₀ in
            elim goes [
              | inl e ↦ (t', inl (rw (zoom, r.run, ◌>>=◌, ok) e))
              | inr (e, shown) ↦ (t', inr (rw (zoom, r.run, ◌>>=◌, ok) e, t.out, shown))
            ]
      ]

  -- The loop ends behind an EOT, or uses up its fuel.
  loop_lem :
      (fuel : ℕ) (t : Tracer W)
      → (loop os fd fuel t ≡ spent)
        ⊎ ((t' : Tracer W) × (text : List ℕ) × (loop os fd fuel t ≡ done (tt, t'))
            × (t'.out ≡ text ++ eot_shown))
  unfolding loop
  loop_lem zero t = inl refl
  loop_lem (suc fuel) t =
      let (t', goes) = body-Goes t in
      elim goes [
        | inl e ↦ rw (e, ◌>>=◌) (loop_lem fuel t')
        | inr (e, text, shown) ↦ inr (t', text, rw (e, ◌>>=◌), shown)
      ]

-- On every port, whatever it delivers, `main` accesses nothing outside the block that it reads and
-- the table of names. Either the device cannot be opened, it ends with EXIT_FAILURE and has printed
-- nothing; or it ends with EXIT_SUCCESS, and the last that it has printed is the line for EOT; or
-- it still runs when its fuel is used up.
pub main_safe :
    {W : Type 0} (os : Os W) (fuel : ℕ) (w : W)
    → (main os fuel (record { world = w; out = [] }) ≡ spent)
      ⊎ ((w' : W) × (main os fuel (record { world = w; out = [] })
            ≡ done (false, record { world = w'; out = [] }))
          × ((os.open_device (codes "/dev/ttyUSB0") w).0 ≡ none))
      ⊎ ((t' : Tracer W) × (text : List ℕ) × (main os fuel (record { world = w; out = [] })
            ≡ done (true, t'))
          × (t'.out ≡ text ++ eot_shown))
unfolding main
main_safe os fuel w =
    let (opened, w₁, run₁, is) = setup_lem os (codes "/dev/ttyUSB0") 115200 0 0 1 w in
    elim (Option-cases opened) [
      | inl e ↦ inr (inl (w₁, rw (run₁, ◌>>=◌, e), sym is ∙ e))
      | inr (fd, e) ↦
          let (w₂, run₂) = send_char_lem os fd b'C' (record { world = w₁; out = [] }) in
          elim (loop_lem os fd fuel (record { world = w₂; out = [] })) [
            | inl run₃ ↦ inl (rw (run₁, ◌>>=◌, e, run₂, ◌>>=◌, run₃))
            | inr (t', text, run₃, shown) ↦ inr (
                inr (
                  record t' { world = os.close fd t'.world },
                  text,
                  rw (run₁, ◌>>=◌, e, run₂, ◌>>=◌, run₃),
                  shown,
                ))
          ]
    ]

-- ===== src/Emit/Answer.antt =====
-- What an answer, or silence, does to the loop of `lxmode_send_data_blocks`.
use light_modem.Base.{
  ℕ, ◌+◌, ◌-◌, ◌*◌, ◌<◌, ◌≤◌, ◌≡◌, refl, true, false, arith, if◌then◌else◌, Option, none, some, ◌⊎◌,
  inl, inr, leb, ◌==◌, Bool-cases, u32, minus_one,
}
use light_modem.Modem.{ack, nak}
use light_modem.Emit.{Tx, answered, react, give_up}

-- A bound on the rounds left, where `left` bytes of the file are: eleven for each byte and for EOT,
-- and the tries left.
abbrev pub base : Tx → ℕ → ℕ
base s left = if s.is_last_block then 0 else 11 * (left + 1)

abbrev pub measure : Tx → ℕ → ℕ
measure s left = base s left + (if s.retry == 0 then 0 else 10 - s.retry)

-- The variables between two rounds.
pub record Sound (s : Tx) (left : ℕ) : Type 0 where
  pub number : s.blk_no < 256
  pub few : (s.finished ≡ true) ⊎ (s.retry ≤ 9)
  pub fresh : (s.finished ≡ true) ⊎ ((s.is_last_block ≡ false) ⊎ (1 ≤ s.retry))
  pub over : (s.is_last_block ≡ false) ⊎ (left ≡ 0)
  pub ended : (s.finished ≡ false) ⊎ ((s.emitted_bytes ≡ minus_one) ⊎ (left ≡ 0))

-- The loop ends, or less than `k` is left.
abbrev pub Nearer : Tx → ℕ → ℕ → Type 0
Nearer s left k = Sound s left × ((s.finished ≡ true) ⊎ (measure s left < k))

module _ (left : ℕ) (s : Tx) (number : s.blk_no < 256)
    (over : (s.is_last_block ≡ false) ⊎ (left ≡ 0)) where
  stopped :
      (n k : ℕ) → Nearer (record s { retry = n; emitted_bytes = minus_one; finished = true }) left k
  stopped n k = (
    record {
      number = number;
      few = inl refl;
      fresh = inl refl;
      over = over;
      ended = inr (inl refl);
    },
    inl refl,
  )

  -- One try more.
  again :
      s.finished ≡ false
      → s.retry ≤ 9
      → Nearer
          (give_up (record s { retry = u32 (s.retry + 1) }))
          left
          (base s left + (10 - s.retry))
  unfolding give_up
  again running few = elim (Bool-cases (leb 10 (u32 (s.retry + 1)))) [
    | inl e ↦ rw e (stopped (u32 (s.retry + 1)) (base s left + (10 - s.retry)))
    | inr e ↦ rw e (
      record {
        number = number;
        few = inr (ground arith);
        fresh = inr (inr (omega arith));
        over = over;
        ended = inl running;
      },
      inr (ground arith),
    )
  ]

  acked :
      s.finished ≡ false
      → s.retry ≤ 9
      → Nearer (give_up (answered ack s)) left (base s left + (10 - s.retry))
  unfolding give_up answered
  acked running few = elim (Bool-cases s.is_last_block) [
    | inl e ↦
        let empty : left ≡ 0 = ground arith in
        rw e (
          record {
            number = omega arith;
            few = inl refl;
            fresh = inl refl;
            over = inr empty;
            ended = inr (inr empty);
          },
          inl refl,
        )
    | inr e ↦ rw e (
      record {
        number = omega arith;
        few = inr (omega arith);
        fresh = inr (inl refl);
        over = inl refl;
        ended = inl running;
      },
      inr (omega arith),
    )
  ]

  pub react_lem :
      (c : Option ℕ)
      → s.finished ≡ false
      → s.retry ≤ 9
      → Nearer (give_up (react c s)) left (base s left + (10 - s.retry))
  unfolding react answered give_up
  react_lem none running few = again running few
  react_lem (some byte) running few = elim (Bool-cases (byte == ack)) [
    | inl e ↦ let same : byte ≡ ack = ground arith in rw same (acked running few)
    | inr e₁ ↦ elim (Bool-cases (byte == nak)) [
      | inl e ↦ rw (e₁, e) (again running few)
      | inr e₂ ↦ elim (Bool-cases (leb 2 (u32 (s.retry + 1)))) [
        | inl e ↦
            rw (e₁, e₂, e)
              (elim (Bool-cases (leb 10 (u32 (s.retry + 1)))) [
                | inl f ↦ rw f (stopped (u32 (s.retry + 1)) (base s left + (10 - s.retry)))
                | inr f ↦ rw f (stopped (u32 (s.retry + 1)) (base s left + (10 - s.retry)))
              ])
        | inr e ↦ rw (e₁, e₂, e) (again running few)
      ]
    ]
  ]

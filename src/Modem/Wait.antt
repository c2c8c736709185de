-- ===== src/Modem/Wait.antt =====
-- What it is for the line to bring certain bytes after some calls of `getchar` that fail, or nothing.
use light_modem.Base.{ℕ, zero, suc, ◌≡◌, true, false, List}
use light_modem.Modem.{Line}

module _ {P : Type 0} (line : Line P) where
  -- From the state `p` of the line on, `failures` calls of `getchar` for `n` bytes fail, and the
  -- next brings `bytes` and leaves `q`.
  abbrev pub Comes : ℕ → List ℕ → ℕ → P → P → Type 0
  Comes n bytes zero p q =
      ((line.getchar p n).0.ok ≡ true)
      × ((line.getchar p n).0.bytes ≡ bytes)
      × ((line.getchar p n).1 ≡ q)
  Comes n bytes (suc failures) p q =
      ((line.getchar p n).0.ok ≡ false) × Comes n bytes failures (line.getchar p n).1 q

  -- The next `failures` calls for one byte fail, and leave `q`.
  abbrev pub Fails : ℕ → P → P → Type 0
  Fails zero p q = p ≡ q
  Fails (suc failures) p q =
      ((line.getchar p 1).0.ok ≡ false) × Fails failures (line.getchar p 1).1 q

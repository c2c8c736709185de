-- ===== src/Receive/Sequence.antt =====
-- What `lxmodem_receive` of src/lmodem_rx.c makes of the blocks that a line brings one by one.
use light_modem.Base.{
  ℕ, suc, ◌+◌, ◌-◌, ◌%◌, ◌<◌, ◌≡◌, ◌≢◌, ◌⊎◌, Bool, true, false, List, [], ◌∷◌, ◌++◌, length, take,
  drop, if◌then◌else◌,
}
use light_modem.Frame.{block}
use light_modem.Modem.{Line}
use light_modem.Receive.Block.{trailer_size}

-- A block of 128 bytes, or of 1024.
abbrev pub header_of : Bool → ℕ
header_of long = if long then 2 else 1

abbrev pub size_of : Bool → ℕ
size_of long = if long then 1024 else 128

-- The bytes of such a block behind its first character, and the first two of them.
abbrev pub bytes_of : (ℕ → Bool) → Bool → ℕ
bytes_of check long = size_of long + 2 + trailer_size (check (size_of long))

abbrev pub heading : ℕ → List ℕ
heading number = number ∷ (255 - number) ∷ []

-- The bytes of all payloads.
abbrev pub joined : List (List ℕ) → List ℕ
joined [] = []
joined (payload ∷ more) = payload ++ joined more

module _ {P : Type 0} (line : Line P) where
  -- One call of `getchar` for `n` bytes brings `bytes`.
  abbrev pub Gives : P → ℕ → List ℕ → Type 0
  Gives p n bytes = ((line.getchar p n).0.ok ≡ true) × ((line.getchar p n).0.bytes ≡ bytes)

  -- The port behind such a call.
  abbrev pub behind : P → ℕ → P
  behind p n = (line.getchar p n).1

  -- A block and its first character, and the port behind the answer to it.
  abbrev pub GivesBlock : (ℕ → Bool) → P → Bool → List ℕ → Type 0
  GivesBlock check p long bytes =
      Gives p 1 (header_of long ∷ []) × Gives (behind p 1) (bytes_of check long) bytes

  abbrev pub answered : (ℕ → Bool) → P → Bool → ℕ → P
  answered check p long answer =
      line.putchar (behind (behind p 1) (bytes_of check long)) (answer ∷ [])

  -- From the state `p` on, where block `number` is due and `tries` tries were lost for it, the line
  -- brings `payloads` in blocks with the check `check` and then EOT, to a receiver that answers
  -- with ACK what it accepts and what it has already, and with NAK a damaged block; in front of
  -- each block there are at most nine calls that fail, repeated blocks and damaged ones.
  pub data Brings (long_taken : Bool) (check : ℕ → Bool) : ℕ → ℕ → List (List ℕ) → P → Type 0 where
    ended :
        {tries number : ℕ} {p : P} → Gives p 1 (4 ∷ []) → Brings long_taken check tries number [] p
    good :
        {tries number : ℕ} {payloads : List (List ℕ)} {p : P} (long : Bool) (payload : List ℕ)
        → (long ≡ false) ⊎ (long_taken ≡ true)
        → length payload ≡ size_of long
        → GivesBlock check p long (block (check (size_of long)) number payload)
        → Brings long_taken check 0 ((number + 1) % 256) payloads (answered check p long 6)
        → Brings long_taken check tries number (payload ∷ payloads) p
    silent :
        {tries number : ℕ} {payloads : List (List ℕ)} {p : P}
        → tries < 9
        → (line.getchar p 1).0.ok ≡ false
        → Brings long_taken check (suc tries) number payloads (behind p 1)
        → Brings long_taken check tries number payloads p
    repeated :
        {tries number : ℕ} {payloads : List (List ℕ)} {p : P} (long : Bool) (bytes : List ℕ)
        → tries < 9
        → (long ≡ false) ⊎ (long_taken ≡ true)
        → GivesBlock check p long bytes
        → take 2 bytes ≡ heading ((number + 255) % 256)
        → Brings long_taken check (suc tries) number payloads (answered check p long 6)
        → Brings long_taken check tries number payloads p
    damaged :
        {tries number : ℕ} {payloads : List (List ℕ)} {p : P} (long : Bool) (bytes : List ℕ)
        → tries < 9
        → (long ≡ false) ⊎ (long_taken ≡ true)
        → GivesBlock check p long bytes
        → take 2 bytes ≢ heading ((number + 255) % 256)
        → bytes ≢ block (check (size_of long)) number (take (size_of long) (drop 2 bytes))
        → Brings long_taken check (suc tries) number payloads (answered check p long 21)
        → Brings long_taken check tries number payloads p

  -- The calls of `getchar` for a first character.
  unfoldable pub rounds :
      {long_taken : Bool} {check : ℕ → Bool} {tries number : ℕ} {payloads : List (List ℕ)} {p : P}
      → Brings long_taken check tries number payloads p
      → ℕ
  rounds (ended _) = 1
  rounds (good _ _ _ _ _ more) = suc (rounds more)
  rounds (silent _ _ more) = suc (rounds more)
  rounds (repeated _ _ _ _ _ _ more) = suc (rounds more)
  rounds (damaged _ _ _ _ _ _ _ more) = suc (rounds more)

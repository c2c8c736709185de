-- ===== src/Emit/Replies.antt =====
-- The answers of a receiver to the blocks of src/lmodem_tx.c, one by one.
use light_modem.Base.{
  ℕ, zero, suc, ◌+◌, ◌-◌, ◌*◌, ◌/◌, ◌%◌, ◌<◌, ◌≡◌, ◌≢◌, ◌⊎◌, List, [], ◌∷◌, arith, done, ◌>>=◌,
  some, none, length, take, drop, if◌then◌else◌, min, ◌==◌, inl, inr,
}
use light_modem.Frame.{message, size_for}
use light_modem.Modem.{Modem, Line, getchar}
use light_modem.Modem.Wait.{Comes, Fails}
use light_modem.Emit.{Framing, wait_char}

-- The size of all blocks for `left` bytes: full ones, and one for the rest.
abbrev pub occupied : ℕ → ℕ → ℕ
occupied blksize left =
    left / blksize * blksize + (if left % blksize == 0 then 0 else size_for (left % blksize))

pub occupied-next :
    (blksize left : ℕ)
    → (blksize ≡ 128) ⊎ (blksize ≡ 1024)
    → left ≢ 0
    → size_for (min blksize left) + occupied blksize (left - blksize) ≡ occupied blksize left
occupied-next blksize left (inl e) more = rw e (ground arith)
occupied-next blksize left (inr e) more = rw e (ground arith)

pub occupied-none : (blksize : ℕ) → (blksize ≡ 128) ⊎ (blksize ≡ 1024) → occupied blksize 0 ≡ 0
occupied-none blksize (inl e) = rw e (omega arith)
occupied-none blksize (inr e) = rw e (omega arith)

module _ {P : Type 0} (line : Line P) where
  -- From the state `p` of the line on, where block `number` is due for the bytes `file` and was
  -- refused `tries` times, the receiver acknowledges the blocks of `file` and then EOT, each behind
  -- at most nine answers that are not ACK, or silences of ten calls; an answer that is not NAK
  -- either is only allowed at the first try.
  pub data Takes (f : Framing) : ℕ → ℕ → List ℕ → P → Type 0 where
    over :
        {tries number : ℕ} {p : P} (failures : ℕ) (q : P)
        → failures < 10
        → Comes line 1 (6 ∷ []) failures (line.putchar p (4 ∷ [])) q
        → Takes f tries number [] p
    acked :
        {tries number : ℕ} {file : List ℕ} {p : P} (failures : ℕ) (q : P)
        → failures < 10
        → 0 < length file
        → Comes line 1
            (6 ∷ [])
            failures
            (line.putchar p (message f.with_crc number (take f.default_blksize file)))
            q
        → Takes f 0 ((number + 1) % 256) (drop f.default_blksize file) q
        → Takes f tries number file p
    refused :
        {tries number : ℕ} {file : List ℕ} {p : P} (failures byte : ℕ) (q : P)
        → failures < 10
        → tries < 9
        → byte ≢ 6
        → (byte ≡ 21) ⊎ (tries ≡ 0)
        → Comes line 1
            (byte ∷ [])
            failures
            (line.putchar p (message f.with_crc number (take f.default_blksize file)))
            q
        → Takes f (suc tries) number file q
        → Takes f tries number file p
    silent :
        {tries number : ℕ} {file : List ℕ} {p : P} (q : P)
        → tries < 9
        → Fails line 10 (line.putchar p (message f.with_crc number (take f.default_blksize file))) q
        → Takes f (suc tries) number file q
        → Takes f tries number file p

  -- The messages that go out.
  unfoldable pub rounds :
      {f : Framing} {tries number : ℕ} {file : List ℕ} {p : P} → Takes f tries number file p → ℕ
  rounds (over _ _ _ _) = 1
  rounds (acked _ _ _ _ _ more) = suc (rounds more)
  rounds (refused _ _ _ _ _ _ _ _ more) = suc (rounds more)
  rounds (silent _ _ _ more) = suc (rounds more)

  pub wait_char-Comes :
      (n byte failures : ℕ) (m : Modem P) (q : P)
      → failures < n
      → Comes line 1 (byte ∷ []) failures m.port q
      → wait_char line n m ≡ done (some byte, record m { port = q })
  unfolding wait_char getchar
  wait_char-Comes zero byte failures m q few comes = absurd (omega arith)
  wait_char-Comes (suc n) byte zero m q few (ok, bytes, here) = rw (ok, bytes, here, ◌>>=◌)
  wait_char-Comes (suc n) byte (suc failures) m q few (bad, comes) =
      rw (bad, ◌>>=◌)
        (wait_char-Comes n byte failures (record m { port = (line.getchar m.port 1).1 }) q
          (omega arith) comes)

  pub wait_char-Fails :
      (n : ℕ) (m : Modem P) (q : P)
      → Fails line n m.port q
      → wait_char line n m ≡ done (none, record m { port = q })
  unfolding wait_char getchar
  wait_char-Fails zero m q here = rw here
  wait_char-Fails (suc n) m q (bad, fails) =
      rw (bad, ◌>>=◌) (wait_char-Fails n (record m { port = (line.getchar m.port 1).1 }) q fails)

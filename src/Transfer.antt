-- ===== src/Transfer.antt =====
-- The two entry points of the library, `lmodem_receive` of src/lmodem_rx.c and `lmodem_emit` of
-- src/lmodem_tx.c. The type `Protocol` has no value for the `default` of their `switch`.
use light_modem.Base.{ℕ, M, ◌>>◌, modify}
use light_modem.Modem.{Modem, Line, Protocol, xmodem, ymodem}
use light_modem.Receive.{lxmodem_receive}
use light_modem.Emit.{lxmodem_emit}
use light_modem.Ymodem.Receive.{lymodem_receive}
use light_modem.Ymodem.Emit.{lymodem_emit}

module _ {P : Type 0} (line : Line P) where
  unfoldable pub receive_with : Protocol → ℕ → M (Modem P) ℕ
  receive_with xmodem fuel = lxmodem_receive line fuel
  receive_with ymodem fuel = lymodem_receive line fuel

  unfoldable pub lmodem_receive : Protocol → ℕ → M (Modem P) ℕ
  lmodem_receive protocol fuel = do
    modify λ m. record m { protocol = protocol }
    receive_with protocol fuel

  unfoldable pub emit_with : Protocol → ℕ → M (Modem P) ℕ
  emit_with xmodem fuel = lxmodem_emit line fuel
  emit_with ymodem fuel = lymodem_emit line fuel

  unfoldable pub lmodem_emit : Protocol → ℕ → M (Modem P) ℕ
  lmodem_emit protocol fuel = do
    modify λ m. record m { protocol = protocol }
    emit_with protocol fuel

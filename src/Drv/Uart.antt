-- ===== src/Drv/Uart.antt =====
-- The serial port: ntos/platform/amd64/io/uart.c, and `keSerialTrace` of ntos/ke/trace.c. A write is a
-- port and a byte; `inb` gives what a port reads.
use algae.Base.{
  ℕ, zero, suc, ◌+◌, ◌/◌, ◌^◌, Option, none, some, List, [], ◌∷◌, ◌++◌, ◌==◌, if◌then◌else◌, ◌>>=◌,
  ℤ, pos, negsuc, bit_or,
}

abbrev pub uart_com1 : ℕ
uart_com1 = 0x3F8

abbrev pub uart_reg : (offset : ℕ) → ℕ
uart_reg offset = uart_com1 + offset

abbrev pub uart_reg_rbr : ℕ
uart_reg_rbr = uart_reg 0

abbrev pub uart_reg_thr : ℕ
uart_reg_thr = uart_reg 0

abbrev pub uart_reg_dll : ℕ
uart_reg_dll = uart_reg 0

abbrev pub uart_reg_ier : ℕ
uart_reg_ier = uart_reg 1

abbrev pub uart_reg_fcr : ℕ
uart_reg_fcr = uart_reg 2

abbrev pub uart_reg_lcr : ℕ
uart_reg_lcr = uart_reg 3

abbrev pub uart_reg_mcr : ℕ
uart_reg_mcr = uart_reg 4

abbrev pub uart_divisor : (rate : ℕ) → ℕ
uart_divisor rate = 115200 / rate

-- The writes of `halUartInit` up to the test, and the write after it. UART_LCR_DLAB is 2^7,
-- UART_LCR_WLS0 and UART_LCR_WLS1 are 1 and 2, UART_MCR_LOOP is 2^4 and UART_MCR_DTR is 1.
abbrev pub setup_writes : List (ℕ × ℕ)
setup_writes =
    (uart_reg_ier, 0x00)
    ∷ (uart_reg_lcr, 2 ^ 7)
    ∷ (uart_reg_dll, uart_divisor 57600)
    ∷ (uart_reg_ier, 0x00)
    ∷ (uart_reg_lcr, bit_or 1 2)
    ∷ (uart_reg_fcr, 0x00)
    ∷ (uart_reg_mcr, 2 ^ 4)
    ∷ (uart_reg_thr, 0xF0)
    ∷ []

-- `UART_REG_RBR != 0xF0`, the port that the test reads.
abbrev pub tested_port : ℕ
tested_port = if uart_reg_rbr == 0xF0 then 0 else 1

unfoldable pub hal_uart_init : (inb : ℕ → ℕ) → ℤ × List (ℕ × ℕ)
hal_uart_init inb =
    if inb tested_port == 0
    then (pos 0, setup_writes ++ (uart_reg_mcr, 1) ∷ [])
    else (negsuc 0, setup_writes)

unfoldable pub hal_uart_write : (byte : ℕ) → ℕ × List (ℕ × ℕ)
hal_uart_write byte = (byte, (uart_reg_thr, byte) ∷ [])

-- `keSerialTrace` of `len` bytes; `none` is a read behind them.
unfoldable pub ke_serial_trace : List ℕ → (len : ℕ) → Option (List (ℕ × ℕ))
unfolding hal_uart_write
ke_serial_trace s zero = some []
ke_serial_trace [] (suc len) = none
ke_serial_trace (c ∷ s) (suc len) = do
  rest ← ke_serial_trace s len
  some ((hal_uart_write c).1 ++ rest)

-- ===== src/Boot/Calls.antt =====
-- The services that `_main` starts and stops are over, and leave the file as it was.
use vwii_nand_tools.Base.{
  ℕ, pos, zero, suc, inl, inr, Bool-cases, false, ◌≡◌, sym, subst, arith, ◌<◌, ◌+◌, u32, u16, ◌==◌,
  ◌!=◌, ◌|||◌, is_set, ◌<<<◌, List, ◌∷◌,
}
use vwii_nand_tools.Machine.{
  World, Board, Event, load, word, half, spin_done, while_read32, set32, clear32, pure,
}
use vwii_nand_tools.Machine.Ends.{Ends, ends_at, ends_by, ends_then, ends_if}
use vwii_nand_tools.Machine.Calm.{Kept, At, Calm}
use vwii_nand_tools.Hollywood.{aes_cmd, hw_gpio1out}
use vwii_nand_tools.Console.Gecko.{gecko_init}
use vwii_nand_tools.Exception.{exception_initialize}
use vwii_nand_tools.Memory.Mmu.{mem_initialize, mem_shutdown}
use vwii_nand_tools.Memory.Cache.{mem_protect}
use vwii_nand_tools.Irq.Mask.{irq_enable}
use vwii_nand_tools.Irq.Handler.{irq_initialize, irq_set_alarm, irq_shutdown}
use vwii_nand_tools.Seeprom.{send_bits, recv_bits, recv_from, read_words, seeprom_read, gp_eep_mosi}
use vwii_nand_tools.Crypto.{otp_words, crypto_read_otp, crypto_read_seeprom, crypto_initialize}
use vwii_nand_tools.Boot.{show_flags}

-- The AES engine is not found busy.
pub record Idle (board : Board) : Type 0 where
  pub polls : 0 < board.polls
  pub ready : (t : List Event) → u32 (board.answer (load word aes_cmd ∷ t)) ≡ 0

module _ {bd : Board} {fs : Kept} where
  pub gecko_init-Calm : (w : World) → At bd fs w → Ends (gecko_init w) (Calm bd fs)
  unfolding gecko_init
  gecko_init-Calm w q =
      elim (Bool-cases (u16 (w.board.answer (load half 0x01200002 ∷ w.trace)) == 0xdeb6)) [
        | inl e ↦ rw e (ends_at _ _ q)
        | inr e ↦ rw e (ends_at _ _ q)
      ]

  pub exception_initialize-Calm :
      (w : World) → At bd fs w → Ends (exception_initialize w) (Calm bd fs)
  unfolding exception_initialize
  exception_initialize-Calm w q = ends_at _ _ q

  mem_protect-Calm : (w : World) → At bd fs w → Ends (mem_protect false 0 0 w) (Calm bd fs)
  unfolding mem_protect
  mem_protect-Calm w q = ends_at _ _ q

  pub mem_initialize-Calm :
      (a : ℕ) (w : World) → At bd fs w → Ends (mem_initialize a w) (Calm bd fs)
  unfolding mem_initialize
  mem_initialize-Calm a w q = ends_then (mem_protect-Calm _ q) λ _ w1 q. ends_at _ _ q

  pub mem_shutdown-Calm : (w : World) → At bd fs w → Ends (mem_shutdown w) (Calm bd fs)
  unfolding mem_shutdown
  mem_shutdown-Calm w q = ends_at _ _ q

  pub show_flags-Calm : (w : World) → At bd fs w → Ends (show_flags w) (Calm bd fs)
  unfolding show_flags
  show_flags-Calm w q = ends_at _ _ q

  pub irq_initialize-Calm : (w : World) → At bd fs w → Ends (irq_initialize w) (Calm bd fs)
  unfolding irq_initialize
  irq_initialize-Calm w q = ends_at _ _ q

  pub irq_enable-Calm : (irq : ℕ) (w : World) → At bd fs w → Ends (irq_enable irq w) (Calm bd fs)
  unfolding irq_enable
  irq_enable-Calm irq w q = ends_at _ _ q

  pub irq_set_alarm-Calm : (w : World) → At bd fs w → Ends (irq_set_alarm 20 1 w) (Calm bd fs)
  unfolding irq_set_alarm
  irq_set_alarm-Calm w q = ends_at _ _ q

  pub irq_shutdown-Calm : (w : World) → At bd fs w → Ends (irq_shutdown w) (Calm bd fs)
  unfolding irq_shutdown
  irq_shutdown-Calm w q = ends_at _ _ q

  otp_words-Calm : (n i : ℕ) (w : World) → At bd fs w → Ends (otp_words n i w) (Calm bd fs)
  unfolding otp_words
  otp_words-Calm zero i w q = ends_at _ _ q
  otp_words-Calm (suc n) i w q = ends_then (otp_words-Calm n (i + 1) _ q) λ rest w1 q. ends_at _ _ q

  send_bits-Calm : (b n : ℕ) (w : World) → At bd fs w → Ends (send_bits b n w) (Calm bd fs)
  unfolding send_bits
  send_bits-Calm b zero w q = ends_at _ _ q
  send_bits-Calm b (suc n) w q =
      ends_then
        (ends_if {Post = Calm bd fs} (is_set b (1 <<< n)) (set32 hw_gpio1out gp_eep_mosi)
          (clear32 hw_gpio1out gp_eep_mosi) w (ends_at _ _ q) (ends_at _ _ q))
        λ _ w1 q. send_bits-Calm b n _ q

  recv_from-Calm : (n res : ℕ) (w : World) → At bd fs w → Ends (recv_from n res w) (Calm bd fs)
  unfolding recv_from
  recv_from-Calm zero res w q = ends_at _ _ q
  recv_from-Calm (suc n) res w q = recv_from-Calm n _ _ q

  recv_bits-Calm : (n : ℕ) (w : World) → At bd fs w → Ends (recv_bits n w) (Calm bd fs)
  unfolding recv_bits
  recv_bits-Calm n w q = recv_from-Calm n 0 w q

  read_words-Calm :
      (offset n i : ℕ) (w : World) → At bd fs w → Ends (read_words offset n i w) (Calm bd fs)
  unfolding read_words
  read_words-Calm offset zero i w q = ends_at _ _ q
  read_words-Calm offset (suc n) i w q =
      ends_then (send_bits-Calm (0x600 ||| (offset + i)) 11 _ q) λ _ w1 q.
        ends_then (recv_bits-Calm 16 w1 q)
          λ recv w2 q. ends_then (read_words-Calm offset n (i + 1) _ q) λ rest w3 q. ends_at _ _ q

  seeprom_read-Calm : (w : World) → At bd fs w → Ends (seeprom_read 0 128 w) (Calm bd fs)
  unfolding seeprom_read
  seeprom_read-Calm w q =
      ends_then {rest = λ words. pure (pos 128, words)} (read_words-Calm 0 128 0 _ q)
        λ words w1 q. ends_at _ _ q

  crypto_read_otp-Calm : (w : World) → At bd fs w → Ends (crypto_read_otp w) (Calm bd fs)
  unfolding crypto_read_otp
  crypto_read_otp-Calm w q = otp_words-Calm 0x20 0 w q

  crypto_read_seeprom-Calm : (w : World) → At bd fs w → Ends (crypto_read_seeprom w) (Calm bd fs)
  unfolding crypto_read_seeprom
  crypto_read_seeprom-Calm w q = ends_then (seeprom_read-Calm w q) λ r w1 q. ends_at _ _ q

  not_busy-Calm :
      Idle bd → (w : World) → At bd fs w → Ends (while_read32 aes_cmd (λ v. v != 0) w) (Calm bd fs)
  not_busy-Calm idle w q =
      let idle' : Idle w.board = subst Idle (sym q.0) idle in
      ends_by
        (spin_done w.board.polls aes_cmd (λ v. v != 0) w idle'.polls
          (is_zero _ (idle'.ready w.trace)))
        (ends_at _ _ q)
    where
      is_zero : (x : ℕ) → x ≡ 0 → (x != 0) ≡ false
      is_zero x e = ground arith

  pub crypto_initialize-Calm :
      Idle bd → (w : World) → At bd fs w → Ends (crypto_initialize w) (Calm bd fs)
  unfolding crypto_initialize
  crypto_initialize-Calm idle w q = ends_then (crypto_read_otp-Calm w q) λ otp w1 q.
      ends_then (crypto_read_seeprom-Calm w1 q) λ seeprom w2 q.
        ends_then (not_busy-Calm idle _ q)
          λ _ w3 q. ends_then (irq_enable-Calm 2 w3 q) λ _ w4 q. ends_at _ _ q

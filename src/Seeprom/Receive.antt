-- ===== src/Seeprom/Receive.antt =====
-- What `recv_bits` of armboot/system/seeprom.c makes of the answers on the line from the EEPROM.
use native.Mathlib.Nat.{pow-le-pow_right, pow-suc}
use mathlib.Core.List.{append_assoc, append-nil}
use vwii_nand_tools.Base.{
  ℕ, zero, suc, ◌+◌, ◌*◌, ◌^◌, ◌<◌, ◌≤◌, ◌≡◌, refl, sym, ap, ◌∙◌, arith, some, none, Option, List,
  [], ◌∷◌, ◌++◌, length, is_set, if◌then◌else◌, ◌==◌, u32, bit_or, bit_and, complement,
}
use vwii_nand_tools.Base.Bits.{bit_or_sum}
use vwii_nand_tools.Machine.{M, World, Board, Event, Call, load, store, call, word, half, byte, log}
use vwii_nand_tools.Hollywood.{hw_gpio1in, hw_gpio1out}
use vwii_nand_tools.Seeprom.{recv_from, recv_bits, gp_eep_miso, gp_eep_clk}

-- The bit that the board puts on the line at an event, if it is a load of the input register.
abbrev pub line_at : Board → Event → List Event → Option ℕ
line_at board (load word a) t =
    if a == hw_gpio1in
    then some (if is_set (u32 (board.answer (load word a ∷ t))) gp_eep_miso then 1 else 0)
    else none
line_at board (load half a) t = none
line_at board (load byte a) t = none
line_at board (store width a v) t = none
line_at board (call c) t = none

-- The bits that were read off the line in a trace, the oldest first.
abbrev pub heard : Board → List Event → List ℕ
heard board [] = []
heard board (e ∷ t) = elim (line_at board e t) [
  | none ↦ heard board t
  | some b ↦ heard board t ++ (b ∷ [])
]

-- The number whose digits follow those of another, the most significant first.
abbrev pub number_from : ℕ → List ℕ → ℕ
number_from x [] = x
number_from x (b ∷ bits) = number_from (x * 2 + b) bits

-- A run that receives so many bits behind a number comes back with the number that the bits on the
-- line make.
pub record Received (count before : ℕ) (run : M ℕ) (w : World) : Type 0 where
  pub last : World
  pub bits : List ℕ
  pub runs : run w ≡ some (number_from before bits, last)
  pub board : last.board ≡ w.board
  pub line : heard last.board last.trace ≡ heard w.board w.trace ++ bits
  pub count_of : length bits ≡ count

-- The world behind a pulse of the clock and the load.
abbrev pub clocked_load : (w : World) → World
clocked_load w =
    let w1 = log (load word hw_gpio1out) w in
    let w2 =
      log (call (Call.udelay 5)) (
        log (store word hw_gpio1out (u32 (bit_or (u32 (w.board.answer w1.trace)) gp_eep_clk)))
          w1) in
    let w3 = log (load word hw_gpio1out) w2 in
    let w4 = log (call (Call.udelay 5)) (
      log
        (store word hw_gpio1out
          (u32 (bit_and (u32 (w.board.answer w3.trace)) (complement gp_eep_clk))))
        w3) in
    log (load word hw_gpio1in) w4

abbrev pub answered : World → ℕ
answered w = if is_set (u32 (w.board.answer (clocked_load w).trace)) gp_eep_miso then 1 else 0

pub recv_from-suc :
    (n res : ℕ) (w : World)
    → recv_from (suc n) res w
      ≡ recv_from n (bit_or (u32 (res * 2 ^ 1)) (answered w)) (clocked_load w)
unfolding recv_from
recv_from-suc n res w = refl

heard-clocked_load :
    (w : World) → heard w.board (clocked_load w).trace ≡ heard w.board w.trace ++ (answered w ∷ [])
heard-clocked_load w = refl

pub answered-lt : (w : World) → answered w < 2
answered-lt w = ground arith

pub pushed :
    (k res b : ℕ) → res < 2 ^ k → k < 32 → b < 2 → bit_or (u32 (res * 2 ^ 1)) b ≡ res * 2 + b
pushed k res b p q r =
    let bound : 2 ^ k ≤ 2 ^ 31 = pow-le-pow_right {n = 2} (omega arith) {j = 31} (omega arith) in
    let small : u32 (res * 2 ^ 1) ≡ res * 2 ^ 1 = omega arith in
    ap (λ x. bit_or x b) small ∙ bit_or_sum 1 res b r

receive : (n k res : ℕ) (w : World) → res < 2 ^ k → k + n ≤ 32 → Received n res (recv_from n res) w
unfolding recv_from
receive zero k res w p q = record {
  last = w;
  bits = [];
  runs = refl;
  board = refl;
  line = sym (append-nil _);
  count_of = refl;
}
receive (suc n) k res w p q =
    let b = answered w in
    let rest =
      receive n (suc k) (res * 2 + b) (clocked_load w) (omega (arith, answered-lt w, pow-suc 2 k))
        (omega arith) in
    record {
      last = rest.last;
      bits = b ∷ rest.bits;
      runs =
          recv_from-suc n res w
          ∙ ap (λ x. recv_from n x (clocked_load w))
              (pushed k res b p (omega arith) (answered-lt w))
          ∙ rest.runs;
      board = rest.board;
      line =
          rest.line
          ∙ ap (λ l. l ++ rest.bits) (heard-clocked_load w)
          ∙ append_assoc (heard w.board w.trace) (b ∷ []) rest.bits;
      count_of = ap suc rest.count_of;
    }

-- Whatever the board answers, `recv_bits` for up to 32 bits returns, having read just so many bits off
-- the line, and its result is the number that they make, the first one the most significant.
pub recv_bits_lem : (bits : ℕ) (w : World) → bits ≤ 32 → Received bits 0 (recv_bits bits) w
unfolding recv_bits
recv_bits_lem bits w h = receive bits 0 0 w (omega arith) (omega arith)

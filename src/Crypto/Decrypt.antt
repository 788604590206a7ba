-- ===== src/Crypto/Decrypt.antt =====
-- How `aes_decrypt` of armboot/system/crypto.c splits its blocks into commands to the engine.
use vwii_nand_tools.Base.{
  bit_xor, ℕ, zero, suc, Bool, true, false, ◌+◌, ◌-◌, ◌*◌, ◌%◌, ◌^◌, ◌<◌, ◌≤◌, ◌≡◌, refl, subst,
  sym, ap, ◌∙◌, arith, some, Option, List, [], ◌∷◌, is_set, if◌then◌else◌, ◌==◌, ◌!=◌, u32,
  Bool-cases, inl, inr, bit_or, bit_and, ◌<<<◌,
}
use vwii_nand_tools.Base.Bits.{bit_and_mask, bit_or_sum}
use vwii_nand_tools.Machine.{
  M, World, Board, Event, Call, load, store, call, word, half, byte, log, spin_done, and_then,
}
use vwii_nand_tools.Hollywood.{aes_cmd, aes_src, aes_dest, hw_memmirr}
use vwii_nand_tools.Memory.Dma.{dma_addr, is_internal, internal_addr}
use vwii_nand_tools.Crypto.{aes_word, aes_command, this_round, aes_round, aes_rounds, aes_decrypt}

-- The blocks that an event has the engine work on: the count of the command, which is one less.
abbrev pub blocks_of : Event → ℕ
blocks_of (load width a) = 0
blocks_of (store word a v) = if a == aes_cmd then v % 128 + 1 else 0
blocks_of (store half a v) = 0
blocks_of (store byte a v) = 0
blocks_of (call c) = 0

abbrev pub blocks_started : List Event → ℕ
blocks_started [] = 0
blocks_started (e ∷ t) = blocks_of e + blocks_started t

-- The engine is never found busy, and a wait polls at least once.
pub record Idle (board : Board) : Type 0 where
  pub polls : 0 < board.polls
  pub free :
      (t : List Event) → is_set (u32 (board.answer (load word aes_cmd ∷ t))) 0x80000000 ≡ false

-- A run comes back, and has the engine work on so many blocks.
pub record Works (n : ℕ) (run : M (Unit {0})) (w : World) : Type 0 where
  pub last : World
  pub runs : run w ≡ some (tt, last)
  pub board : last.board ≡ w.board
  pub blocks : blocks_started last.trace ≡ n + blocks_started w.trace

-- A translated address, and the world behind the translation.
record Translated (addr : ℕ) (w : World) : Type 0 where
  to : ℕ
  last : World
  runs : dma_addr addr w ≡ some (to, last)
  board : last.board ≡ w.board
  blocks : blocks_started last.trace ≡ blocks_started w.trace

translate : (addr : ℕ) (w : World) → Translated addr w
unfolding dma_addr
translate addr w = elim (Bool-cases (is_internal addr)) [
  | inl e ↦ record {
    to = internal_addr (
        if is_set (u32 (w.board.answer (load word hw_memmirr ∷ w.trace))) 0x20
        then bit_xor addr 0x10000
        else addr);
    last = log (load word hw_memmirr) w;
    runs = rw e;
    board = refl;
    blocks = omega arith;
  }
  | inr e ↦ record { to = addr; last = w; runs = rw e; board = refl; blocks = refl }
]

this_round_bounds :
    (blocks : ℕ)
    → 0 < blocks
    → blocks < 2 ^ 31
    → (1 ≤ this_round blocks) × (this_round blocks ≤ 128) × (this_round blocks ≤ blocks)
unfolding this_round
this_round_bounds blocks p q = ground arith

aes_word_count : (keep n : ℕ) → 1 ≤ n → n ≤ 128 → u32 (aes_word 0x9800 keep n) % 128 + 1 ≡ n
unfolding aes_word
aes_word_count keep n p q = word_with (keep != 0)
  where
    word_with :
        (k : Bool)
        → u32 (bit_or (bit_or (0x9800 <<< 16) (if k then 0x1000 else 0)) (bit_and (n - 1) 0x7f))
              % 128
            + 1
          ≡ n
    word_with true =
        ap (λ x. u32 (bit_or 0x98001000 x) % 128 + 1) (bit_and_mask 7 (n - 1))
        ∙ ap (λ x. u32 x % 128 + 1) (bit_or_sum 7 0x1300020 ((n - 1) % 128) (omega arith))
        ∙ omega arith
    word_with false =
        ap (λ x. u32 (bit_or 0x98000000 x) % 128 + 1) (bit_and_mask 7 (n - 1))
        ∙ ap (λ x. u32 x % 128 + 1) (bit_or_sum 7 0x1300000 ((n - 1) % 128) (omega arith))
        ∙ omega arith

-- The world in which the engine was started.
abbrev started : ℕ → World → World
started word_of w = log (store word aes_cmd (u32 word_of)) (record w { aes_irq = 0 })

aes_command-Works :
    (keep n : ℕ) (w : World)
    → Idle w.board
    → 1 ≤ n
    → n ≤ 128
    → Works n (aes_command 0x9800 keep n) w
unfolding aes_command
aes_command-Works keep n w h p q =
    let v = aes_word 0x9800 keep n in
    record {
      last = log (load word aes_cmd) (started v w);
      runs =
          spin_done w.board.polls aes_cmd (λ x. is_set x 0x80000000) (started v w) h.polls
            (h.free _);
      board = refl;
      blocks = omega (arith, aes_word_count keep n p q);
    }

works_in : (board board' : Board) → board' ≡ board → Idle board → Idle board'
works_in b b' e h = subst Idle (sym e) h

aes_round-Works :
    (src dst blocks keep : ℕ) (w : World)
    → Idle w.board
    → 0 < blocks
    → blocks < 2 ^ 31
    → Works (this_round blocks) (aes_round src dst blocks keep) w
unfolding aes_round
aes_round-Works src dst blocks keep w h p q =
    let from = translate src w in
    let w1 = log (store word aes_src (u32 from.to)) from.last in
    let to = translate dst w1 in
    let w2 = log (store word aes_dest (u32 to.to)) to.last in
    let w3 = log (call (Call.ahb_flush_to 4)) (
      log (call (Call.dc_invalidaterange dst (u32 (blocks * 16))))
        (log (call (Call.dc_flushrange src (u32 (blocks * 16)))) w2)) in
    let (a, b, _) = this_round_bounds blocks p q in
    let work =
      aes_command-Works keep (this_round blocks) w3
        (works_in w.board w3.board (to.board ∙ from.board) h) a b in
    record {
      last = log (call (Call.ahb_flush_to 0)) (log (call (Call.ahb_flush_from 4)) work.last);
      runs = rw from.runs (rw to.runs (rw work.runs));
      board = work.board ∙ to.board ∙ from.board;
      blocks = omega (arith, work.blocks, to.blocks, from.blocks);
    }

another_round :
    (n src dst blocks keep : ℕ) (w : World)
    → (blocks == 0) ≡ false
    → aes_rounds (suc n) src dst blocks keep w
      ≡ and_then (aes_round src dst blocks keep w) (λ _.
        aes_rounds n
          (u32 (src + this_round blocks * 16))
          (u32 (dst + this_round blocks * 16))
          (blocks - this_round blocks)
          1)
unfolding aes_rounds
another_round n src dst blocks keep w e = ap branch e
  where
    branch : Bool → Option (Unit {0} × World)
    branch b = elim b [
      | true ↦ some (tt, w)
      | false ↦ and_then (aes_round src dst blocks keep w) (λ _.
          aes_rounds n (u32 (src + this_round blocks * 16)) (u32 (dst + this_round blocks * 16))
            (blocks - this_round blocks) 1)
    ]

aes_rounds-Works :
    (n src dst blocks keep : ℕ) (w : World)
    → Idle w.board
    → blocks ≤ n
    → blocks < 2 ^ 31
    → Works blocks (aes_rounds n src dst blocks keep) w
unfolding aes_rounds
aes_rounds-Works zero src dst zero keep w h p q = record {
  last = w;
  runs = refl;
  board = refl;
  blocks = omega arith;
}
aes_rounds-Works zero src dst (suc blocks) keep w h p q = absurd (omega arith)
aes_rounds-Works (suc n) src dst zero keep w h p q = record {
  last = w;
  runs = refl;
  board = refl;
  blocks = omega arith;
}
aes_rounds-Works (suc n) src dst (suc blocks) keep w h p q =
    let m = this_round (suc blocks) in
    let (a, b, c) = this_round_bounds (suc blocks) (omega arith) q in
    let first = aes_round-Works src dst (suc blocks) keep w h (omega arith) q in
    let rest =
      aes_rounds-Works n (u32 (src + m * 16)) (u32 (dst + m * 16)) (suc blocks - m) 1 first.last
        (works_in w.board first.last.board first.board h) (omega arith) (omega arith) in
    record {
      last = rest.last;
      runs =
          another_round n src dst (suc blocks) keep w (ground arith)
          ∙ ap
              (λ x.
                and_then x
                  (λ _. aes_rounds n (u32 (src + m * 16)) (u32 (dst + m * 16)) (suc blocks - m) 1))
              first.runs
          ∙ rest.runs;
      board = rest.board ∙ first.board;
      blocks = omega (arith, rest.blocks, first.blocks);
    }

-- With an engine that is never found busy, and fewer than 2 ^ 31 blocks, `aes_decrypt` returns, within
-- as many rounds as blocks, and the counts of the commands that it gave add up to the blocks.
pub aes_decrypt_lem :
    (src dst blocks keep_iv : ℕ) (w : World)
    → Idle w.board
    → blocks < 2 ^ 31
    → Works blocks (aes_decrypt src dst blocks keep_iv) w
unfolding aes_decrypt
aes_decrypt_lem src dst blocks keep_iv w h p =
    aes_rounds-Works blocks src dst blocks keep_iv w h (omega arith) p

-- ===== src/Sdhc/Tries.antt =====
-- The software reset of armboot/storage/sdhc.c counts its tries.
use vwii_nand_tools.Base.{
  if◌then◌else◌, u8, is_set, ◌>>>◌, ◌<<<◌, ◌|||◌, complement, ◌<◌, ℕ, ap, ◌∙◌, Option, ◌+◌, zero,
  suc, u32, ◌&&&◌, ◌==◌, ◌≡◌, ◌⊎◌, inl, inr, refl, arith, some, true, false, Bool, Bool-cases, List,
  ◌∷◌,
}
use vwii_nand_tools.Machine.{
  M, Call, World, Board, Host, load, store, call, word, log, Event, and_then, pure, ◌>>=◌, ◌>>◌,
}
use vwii_nand_tools.Sdhc.Regs.{bus_space_read_1, bus_space_write_1, hwrite1}
use vwii_nand_tools.Sdhc.Reset.{reset_rounds, sdhc_soft_reset}
use vwii_nand_tools.Sdhc.Constants.{software_reset}
use vwii_nand_tools.Sdhc.Flags.{etimedout}

-- The word with the software reset register, which is the byte at 0x2f of the controller.
abbrev pub reset_word : ℕ → ℕ
reset_word ioh = u32 (ioh + 0x2f) &&& complement 3

-- The bits of the register that an answer for its word holds.
abbrev pub reset_bits : ℕ → ℕ
reset_bits v = u8 ((u32 v &&& 0xff000000) >>> 24)

-- The trace behind a write of the register, which reads its word first and keeps the other bytes.
abbrev pub put : (List Event → ℕ) → ℕ → ℕ → List Event → List Event
put answer a v t =
    store word a
      (u32 ((u32 (answer (load word a ∷ t)) &&& complement 0xff000000) ||| (u8 v <<< 24)))
    ∷ load word a
    ∷ t

-- The trace behind `n` more tries: the register is read, and cleared 10 ms later.
abbrev pub tries : (List Event → ℕ) → ℕ → ℕ → List Event → List Event
tries answer a zero t = t
tries answer a (suc n) t =
    tries answer a n (put answer a 0 (call (Call.udelay 10000) ∷ load word a ∷ t))

-- Whether the next read of the register gives a bit of the mask, behind `n` tries.
abbrev pub busy : (List Event → ℕ) → ℕ → ℕ → ℕ → List Event → Bool
busy answer a mask n t = is_set (reset_bits (answer (load word a ∷ tries answer a n t))) mask

-- The run comes back: with a count that is not 0 right behind the first of `n` reads that gives no bit of
-- the mask, or with 0 behind the last try.
abbrev TriedAt : ℕ → ℕ → ℕ → M ℕ → World → Type 0
TriedAt a n mask run w =
    (timo : ℕ) × (w' : World) × (run w ≡ some (timo, w'))
    × (w'.host ≡ w.host)
    × (w'.board ≡ w.board)
    × ((0 < timo)
          × ((k : ℕ) × (k < n)
              × (w'.trace ≡ load word a ∷ tries w.board.answer a k w.trace)
              × (busy w.board.answer a mask k w.trace ≡ false)
              × ((j : ℕ) → j < k → busy w.board.answer a mask j w.trace ≡ true))
        ⊎ (timo ≡ 0)
          × (w'.trace ≡ tries w.board.answer a n w.trace)
          × ((j : ℕ) → j < n → busy w.board.answer a mask j w.trace ≡ true))

-- The world behind a write of the register.
abbrev rewritten : ℕ → World → World
rewritten v w = record w { trace = put w.board.answer (reset_word w.host.ioh) v w.trace }

hwrite1-rewritten : (v : ℕ) (w : World) → hwrite1 software_reset v w ≡ some (tt, rewritten v w)
unfolding bus_space_write_1
hwrite1-rewritten v w = refl

-- A try, by the outcome of its test.
retry : ℕ → ℕ → World → Bool → Option (ℕ × World)
retry mask n w b = elim b [
  | false ↦ some (suc n, w)
  | true ↦
      and_then (hwrite1 software_reset 0 (log (call (Call.udelay 10000)) w))
        (λ _. reset_rounds mask n)
]

rounds_reset :
    (mask n : ℕ) (w : World) → TriedAt (reset_word w.host.ioh) n mask (reset_rounds mask n) w
unfolding reset_rounds bus_space_read_1 retry
rounds_reset mask zero w = (0, w, refl, refl, refl, inr (refl, refl, λ j p. absurd (omega arith)))
rounds_reset mask (suc n) w =
    let a = reset_word w.host.ioh in
    let w1 = log (load word a) w in
    elim (Bool-cases (busy w.board.answer a mask 0 w.trace)) [
      | inl t ↦
          let w2 = log (call (Call.udelay 10000)) w1 in
          let (timo, w', runs, h, b, end) = rounds_reset mask n (rewritten 0 w2) in
          (
            timo,
            w',
            ap (retry mask n w1) t
                ∙ ap (λ x. and_then x (λ _. reset_rounds mask n)) (hwrite1-rewritten 0 w2)
                ∙ runs,
            h,
            b,
            elim end [
              | inl (p, (k, q, e, v, before)) ↦
                  inl (p, (suc k, omega arith, e, v, λ j r. earlier k t before j r))
              | inr (z, e, before) ↦ inr (z, e, λ j r. earlier n t before j r)
            ],
          )
      | inr f ↦ (
        suc n,
        w1,
        ap (retry mask n w1) f,
        refl,
        refl,
        inl (omega arith, (0, omega arith, refl, f, λ j p. absurd (omega arith))),
      )
    ]
  where
    earlier :
        (k : ℕ)
        → busy w.board.answer (reset_word w.host.ioh) mask 0 w.trace ≡ true
        → ((j : ℕ)
            → j < k
            → busy w.board.answer (reset_word w.host.ioh) mask (suc j) w.trace ≡ true)
        → (j : ℕ) → j < suc k
        → busy w.board.answer (reset_word w.host.ioh) mask j w.trace ≡ true
    earlier k f before zero q = f
    earlier k f before (suc j) q = before j (omega arith)

-- What follows the tries, by whether they ran out.
conclude : World → Bool → Option (ℕ × World)
conclude w b = elim b [
  | true ↦ and_then (hwrite1 software_reset 0 w) (λ _. pure etimedout)
  | false ↦ some (0, w)
]

-- How a reset ends, from the trace behind its first write.
abbrev pub ResetFrom : ℕ → (List Event → ℕ) → ℕ → List Event → ℕ → World → Type 0
ResetFrom mask answer a t r w' =
    (r ≡ 0)
      × ((k : ℕ) × (k < 10)
          × (w'.trace ≡ load word a ∷ tries answer a k t)
          × (busy answer a mask k t ≡ false)
          × ((j : ℕ) → j < k → busy answer a mask j t ≡ true))
    ⊎ (r ≡ etimedout)
      × (w'.trace ≡ put answer a 0 (tries answer a 10 t))
      × ((j : ℕ) → j < 10 → busy answer a mask j t ≡ true)

-- Each `udelay` comes back at once here. `sdhc_soft_reset` writes the mask to the software reset register,
-- at 0x2f of the controller, and reads it at most ten times; 10 ms behind a read that gives a bit of the mask
-- it writes 0 there. It returns 0 right behind the first read that gives none, or, if all ten do, ETIMEDOUT
-- behind one more write of 0.
pub sdhc_soft_reset_lem :
    (mask : ℕ) (w : World)
    → (r : ℕ) × (w' : World) × (sdhc_soft_reset mask w ≡ some (r, w'))
      × ResetFrom mask w.board.answer
          (reset_word w.host.ioh)
          (put w.board.answer (reset_word w.host.ioh) mask w.trace)
          r
          w'
unfolding sdhc_soft_reset conclude
sdhc_soft_reset_lem mask w =
    let w1 = rewritten mask w in
    let (timo, w2, runs, h, b, end) = rounds_reset mask 10 w1 in
    let so_far : sdhc_soft_reset mask w ≡ conclude w2 (timo == 0) =
      ap (λ x. and_then x (λ _. after_write)) (hwrite1-rewritten mask w)
      ∙ ap (λ x. and_then x judge_timo) runs
      ∙ same (timo == 0) w2 in
    elim end [
      | inl (p, what) ↦ (0, w2, so_far ∙ ap (conclude w2) (not_zero timo p), inl (refl, what))
      | inr (z, e, before) ↦ (
        etimedout,
        rewritten 0 w2,
        so_far
            ∙ ap (conclude w2) (is_zero timo z)
            ∙ ap (λ x. and_then x (λ _. pure etimedout)) (hwrite1-rewritten 0 w2),
        inr (refl, same_put w2 h b e, before),
      )
    ]
  where
    same_put :
        (w2 : World)
        → w2.host ≡ w.host
        → w2.board ≡ w.board
        → w2.trace ≡ tries w.board.answer (reset_word w.host.ioh) 10 (rewritten mask w).trace
        → (rewritten 0 w2).trace
          ≡ put w.board.answer
              (reset_word w.host.ioh)
              0
              (tries w.board.answer (reset_word w.host.ioh) 10 (rewritten mask w).trace)
    same_put w2 h b e =
        ap (λ (x : Host). put w2.board.answer (reset_word x.ioh) 0 w2.trace) h
        ∙ ap (λ (x : Board). put x.answer (reset_word w.host.ioh) 0 w2.trace) b
        ∙ ap (put w.board.answer (reset_word w.host.ioh) 0) e

    judge_timo : ℕ → M ℕ
    judge_timo timo = if timo == 0 then (do hwrite1 software_reset 0; pure etimedout) else pure 0

    same :
        (b : Bool) (w' : World)
        → (if b then (do hwrite1 software_reset 0; pure etimedout) else pure 0) w' ≡ conclude w' b
    same true w' = refl
    same false w' = refl

    after_write : M ℕ
    after_write = do timo ← reset_rounds mask 10; judge_timo timo

    is_zero : (x : ℕ) → x ≡ 0 → (x == 0) ≡ true
    is_zero x h = ground arith

    not_zero : (x : ℕ) → 0 < x → (x == 0) ≡ false
    not_zero x h = ground arith

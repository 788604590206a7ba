-- ===== src/Diskio/Card.antt =====
-- How the file system's glue sees the card: `disk_initialize` and `disk_status`.
use vwii_nand_tools.Base.{
  ap, ◌∙◌, pos, minus, Bool-cases, ◌==◌, ◌≡◌, ◌≢◌, ◌⊎◌, inl, inr, refl, arith, some, true, false,
}
use vwii_nand_tools.Machine.{World, and_then}
use vwii_nand_tools.Sdmmc.Transfer.{sdmmc_check_card, sdmmc_ack_card}
use vwii_nand_tools.Diskio.{disk_initialize, disk_status, sta_noinit}

abbrev acknowledged : World → World
acknowledged w = record w { card = record w.card { new_card = 0 } }

ack_new :
    (w : World) → (w.card.new_card == 1) ≡ true → sdmmc_ack_card w ≡ some (pos 0, acknowledged w)
unfolding sdmmc_ack_card
ack_new w n = rw n

ack_old : (w : World) → (w.card.new_card == 1) ≡ false → sdmmc_ack_card w ≡ some (minus 1, w)
unfolding sdmmc_ack_card
ack_old w n = rw n

-- Without a card, `disk_initialize` returns STA_NOINIT and changes nothing. With one it returns 0,
-- a new card counts as acknowledged from there on, and `disk_status` gives 0.
pub disk_initialize_lem :
    (w : World)
    → ((w.card.inserted ≡ 0) × (disk_initialize w ≡ some (sta_noinit, w)))
      ⊎ (w.card.inserted ≢ 0)
        × (w' : World) × (disk_initialize w ≡ some (0, w'))
        × (w'.card.new_card ≢ 1)
        × (w'.trace ≡ w.trace)
        × (disk_status w' ≡ some (0, w'))
unfolding disk_initialize disk_status sdmmc_check_card sdmmc_ack_card
disk_initialize_lem w = elim (Bool-cases (w.card.inserted == 0)) [
  | inl e ↦ inl (ground arith, rw e)
  | inr e ↦ elim (Bool-cases (w.card.new_card == 1)) [
    | inl n ↦ inr (
      ground arith,
      acknowledged w,
      (rw (e, n) (ap (λ x. and_then x (λ _. disk_status)) (ack_new w n) ∙ rw e)),
      (λ h. absurd (omega arith)),
      refl,
      rw (e),
    )
    | inr n ↦ inr (
      ground arith,
      w,
      (rw (e, n) (ap (λ x. and_then x (λ _. disk_status)) (ack_old w n) ∙ rw (e, n))),
      ground arith,
      refl,
      rw (e, n),
    )
  ]
]

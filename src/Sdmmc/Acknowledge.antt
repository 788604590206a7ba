-- ===== src/Sdmmc/Acknowledge.antt =====
-- A card that was discovered and not acknowledged is not used: the requests of the file system's glue
-- to armboot/storage/sdmmc.c fail until `sdmmc_ack_card`.
use vwii_nand_tools.Base.{
  ℕ, ◌==◌, ◌≡◌, refl, ap, ap₂, arith, some, true, List, [], ◌∷◌, length, replicate, pos, minus, ℤ,
}
use vwii_nand_tools.Machine.{M, World, Board, pure, ◌>>=◌, ◌>>◌}
use vwii_nand_tools.Machine.Ends.{Ends, ends_at, ends_then, ends_if}
use vwii_nand_tools.Machine.Calm.{Kept, kept, stored, Stored, At, Calm}
use vwii_nand_tools.Sdmmc.Discover.{sdmmc_needs_discover, sdmmc_select}
use vwii_nand_tools.Sdmmc.Transfer.{
  selected_transfer, transfer, is_negative, sdmmc_read, sdmmc_write, sdmmc_get_sectors,
  sdmmc_ack_card,
}
use vwii_nand_tools.Sdmmc.Total.{sdmmc_select-Calm, sdmmc_needs_discover-Calm}

-- What the glue asks of the card: a transfer from or to a buffer, or the number of sectors.
pub data Request : Type 0 where
  read write : ℕ → ℕ → ℕ → Request
  sectors : Request

unfoldable pub serve : Request → M ℤ
serve (read start count buf) = sdmmc_read start count buf
serve (write start count buf) = sdmmc_write start count buf
serve sectors = sdmmc_get_sectors

unfoldable pub serve_all : List Request → M (List ℤ)
unfolding serve
serve_all [] w = some ([], w)
serve_all (request ∷ requests) w =
    (do first ← serve request; rest ← serve_all requests; pure (first ∷ rest)) w

is_one : (x : ℕ) → x ≡ 1 → (x == 1) ≡ true
is_one x h = ground arith

module _ (bd : Board) (fs : Stored) where
  abbrev Refused : ℤ → World → Type 0
  Refused r w = (r ≡ minus 1) × At bd (fs, 1) w

  new : (w : World) → At bd (fs, 1) w → (w.card.new_card == 1) ≡ true
  new w q = is_one _ (ap (λ (k : Kept). k.1) q.1)

  transfer-Refused :
      (opcode flags start count buf : ℕ) (w : World)
      → At bd (fs, 1) w
      → Ends (transfer opcode flags start count buf w) Refused
  unfolding transfer
  transfer-Refused opcode flags start count buf w q = rw (new w q) (ends_at _ _ (refl, q))

  selected_transfer-Refused :
      (opcode flags start count buf : ℕ) (w : World)
      → At bd (fs, 1) w
      → Ends (selected_transfer opcode flags start count buf w) Refused
  unfolding selected_transfer
  selected_transfer-Refused opcode flags start count buf w q =
      ends_if (w.card.inserted == 0) _ _ w (ends_at _ _ (refl, q)) (
        ends_then
          (ends_if {Post = Calm bd (fs, 1)} (w.card.selected == 0) sdmmc_select (pure (pos 0)) w
            (sdmmc_select-Calm w q) (ends_at _ w q))
          λ status w1 q.
            ends_if (is_negative status) _ _ w1 (ends_at _ _ (refl, q))
              (transfer-Refused opcode flags start count buf w1 q))

  serve-Refused : (request : Request) (w : World) → At bd (fs, 1) w → Ends (serve request w) Refused
  unfolding serve sdmmc_read sdmmc_write sdmmc_get_sectors
  serve-Refused (read start count buf) w q = selected_transfer-Refused _ _ start count buf w q
  serve-Refused (write start count buf) w q = selected_transfer-Refused _ _ start count buf w q
  serve-Refused sectors w q =
      ends_if (w.card.inserted == 0) _ _ w (ends_at _ _ (refl, q))
        (rw (new w q) (ends_at _ _ (refl, q)))

  -- Every request was refused, and the card is still new; then it can be acknowledged.
  abbrev pub AllRefused : List Request → List ℤ → World → Type 0
  AllRefused requests r w =
      (r ≡ replicate (length requests) (minus 1))
      × At bd (fs, 1) w
      × (sdmmc_ack_card w ≡ some (pos 0, record w { card = record w.card { new_card = 0 } }))

  serve_all-Refused :
      (requests : List Request) (w : World)
      → At bd (fs, 1) w
      → Ends (serve_all requests w) (AllRefused requests)
  unfolding serve_all sdmmc_ack_card
  serve_all-Refused [] w q = ends_at [] w (refl, q, rw (new w q))
  serve_all-Refused (request ∷ requests) w q =
      ends_then (serve-Refused request w q) λ first w1 (e, q1).
        ends_then (serve_all-Refused requests w1 q1)
          λ rest w2 (e', q2, a). ends_at _ w2 (ap₂ (λ x y. x ∷ y) e e', q2, a)

-- Whatever the board answers: behind `sdmmc_needs_discover`, with or without a card, every sequence of
-- reads, writes and questions for the number of sectors is over, each of them with -1, and nothing is
-- written to the file, until `sdmmc_ack_card`, which returns 0 and makes the card count as known.
pub discovered-AllRefused :
    (requests : List Request) (w : World)
    → Ends
        ((do sdmmc_needs_discover; serve_all requests) w)
        (AllRefused w.board (stored w) requests)
discovered-AllRefused requests w =
    ends_then (sdmmc_needs_discover-Calm {fs = kept w} w (refl, refl))
      λ _ w1 q. serve_all-Refused w.board (stored w) requests w1 q

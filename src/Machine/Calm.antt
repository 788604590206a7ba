-- ===== src/Machine/Calm.antt =====
-- Runs that are over and leave the file and the driver's bank as they were, and, where the card is not discovered anew, whether
-- it counts as a new one.
use vwii_nand_tools.Base.{
  ℕ, Bool, true, false, ◌≡◌, ap, List, [], ◌∷◌, ◌++◌, Option, none, some, String,
}
use vwii_nand_tools.Machine.Events.{Event, Call, load, store, call}
use vwii_nand_tools.Machine.State.{World, M, Board, Host, when, set_host}
use vwii_nand_tools.Machine.Ops.{gecko_printf}
use vwii_nand_tools.Machine.Ends.{Ends, ends_at, ends_weaken}

-- What an event writes to the file.
abbrev pub payload : Event → Option (List ℕ)
payload (load width a) = none
payload (store width a v) = none
payload (call c) = elim c [ Call.f_write bytes ↦ some bytes | _ ↦ none ]

-- The bytes written to the file, in order.
abbrev pub saved : List Event → List ℕ
saved [] = []
saved (e ∷ t) = elim (payload e) [ none ↦ saved t | some bytes ↦ saved t ++ bytes ]

-- What was written to the file, and the bank that the NAND driver takes for initialized.
abbrev pub Stored : Type 0
Stored = List ℕ × ℕ

abbrev pub stored : World → Stored
stored w = (saved w.trace, w.nand.initialized)

-- The same, and whether the card is a new one.
abbrev pub Kept : Type 0
Kept = Stored × ℕ

abbrev pub kept : World → Kept
kept w = (stored w, w.card.new_card)

-- The board is `b`, and what is kept is `s`.
abbrev pub At : Board → Kept → World → Type 0
At b s w = (w.board ≡ b) × (kept w ≡ s)

-- The same, whatever the result.
abbrev pub Calm : Board → Kept → {A : Type 0} → A → World → Type 0
Calm b s a w = At b s w

-- The board is `b` and what is stored is `s`, whatever becomes of the card.
abbrev pub Quiet : Board → Stored → {A : Type 0} → A → World → Type 0
Quiet b s a w = (w.board ≡ b) × (stored w ≡ s)

pub Calm-Quiet :
    {A : Type 0} {b : Board} {s : Kept} {r : Option (A × World)}
    → Ends r (Calm b s)
    → Ends r (Quiet b s.0)
Calm-Quiet d = ends_weaken d λ a w q. (q.0, ap (λ (k : Kept). k.0) q.1)

-- A step that is taken or not.
pub when_or :
    {Post : Unit {0} → World → Type 0} (c : Bool) (m : M (Unit {0})) (w : World)
    → Ends (m w) Post
    → Post tt w
    → Ends (when c m w) Post
when_or true m w d q = d
when_or false m w d q = ends_at tt w q

pub when_ends :
    {b : Board} {s : Kept} (c : Bool) (m : M (Unit {0})) (w : World)
    → Ends (m w) (Calm b s)
    → At b s w
    → Ends (when c m w) (Calm b s)
when_ends c m w d q = when_or c m w d q

module _ {b : Board} {s : Kept} (c : Bool) where
  pub maybe_set : (f : Host → Host) (w : World) → At b s w → Ends (when c (set_host f) w) (Calm b s)
  maybe_set f w q = when_ends c (set_host f) w (ends_at tt _ q) q

  pub maybe_say :
      (text : String) (args : List ℕ) (w : World)
      → At b s w
      → Ends (when c (gecko_printf text args) w) (Calm b s)
  maybe_say text args w q = when_ends c (gecko_printf text args) w (ends_at tt _ q) q

-- ===== src/Installer/Late.antt =====
-- The exchange over the mailbox where the ARM program runs out of time, and writes over a character.
use mathlib.Core.List.{append_assoc, Sublist}
use mathlib.Core.List.Sublist
use vwii_nand_tools.Base.{
  ℕ, Bool, ◌==◌, ◌||◌, ◌≡◌, refl, sym, subst, List, [], ◌∷◌, ◌++◌, arith, Bool-cases, inl, inr,
}
use vwii_nand_tools.Installer.Mailbox.{
  Sender, booting, draining, writing, Viewer, starting, polling, clearing, printing, System, start,
  drain, write, arm_turn_at, arm_turn, ppc_turn_at, printed, ppc_turn,
}
use vwii_nand_tools.Installer.Echo.{in_box, flight}

-- A turn of the ARM program, which may be out of time, or of the PowerPC's.
pub data Turn : Type 0 where
  arm : Bool → Turn
  ppc : Turn

abbrev pub take_turn : Turn → System → System
take_turn (arm expired) s = arm_turn expired s
take_turn ppc s = ppc_turn s

abbrev pub play : List Turn → System → System
play [] s = s
play (turn ∷ turns) s = play turns (take_turn turn s)

-- What is on the screen, on its way or yet to be written.
abbrev pub all_of : System → List ℕ
all_of s = s.screen ++ (flight s.viewer s.str s.received ++ s.text)

abbrev Loses : System → System → Type 0
Loses s t = Sublist (all_of t) (all_of s)

same_whole : (s t : System) → all_of t ≡ all_of s → Loses s t
same_whole s t e = subst (λ l. Sublist (all_of t) l) e (Sublist.refl (all_of t))

none_of : (l : List ℕ) → Sublist [] l
none_of [] = Sublist.refl []
none_of (x ∷ l) = Sublist.cons x (none_of l)

boxed : (c : ℕ) (l : List ℕ) → Sublist (in_box c ++ l) (c ∷ l)
boxed c l = elim (Bool-cases (c == 0)) [
  | inl e ↦ rw e (Sublist.cons c (Sublist.refl l))
  | inr e ↦ rw e (Sublist.refl (c ∷ l))
]

-- The character in the mailbox may be lost to the one that is written.
written-Sublist :
    (v : Viewer) (str received c : ℕ) (l : List ℕ)
    → Sublist (flight v c received ++ l) (flight v str received ++ (c ∷ l))
written-Sublist starting str received c l = Sublist.append (none_of (in_box str)) (boxed c l)
written-Sublist polling str received c l = Sublist.append (none_of (in_box str)) (boxed c l)
written-Sublist clearing str received c l =
    Sublist.cons-cons received (Sublist.cons c (Sublist.refl l))
written-Sublist printing str received c l =
    Sublist.cons-cons received (Sublist.append (none_of (in_box str)) (boxed c l))

write-Loses : (l : List ℕ) (s : System) → s.text ≡ l → Loses s (write l s)
unfolding write
write-Loses [] s e = Sublist.refl _
write-Loses (c ∷ l) s e = Sublist.append (Sublist.refl s.screen) (
    subst (λ t. Sublist (flight s.viewer c s.received ++ l) (flight s.viewer s.str s.received ++ t))
      (sym e) (written-Sublist s.viewer s.str s.received c l))

drain-Loses : (expired : Bool) (l : List ℕ) (s : System) → Loses s (drain expired l s)
unfolding drain
drain-Loses expired [] s = Sublist.refl _
drain-Loses expired (c ∷ l) s = elim (Bool-cases (s.gecko_enabled == 0 || c == 0)) [
  | inl e ↦ rw e (
      Sublist.append (Sublist.refl s.screen)
        (Sublist.append (Sublist.refl (flight s.viewer s.str s.received)) (none_of s.text)))
  | inr e ↦ same_whole s (drain expired (c ∷ l) s) (ground arith)
]

arm_turn_at-Loses : (x : Sender) (expired : Bool) (s : System) → Loses s (arm_turn_at x expired s)
unfolding arm_turn_at
arm_turn_at-Loses booting expired s = same_whole s (arm_turn_at booting expired s) (ground arith)
arm_turn_at-Loses draining expired s = drain-Loses expired s.text s
arm_turn_at-Loses writing expired s = write-Loses s.text s refl

printed-Sublist : (c : ℕ) (l : List ℕ) → Sublist (printed c ++ l) (c ∷ l)
unfolding printed
printed-Sublist c l = elim (Bool-cases (c == 0x25)) [
  | inl e ↦ rw e (Sublist.cons c (Sublist.refl l))
  | inr e ↦ rw e (Sublist.refl (c ∷ l))
]

ppc_turn_at-Loses : (x : Viewer) (s : System) → s.viewer ≡ x → Loses s (ppc_turn_at x s)
unfolding ppc_turn_at
ppc_turn_at-Loses starting s e = same_whole s (ppc_turn_at starting s) (ground arith)
ppc_turn_at-Loses polling s e = same_whole s (ppc_turn_at polling s) (ground arith)
ppc_turn_at-Loses clearing s e = same_whole s (ppc_turn_at clearing s) (ground arith)
ppc_turn_at-Loses printing s e =
    let rest = in_box s.str ++ s.text in
    subst (λ l. Sublist l (all_of s)) (sym (append_assoc s.screen (printed s.received) rest))
      (subst
        (λ v.
          Sublist (s.screen ++ (printed s.received ++ rest))
            (s.screen ++ (flight v s.str s.received ++ s.text)))
        (sym e) (Sublist.append (Sublist.refl s.screen) (printed-Sublist s.received rest)))

take_turn-Loses : (turn : Turn) (s : System) → Loses s (take_turn turn s)
unfolding arm_turn ppc_turn
take_turn-Loses (arm expired) s = arm_turn_at-Loses s.sender expired s
take_turn-Loses ppc s = ppc_turn_at-Loses s.viewer s refl

play-Loses : (turns : List Turn) (s : System) → Loses s (play turns s)
play-Loses [] s = Sublist.refl _
play-Loses (turn ∷ turns) s =
    Sublist.trans (play-Loses turns (take_turn turn s)) (take_turn-Loses turn s)

-- Whatever turns the two processors take, in any order, with the ARM program out of time at any of its
-- own: what is on the screen, with what is on its way and yet to be written, comes from the text by
-- leaving characters out. None is doubled, made up or out of order.
pub play-Sublist :
    (text : List ℕ) (turns : List Turn) → Sublist (all_of (play turns (start text))) text
unfolding start
play-Sublist text turns = play-Loses turns (start text)

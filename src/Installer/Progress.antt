-- ===== src/Installer/Progress.antt =====
-- The exchange over the mailbox comes to its end.
use mathlib.Core.List.{append-nil}
use vwii_nand_tools.Base.{
  ℕ, zero, suc, false, ◌==◌, ◌≡◌, ◌≢◌, ◌<◌, ◌≤◌, ◌+◌, ◌*◌, refl, sym, subst, ap, ◌∙◌, if◌then◌else◌,
  List, [], ◌∷◌, ◌++◌, length, arith, ◌⊎◌, inl, inr, Bool-cases,
}
use vwii_nand_tools.Installer.Mailbox.{
  Sender, booting, draining, writing, Viewer, starting, polling, clearing, printing, System, start,
  drain, write, arm_turn_at, arm_turn, ppc_turn_at, ppc_turn, Reach, rounds,
}
use vwii_nand_tools.Installer.Echo.{
  visible, flight, NoZero, Inv, arm_turn-Inv, ppc_turn-Inv, Reach-Inv,
}

-- How far a system is from being done.
abbrev sender_left : Sender → ℕ
sender_left booting = 3
sender_left draining = 2
sender_left writing = 1

abbrev box_left : ℕ → ℕ
box_left str = if str == 0 then 0 else 5

abbrev viewer_left : Viewer → ℕ → ℕ
viewer_left starting str = 1 + box_left str
viewer_left polling str = box_left str
viewer_left clearing str = 4
viewer_left printing str = 2 + box_left str

abbrev left : System → ℕ
left s = 10 * length s.text + (sender_left s.sender + viewer_left s.viewer s.str)

-- Nothing is left to do.
abbrev Rests : System → Type 0
Rests s = (s.text ≡ []) × (s.sender ≡ draining) × (s.viewer ≡ polling) × (s.str ≡ 0)

-- The sender gets on, or waits for the mailbox, or has nothing to write.
abbrev ArmWaits : System → Type 0
ArmWaits s = (s.sender ≡ draining) × ((s.text ≡ []) ⊎ (s.str ≢ 0))

drain-left :
    (text : List ℕ) (c : ℕ) (l : List ℕ) (s : System)
    → s.sender ≡ draining
    → s.text ≡ c ∷ l
    → Inv text s
    → (left (drain false (c ∷ l) s) < left s) ⊎ (ArmWaits s × (drain false (c ∷ l) s ≡ s))
unfolding drain
drain-left text c l s e f inv = elim (Bool-cases (s.str == 0)) [
  | inl empty ↦ inl (ground arith)
  | inr full ↦ inr ((e, inr (ground arith)), ground arith)
]

written :
    (text : List ℕ) (c : ℕ) (l : List ℕ) (s : System)
    → s.sender ≡ writing
    → s.text ≡ c ∷ l
    → Inv text s
    → left (write s.text s) < left s
unfolding write
written text c l s e f inv = ground arith

drained : (s : System) → drain false [] s ≡ s
unfolding drain
drained s = refl

arm_turn_at-left :
    (text : List ℕ) (x : Sender) (l : List ℕ) (s : System)
    → s.sender ≡ x
    → s.text ≡ l
    → Inv text s
    → (left (arm_turn_at x false s) < left s) ⊎ (ArmWaits s × (arm_turn_at x false s ≡ s))
unfolding arm_turn_at
arm_turn_at-left text booting l s e f inv = inl (ground arith)
arm_turn_at-left text draining [] s e f inv =
    inr ((e, inl f), ap (λ t. drain false t s) f ∙ drained s)
arm_turn_at-left text draining (c ∷ l) s e f inv =
    subst (λ t. (left (drain false t s) < left s) ⊎ (ArmWaits s × (drain false t s ≡ s))) (sym f)
      (drain-left text c l s e f inv)
arm_turn_at-left text writing [] s e f inv = absurd (ground arith)
arm_turn_at-left text writing (c ∷ l) s e f inv = inl (written text c l s e f inv)

-- The viewer gets on, or waits for the mailbox or for the sender to start.
abbrev PpcWaits : System → Type 0
PpcWaits s = ((s.viewer ≡ polling) × (s.str ≡ 0)) ⊎ ((s.viewer ≡ starting) × (s.debug_config ≢ 0))

ppc_turn_at-left :
    (x : Viewer) (s : System)
    → s.viewer ≡ x
    → (left (ppc_turn_at x s) < left s) ⊎ (PpcWaits s × (ppc_turn_at x s ≡ s))
unfolding ppc_turn_at
ppc_turn_at-left starting s e = elim (Bool-cases (s.debug_config == 0)) [
  | inl up ↦ inl (ground arith)
  | inr down ↦ inr (inr (e, ground arith), ground arith)
]
ppc_turn_at-left polling s e = elim (Bool-cases (s.str == 0)) [
  | inl empty ↦ inr (inl (e, ground arith), ground arith)
  | inr full ↦ inl (ground arith)
]
ppc_turn_at-left clearing s e = inl (ground arith)
ppc_turn_at-left printing s e = inl (ground arith)

-- Both wait: the text is on the screen.
shown :
    (text : List ℕ) (s : System) → Inv text s → ArmWaits s → PpcWaits s → s.screen ≡ visible text
unfolding visible
shown text s inv (d, a) (inl (v, e)) =
    sym (append-nil s.screen) ∙ ap (λ l. s.screen ++ visible l) (sym (rest a)) ∙ inv.whole
  where
    rest : (s.text ≡ []) ⊎ (s.str ≢ 0) → flight s.viewer s.str s.received ++ s.text ≡ []
    rest (inl n) = ground arith
    rest (inr n) = absurd (n e)
shown text s inv (d, a) (inr (v, e)) = absurd (ground arith)

settled : (n : ℕ) (s : System) → arm_turn false s ≡ s → ppc_turn s ≡ s → rounds n s ≡ s
unfolding rounds
settled zero s a p = refl
settled (suc n) s a p = ap (λ t. rounds n (ppc_turn t)) a ∙ ap (λ t. rounds n t) p ∙ settled n s a p

arm_turn-left :
    (text : List ℕ) (s : System)
    → Inv text s
    → (left (arm_turn false s) < left s) ⊎ (ArmWaits s × (arm_turn false s ≡ s))
unfolding arm_turn
arm_turn-left text s inv = arm_turn_at-left text s.sender s.text s refl refl inv

ppc_turn-left : (s : System) → (left (ppc_turn s) < left s) ⊎ (PpcWaits s × (ppc_turn s ≡ s))
unfolding ppc_turn
ppc_turn-left s = ppc_turn_at-left s.viewer s refl

ppc_turn-le : (s : System) → left (ppc_turn s) ≤ left s
ppc_turn-le s = elim (ppc_turn-left s) [
  | inl less ↦ omega arith
  | inr (waits, same) ↦ omega (arith, ap left same)
]

rounds-shown :
    (text : List ℕ) (n : ℕ) (s : System)
    → Inv text s
    → left s ≤ n
    → (rounds n s).screen ≡ visible text
unfolding rounds
rounds-shown text zero s inv p = absurd (positive s.sender (omega arith))
  where
    positive : (x : Sender) → sender_left x ≤ 0 → ⊥
    positive booting h = omega arith
    positive draining h = omega arith
    positive writing h = omega arith
rounds-shown text (suc n) s inv p = elim (arm_turn-left text s inv) [
  | inl less ↦
      rounds-shown text n (ppc_turn (arm_turn false s))
        (ppc_turn-Inv text _ (arm_turn-Inv text s inv))
        (omega (arith, ppc_turn-le (arm_turn false s)))
  | inr (a, same) ↦ elim (ppc_turn-left s) [
    | inl less ↦
        rounds-shown text n (ppc_turn (arm_turn false s))
          (ppc_turn-Inv text _ (arm_turn-Inv text s inv))
          (omega (arith, ap (λ t. left (ppc_turn t)) same))
    | inr (v, same') ↦
        ap (λ (t : System). t.screen) (settled (suc n) s same same') ∙ shown text s inv a v
  ]
]

-- Let the ARM program print a text without zeros, and get the mailbox within its time limit. From every
-- state that the two processors can come to, in whatever order they took their turns, it is enough that
-- they take turns one after the other, ten times for each character that is left and ten more, for the
-- whole text, without its `%`, to be on the screen.
pub rounds-screen :
    (text : List ℕ) (s : System) (n : ℕ)
    → NoZero text
    → Reach (start text) s
    → 10 * length s.text + 10 ≤ n
    → (rounds n s).screen ≡ visible text
rounds-screen text s n h r p =
    rounds-shown text n s (Reach-Inv h r) (omega (arith, bounded s.sender s.viewer s.str))
  where
    bounded : (x : Sender) (v : Viewer) (str : ℕ) → sender_left x + viewer_left v str ≤ 10
    bounded x v str = ground arith

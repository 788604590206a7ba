-- ===== src/Installer/Echo.antt =====
-- No character but the `%` is lost between the two processors, and none is doubled.
use mathlib.Core.List.{append_assoc}
use vwii_nand_tools.Base.{ℕ, false, ◌==◌, ◌≡◌, ◌≢◌, refl, if◌then◌else◌, List, [], ◌∷◌, ◌++◌, arith}
use vwii_nand_tools.Installer.Mailbox.{
  Sender, booting, draining, writing, Viewer, starting, polling, clearing, printing, System, start,
  drain, write, arm_turn_at, arm_turn, ppc_turn_at, printed, ppc_turn, Step, arm, ppc, Reach, here,
  later,
}

-- What the mailbox holds.
abbrev pub in_box : ℕ → List ℕ
in_box str = if str == 0 then [] else str ∷ []

-- The characters that were written and are not on the screen yet.
abbrev pub flight : Viewer → ℕ → ℕ → List ℕ
flight starting str received = in_box str
flight polling str received = in_box str
flight clearing str received = received ∷ []
flight printing str received = received ∷ in_box str

-- The characters of a text that are shown: all but the `%`.
unfoldable pub visible : List ℕ → List ℕ
visible [] = []
visible (c ∷ l) = if c == 0x25 then visible l else c ∷ visible l

-- No character is the zero that ends a string.
abbrev pub NoZero : List ℕ → Type 0
NoZero [] = Unit {0}
NoZero (c ∷ text) = (c ≢ 0) × NoZero text

-- What the sender knows: before it starts the set-up is as it was left; with a character to write the
-- mailbox is free, and there is one.
abbrev pub SenderKnows : Sender → System → Type 0
SenderKnows booting s =
    (s.debug_magic ≡ 0xdeb6) × (s.debug_config ≡ 3) × (s.viewer ≡ starting) × (s.str ≡ 0)
SenderKnows draining s = (s.gecko_enabled ≡ 3) × (s.debug_config ≡ 0)
SenderKnows writing s = (s.gecko_enabled ≡ 3) × (s.debug_config ≡ 0) × (s.str ≡ 0) × (s.text ≢ [])

-- With a character to take out, it is still in the mailbox.
abbrev pub ViewerKnows : Viewer → System → Type 0
ViewerKnows clearing s = (s.str ≡ s.received) × (s.str ≢ 0)
ViewerKnows _ s = Unit {0}

pub record Inv (text : List ℕ) (s : System) : Type 0 where
  pub whole : s.screen ++ visible (flight s.viewer s.str s.received ++ s.text) ≡ visible text
  pub no_zero : NoZero s.text
  pub sender : SenderKnows s.sender s
  pub viewer : ViewerKnows s.viewer s

drain-Inv :
    (text l : List ℕ) (s : System)
    → s.sender ≡ draining
    → s.text ≡ l
    → Inv text s
    → Inv text (drain false l s)
unfolding drain
drain-Inv text [] s e f inv = inv
drain-Inv text (c ∷ l) s e f inv = ground arith

write-Inv :
    (text l : List ℕ) (s : System)
    → s.sender ≡ writing
    → s.text ≡ l
    → Inv text s
    → Inv text (write l s)
unfolding write
write-Inv text [] s e f inv = inv
write-Inv text (c ∷ l) s e f inv = ground arith

arm_turn_at-Inv :
    (text : List ℕ) (x : Sender) (s : System)
    → s.sender ≡ x
    → Inv text s
    → Inv text (arm_turn_at x false s)
unfolding arm_turn_at
arm_turn_at-Inv text booting s e inv = ground arith
arm_turn_at-Inv text draining s e inv = drain-Inv text s.text s e refl inv
arm_turn_at-Inv text writing s e inv = write-Inv text s.text s e refl inv

printed-visible : (c : ℕ) (l : List ℕ) → printed c ++ visible l ≡ visible (c ∷ l)
unfolding printed visible
printed-visible c l = ground arith

ppc_turn_at-Inv :
    (text : List ℕ) (x : Viewer) (s : System)
    → s.viewer ≡ x
    → Inv text s
    → Inv text (ppc_turn_at x s)
unfolding ppc_turn_at
ppc_turn_at-Inv text starting s e inv = ground arith
ppc_turn_at-Inv text polling s e inv = ground arith
ppc_turn_at-Inv text clearing s e inv = ground arith
ppc_turn_at-Inv text printing s e inv = ground (
  arith,
  append_assoc s.screen (printed s.received) (visible (in_box s.str ++ s.text)),
  printed-visible s.received (in_box s.str ++ s.text),
)

pub arm_turn-Inv : (text : List ℕ) (s : System) → Inv text s → Inv text (arm_turn false s)
unfolding arm_turn
arm_turn-Inv text s inv = arm_turn_at-Inv text s.sender s refl inv

pub ppc_turn-Inv : (text : List ℕ) (s : System) → Inv text s → Inv text (ppc_turn s)
unfolding ppc_turn
ppc_turn-Inv text s inv = ppc_turn_at-Inv text s.viewer s refl inv

Step-Inv : {text : List ℕ} {s t : System} → Step s t → Inv text s → Inv text t
Step-Inv {text = text} (arm s) inv = arm_turn-Inv text s inv
Step-Inv {text = text} (ppc s) inv = ppc_turn-Inv text s inv

start-Inv : (text : List ℕ) → NoZero text → Inv text (start text)
unfolding start
start-Inv text h = record {
  whole = refl;
  no_zero = h;
  sender = (refl, refl, refl, refl);
  viewer = tt;
}

pub Reach-Inv : {text : List ℕ} {s : System} → NoZero text → Reach (start text) s → Inv text s
Reach-Inv {text = text} h here = start-Inv text h
Reach-Inv h (later r st) = Step-Inv st (Reach-Inv h r)

-- Let the ARM program print a text without zeros, and get the mailbox within its time limit. Then after
-- any number of turns of the two processors, in any order, the screen, followed by what is visible of the
-- characters on their way and of those yet to be written, is the visible text, which is the text without
-- its `%`: no other character is lost, and none is doubled or out of order.
pub Reach-whole :
    (text : List ℕ) (s : System)
    → NoZero text
    → Reach (start text) s
    → s.screen ++ visible (flight s.viewer s.str s.received ++ s.text) ≡ visible text
Reach-whole text s h r = (Reach-Inv h r).whole

-- ===== src/Ram/Laws.antt =====
-- What `memcpy` leaves in memory, where source and target do not overlap.
use vwii_nand_tools.Base.{
  ℕ, zero, suc, ◌+◌, ◌≡◌, ◌≢◌, ◌∙◌, ap, ◌⊎◌, ◌<◌, ◌≤◌, inl, inr, refl, arith,
}
use vwii_nand_tools.Ram.{Ram, poke, memcpy}

pub poke-same : (a v : ℕ) (mem : Ram) → poke a v mem a ≡ v
unfolding poke
poke-same a v mem = ground arith

pub poke-other : (a v : ℕ) (mem : Ram) (b : ℕ) → a ≢ b → poke a v mem b ≡ mem b
unfolding poke
poke-other a v mem b h = ground arith

pub memcpy-outside :
    (len dst src : ℕ) (mem : Ram) (b : ℕ)
    → (b < dst) ⊎ (dst + len ≤ b)
    → memcpy dst src len mem b ≡ mem b
unfolding memcpy
memcpy-outside zero dst src mem b h = refl
memcpy-outside (suc len) dst src mem b h =
    memcpy-outside len (dst + 1) (src + 1) (poke dst (mem src) mem) b (later h)
    ∙ poke-other dst (mem src) mem b (λ e. apart h e)
  where
    later : (b < dst) ⊎ (dst + suc len ≤ b) → (b < dst + 1) ⊎ (dst + 1 + len ≤ b)
    later (inl p) = inl (omega arith)
    later (inr p) = inr (omega arith)

    apart : (b < dst) ⊎ (dst + suc len ≤ b) → dst ≡ b → ⊥
    apart (inl p) e = omega arith
    apart (inr p) e = omega arith

shifted :
    (len dst src : ℕ)
    → (src + suc len ≤ dst) ⊎ (dst + suc len ≤ src)
    → (src + 1 + len ≤ dst + 1) ⊎ (dst + 1 + len ≤ src + 1)
shifted len dst src (inl p) = inl (omega arith)
shifted len dst src (inr p) = inr (omega arith)

distinct :
    (len dst src i : ℕ)
    → (src + suc len ≤ dst) ⊎ (dst + suc len ≤ src)
    → i < len
    → dst ≢ src + 1 + i
distinct len dst src i (inl p) q e = omega arith
distinct len dst src i (inr p) q e = omega arith

-- Copying between ranges that do not overlap puts every source byte at its place in the target.
pub memcpy-inside :
    (len dst src : ℕ) (mem : Ram)
    → (src + len ≤ dst) ⊎ (dst + len ≤ src)
    → (i : ℕ) → i < len
    → memcpy dst src len mem (dst + i) ≡ mem (src + i)
unfolding memcpy
memcpy-inside zero dst src mem h i p = absurd (omega arith)
memcpy-inside (suc len) dst src mem h zero p =
    ap (memcpy (dst + 1) (src + 1) len (poke dst (mem src) mem)) (omega arith)
    ∙ memcpy-outside len (dst + 1) (src + 1) (poke dst (mem src) mem) dst (inl (omega arith))
    ∙ poke-same dst (mem src) mem
    ∙ ap mem (omega arith)
memcpy-inside (suc len) dst src mem h (suc i) p =
    ap (memcpy (dst + 1) (src + 1) len (poke dst (mem src) mem)) (omega arith)
    ∙ memcpy-inside len (dst + 1) (src + 1) (poke dst (mem src) mem) (shifted len dst src h) i
        (omega arith)
    ∙ poke-other dst (mem src) mem (src + 1 + i) (distinct len dst src i h (omega arith))
    ∙ ap mem (omega arith)

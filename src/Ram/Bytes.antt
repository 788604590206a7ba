-- ===== src/Ram/Bytes.antt =====
-- Ranges of bytes, and what storing the bytes of a list leaves in memory.
use vwii_nand_tools.Base.{
  ℕ, zero, suc, ◌+◌, ◌≤◌, ◌<◌, ◌≡◌, ◌⊎◌, inl, inr, refl, ap, ap₂, ◌∙◌, List, [], ◌∷◌, length,
  get_or, arith,
}
use vwii_nand_tools.Ram.{Ram, store_bytes, poke}
use vwii_nand_tools.Ram.Laws.{poke-same, poke-other}

-- The bytes of a range.
unfoldable pub bytes_at : Ram → ℕ → ℕ → List ℕ
bytes_at mem a zero = []
bytes_at mem a (suc n) = mem a ∷ bytes_at mem (a + 1) n

pub bytes_at-equal :
    (n : ℕ) (m m' : Ram) (a b : ℕ)
    → ((k : ℕ) → k < n → m (a + k) ≡ m' (b + k))
    → bytes_at m a n ≡ bytes_at m' b n
unfolding bytes_at
bytes_at-equal zero m m' a b h = refl
bytes_at-equal (suc n) m m' a b h =
    ap₂ (λ x xs. x ∷ xs) (ap m (omega arith) ∙ h 0 (omega arith) ∙ ap m' (omega arith))
      (bytes_at-equal n m m' (a + 1) (b + 1)
        λ k p. ap m (omega arith) ∙ h (suc k) (omega arith) ∙ ap m' (omega arith))

pub bytes_at-list :
    (vs : List ℕ) (m : Ram) (a : ℕ)
    → ((k : ℕ) → k < length vs → m (a + k) ≡ get_or vs k 0)
    → bytes_at m a (length vs) ≡ vs
unfolding bytes_at
bytes_at-list [] m a h = refl
bytes_at-list (v ∷ vs) m a h =
    ap₂ (λ x xs. x ∷ xs) (ap m (omega arith) ∙ h 0 (omega arith))
      (bytes_at-list vs m (a + 1) λ k p. ap m (omega arith) ∙ h (suc k) (omega arith))

pub store_bytes-outside :
    (vs : List ℕ) (a : ℕ) (mem : Ram) (b : ℕ)
    → (b < a) ⊎ (a + length vs ≤ b)
    → store_bytes a vs mem b ≡ mem b
unfolding store_bytes
store_bytes-outside [] a mem b h = refl
store_bytes-outside (v ∷ vs) a mem b (inl p) =
    store_bytes-outside vs (a + 1) (poke a v mem) b (inl (omega arith))
    ∙ poke-other a v mem b (λ e. omega arith)
store_bytes-outside (v ∷ vs) a mem b (inr p) =
    store_bytes-outside vs (a + 1) (poke a v mem) b (inr (omega arith))
    ∙ poke-other a v mem b (λ e. omega arith)

pub store_bytes-inside :
    (vs : List ℕ) (a : ℕ) (mem : Ram) (k : ℕ)
    → k < length vs
    → store_bytes a vs mem (a + k) ≡ get_or vs k 0
unfolding store_bytes
store_bytes-inside [] a mem k p = absurd (omega arith)
store_bytes-inside (v ∷ vs) a mem zero p =
    store_bytes-outside vs (a + 1) (poke a v mem) (a + 0) (inl (omega arith))
    ∙ ap (poke a v mem) (omega arith)
    ∙ poke-same a v mem
store_bytes-inside (v ∷ vs) a mem (suc k) p =
    ap (store_bytes (a + 1) vs (poke a v mem)) (omega arith)
    ∙ store_bytes-inside vs (a + 1) (poke a v mem) k (omega arith)

-- ===== src/Snapshot/Layers.antt =====
-- Towers of layers of hashes, and the step of a proof from one layer to the next.
use wagmi.Prelude.{
  ℕ, zero, suc, ◌+◌, ◌*◌, ◌/◌, ◌%◌, ◌<◌, ◌≤◌, ◌≡◌, ◌⊎◌, inl, inr, refl, ap, ◌∙◌, arith, Option,
  none, some, List, [], ◌∷◌, length, get_elem?,
}
use wagmi.Chain.Hashing.{Hash, Hashv}
use wagmi.Distributor.{next_hash}
use wagmi.Snapshot.Trees.{combine_hash, get_next_layer, get_pair_element}

module _ (hashv : Hashv) where
  -- The layers over a layer, up to the one of the root alone.
  pub data IsTower : List Hash → List (List Hash) → Hash → Type 0 where
    top : (root : Hash) → IsTower (root ∷ []) ((root ∷ []) ∷ []) root
    storey :
        {layer : List Hash} {layers : List (List Hash)} {root : Hash}
        → 1 < length layer
        → IsTower (get_next_layer hashv layer) layers root
        → IsTower layer (layer ∷ layers) root

module _ (hashv : Hashv) where
  -- A layer has half as many hashes as the one below, rounded up.
  pub length-get_next_layer :
      (layer : List Hash)
      → (length layer ≤ 2 * length (get_next_layer hashv layer))
        × (2 * length (get_next_layer hashv layer) ≤ length layer + 1)
  length-get_next_layer [] = omega arith
  length-get_next_layer (a ∷ []) = omega arith
  length-get_next_layer (a ∷ b ∷ layer) = omega (arith, length-get_next_layer layer)

-- The other hash of a pair.
abbrev pub partner : List Hash → ℕ → Option Hash
partner [] i = none
partner (a ∷ []) i = none
partner (a ∷ b ∷ layer) zero = some b
partner (a ∷ b ∷ layer) (suc zero) = some a
partner (a ∷ b ∷ layer) (suc (suc i)) = partner layer i

partner-even : (layer : List Hash) (i : ℕ) → i % 2 ≡ 0 → partner layer i ≡ get_elem? layer (suc i)
partner-even [] i e = refl
partner-even (a ∷ []) i e = refl
partner-even (a ∷ b ∷ layer) zero e = refl
partner-even (a ∷ b ∷ layer) (suc zero) e = absurd (omega arith)
partner-even (a ∷ b ∷ layer) (suc (suc i)) e = partner-even layer i (omega arith)

partner-odd :
    (layer : List Hash) (j : ℕ)
    → suc j % 2 ≡ 1
    → suc j < length layer
    → partner layer (suc j) ≡ get_elem? layer j
partner-odd [] j e h = absurd (omega arith)
partner-odd (a ∷ []) j e h = absurd (omega arith)
partner-odd (a ∷ b ∷ layer) zero e h = refl
partner-odd (a ∷ b ∷ layer) (suc zero) e h = absurd (omega arith)
partner-odd (a ∷ b ∷ layer) (suc (suc j)) e h = partner-odd layer j (omega arith) (omega arith)

get_elem?-beyond : (layer : List Hash) (i : ℕ) → length layer ≤ i → get_elem? layer i ≡ none
get_elem?-beyond [] i h = refl
get_elem?-beyond (a ∷ layer) zero h = absurd (omega arith)
get_elem?-beyond (a ∷ layer) (suc i) h = get_elem?-beyond layer i (omega arith)

pub get_pair_element-eq-partner :
    (layer : List Hash) (i : ℕ) → i < length layer → get_pair_element i layer ≡ partner layer i
get_pair_element-eq-partner layer zero h =
    ground (arith, partner-even layer 0 refl, get_elem?-beyond layer 1)
get_pair_element-eq-partner layer (suc j) h =
    ground
      (arith, partner-even layer (suc j), partner-odd layer j, get_elem?-beyond layer (suc (suc j)))

module _ (hashv : Hashv) where
  -- The hash of a pair does not depend on the order.
  combine_hash_comm : (a b : Hash) → combine_hash hashv a b ≡ combine_hash hashv b a
  combine_hash_comm a b = ground arith

  pub next_hash-eq-combine_hash : (a b : Hash) → next_hash hashv a b ≡ combine_hash hashv a b
  unfolding next_hash
  next_hash-eq-combine_hash a b = refl

  -- One hash of a layer in the next one: alone, or combined with its partner.
  pub partner-step :
      (layer : List Hash) (i : ℕ) {h : Hash}
      → get_elem? layer i ≡ some h
      → ((partner layer i ≡ none) × (get_elem? (get_next_layer hashv layer) (i / 2) ≡ some h))
        ⊎ ((p : Hash) × (partner layer i ≡ some p)
            × (get_elem? (get_next_layer hashv layer) (i / 2) ≡ some (combine_hash hashv h p)))
  partner-step [] i e = cc
  partner-step (a ∷ []) zero e = inl (refl, e)
  partner-step (a ∷ []) (suc i) e = cc
  partner-step (a ∷ b ∷ layer) zero e = inr (b, refl, ground arith)
  partner-step (a ∷ b ∷ layer) (suc zero) {h} e =
      inr (a, refl, ap some (combine_hash_comm a b) ∙ ground arith)
  partner-step (a ∷ b ∷ layer) (suc (suc i)) e =
      let half : suc (suc i) / 2 ≡ suc (i / 2) = omega arith in rw half (partner-step layer i e)

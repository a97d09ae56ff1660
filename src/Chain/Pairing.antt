-- ===== src/Chain/Pairing.antt =====
-- A hash without collisions, for tests: the slices are paired into one number.
use wagmi.Prelude.{
  List, ℕ, suc, ◌+◌, ◌*◌, ◌<◌, ◌≤◌, ◌≡◌, inl, inr, refl, ap, arith, Bool-cases, ltb, ltb→lt,
  if◌then◌else◌, [], ◌∷◌,
}
use native.Mathlib.Nat.{mul-le-mul}
use wagmi.Chain.Hashing.{Hashv, Slice, IsCollisionFree}

-- The pairing function of Szudzik.
abbrev pub pairing : ℕ → ℕ → ℕ
pairing a b = if ltb a b then b * b + a else a * a + a + b

square-gap : (m n : ℕ) → m < n → m * m + 2 * m < n * n
square-gap m n h = let le : suc m * suc m ≤ n * n = mul-le-mul h h in omega (arith, le)

abbrev larger : ℕ → ℕ → ℕ
larger a b = if ltb a b then b else a

pairing-between :
    (a b : ℕ)
    → (larger a b * larger a b ≤ pairing a b)
      × (pairing a b ≤ larger a b * larger a b + 2 * larger a b)
pairing-between a b = ground arith

root_unique : (m n x : ℕ) → m * m ≤ x → x ≤ m * m + 2 * m → n * n ≤ x → x ≤ n * n + 2 * n → m ≡ n
root_unique m n x a b c d = elim (Bool-cases (ltb m n)) [
  | inl less ↦ absurd (omega (arith, square-gap m n (ltb→lt m n less)))
  | inr not_less ↦ elim (Bool-cases (ltb n m)) [
    | inl less ↦ absurd (omega (arith, square-gap n m (ltb→lt n m less)))
    | inr not_more ↦ ground arith
  ]
]

pub pairing-injective : (a b c d : ℕ) → pairing a b ≡ pairing c d → (a ≡ c) × (b ≡ d)
pairing-injective a b c d e =
    let (lo, hi) = pairing-between a b in
    let (lo', hi') = pairing-between c d in
    let same =
      root_unique (larger a b) (larger c d) (pairing a b) lo hi (omega (arith, e, lo'))
        (omega (arith, e, hi')) in
    let squares = ap (λ m. m * m) same in ground (arith, same, squares)

-- A slice as a number, with its kind.
abbrev slice_code : Slice → ℕ
slice_code (Slice.byte n) = 4 * n
slice_code (Slice.u64_le n) = 4 * n + 1
slice_code (Slice.address n) = 4 * n + 2
slice_code (Slice.hash n) = 4 * n + 3

slice_code-injective : (s t : Slice) → slice_code s ≡ slice_code t → s ≡ t
slice_code-injective s t e = ground arith

abbrev pub paired_hash : Hashv
paired_hash [] = 0
paired_hash (slice ∷ slices) = suc (pairing (slice_code slice) (paired_hash slices))

paired_hash-injective : (a b : List Slice) → paired_hash a ≡ paired_hash b → a ≡ b
paired_hash-injective [] [] e = refl
paired_hash-injective [] (t ∷ ts) e = absurd (omega (arith, e))
paired_hash-injective (s ∷ ss) [] e = absurd (omega (arith, e))
paired_hash-injective (s ∷ ss) (t ∷ ts) e =
    let (head, tail) =
      pairing-injective (slice_code s) (paired_hash ss) (slice_code t) (paired_hash ts)
        (omega (arith, e)) in
    let first = slice_code-injective s t head in let rest = paired_hash-injective ss ts tail in cc

pub paired_hash-IsCollisionFree : IsCollisionFree paired_hash
paired_hash-IsCollisionFree a b _ _ e = paired_hash-injective a b e

-- ===== src/Snapshot/Sorting.antt =====
-- The `sort_by` of cli/merkle_distributor, and what is in the list that it returns.
use mathlib.Core.List.{Memᴰ}
use mathlib.Core.List.Memᴰ
use wagmi.Prelude.{◌⊎◌, subst, if◌then◌else◌, ◌≡◌, inl, inr, refl, List, [], ◌∷◌, leb, Bool-cases}
use wagmi.Chain.Hashing.{Hash}
use wagmi.Snapshot.Allocations.{insert, sort}

-- Sorting keeps what is in a list.
insert-Memᴰ_self : (h : Hash) (hs : List Hash) → Memᴰ h (insert h hs)
insert-Memᴰ_self h [] = Memᴰ.head refl
insert-Memᴰ_self h (k ∷ ks) = elim (Bool-cases (leb h k)) [
  | inl e ↦ rw e (Memᴰ.head refl)
  | inr e ↦ rw e (Memᴰ.tail (insert-Memᴰ_self h ks))
]

insert-Memᴰ : (h x : Hash) (hs : List Hash) → Memᴰ x hs → Memᴰ x (insert h hs)
insert-Memᴰ h x [] m = absurd (Memᴰ.not-nil m)
insert-Memᴰ h x (k ∷ ks) m = elim (Bool-cases (leb h k)) [
  | inl e ↦ rw e (Memᴰ.tail m)
  | inr e ↦ elim (Memᴰ.cases_cons m) [
    | inl is ↦ rw e (Memᴰ.head is)
    | inr rest ↦ rw e (Memᴰ.tail (insert-Memᴰ h x ks rest))
  ]
]

pub sort-Memᴰ : (x : Hash) (hs : List Hash) → Memᴰ x hs → Memᴰ x (sort hs)
sort-Memᴰ x [] m = m
sort-Memᴰ x (h ∷ hs) m = elim (Memᴰ.cases_cons m) [
  | inl is ↦ Memᴰ.cast is (insert-Memᴰ_self h (sort hs))
  | inr rest ↦ insert-Memᴰ h x (sort hs) (sort-Memᴰ x hs rest)
]

insert-of_Memᴰ : (h x : Hash) (hs : List Hash) → Memᴰ x (insert h hs) → (x ≡ h) ⊎ Memᴰ x hs
insert-of_Memᴰ h x [] m = Memᴰ.cases_cons m
insert-of_Memᴰ h x (k ∷ ks) m = elim (Bool-cases (leb h k)) [
  | inl e ↦ Memᴰ.cases_cons (subst (λ b. Memᴰ x (if b then h ∷ k ∷ ks else k ∷ insert h ks)) e m)
  | inr e ↦
      elim (Memᴰ.cases_cons (subst (λ b. Memᴰ x (if b then h ∷ k ∷ ks else k ∷ insert h ks)) e m)) [
        | inl is ↦ inr (Memᴰ.head is)
        | inr below ↦ elim (insert-of_Memᴰ h x ks below) [
          | inl is ↦ inl is
          | inr rest ↦ inr (Memᴰ.tail rest)
        ]
      ]
]

pub sort-of_Memᴰ : (x : Hash) (hs : List Hash) → Memᴰ x (sort hs) → Memᴰ x hs
sort-of_Memᴰ x [] m = m
sort-of_Memᴰ x (h ∷ hs) m = elim (insert-of_Memᴰ h x (sort hs) m) [
  | inl is ↦ Memᴰ.head is
  | inr below ↦ Memᴰ.tail (sort-of_Memᴰ x hs below)
]

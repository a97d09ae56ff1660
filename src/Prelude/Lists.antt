-- ===== src/Prelude/Lists.antt =====
-- Lists measured and indexed by native numbers, under the library's names.
use Prim.Native.Nat.{ℕ, zero, suc, ◌+◌, ◌<◌, ◌≤◌}
use mathlib.Core.Path.{◌≡◌, refl, ap}
use mathlib.Core.Logic.{◌≢◌}
use mathlib.Core.List.{List, [], ◌∷◌, ◌++◌}
use mathlib.Core.Option.{Option, none, some}
use native.Mathlib.Omega.{arith}
use wagmi.Prelude.Tests.{◌==◌, if◌then◌else◌}

module _ {ℓ} {A : Type ℓ} where
  abbrev pub length : List A → ℕ
  length [] = 0
  length (x ∷ xs) = suc (length xs)

  abbrev pub get_elem? : List A → ℕ → Option A
  get_elem? [] i = none
  get_elem? (x ∷ xs) zero = some x
  get_elem? (x ∷ xs) (suc i) = get_elem? xs i

  -- A write out of bounds changes nothing.
  abbrev pub set : List A → ℕ → A → List A
  set [] i v = []
  set (x ∷ xs) zero v = v ∷ xs
  set (x ∷ xs) (suc i) v = x ∷ set xs i v

  abbrev pub replicate : ℕ → A → List A
  replicate zero a = []
  replicate (suc n) a = a ∷ replicate n a

module _ {ℓ} {A : Type ℓ} where
  pub length-set : (xs : List A) (i : ℕ) (v : A) → length (set xs i v) ≡ length xs
  length-set [] i v = refl
  length-set (x ∷ xs) zero v = refl
  length-set (x ∷ xs) (suc i) v = ap suc (length-set xs i v)

  pub length-append : (xs ys : List A) → length (xs ++ ys) ≡ length xs + length ys
  length-append [] ys = omega arith
  length-append (x ∷ xs) ys = omega (arith, length-append xs ys)

  pub length-replicate : (n : ℕ) (a : A) → length (replicate n a) ≡ n
  length-replicate zero a = refl
  length-replicate (suc n) a = ap suc (length-replicate n a)

  pub get_elem?-set_self :
      (xs : List A) (i : ℕ) (v : A) → i < length xs → get_elem? (set xs i v) i ≡ some v
  get_elem?-set_self [] i v h = elim h [ ]
  get_elem?-set_self (x ∷ xs) zero v h = refl
  get_elem?-set_self (x ∷ xs) (suc i) v h = get_elem?-set_self xs i v (omega arith)

  pub get_elem?-set_ne :
      (xs : List A) (i j : ℕ) (v : A) → i ≢ j → get_elem? (set xs i v) j ≡ get_elem? xs j
  get_elem?-set_ne [] i j v h = refl
  get_elem?-set_ne (x ∷ xs) zero zero v h = absurd (h refl)
  get_elem?-set_ne (x ∷ xs) zero (suc j) v h = refl
  get_elem?-set_ne (x ∷ xs) (suc i) zero v h = refl
  get_elem?-set_ne (x ∷ xs) (suc i) (suc j) v h = get_elem?-set_ne xs i j v (λ e. h (ap suc e))

  pub get_elem?-lt : (xs : List A) (i : ℕ) {v : A} → get_elem? xs i ≡ some v → i < length xs
  get_elem?-lt [] i h = cc
  get_elem?-lt (x ∷ xs) zero h = omega arith
  get_elem?-lt (x ∷ xs) (suc i) h = omega (arith, get_elem?-lt xs i h)

  pub get_elem?-replicate : (n i : ℕ) {a v : A} → get_elem? (replicate n a) i ≡ some v → v ≡ a
  get_elem?-replicate zero i h = cc
  get_elem?-replicate (suc n) zero h = cc
  get_elem?-replicate (suc n) (suc i) h = get_elem?-replicate n i h

module _ {ℓ} {A : Type ℓ} where
  abbrev pub get_or : List A → ℕ → A → A
  get_or [] i d = d
  get_or (x ∷ xs) zero d = x
  get_or (x ∷ xs) (suc i) d = get_or xs i d

  pub get_or-get_elem? :
      (xs : List A) (i : ℕ) (d : A) {v : A} → get_elem? xs i ≡ some v → get_or xs i d ≡ v
  get_or-get_elem? [] i d h = cc
  get_or-get_elem? (x ∷ xs) zero d h = cc
  get_or-get_elem? (x ∷ xs) (suc i) d h = get_or-get_elem? xs i d h

-- The sum of a list.
abbrev pub sum : List ℕ → ℕ
sum [] = 0
sum (x ∷ xs) = x + sum xs

pub sum-set :
    (xs : List ℕ) (i : ℕ) {x : ℕ} (v : ℕ)
    → get_elem? xs i ≡ some x
    → sum (set xs i v) + x ≡ sum xs + v
sum-set [] i v h = cc
sum-set (y ∷ xs) zero v h = ground arith
sum-set (y ∷ xs) (suc i) v h = omega (arith, sum-set xs i v h)

pub sum-replicate_zero : (n : ℕ) → sum (replicate n 0) ≡ 0
sum-replicate_zero zero = refl
sum-replicate_zero (suc n) = omega (arith, sum-replicate_zero n)

pub get_elem?-le-sum : (xs : List ℕ) (i : ℕ) {x : ℕ} → get_elem? xs i ≡ some x → x ≤ sum xs
get_elem?-le-sum [] i h = cc
get_elem?-le-sum (y ∷ xs) zero h = ground arith
get_elem?-le-sum (y ∷ xs) (suc i) h = omega (arith, get_elem?-le-sum xs i h)

pub get_or-set :
    (xs : List ℕ) (i j : ℕ) (v : ℕ) {x : ℕ}
    → get_elem? xs i ≡ some x
    → get_or (set xs i v) j 0 ≡ (if i == j then v else get_or xs j 0)
get_or-set [] i j v h = cc
get_or-set (y ∷ xs) zero zero v h = refl
get_or-set (y ∷ xs) zero (suc j) v h = ground arith
get_or-set (y ∷ xs) (suc i) zero v h = ground arith
get_or-set (y ∷ xs) (suc i) (suc j) v h = ground (arith, get_or-set xs i j v h)

pub get_or-replicate_zero : (n i : ℕ) → ◌≡◌ {A = ℕ} (get_or (replicate n 0) i 0) 0
get_or-replicate_zero zero i = refl
get_or-replicate_zero (suc n) zero = refl
get_or-replicate_zero (suc n) (suc i) = get_or-replicate_zero n i

-- ===== src/Prelude/Maps.antt =====
-- Accounts by address: an association list, with sums over all entries of a measure.
use Prim.Native.Nat.{ℕ, ◌+◌, ◌≤◌}
use mathlib.Core.Path.{◌≡◌, refl}
use mathlib.Core.Logic.{◌≢◌}
use mathlib.Core.List.{List, [], ◌∷◌}
use mathlib.Core.Option.{Option, none, some}
use native.Mathlib.Omega.{arith}
use wagmi.Prelude.Tests.{◌==◌, if◌then◌else◌}

abbrev pub Store {ℓ} : Type ℓ → Type ℓ
Store V = List (ℕ × V)

module _ {ℓ} {V : Type ℓ} where
  abbrev pub find : ℕ → Store V → Option V
  find k [] = none
  find k ((j, v) ∷ m) = if j == k then some v else find k m

  -- Writes an account, at the end if the address is new.
  abbrev pub put : ℕ → V → Store V → Store V
  put k v [] = (k, v) ∷ []
  put k v ((j, w) ∷ m) = if j == k then (k, v) ∷ m else (j, w) ∷ put k v m

  -- Closes an account.
  abbrev pub close : ℕ → Store V → Store V
  close k [] = []
  close k ((j, w) ∷ m) = if j == k then m else (j, w) ∷ close k m

  -- The sum of a measure over all accounts.
  abbrev pub total : (V → ℕ) → Store V → ℕ
  total f [] = 0
  total f ((k, v) ∷ m) = f v + total f m

module _ {ℓ} {V : Type ℓ} where
  pub find-put :
      (k j : ℕ) (v : V) (m : Store V) → find j (put k v m) ≡ (if k == j then some v else find j m)
  find-put k j v [] = refl
  find-put k j v ((i, w) ∷ m) = ground (arith, find-put k j v m)

  pub total-put :
      (f : V → ℕ) (k : ℕ) (v : V) {old : V} (m : Store V)
      → find k m ≡ some old
      → total f (put k v m) + f old ≡ total f m + f v
  total-put f k v [] e = cc
  total-put f k v {old = old} ((i, w) ∷ m) e = ground (arith, total-put f k v {old = old} m)

  pub total-put_new :
      (f : V → ℕ) (k : ℕ) (v : V) (m : Store V)
      → find k m ≡ none
      → total f (put k v m) ≡ total f m + f v
  total-put_new f k v [] e = omega arith
  total-put_new f k v ((i, w) ∷ m) e = ground (arith, total-put_new f k v m)

  pub total-close :
      (f : V → ℕ) (k : ℕ) {old : V} (m : Store V)
      → find k m ≡ some old
      → total f (close k m) + f old ≡ total f m
  total-close f k [] e = cc
  total-close f k {old = old} ((i, w) ∷ m) e = ground (arith, total-close f k {old = old} m)

  pub find-close_ne : (k j : ℕ) (m : Store V) → k ≢ j → find j (close k m) ≡ find j m
  find-close_ne k j [] h = refl
  find-close_ne k j ((i, w) ∷ m) h = ground (arith, find-close_ne k j m h)

  pub measure-le-total :
      (f : V → ℕ) (k : ℕ) {v : V} (m : Store V) → find k m ≡ some v → f v ≤ total f m
  measure-le-total f k [] e = cc
  measure-le-total f k {v = v} ((i, w) ∷ m) e = ground (arith, measure-le-total f k {v = v} m)

module _ {ℓ κ} {V : Type ℓ} {W : Type κ} (f : V → W) where
  abbrev pub map_values : Store V → Store W
  map_values [] = []
  map_values ((k, v) ∷ m) = (k, f v) ∷ map_values m

module _ {ℓ κ} {V : Type ℓ} {W : Type κ} (f : V → W) where
  pub find-map_values :
      (k : ℕ) (m : Store V) {v : V} → find k m ≡ some v → find k (map_values f m) ≡ some (f v)
  find-map_values k [] h = cc
  find-map_values k ((j, w) ∷ m) {v = v} h = ground (arith, find-map_values k m {v = v})

  pub find-map_values-none :
      (k : ℕ) (m : Store V) → find k m ≡ none → find k (map_values f m) ≡ none
  find-map_values-none k [] h = refl
  find-map_values-none k ((j, w) ∷ m) h = ground (arith, find-map_values-none k m)

  pub put-map_values :
      (k : ℕ) (v : V) (m : Store V) → put k (f v) (map_values f m) ≡ map_values f (put k v m)
  put-map_values k v [] = refl
  put-map_values k v ((j, w) ∷ m) = ground (arith, put-map_values k v m)

  pub close-map_values : (k : ℕ) (m : Store V) → close k (map_values f m) ≡ map_values f (close k m)
  close-map_values k [] = refl
  close-map_values k ((j, w) ∷ m) = ground (arith, close-map_values k m)

-- No address is listed twice.
abbrev pub IsDistinct {ℓ} : {V : Type ℓ} → Store V → Type ℓ
IsDistinct [] = Unit
IsDistinct ((k, v) ∷ m) = (find k m ≡ none) × IsDistinct m

module _ {ℓ} {V : Type ℓ} where
  pub find-close :
      (k j : ℕ) (m : Store V)
      → IsDistinct m
      → find j (close k m) ≡ (if k == j then none else find j m)
  find-close k j [] d = ground arith
  find-close k j ((i, w) ∷ m) d = ground (arith, find-close k j m d.1)

  pub put-IsDistinct : (k : ℕ) (v : V) (m : Store V) → IsDistinct m → IsDistinct (put k v m)
  put-IsDistinct k v [] d = (refl, tt)
  put-IsDistinct k v ((i, w) ∷ m) d = ground (arith, put-IsDistinct k v m d.1, find-put k i v m)

  pub close-IsDistinct : (k : ℕ) (m : Store V) → IsDistinct m → IsDistinct (close k m)
  close-IsDistinct k [] d = tt
  close-IsDistinct k ((i, w) ∷ m) d = ground (arith, close-IsDistinct k m d.1, find-close k i m d.1)

-- ===== src/Base/Maps.antt =====
-- Maps from numbers, as association lists in increasing order of their keys.
use Prim.Native.Nat.{ℕ}
use mathlib.Core.Path.{◌≡◌, refl}
use mathlib.Core.Logic.{◌≢◌}
use mathlib.Core.Bool.{Bool, true, false}
use mathlib.Core.List.{List, [], ◌∷◌}
use mathlib.Core.Option.{Option, none, some}
use native.Mathlib.Omega.{arith}
use gd_server.Base.Tests.{◌==◌, ltb, if◌then◌else◌}

module _ {ℓ} {A : Type ℓ} where
  abbrev pub find_at : List (ℕ × A) → ℕ → Option A
  find_at [] key = none
  find_at ((k, v) ∷ m) key = if k == key then some v else find_at m key

  -- `m[key] = v` in a `std::map`.
  abbrev pub put_at : List (ℕ × A) → ℕ → A → List (ℕ × A)
  put_at [] key v = (key, v) ∷ []
  put_at ((k, w) ∷ m) key v =
      if k == key
      then (key, v) ∷ m
      else if ltb key k
      then (key, v) ∷ (k, w) ∷ m
      else (k, w) ∷ put_at m key v

  -- `m.erase(key)`.
  abbrev pub erase_at : List (ℕ × A) → ℕ → List (ℕ × A)
  erase_at [] key = []
  erase_at ((k, w) ∷ m) key = if k == key then erase_at m key else (k, w) ∷ erase_at m key

  abbrev pub has_at : List (ℕ × A) → ℕ → Bool
  has_at m key = elim (find_at m key) [ none ↦ false | some v ↦ true ]

module _ {ℓ} {A : Type ℓ} where
  pub find_at-put_at_self : (m : List (ℕ × A)) (k : ℕ) (v : A) → find_at (put_at m k v) k ≡ some v
  find_at-put_at_self [] k v = ground arith
  find_at-put_at_self ((j, w) ∷ m) k v = ground (arith, find_at-put_at_self m k v)

  pub find_at-put_at_ne :
      (m : List (ℕ × A)) (k j : ℕ) (v : A) → k ≢ j → find_at (put_at m k v) j ≡ find_at m j
  find_at-put_at_ne [] k j v h = ground arith
  find_at-put_at_ne ((i, w) ∷ m) k j v h = ground (arith, find_at-put_at_ne m k j v h)

  pub find_at-erase_at_self : (m : List (ℕ × A)) (k : ℕ) → find_at (erase_at m k) k ≡ none
  find_at-erase_at_self [] k = refl
  find_at-erase_at_self ((j, w) ∷ m) k = ground (arith, find_at-erase_at_self m k)

  pub find_at-erase_at_ne :
      (m : List (ℕ × A)) (k j : ℕ) → k ≢ j → find_at (erase_at m k) j ≡ find_at m j
  find_at-erase_at_ne [] k j h = refl
  find_at-erase_at_ne ((i, w) ∷ m) k j h = ground (arith, find_at-erase_at_ne m k j h)

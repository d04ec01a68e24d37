-- ===== src/Base/Texts.antt =====
-- Association lists with texts as keys.
use text.Mathlib.Text.{◌==◌ as str_eq}
use text.Mathlib.TextEquality.{eq_iff}
use Prim.Native.String.{String}
use mathlib.Core.List.{List, [], ◌∷◌}
use mathlib.Core.Logic.{◌≢◌, ◌⊎◌, inl, inr}
use mathlib.Core.Option.{Option, none, some}
use mathlib.Core.Path.{◌≡◌, refl}
use native.Mathlib.Omega.{arith}
use gd_server.Base.Tests.{if◌then◌else◌, Bool-cases}

module _ {ℓ} {A : Type ℓ} where
  abbrev pub find_text : List (String × A) → String → Option A
  find_text [] key = none
  find_text ((k, v) ∷ m) key = if str_eq k key then some v else find_text m key

  abbrev pub put_text : List (String × A) → String → A → List (String × A)
  put_text [] key v = (key, v) ∷ []
  put_text ((k, w) ∷ m) key v = if str_eq k key then (k, v) ∷ m else (k, w) ∷ put_text m key v

  abbrev pub erase_text : List (String × A) → String → List (String × A)
  erase_text [] key = []
  erase_text ((k, v) ∷ m) key =
      let rest = erase_text m key in if str_eq k key then rest else (k, v) ∷ rest

module _ {ℓ} {A : Type ℓ} where
  pub find_text-put_text_self :
      (m : List (String × A)) (key : String) (v : A) → find_text (put_text m key v) key ≡ some v
  find_text-put_text_self [] key v = ground (arith, eq_iff key key)
  find_text-put_text_self ((k, w) ∷ m) key v =
      ground (arith, eq_iff k key, eq_iff key key, find_text-put_text_self m key v)

  pub find_text-put_text_ne :
      (m : List (String × A)) (key other : String) (v : A)
      → key ≢ other
      → find_text (put_text m key v) other ≡ find_text m other
  find_text-put_text_ne [] key other v ne = ground (arith, eq_iff key other)
  find_text-put_text_ne ((k, w) ∷ m) key other v ne =
      ground
        (arith, eq_iff k key, eq_iff k other, eq_iff key other, find_text-put_text_ne m key other v)

  pub find_text-erase_text_self :
      (m : List (String × A)) (key : String) → find_text (erase_text m key) key ≡ none
  find_text-erase_text_self [] key = refl
  find_text-erase_text_self ((k, v) ∷ m) key =
      ground (arith, eq_iff k key, find_text-erase_text_self m key)

  pub find_text-erase_text_ne :
      (m : List (String × A)) (key other : String)
      → key ≢ other
      → find_text (erase_text m key) other ≡ find_text m other
  find_text-erase_text_ne [] key other ne = refl
  find_text-erase_text_ne ((k, v) ∷ m) key other ne =
      ground (arith, eq_iff k key, eq_iff k other, find_text-erase_text_ne m key other)

-- To put back what is there changes nothing.
pub put_text-find_text {ℓ} :
    {A : Type ℓ} (m : List (String × A)) (key : String) (v : A)
    → find_text m key ≡ some v
    → put_text m key v ≡ m
put_text-find_text [] key v h = ground arith
put_text-find_text ((k, w) ∷ m) key v h = ground (arith, put_text-find_text m key v)

-- Two texts are the same or not.
pub same_text : (i j : String) → (i ≡ j) ⊎ (i ≢ j)
same_text i j = elim (Bool-cases (str_eq i j)) [
  | inl same ↦ inl ((eq_iff i j).0 same)
  | inr other ↦ inr (λ e. absurd (ground (arith, other, eq_iff i j)))
]

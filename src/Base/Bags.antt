-- ===== src/Base/Bags.antt =====
-- Lists of numbers as bags: how often a number occurs, the first occurrence, and its removal.
use Prim.Native.Nat.{ℕ, suc, ◌+◌, ◌≤◌, ◌<◌}
use mathlib.Core.Path.{◌≡◌, refl}
use mathlib.Core.Logic.{◌↔◌}
use mathlib.Core.Bool.{Bool, true, false}
use mathlib.Core.List.{List, [], ◌∷◌, ◌++◌}
use native.Mathlib.Omega.{arith}
use gd_server.Base.Tests.{◌==◌, if◌then◌else◌}
use gd_server.Base.Lists.{length}

abbrev pub count : ℕ → List ℕ → ℕ
count a [] = 0
count a (x ∷ xs) = (if x == a then 1 else 0) + count a xs

-- `std::find(l.begin(), l.end(), a) != l.end()`.
abbrev pub elem : ℕ → List ℕ → Bool
elem a [] = false
elem a (x ∷ xs) = if x == a then true else elem a xs

-- `l.erase(std::find(l.begin(), l.end(), a))` where `a` is there.
abbrev pub erase : List ℕ → ℕ → List ℕ
erase [] a = []
erase (x ∷ xs) a = if x == a then xs else x ∷ erase xs a

-- `l.erase(std::remove(l.begin(), l.end(), a), l.end())`.
abbrev pub remove_all : List ℕ → ℕ → List ℕ
remove_all [] a = []
remove_all (x ∷ xs) a = if x == a then remove_all xs a else x ∷ remove_all xs a

pub count-append : (n : ℕ) (ks ls : List ℕ) → count n (ks ++ ls) ≡ count n ks + count n ls
count-append n [] ls = omega arith
count-append n (k ∷ ks) ls = ground (arith, count-append n ks ls)

pub elem_iff : (a : ℕ) (xs : List ℕ) → (elem a xs ≡ true) ↔ (0 < count a xs)
elem_iff a [] = ground arith
elem_iff a (x ∷ xs) = ground (arith, elem_iff a xs)

pub count-erase :
    (b a : ℕ) (xs : List ℕ)
    → elem a xs ≡ true
    → count b xs ≡ (if a == b then 1 else 0) + count b (erase xs a)
count-erase b a [] h = ground arith
count-erase b a (x ∷ xs) h = ground (arith, count-erase b a xs)

pub length-erase : (a : ℕ) (xs : List ℕ) → elem a xs ≡ true → length xs ≡ suc (length (erase xs a))
length-erase a [] h = ground arith
length-erase a (x ∷ xs) h = ground (arith, length-erase a xs)

pub count-remove_all_self : (a : ℕ) (xs : List ℕ) → count a (remove_all xs a) ≡ 0
count-remove_all_self a [] = refl
count-remove_all_self a (x ∷ xs) = ground (arith, count-remove_all_self a xs)

pub length-remove_all_lt :
    (a : ℕ) (xs : List ℕ) → elem a xs ≡ true → length (remove_all xs a) < length xs
length-remove_all_lt a [] h = ground arith
length-remove_all_lt a (x ∷ xs) h = ground (arith, length-remove_all_lt a xs, shorter a xs)
  where
    shorter : (a : ℕ) (xs : List ℕ) → length (remove_all xs a) ≤ length xs
    shorter a [] = omega arith
    shorter a (x ∷ xs) = ground (arith, shorter a xs)

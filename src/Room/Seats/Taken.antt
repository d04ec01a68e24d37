-- ===== src/Room/Seats/Taken.antt =====
-- Which seats are taken, and that a room with free places has a free seat.

use gd_server.Base.{
  Bool-cases, List, Option, [], any, arith, count, false, if◌then◌else◌, inl, inr, length, ltb,
  none, not, refl, some, suc, true, zero, ℕ, ℕ_discrete, ◌&&◌, ◌+◌, ◌<◌, ◌==◌, ◌↔◌, ◌∷◌, ◌≡◌, ◌≤◌,
}
use gd_server.Room.Data.{Room, RoomPlayer, contains_player, is_seat_taken, sits_at}
use gd_server.Room.Seats.{first_empty_from, first_empty_seat}

unfoldable pub ids_of_room : List RoomPlayer → List ℕ
ids_of_room [] = []
ids_of_room (p ∷ ps) = p.id ∷ ids_of_room ps

abbrev pub seat_then : Option ℕ → List ℕ → List ℕ
seat_then none ks = ks
seat_then (some k) ks = k ∷ ks

unfoldable pub seats_of : List RoomPlayer → List ℕ
seats_of [] = []
seats_of (p ∷ ps) = seat_then p.seat_index (seats_of ps)

-- Every player has an id of their own, which is not 0, and a seat of their own in the room.
pub record IsSeated (ps : List RoomPlayer) (n : ℕ) : Type 0 where
  pub ids_once : (a : ℕ) → count a (ids_of_room ps) ≤ 1
  pub no_zero : count 0 (ids_of_room ps) ≡ 0
  pub seats_once : (k : ℕ) → count k (seats_of ps) ≤ 1
  pub inside : (k : ℕ) → n ≤ k → count k (seats_of ps) ≡ 0
  pub seated : length (seats_of ps) ≡ length ps

pub contains_player_iff :
    (r : Room) (id : ℕ) → (contains_player r id ≡ true) ↔ (0 < count id (ids_of_room r.players))
unfolding contains_player ids_of_room
contains_player_iff r id = go r.players
  where
    go :
        (ps : List RoomPlayer)
        → (any (λ (p : RoomPlayer). p.id == id) ps ≡ true) ↔ (0 < count id (ids_of_room ps))
    go [] = ground arith
    go (p ∷ ps) = ground (arith, go ps)

-- A seat that nobody but the player `x` may sit on.
pub free_of :
    (ps : List RoomPlayer) (k x : ℕ)
    → any (λ p. sits_at (some k) p && not (p.id == x)) ps ≡ false
    → count k (seats_of ps) ≤ count x (ids_of_room ps)
unfolding ids_of_room seats_of
free_of [] k x h = omega arith
free_of (p ∷ ps) k x h = ground (arith, free_of ps k x)

pub free-count :
    (r : Room) (k : ℕ)
    → count 0 (ids_of_room r.players) ≡ 0
    → is_seat_taken r k 0 ≡ false
    → count k (seats_of r.players) ≡ 0
unfolding is_seat_taken
free-count r k z h = omega (arith, free_of r.players k 0 h)

taken-count : (r : Room) (k : ℕ) → is_seat_taken r k 0 ≡ true → 0 < count k (seats_of r.players)
unfolding is_seat_taken seats_of
taken-count r k h = go r.players h
  where
    go :
        (ps : List RoomPlayer)
        → any (λ (p : RoomPlayer). sits_at (some k) p && not (p.id == 0)) ps ≡ true
        → 0 < count k (seats_of ps)
    go [] h = ground arith
    go (p ∷ ps) h = ground (arith, go ps)

-- What `firstEmptySeat` finds from seat `i` on.
abbrev IsEmptySeat : Room → ℕ → ℕ → Option ℕ → Type 0
IsEmptySeat r k i none = (x : ℕ) → i ≤ x → x < i + k → is_seat_taken r x 0 ≡ true
IsEmptySeat r k i (some s) = (i ≤ s) × (s < i + k) × (is_seat_taken r s 0 ≡ false)

first_empty_from-IsEmptySeat : (r : Room) (k i : ℕ) → IsEmptySeat r k i (first_empty_from r k i)
unfolding first_empty_from
first_empty_from-IsEmptySeat r zero i = λ x a b. absurd (omega arith)
first_empty_from-IsEmptySeat r (suc k) i = elim (Bool-cases (is_seat_taken r i 0)) [
  | inr free ↦ rw free (omega arith, omega arith, free)
  | inl taken ↦
      rw taken
        (later (first_empty_from r k (i + 1)) (first_empty_from-IsEmptySeat r k (i + 1)) taken)
]
  where
    later :
        (o : Option ℕ)
        → IsEmptySeat r k (i + 1) o
        → is_seat_taken r i 0 ≡ true
        → IsEmptySeat r (suc k) i o
    later none h t = λ x a b. elim (ℕ_discrete i x) [
      | yes same ↦ rw (← same) t
      | no other ↦ h x (omega arith) (omega arith)
    ]
    later (some s) (a, b, f) t = (omega arith, omega arith, f)

-- How often the numbers below `n` occur in a list, together.
total_below : ℕ → List ℕ → ℕ
total_below zero xs = 0
total_below (suc n) xs = count n xs + total_below n xs

total_below-cons :
    (n x : ℕ) (xs : List ℕ) → total_below n (x ∷ xs) ≡ (if ltb x n then 1 else 0) + total_below n xs
unfolding total_below
total_below-cons zero x xs = ground arith
total_below-cons (suc n) x xs = ground (arith, total_below-cons n x xs)

total_below-nil : (n : ℕ) → total_below n [] ≡ 0
unfolding total_below
total_below-nil zero = refl
total_below-nil (suc n) = omega (arith, total_below-nil n)

total_below-le : (n : ℕ) (xs : List ℕ) → total_below n xs ≤ length xs
total_below-le n [] = omega (arith, total_below-nil n)
total_below-le n (x ∷ xs) = ground (arith, total_below-cons n x xs, total_below-le n xs)

-- With every number below `n` in the list, the list has at least `n` entries.
covers-length : (n : ℕ) (xs : List ℕ) → ((x : ℕ) → x < n → 0 < count x xs) → n ≤ length xs
unfolding total_below
covers-length n xs h = omega (arith, go n (λ x l. h x l), total_below-le n xs)
  where
    go : (m : ℕ) → ((x : ℕ) → x < m → 0 < count x xs) → m ≤ total_below m xs
    go zero g = omega arith
    go (suc m) g = ground (arith, g m (omega arith), go m (λ x l. g x (omega arith)))

pub first_empty_seat-found :
    (r : Room)
    → IsSeated r.players r.config.max_players
    → length r.players < r.config.max_players
    → (s : ℕ) × (first_empty_seat r ≡ some s)
      × (s < r.config.max_players)
      × (is_seat_taken r s 0 ≡ false)
unfolding first_empty_seat
first_empty_seat-found r v room =
    cases (first_empty_from r r.config.max_players 0) refl
      (first_empty_from-IsEmptySeat r r.config.max_players 0)
  where
    cases :
        (o : Option ℕ)
        → first_empty_from r r.config.max_players 0 ≡ o
        → IsEmptySeat r r.config.max_players 0 o
        → (s : ℕ) × (first_empty_from r r.config.max_players 0 ≡ some s)
          × (s < r.config.max_players)
          × (is_seat_taken r s 0 ≡ false)
    cases none e h = absurd (
        omega (
          arith,
          v.seated,
          covers-length r.config.max_players (seats_of r.players)
              (λ x l. taken-count r x (h x (omega arith) (omega arith))),
        ))
    cases (some s) e (a, b, f) = (s, e, omega arith, f)

total_below-le-bound : (n : ℕ) (xs : List ℕ) → ((k : ℕ) → count k xs ≤ 1) → total_below n xs ≤ n
unfolding total_below
total_below-le-bound zero xs h = omega arith
total_below-le-bound (suc n) xs h = omega (arith, h n, total_below-le-bound n xs h)

length-le-total_below :
    (n : ℕ) (xs : List ℕ) → ((k : ℕ) → n ≤ k → count k xs ≡ 0) → length xs ≤ total_below n xs
length-le-total_below n [] h = omega arith
length-le-total_below n (x ∷ xs) h =
    let rest = length-le-total_below n xs (λ k l. ground (arith, h k l)) in
    ground (arith, total_below-cons n x xs, h x)

-- A room has no more seated players than seats.
pub length-le-seats : (ps : List RoomPlayer) (n : ℕ) → IsSeated ps n → length ps ≤ n
length-le-seats ps n v = omega (
  arith,
  v.seated,
  length-le-total_below n (seats_of ps) v.inside,
  total_below-le-bound n (seats_of ps) v.seats_once,
)

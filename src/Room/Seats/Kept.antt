-- ===== src/Room/Seats/Kept.antt =====
-- What each operation on the players leaves of the seating.

use gd_server.Base.{
  Bool, Bool-cases, List, [], any, arith, count, false, if◌then◌else◌, inl, inr, keep, length,
  length-append, not, refl, some, ℕ, ℕ_discrete, ◌&&◌, ◌++◌, ◌+◌, ◌<◌, ◌==◌, ◌∷◌, ◌≡◌, ◌≢◌, ◌≤◌,
}
use gd_server.Room.Data.{RoomPlayer, sits_at}
use gd_server.Room.Seats.{change_first, moved_to}
use gd_server.Room.Seats.Taken.{IsSeated, free_of, ids_of_room, seats_of}

pub count-ids_append :
    (a : ℕ) (ps : List RoomPlayer) (p : RoomPlayer)
    → count a (ids_of_room (ps ++ p ∷ [])) ≡ count a (ids_of_room ps) + (if p.id == a then 1 else 0)
unfolding ids_of_room
count-ids_append a [] p = ground arith
count-ids_append a (q ∷ ps) p = ground (arith, count-ids_append a ps p)

count-seats_append :
    (k s : ℕ) (ps : List RoomPlayer) (p : RoomPlayer)
    → p.seat_index ≡ some s
    → (count k (seats_of (ps ++ p ∷ [])) ≡ count k (seats_of ps) + (if s == k then 1 else 0))
      × (length (seats_of (ps ++ p ∷ [])) ≡ length (seats_of ps) + 1)
unfolding seats_of
count-seats_append k s [] p h = ground arith
count-seats_append k s (q ∷ ps) p h = ground (arith, count-seats_append k s ps p h)

pub append-IsSeated :
    (ps : List RoomPlayer) (n s : ℕ) (p : RoomPlayer)
    → IsSeated ps n
    → p.seat_index ≡ some s
    → s < n
    → count s (seats_of ps) ≡ 0
    → p.id ≢ 0
    → count p.id (ids_of_room ps) ≡ 0
    → IsSeated (ps ++ p ∷ []) n
append-IsSeated ps n s p v at_s h free nz new = record {
  ids_once = λ a. ground (arith, count-ids_append a ps p, v.ids_once a);
  no_zero = ground (arith, count-ids_append 0 ps p, v.no_zero);
  seats_once = λ k. ground (arith, (count-seats_append k s ps p at_s).0, v.seats_once k);
  inside = λ k l. ground (arith, (count-seats_append k s ps p at_s).0, v.inside k l);
  seated = omega (arith, (count-seats_append 0 s ps p at_s).1, v.seated, length-append ps (p ∷ []));
}

seats_le : (ps : List RoomPlayer) → length (seats_of ps) ≤ length ps
unfolding seats_of
seats_le [] = omega arith
seats_le (p ∷ ps) = ground (arith, seats_le ps)

keep-counts :
    (x a : ℕ) (ps : List RoomPlayer)
    → (count a (ids_of_room (keep (λ p. not (p.id == x)) ps)) ≤ count a (ids_of_room ps))
      × (count a (seats_of (keep (λ p. not (p.id == x)) ps)) ≤ count a (seats_of ps))
unfolding ids_of_room seats_of
keep-counts x a [] = (omega arith, omega arith)
keep-counts x a (p ∷ ps) = ground (arith, keep-counts x a ps)

keep-seated :
    (x : ℕ) (ps : List RoomPlayer)
    → length (seats_of ps) ≡ length ps
    → length (seats_of (keep (λ p. not (p.id == x)) ps)) ≡ length (keep (λ p. not (p.id == x)) ps)
unfolding seats_of
keep-seated x [] h = refl
keep-seated x (p ∷ ps) h = ground (arith, keep-seated x ps, seats_le ps)

pub keep-IsSeated :
    (x n : ℕ) (ps : List RoomPlayer) → IsSeated ps n → IsSeated (keep (λ p. not (p.id == x)) ps) n
keep-IsSeated x n ps v = record {
  ids_once = λ a. omega (arith, (keep-counts x a ps).0, v.ids_once a);
  no_zero = omega (arith, (keep-counts x 0 ps).0, v.no_zero);
  seats_once = λ k. omega (arith, (keep-counts x k ps).1, v.seats_once k);
  inside = λ k l. omega (arith, (keep-counts x k ps).1, v.inside k l);
  seated = keep-seated x ps v.seated;
}

-- A change of one player that keeps id and seat keeps all ids and seats.
module _ (test : RoomPlayer → Bool) (change : RoomPlayer → RoomPlayer)
    (same_id : (p : RoomPlayer) → (change p).id ≡ p.id) where
  pub change_first-ids :
      (ps : List RoomPlayer) → ids_of_room (change_first test change ps) ≡ ids_of_room ps
  unfolding change_first ids_of_room
  change_first-ids [] = refl
  change_first-ids (p ∷ ps) = elim (Bool-cases (test p)) [
    | inl t ↦ rw (t, same_id p) refl
    | inr f ↦ rw (f, change_first-ids ps) refl
  ]

  pub change_first-length :
      (ps : List RoomPlayer) → length (change_first test change ps) ≡ length ps
  unfolding change_first
  change_first-length [] = refl
  change_first-length (p ∷ ps) = ground (arith, change_first-length ps)

  pub change_first-seats :
      ((p : RoomPlayer) → (change p).seat_index ≡ p.seat_index)
      → (ps : List RoomPlayer) → seats_of (change_first test change ps) ≡ seats_of ps
  unfolding change_first seats_of
  change_first-seats same [] = refl
  change_first-seats same (p ∷ ps) = elim (Bool-cases (test p)) [
    | inl t ↦ rw (t, same p) refl
    | inr f ↦ rw (f, change_first-seats same ps) refl
  ]

  pub change_first-IsSeated :
      ((p : RoomPlayer) → (change p).seat_index ≡ p.seat_index)
      → (ps : List RoomPlayer) (n : ℕ) → IsSeated ps n
      → IsSeated (change_first test change ps) n
  change_first-IsSeated same ps n v =
      let e = change_first-ids ps in
      let f = change_first-seats same ps in
      let g = change_first-length ps in
      record {
        ids_once = λ a. rw e (v.ids_once a);
        no_zero = rw e v.no_zero;
        seats_once = λ k. rw f (v.seats_once k);
        inside = λ k l. rw f (v.inside k l);
        seated = rw (f, g) v.seated;
      }

moved-counts :
    (k x : ℕ) (ps : List RoomPlayer)
    → any (λ p. sits_at (some k) p && not (p.id == x)) ps ≡ false
    → count x (ids_of_room ps) ≤ 1
    → count k (seats_of (change_first (λ q. q.id == x) (moved_to k) ps)) ≤ 1
unfolding change_first ids_of_room seats_of
moved-counts k x [] h once = omega arith
moved-counts k x (p ∷ ps) h once = ground (arith, moved-counts k x ps, free_of ps k x)

moved-others :
    (k x j : ℕ) (ps : List RoomPlayer)
    → k ≢ j
    → count j (seats_of (change_first (λ q. q.id == x) (moved_to k) ps)) ≤ count j (seats_of ps)
unfolding change_first seats_of
moved-others k x j [] ne = omega arith
moved-others k x j (p ∷ ps) ne = ground (arith, moved-others k x j ps)

moved-seated :
    (k x : ℕ) (ps : List RoomPlayer)
    → length (seats_of ps) ≡ length ps
    → length (seats_of (change_first (λ q. q.id == x) (moved_to k) ps)) ≡ length ps
unfolding change_first seats_of
moved-seated k x [] h = refl
moved-seated k x (p ∷ ps) h = ground (arith, moved-seated k x ps, seats_le ps)

pub moved-IsSeated :
    (k x n : ℕ) (ps : List RoomPlayer)
    → IsSeated ps n
    → k < n
    → any (λ p. sits_at (some k) p && not (p.id == x)) ps ≡ false
    → IsSeated (change_first (λ q. q.id == x) (moved_to k) ps) n
moved-IsSeated k x n ps v h free =
    let moved = change_first (λ q. q.id == x) (moved_to k) ps in
    let e = change_first-ids (λ q. q.id == x) (moved_to k) (λ p. refl) ps in
    let g = change_first-length (λ q. q.id == x) (moved_to k) (λ p. refl) ps in
    record {
      ids_once = λ a. rw e (v.ids_once a);
      no_zero = rw e v.no_zero;
      seats_once = λ j. elim (ℕ_discrete k j) [
        | yes same ↦ rw (← same) (moved-counts k x ps free (v.ids_once x))
        | no other ↦ omega (arith, moved-others k x j ps other, v.seats_once j)
      ];
      inside = λ j l. omega (arith, moved-others k x j ps (omega arith), v.inside j l);
      seated = rw g (moved-seated k x ps v.seated);
    }

-- ===== src/Voice/Rooms/Members.antt =====
-- Every member of a voice room is a client of that room, once, and no other room has the client.

use gd_server.Base.{
  Bool-cases, List, Option, Option-cases, String, [], arith, count, count-append, elem, elem_iff,
  find_at, find_text, find_text-erase_text_ne, find_text-erase_text_self, find_text-put_text_ne,
  find_text-put_text_self, if◌then◌else◌, inl, inr, is_empty, refl, remove_all, same_text, some,
  true, ℕ, ◌++◌, ◌+◌, ◌==◌, ◌>>=◌, ◌∷◌, ◌≡◌, ◌≢◌, ◌≤◌,
}
use gd_server.Voice.Rooms.{VoiceRoomManager, add_member, members_of, remove_from_room}

pub count-remove_all :
    (v u : ℕ) (xs : List ℕ) → count v (remove_all xs u) ≡ (if u == v then 0 else count v xs)
count-remove_all v u [] = ground arith
count-remove_all v u (x ∷ xs) = ground (arith, count-remove_all v u xs)

-- The members after somebody has been taken out of a room.
pub members_of-remove_self :
    (rooms : List (String × List ℕ)) (r : String) (u : ℕ)
    → members_of (remove_from_room rooms r u) r ≡ remove_all (members_of rooms r) u
unfolding remove_from_room
members_of-remove_self rooms r u = elim (Option-cases (find_text rooms r)) [
  | inl off ↦ ground arith
  | inr (ms, there) ↦ elim (Bool-cases (is_empty (remove_all ms u))) [
    | inl none_left ↦
        ground (arith, find_text-erase_text_self rooms r, empty (remove_all ms u) none_left)
    | inr some_left ↦ ground (arith, find_text-put_text_self rooms r (remove_all ms u))
  ]
]
  where
    empty : (xs : List ℕ) → is_empty xs ≡ true → xs ≡ []
    empty [] h = refl
    empty (x ∷ xs) h = absurd (cc h)

pub members_of-remove_ne :
    (rooms : List (String × List ℕ)) (r q : String) (u : ℕ)
    → r ≢ q
    → members_of (remove_from_room rooms r u) q ≡ members_of rooms q
unfolding remove_from_room
members_of-remove_ne rooms r q u ne = elim (Option-cases (find_text rooms r)) [
  | inl off ↦ ground arith
  | inr (ms, there) ↦ ground (
    arith,
    find_text-erase_text_ne rooms r q ne,
    find_text-put_text_ne rooms r q (remove_all ms u) ne,
  )
]

count-append_one :
    (v u : ℕ) (xs : List ℕ) → count v (xs ++ u ∷ []) ≡ count v xs + (if u == v then 1 else 0)
count-append_one v u xs = ground (arith, count-append v xs (u ∷ []))

-- The members after somebody has been added: that one is there once, the others as before.
pub added_self :
    (rooms : List (String × List ℕ)) (r : String) (u : ℕ)
    → count u (members_of rooms r) ≤ 1
    → count u (members_of (add_member rooms r u) r) ≡ 1
unfolding add_member
added_self rooms r u once =
    let ms = members_of rooms r in
    let both = find_text-put_text_self rooms r (if elem u ms then ms else ms ++ u ∷ []) in
    ground (arith, both, elem_iff u ms, count-append_one u u ms)

pub added_other :
    (rooms : List (String × List ℕ)) (r q : String) (u v : ℕ)
    → u ≢ v
    → count v (members_of (add_member rooms r u) q) ≡ count v (members_of rooms q)
unfolding add_member
added_other rooms r q u v ne =
    let ms = members_of rooms r in
    let more = if elem u ms then ms else ms ++ u ∷ [] in
    elim (same_text r q) [
      | inl same ↦
          rw (← same)
            (ground (arith, find_text-put_text_self rooms r more, count-append_one v u ms))
      | inr other ↦ ground (arith, find_text-put_text_ne rooms r q more other)
    ]

pub added_ne :
    (rooms : List (String × List ℕ)) (r q : String) (u : ℕ)
    → r ≢ q
    → members_of (add_member rooms r u) q ≡ members_of rooms q
unfolding add_member
added_ne rooms r q u ne =
    let ms = members_of rooms r in
    let more = if elem u ms then ms else ms ++ u ∷ [] in
    ground (arith, find_text-put_text_ne rooms r q more ne)

-- The room of a client.
abbrev pub room_at : VoiceRoomManager → ℕ → Option String
room_at m u = find_at m.clients u >>= λ c. some c.room_id

pub record IsVoice (m : VoiceRoomManager) : Type 0 where
  pub listed :
      (u : ℕ) (r : String) → room_at m u ≡ some r → count u (members_of m.room_members r) ≡ 1
  pub elsewhere :
      (u : ℕ) (r : String) → room_at m u ≢ some r → count u (members_of m.room_members r) ≡ 0

pub once :
    (m : VoiceRoomManager)
    → IsVoice m
    → (u : ℕ) (r : String) → count u (members_of m.room_members r) ≤ 1
once m v u r = elim (Option-cases (room_at m u)) [
  | inl off ↦ omega (arith, v.elsewhere u r (λ e. absurd (cc (off, e))))
  | inr (q, there) ↦ elim (same_text q r) [
    | inl same ↦ omega (arith, v.listed u r (rw (← same) there))
    | inr other ↦ omega (arith, v.elsewhere u r (λ e. other (some_eq (cc (there, e)))))
  ]
]
  where
    some_eq : {i j : String} → some i ≡ some j → i ≡ j
    some_eq e = cc e

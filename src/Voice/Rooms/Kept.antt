-- ===== src/Voice/Rooms/Kept.antt =====
-- Whatever the voice server calls, each client is a member of its own room, once, and of no other.
use text.Mathlib.Text.{◌==◌ as str_eq}
use text.Mathlib.TextEquality.{eq_iff}
use gd_server.Base.{
  Bool-cases, List, Option-cases, String, [], ap, arith, count, find_at, find_at-erase_at_ne,
  find_at-erase_at_self, find_at-put_at_ne, find_at-put_at_self, inl, inr, ltb, put_at, refl,
  same_text, some, subst, sym, ℕ, ℕ_discrete, ◌-◌, ◌∙◌, ◌∷◌, ◌≡◌, ◌≢◌, ◌≤◌,
}
use gd_server.Voice.Rooms.{
  VoiceClient, VoiceRoomManager, VoiceSocketAddr, add_member, join_voice_room, leave_old,
  leave_voice_room, members_of, no_voices, prune_from, prune_idle, remove_from_room, touch_voice,
}
use gd_server.Voice.Rooms.Members.{
  IsVoice, added_ne, added_other, added_self, count-remove_all, members_of-remove_ne,
  members_of-remove_self, once, room_at,
}

some_text : {i j : String} → some i ≡ some j → i ≡ j
some_text e = cc e

removed_other :
    (rooms : List (String × List ℕ)) (r q : String) (u v : ℕ)
    → u ≢ v
    → count v (members_of (remove_from_room rooms r u) q) ≡ count v (members_of rooms q)
removed_other rooms r q u v ne = elim (same_text r q) [
  | inl same ↦
      rw (← same) (
        ground (arith, members_of-remove_self rooms r u, count-remove_all v u (members_of rooms r)))
  | inr other ↦ rw (members_of-remove_ne rooms r q u other) refl
]

removed_self :
    (rooms : List (String × List ℕ)) (r : String) (u : ℕ)
    → count u (members_of (remove_from_room rooms r u) r) ≡ 0
removed_self rooms r u =
    ground (arith, members_of-remove_self rooms r u, count-remove_all u u (members_of rooms r))

leave_old_other :
    (m : VoiceRoomManager) (u v : ℕ) (r q : String)
    → u ≢ v
    → count v (members_of (leave_old m u r) q) ≡ count v (members_of m.room_members q)
unfolding leave_old
leave_old_other m u v r q ne = elim (Option-cases (find_at m.clients u)) [
  | inl off ↦ rw (leave_old, off) refl
  | inr (old, there) ↦
      let removed = removed_other m.room_members old.room_id q u v ne in
      elim (Bool-cases (str_eq old.room_id r)) [
        | inl same ↦ rw (leave_old, there, same) refl
        | inr other ↦ rw (leave_old, there, other) removed
      ]
]

leave_old_self :
    (m : VoiceRoomManager) (u : ℕ) (r q : String)
    → IsVoice m
    → r ≢ q
    → count u (members_of (leave_old m u r) q) ≡ 0
unfolding leave_old
leave_old_self m u r q v ne = elim (Option-cases (find_at m.clients u)) [
  | inl off ↦ rw (leave_old, off) (v.elsewhere u q (λ e. absurd (ground arith)))
  | inr (old, there) ↦ elim (Bool-cases (str_eq old.room_id r)) [
    | inl same ↦
        let e : old.room_id ≡ r = (eq_iff old.room_id r).0 same in
        rw (leave_old, there, same) (v.elsewhere u q (λ k. ne (sym e ∙ some_text (rw there at k))))
    | inr other ↦
        rw (leave_old, there, other)
          (elim (same_text old.room_id q) [
            | inl here_old ↦ rw (← here_old) (removed_self m.room_members old.room_id u)
            | inr apart ↦
                rw (members_of-remove_ne m.room_members old.room_id q u apart)
                  (v.elsewhere u q (λ k. apart (some_text (rw there at k))))
          ])
  ]
]

leave_old_le :
    (m : VoiceRoomManager) (u : ℕ) (r : String)
    → IsVoice m
    → count u (members_of (leave_old m u r) r) ≤ 1
unfolding leave_old
leave_old_le m u r v = elim (Option-cases (find_at m.clients u)) [
  | inl off ↦ rw (leave_old, off) (once m v u r)
  | inr (old, there) ↦ elim (Bool-cases (str_eq old.room_id r)) [
    | inl same ↦ rw (leave_old, there, same) (once m v u r)
    | inr other ↦
        let apart : old.room_id ≢ r = λ e. absurd (ground (arith, eq_iff old.room_id r)) in
        rw (leave_old, there, other)
          (rw (members_of-remove_ne m.room_members old.room_id r u apart) (once m v u r))
  ]
]

room_at-put :
    (m : VoiceRoomManager) (rooms : List (String × List ℕ)) (u : ℕ) (c : VoiceClient)
    → room_at (record { clients = put_at m.clients u c; room_members = rooms }) u ≡ some c.room_id
room_at-put m rooms u c = rw (find_at-put_at_self m.clients u c) refl

room_at-put_ne :
    (m : VoiceRoomManager) (rooms : List (String × List ℕ)) (u x : ℕ) (c : VoiceClient)
    → u ≢ x
    → room_at (record { clients = put_at m.clients u c; room_members = rooms }) x ≡ room_at m x
room_at-put_ne m rooms u x c ne = rw (find_at-put_at_ne m.clients u x c ne) refl

-- A client whose room has the members that it should have: the others are left alone.
put-IsVoice :
    (m : VoiceRoomManager) (rooms : List (String × List ℕ)) (u : ℕ) (c : VoiceClient)
    → IsVoice m
    → count u (members_of rooms c.room_id) ≡ 1
    → ((q : String) → c.room_id ≢ q → count u (members_of rooms q) ≡ 0)
    → ((x : ℕ) (q : String)
        → u ≢ x
        → count x (members_of rooms q) ≡ count x (members_of m.room_members q))
    → IsVoice (record { clients = put_at m.clients u c; room_members = rooms })
put-IsVoice m rooms u c v mine away others = record {
  listed = λ x q h. elim (ℕ_discrete u x) [
    | yes me ↦
        let h' = rw (← me) at h in
        let e : c.room_id ≡ q = some_text (sym (room_at-put m rooms u c) ∙ h') in
        rw (← me, ← e) mine
    | no he ↦ others x q he ∙ v.listed x q (sym (room_at-put_ne m rooms u x c he) ∙ h)
  ];
  elsewhere = λ x q h. elim (ℕ_discrete u x) [
    | yes me ↦
        let h' =
          subst
            (λ z.
              room_at (record { clients = put_at m.clients u c; room_members = rooms }) z ≢ some q)
            (sym me) h in
        subst (λ z. count z (members_of rooms q) ≡ 0) me
          (away q (λ e. h' (room_at-put m rooms u c ∙ ap some e)))
    | no he ↦ others x q he ∙ v.elsewhere x q (λ e. h (room_at-put_ne m rooms u x c he ∙ e))
  ];
}

pub join-IsVoice :
    (m : VoiceRoomManager) (now u : ℕ) (r : String) (addr : VoiceSocketAddr)
    → IsVoice m
    → IsVoice (join_voice_room m now u r addr)
unfolding join_voice_room
join-IsVoice m now u r addr v =
    put-IsVoice m (add_member (leave_old m u r) r u) u
      (record { user_id = u; room_id = r; addr = addr; last_seen = now }) v
      (added_self (leave_old m u r) r u (leave_old_le m u r v))
      (λ q apart.
        ap (count u) (added_ne (leave_old m u r) r q u apart) ∙ leave_old_self m u r q v apart)
      (λ x q he. added_other (leave_old m u r) r q u x he ∙ leave_old_other m u x r q he)

pub touch-IsVoice :
    (m : VoiceRoomManager) (now u : ℕ) (addr : VoiceSocketAddr)
    → IsVoice m
    → IsVoice (touch_voice m now u addr)
unfolding touch_voice
touch-IsVoice m now u addr v = elim (Option-cases (find_at m.clients u)) [
  | inl off ↦ rw (touch_voice, off) v
  | inr (c, there) ↦
      rw (touch_voice, there)
        (put-IsVoice m m.room_members u (record c { addr = addr; last_seen = now }) v
          (v.listed u c.room_id (rw there refl))
          (λ q apart. v.elsewhere u q (λ e. apart (some_text (rw there at e)))) (λ x q he. refl))
]

pub leave-IsVoice : (m : VoiceRoomManager) (u : ℕ) → IsVoice m → IsVoice (leave_voice_room m u)
unfolding leave_voice_room
leave-IsVoice m u v = elim (Option-cases (find_at m.clients u)) [
  | inl off ↦ rw (leave_voice_room, off) v
  | inr (c, there) ↦
      rw (leave_voice_room, there)
        record {
          listed = λ x q h. elim (ℕ_discrete u x) [
            | yes me ↦ absurd (ground (arith, find_at-erase_at_self m.clients u))
            | no he ↦
                removed_other m.room_members c.room_id q u x he
                ∙ v.listed x q (rw (find_at-erase_at_ne m.clients u x he) at h)
          ];
          elsewhere = λ x q h. elim (ℕ_discrete u x) [
            | yes me ↦ rw (← me) (elim (same_text c.room_id q) [
              | inl same ↦ rw (← same) (removed_self m.room_members c.room_id u)
              | inr apart ↦
                  rw (members_of-remove_ne m.room_members c.room_id q u apart)
                    (v.elsewhere u q (λ e. apart (some_text (rw there at e))))
            ])
            | no he ↦
                removed_other m.room_members c.room_id q u x he
                ∙ v.elsewhere x q (λ e. h (rw (find_at-erase_at_ne m.clients u x he) e))
          ];
        }
]

prune_from-IsVoice :
    (now max_idle : ℕ) (clients : List (ℕ × VoiceClient)) (m : VoiceRoomManager)
    → IsVoice m
    → IsVoice (prune_from now max_idle clients m)
unfolding prune_from
prune_from-IsVoice now max_idle [] m v = v
prune_from-IsVoice now max_idle ((id, c) ∷ clients) m v =
    elim (Bool-cases (ltb max_idle (now - c.last_seen))) [
      | inl idle ↦
          rw idle
            (prune_from-IsVoice now max_idle clients (leave_voice_room m id) (leave-IsVoice m id v))
      | inr busy ↦ rw busy (prune_from-IsVoice now max_idle clients m v)
    ]

-- What the voice server does to its rooms.
pub data VoiceStep (m : VoiceRoomManager) : VoiceRoomManager → Type 0 where
  speaks_up :
      (now u : ℕ) (r : String) (addr : VoiceSocketAddr)
      → VoiceStep m (join_voice_room m now u r addr)
  hangs_up : (u : ℕ) → VoiceStep m (leave_voice_room m u)
  beats : (now u : ℕ) (addr : VoiceSocketAddr) → VoiceStep m (touch_voice m now u addr)
  prunes : (now max_idle : ℕ) → VoiceStep m (prune_idle m now max_idle)

pub data VoiceReach : VoiceRoomManager → Type 0 where
  silence : VoiceReach no_voices
  voiced : {m n : VoiceRoomManager} → VoiceReach m → VoiceStep m n → VoiceReach n

VoiceStep-IsVoice : {m n : VoiceRoomManager} → VoiceStep m n → IsVoice m → IsVoice n
unfolding prune_idle
VoiceStep-IsVoice {m = m} (speaks_up now u r addr) v = join-IsVoice m now u r addr v
VoiceStep-IsVoice {m = m} (hangs_up u) v = leave-IsVoice m u v
VoiceStep-IsVoice {m = m} (beats now u addr) v = touch-IsVoice m now u addr v
VoiceStep-IsVoice {m = m} (prunes now max_idle) v = prune_from-IsVoice now max_idle m.clients m v

pub VoiceReach-IsVoice : {m : VoiceRoomManager} → VoiceReach m → IsVoice m
VoiceReach-IsVoice silence = record { listed = λ u r h. absurd (cc h); elsewhere = λ u r h. refl }
VoiceReach-IsVoice (voiced before step) = VoiceStep-IsVoice step (VoiceReach-IsVoice before)

-- ===== src/Network/Sessions/Resolved.antt =====
-- Which player a message comes from.
use Prim.Native.String.{◌++◌ as append}
use gd_server.Base.{
  Bool-cases, Option-cases, String, ap, arith, find_at, find_at-put_at_ne, find_at-put_at_self,
  has_at, if◌then◌else◌, inl, inr, none, put_at, refl, some, sym, ℕ, ◌+◌, ◌==◌, ◌∙◌, ◌≡◌, ◌≢◌, ◌⊎◌,
}
use gd_server.Network.Sessions.{
  Session, SessionManager, bind_player, blank_session, ensure_session, find_session_id_by_player_id,
  get_session, resolve_player_id,
}

-- What a session without a player gets.

pub record IsFresh (m : SessionManager) (id : ℕ) (out : SessionManager × ℕ) : Type 0 where
  pub player : out.1 ≡ 10000 + id
  pub found : find_session_id_by_player_id out.0 (10000 + id) ≡ id
  pub others :
      (p : ℕ)
      → p ≢ 10000 + id
      → find_session_id_by_player_id out.0 p ≡ find_session_id_by_player_id m p

bound-IsFresh :
    (m : SessionManager) (id : ℕ) (nickname : String) (s : Session)
    → find_at m.sessions id ≡ some s
    → IsFresh m id (bind_player m id 0 nickname)
unfolding bind_player find_session_id_by_player_id
bound-IsFresh m id nickname s there =
    rw (bind_player, there)
      record {
        player = refl;
        found =
            rw (find_session_id_by_player_id, find_at-put_at_self m.player_sessions (10000 + id) id)
              refl;
        others = λ p ne.
            rw
              (
                find_session_id_by_player_id,
                find_at-put_at_ne m.player_sessions (10000 + id) p id (λ e. ne (sym e)),
              )
              refl;
      }

ensure_known :
    (m : SessionManager) (id : ℕ) (s : Session)
    → find_at m.sessions id ≡ some s
    → ensure_session m id ≡ m
unfolding ensure_session
ensure_known m id s there = rw (ensure_session, has_at, there) refl

ensure_new :
    (m : SessionManager) (id : ℕ)
    → find_at m.sessions id ≡ none
    → ensure_session m id ≡ record m { sessions = put_at m.sessions id (blank_session id) }
unfolding ensure_session
ensure_new m id new = rw (ensure_session, has_at, new) refl

-- The answer once the session is there.
resolve_at :
    (to_string : ℕ → String) (m : SessionManager) (id : ℕ) (s : Session)
    → find_at (ensure_session m id).sessions id ≡ some s
    → resolve_player_id to_string m id ≡ (
        if s.player_id == 0
        then bind_player (ensure_session m id) id 0 (append "Player" (to_string id))
        else (ensure_session m id, s.player_id))
unfolding resolve_player_id get_session
resolve_at to_string m id s there = rw (resolve_player_id, there) refl

resolve_in :
    (to_string : ℕ → String) (m known : SessionManager) (id : ℕ) (s : Session)
    → ensure_session m id ≡ known
    → find_at known.sessions id ≡ some s
    → resolve_player_id to_string m id ≡ (
        if s.player_id == 0
        then bind_player known id 0 (append "Player" (to_string id))
        else (known, s.player_id))
resolve_in to_string m known id s e there =
    resolve_at to_string m id s (ap (λ (z : SessionManager). find_at z.sessions id) e ∙ there)
    ∙ ap
        (λ (z : SessionManager).
          if s.player_id == 0
          then bind_player z id 0 (append "Player" (to_string id))
          else (z, s.player_id))
        e

-- A message on a session that is bound comes from its player, and nothing changes. On a session
-- without a player, or one not seen before, it comes from the player with the id 10000 more than
-- the session's: that player is found at this session from then on, whichever session it had
-- before, and all others are found where they were.
pub resolve_player_id_total :
    (to_string : ℕ → String) (m : SessionManager) (id : ℕ)
    → ((s : Session) × (get_session m id ≡ some s)
        × (s.player_id ≢ 0)
        × (resolve_player_id to_string m id ≡ (m, s.player_id)))
      ⊎ IsFresh m id (resolve_player_id to_string m id)
unfolding get_session find_session_id_by_player_id
resolve_player_id_total to_string m id = elim (Option-cases (find_at m.sessions id)) [
  | inl new ↦
      let known = record m { sessions = put_at m.sessions id (blank_session id) } in
      let there : find_at known.sessions id ≡ some (blank_session id) =
        find_at-put_at_self m.sessions id (blank_session id) in
      let f = bound-IsFresh known id (append "Player" (to_string id)) (blank_session id) there in
      inr (
        rw (resolve_in to_string m known id (blank_session id) (ensure_new m id new) there)
          record { player = f.player; found = f.found; others = f.others })
  | inr (s, there) ↦
      let e = resolve_in to_string m m id s (ensure_known m id s there) there in
      elim (Bool-cases (s.player_id == 0)) [
        | inl blank ↦ inr (rw (e, blank) (bound-IsFresh m id _ s there))
        | inr known ↦ inl (s, there, ground arith, rw (e, known) refl)
      ]
]

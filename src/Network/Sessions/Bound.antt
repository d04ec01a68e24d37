-- ===== src/Network/Sessions/Bound.antt =====
-- A player stays with the session that was bound last.
use text.Mathlib.Text.{◌==◌ as str_eq}
use gd_server.Base.{
  Bool, Bool-cases, List, Option-cases, String, ap, arith, false, find_at, find_at-erase_at_ne,
  find_at-put_at_ne, find_at-put_at_self, has_at, if◌then◌else◌, inl, inr, ltb, put_at, refl, some,
  sym, true, ℕ, ℕ_discrete, ◌==◌, ◌∙◌, ◌≡◌, ◌≢◌,
}
use gd_server.Network.Sessions.{
  Session, SessionManager, authenticate, bind_player, blank_session, bound_session, create_session,
  ensure_session, find_by_player_id, find_session_id_by_player_id, get_session, player_of,
  remove_session, unbind,
}

-- The look-ups by player and by session agree.

pub record IsBound (m : SessionManager) (p id : ℕ) : Type 0 where
  pub at_player : find_at m.player_sessions p ≡ some id
  pub session : Session
  pub at_session : find_at m.sessions id ≡ some session
  pub whose : session.player_id ≡ p

-- What happens to other sessions and players, and what keeps the player of a session.
pub data SessionStep (p id : ℕ) (m : SessionManager) : SessionManager → Type 0 where
  ensures : (other : ℕ) → SessionStep p id m (ensure_session m other)
  creates_session :
      (token : String) → m.next_session_id ≢ id → SessionStep p id m (create_session m token).0
  removes_session : (other : ℕ) → other ≢ id → SessionStep p id m (remove_session m other)
  authenticates : (other : ℕ) (token : String) → SessionStep p id m (authenticate m other token).0
  binds :
      (other asked : ℕ) (nickname : String)
      → other ≢ id
      → player_of other asked ≢ p
      → SessionStep p id m (bind_player m other asked nickname).0

pub data SessionReach (p id : ℕ) (m : SessionManager) : SessionManager → Type 0 where
  starts_with : SessionReach p id m m
  goes_to :
      {n k : SessionManager} → SessionReach p id m n → SessionStep p id n k → SessionReach p id m k

-- A session is written, not the player's own, or the player's own with the player kept.
written-IsBound :
    (m : SessionManager) (p id other : ℕ) (s : Session)
    → (other ≡ id → s.player_id ≡ p)
    → IsBound m p id
    → IsBound (record m { sessions = put_at m.sessions other s }) p id
written-IsBound m p id other s mine b = elim (ℕ_discrete other id) [
  | yes same ↦ record {
    at_player = b.at_player;
    session = s;
    at_session = rw same (find_at-put_at_self m.sessions id s);
    whose = mine same;
  }
  | no apart ↦ record {
    at_player = b.at_player;
    session = b.session;
    at_session = find_at-put_at_ne m.sessions other id s apart ∙ b.at_session;
    whose = b.whose;
  }
]

same-IsBound :
    (m n : SessionManager) (p id : ℕ)
    → n.sessions ≡ m.sessions
    → n.player_sessions ≡ m.player_sessions
    → IsBound m p id
    → IsBound n p id
same-IsBound m n p id e f b = record {
  at_player = rw f b.at_player;
  session = b.session;
  at_session = rw e b.at_session;
  whose = b.whose;
}

ensure-IsBound :
    (m : SessionManager) (p id other : ℕ) → IsBound m p id → IsBound (ensure_session m other) p id
unfolding ensure_session
ensure-IsBound m p id other b = elim (Option-cases (find_at m.sessions other)) [
  | inr (s, there) ↦ rw (ensure_session, has_at, there) b
  | inl new ↦
      rw (ensure_session, has_at, new)
        (written-IsBound m p id other (blank_session other)
          (λ same. absurd (cc (new, b.at_session, same))) b)
]

unbind-other :
    (players : List (ℕ × ℕ)) (q p id other : ℕ)
    → other ≢ id
    → find_at players p ≡ some id
    → find_at (unbind players q other) p ≡ some id
unfolding unbind
unbind-other players q p id other apart at_p = elim (Option-cases (find_at players q)) [
  | inl gone ↦ rw (unbind, gone) at_p
  | inr (k, there) ↦ elim (Bool-cases (k == other)) [
    | inr no_match ↦ rw (unbind, there, no_match) at_p
    | inl match ↦
        let ne : q ≢ p = λ same. apart (own_of q k same there match) in
        rw (unbind, there, match) (find_at-erase_at_ne players q p ne ∙ at_p)
  ]
]
  where
    own_of : (q k : ℕ) → q ≡ p → find_at players q ≡ some k → (k == other) ≡ true → other ≡ id
    own_of q k same there match = let e : k ≡ id = cc (there, at_p, same) in ground (arith, e)

remove-IsBound :
    (m : SessionManager) (p id other : ℕ)
    → other ≢ id
    → IsBound m p id
    → IsBound (remove_session m other) p id
unfolding remove_session
remove-IsBound m p id other apart b = elim (Option-cases (find_at m.sessions other)) [
  | inl gone ↦ rw (remove_session, gone) b
  | inr (s, there) ↦
      rw (remove_session, there)
        record {
          at_player = players (ltb 0 s.player_id) s.player_id;
          session = b.session;
          at_session = find_at-erase_at_ne m.sessions other id apart ∙ b.at_session;
          whose = b.whose;
        }
]
  where
    players :
        (c : Bool) (q : ℕ)
        → find_at (if c then unbind m.player_sessions q other else m.player_sessions) p ≡ some id
    players true q = unbind-other m.player_sessions q p id other apart b.at_player
    players false q = b.at_player

authenticate-IsBound :
    (m : SessionManager) (p id other : ℕ) (token : String)
    → IsBound m p id
    → IsBound (authenticate m other token).0 p id
unfolding authenticate
authenticate-IsBound m p id other token b = elim (Option-cases (find_at m.sessions other)) [
  | inl gone ↦ rw (authenticate, gone) b
  | inr (s, there) ↦ elim (Bool-cases (str_eq token "")) [
    | inl blank ↦ rw (authenticate, there, blank) b
    | inr good ↦
        rw (authenticate, there, good)
          (written-IsBound m p id other (record s { authenticated = true; token = token })
            (λ same. own s same there) b)
  ]
]
  where
    own : (s : Session) → other ≡ id → find_at m.sessions other ≡ some s → s.player_id ≡ p
    own s same there =
        let e : b.session ≡ s = cc (there, b.at_session, same) in
        ap (λ (z : Session). z.player_id) (sym e) ∙ b.whose

bind-IsBound :
    (m : SessionManager) (p id other asked : ℕ) (nickname : String)
    → other ≢ id
    → player_of other asked ≢ p
    → IsBound m p id
    → IsBound (bind_player m other asked nickname).0 p id
unfolding bind_player
bind-IsBound m p id other asked nickname apart ne b =
    elim (Option-cases (find_at m.sessions other)) [
      | inl gone ↦ rw (bind_player, gone) b
      | inr (s, there) ↦
          rw (bind_player, there)
            record {
              at_player =
                  find_at-put_at_ne m.player_sessions (player_of other asked) p other ne
                  ∙ b.at_player;
              session = b.session;
              at_session = find_at-put_at_ne m.sessions other id _ apart ∙ b.at_session;
              whose = b.whose;
            }
    ]

SessionStep-IsBound :
    {p id : ℕ} {m n : SessionManager} → SessionStep p id m n → IsBound m p id → IsBound n p id
unfolding create_session
SessionStep-IsBound {p = p} {id = id} {m = m} (ensures other) b = ensure-IsBound m p id other b
SessionStep-IsBound {p = p} {id = id} {m = m} (creates_session token new) b =
    let s = record (blank_session m.next_session_id) { token = token } in
    same-IsBound (record m { sessions = put_at m.sessions m.next_session_id s })
      (create_session m token).0 p id refl refl
      (written-IsBound m p id m.next_session_id s (λ same. absurd (new same)) b)
SessionStep-IsBound {p = p} {id = id} {m = m} (removes_session other apart) b =
    remove-IsBound m p id other apart b
SessionStep-IsBound {p = p} {id = id} {m = m} (authenticates other token) b =
    authenticate-IsBound m p id other token b
SessionStep-IsBound {p = p} {id = id} {m = m} (binds other asked nickname apart ne) b =
    bind-IsBound m p id other asked nickname apart ne b

Reach-IsBound :
    {p id : ℕ} {m n : SessionManager} → SessionReach p id m n → IsBound m p id → IsBound n p id
Reach-IsBound starts_with b = b
Reach-IsBound (goes_to before step) b = SessionStep-IsBound step (Reach-IsBound before b)

bind_new-IsBound :
    (m : SessionManager) (id asked : ℕ) (nickname : String) (s : Session)
    → find_at m.sessions id ≡ some s
    → IsBound (bind_player m id asked nickname).0 (player_of id asked) id
unfolding bind_player bound_session
bind_new-IsBound m id asked nickname s there =
    rw (bind_player, there)
      record {
        at_player = find_at-put_at_self m.player_sessions (player_of id asked) id;
        session = bound_session m id (player_of id asked) nickname s;
        at_session = find_at-put_at_self m.sessions id _;
        whose = refl;
      }

-- A player who is bound to a session that exists is found at that session, with the session being
-- the player's, until the player is bound elsewhere or the session is bound again, removed or made
-- anew: whatever happens to other sessions and players in between, in any order.
pub player_stays_bound :
    (m n : SessionManager) (id asked : ℕ) (nickname : String) (s : Session)
    → get_session m id ≡ some s
    → SessionReach (player_of id asked) id (bind_player m id asked nickname).0 n
    → (find_session_id_by_player_id n (player_of id asked) ≡ id)
      × ((t : Session) × (find_by_player_id n (player_of id asked) ≡ some t)
          × (get_session n id ≡ some t)
          × (t.player_id ≡ player_of id asked))
unfolding get_session find_session_id_by_player_id find_by_player_id
player_stays_bound m n id asked nickname s there reach =
    let b = Reach-IsBound reach (bind_new-IsBound m id asked nickname s there) in
    (
      rw (find_session_id_by_player_id, b.at_player) refl,
      (b.session, rw b.at_player b.at_session, b.at_session, b.whose),
    )

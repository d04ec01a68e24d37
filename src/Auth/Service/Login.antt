-- ===== src/Auth/Service/Login.antt =====
-- From a registration to a login: who gets in, with which password and which token.
use text.Mathlib.Text.{◌==◌ as str_eq}
use Prim.Native.String.{len}
use gd_server.Auth.Service.{auth_failed, let_in, logged_in, login_account, register_account}
use gd_server.Auth.Service.Refusals.{IsTurnedAway, refused_reply, register_account-cases}
use gd_server.Auth.Tokens.{issue_token, k_token_ttl_days}
use gd_server.Auth.Tokens.Issued.{issue_token_total}
use gd_server.Auth.Users.{
  AuthService, UserRecord, find_by_id, find_by_nickname, new_user, trim, user_of_token,
}
use gd_server.Auth.Users.Unique.{IsUnique, register_user_total}
use gd_server.Base.{
  Bool-cases, String, false, if◌then◌else◌, inl, inr, ltb, none, refl, some, ℕ, ◌*◌, ◌+◌, ◌≡◌, ◌≤◌,
  ◌⊎◌,
}

-- A token that has just been issued stands for the user until it expires.
let_in-user_of_token :
    (auth : AuthService) (now later : ℕ) (token : String) (user : UserRecord)
    → str_eq token "" ≡ false
    → find_by_id auth.store user.id ≡ some user
    → (user_of_token (let_in auth now token user).0 later token).1
      ≡ (if ltb (now + 24 * k_token_ttl_days) later then none else some user)
unfolding user_of_token let_in
let_in-user_of_token auth now later token user named known =
    let issued = (issue_token_total auth.tokens token now user.id later named).0 in
    elim (Bool-cases (ltb (now + 24 * k_token_ttl_days) later)) [
      | inl old ↦ rw (issued, old) refl
      | inr fresh ↦ rw (issued, fresh) known
    ]

-- A login with a name that stands for a user: the password decides.
login_account-known :
    (hash_password : String → String → String) (auth : AuthService) (now : ℕ)
    (token nickname password : String) (user : UserRecord)
    → find_by_nickname auth.store nickname ≡ some user
    → login_account hash_password auth now token nickname password ≡ (
        if str_eq (hash_password password user.salt) user.password_hash
        then let_in auth now token user
        else (auth, auth_failed 401 "invalid_credentials"))
unfolding login_account
login_account-known hash_password auth now token nickname password user known =
    elim (Bool-cases (str_eq (hash_password password user.salt) user.password_hash)) [
      | inl same ↦ rw (login_account, known, same) refl
      | inr other ↦ rw (login_account, known, other) refl
    ]

-- In a store whose ids and names stay apart, a registration is turned away without effect, for a
-- password that is not 6 to 64 bytes long, or a name that is not 2 to 16 bytes long or is taken; or
-- the new user, with the next id, is let in with the drawn token. That token, which is not empty, stands
-- for the user for the 30 days of a token and not after. From then on a login with the name lets in
-- exactly who gives a password of the same hash, and any other login with it has no effect. The ids
-- and names still stay apart, and everybody found by an id is found as before.
pub register_account_total :
    (hash_password : String → String → String) (auth : AuthService) (now : ℕ)
    (salt token nickname password : String)
    → IsUnique auth.store
    → str_eq token "" ≡ false
    → let out = register_account hash_password auth now salt token nickname password in
      let hash = hash_password password salt in
      let user = new_user auth.store.next_id (trim nickname) password hash salt in
      IsUnique out.0.store
      × (IsTurnedAway auth nickname password out
          ⊎ ((6 ≤ len password)
              × (len password ≤ 64)
              × (out.1 ≡ logged_in user token)
              × ((later : ℕ)
                  → (user_of_token out.0 later token).1
                    ≡ (if ltb (now + 24 * k_token_ttl_days) later then none else some user))
              × ((later : ℕ) (next given : String)
                  → login_account hash_password out.0 later next nickname given ≡ (
                      if str_eq (hash_password given salt) hash
                      then let_in out.0 later next user
                      else (out.0, auth_failed 401 "invalid_credentials")))
              × ((id : ℕ) (u : UserRecord)
                  → find_by_id auth.store id ≡ some u
                  → find_by_id out.0.store id ≡ some u)))
unfolding let_in issue_token
register_account_total hash_password auth now salt token nickname password v named =
    let hash = hash_password password salt in
    let user = new_user auth.store.next_id (trim nickname) password hash salt in
    let (apart, told) = register_user_total auth.store nickname password hash salt v in
    elim (register_account-cases hash_password auth now salt token nickname password v) [
      | inl away ↦ (rw away.kept v, inl away)
      | inr (added, out, long, short) ↦ elim told [
        | inl (not_added, same) ↦ elim (refused_reply not_added) [
          | inl bad ↦ absurd (cc (bad, added))
          | inr taken ↦ absurd (cc (taken, added))
        ]
        | inr (again, name_long, name_short, free, by_name, by_id, others) ↦ rw out (
          apart,
          inr (
            long,
            short,
            refl,
            λ later. let_in-user_of_token _ now later token user named by_id,
            λ later next given.
                login_account-known hash_password _ later next nickname given user by_name,
            others,
          ),
        )
      ]
    ]

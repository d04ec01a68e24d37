-- ===== src/Auth/Service/Refusals.antt =====
-- When a registration is turned away, and that it has no effect then.
use Prim.Native.String.{len}
use gd_server.Auth.Service.{AuthResult, auth_failed, let_in, register_account}
use gd_server.Auth.Users.{
  AuthService, Registration, UserRecord, UserStore, bad_nickname, find_by_nickname, new_user,
  nickname_taken, register_user, registered, trim,
}
use gd_server.Auth.Users.Unique.{
  IsUnique, NameRefused, in_use, register_user_total, too_long, too_short,
}
use gd_server.Base.{
  Bool-cases, String, arith, false, inl, inr, ltb, refl, some, true, ℕ, ◌<◌, ◌||◌, ◌≡◌, ◌≤◌, ◌⊎◌,
}

-- Why a registration is turned away, with the status and the code that are answered.
pub data Reason (store : UserStore) (nickname password : String) : ℕ → String → Type 0 where
  short_password : len password < 6 → Reason store nickname password 400 "invalid_password"
  long_password : 64 < len password → Reason store nickname password 400 "invalid_password"
  short_name : len (trim nickname) < 2 → Reason store nickname password 409 "nickname_taken"
  long_name : 16 < len (trim nickname) → Reason store nickname password 409 "nickname_taken"
  name_taken :
      (u : UserRecord)
      → find_by_nickname store nickname ≡ some u
      → Reason store nickname password 409 "nickname_taken"

-- The service refuses for a reason and is as it was.
pub record IsTurnedAway (auth : AuthService) (nickname password : String)
    (out : AuthService × AuthResult) : Type 0 where
  pub status : ℕ
  pub code : String
  pub why : Reason auth.store nickname password status code
  pub told : out.1 ≡ auth_failed status code
  pub kept : out.0 ≡ auth

bad_password :
    (store : UserStore) (nickname password : String)
    → (ltb (len password) 6 || ltb 64 (len password)) ≡ true
    → Reason store nickname password 400 "invalid_password"
bad_password store nickname password h = elim (Bool-cases (ltb (len password) 6)) [
  | inl short ↦ short_password (ground (arith, short))
  | inr long_enough ↦ long_password (ground (arith, long_enough, h))
]

-- A refusal of the store is passed on with one status and code.
bad_name :
    (store : UserStore) (nickname password : String) {r : Registration}
    → NameRefused store nickname r
    → Reason store nickname password 409 "nickname_taken"
bad_name store nickname password (too_short h) = short_name h
bad_name store nickname password (too_long h) = long_name h
bad_name store nickname password (in_use u h) = name_taken u h

pub refused_reply :
    {store : UserStore} {nickname : String} {r : Registration}
    → NameRefused store nickname r
    → (r ≡ bad_nickname) ⊎ (r ≡ nickname_taken)
refused_reply (too_short h) = inl refl
refused_reply (too_long h) = inl refl
refused_reply (in_use u h) = inr refl

-- A registration, by the check of the password and what the store answers.
pub register_account-cases :
    (hash_password : String → String → String) (auth : AuthService) (now : ℕ)
    (salt token nickname password : String)
    → IsUnique auth.store
    → let out = register_account hash_password auth now salt token nickname password in
      let made = register_user auth.store nickname password (hash_password password salt) salt in
      let user =
        new_user auth.store.next_id (trim nickname) password (hash_password password salt) salt in
      IsTurnedAway auth nickname password out
      ⊎ ((made.1 ≡ registered)
          × (out ≡ let_in (record auth { store = made.0 }) now token user)
          × (6 ≤ len password)
          × (len password ≤ 64))
unfolding register_account
register_account-cases hash_password auth now salt token nickname password v =
    let hash = hash_password password salt in
    let made = register_user auth.store nickname password hash salt in
    elim (Bool-cases (ltb (len password) 6 || ltb 64 (len password))) [
      | inl bad ↦ inl (
          rw (register_account, bad)
            record {
              status = 400;
              code = "invalid_password";
              why = bad_password auth.store nickname password bad;
              told = refl;
              kept = refl;
            })
      | inr good ↦ elim (register_user_total auth.store nickname password hash salt v).1 [
        | inl (not_added, same) ↦ inl (turned_away good not_added (refused_reply not_added) same)
        | inr (added, short, long, free, by_name, by_id, others) ↦ inr (
          added,
          rw (register_account, good, added, by_name) refl,
          ground (arith, good),
          ground (arith, good),
        )
      ]
    ]
  where
    turned_away :
        let made = register_user auth.store nickname password (hash_password password salt) salt in
        (ltb (len password) 6 || ltb 64 (len password)) ≡ false
        → NameRefused auth.store nickname made.1
        → (made.1 ≡ bad_nickname) ⊎ (made.1 ≡ nickname_taken)
        → made.0 ≡ auth.store
        → IsTurnedAway auth nickname password
            (register_account hash_password auth now salt token nickname password)
    turned_away good barred reply same = record {
      status = 409;
      code = "nickname_taken";
      why = bad_name auth.store nickname password barred;
      told = elim reply [
        | inl name ↦ rw (register_account, good, name) refl
        | inr name ↦ rw (register_account, good, name) refl
      ];
      kept = elim reply [
        | inl name ↦ rw (register_account, good, name, same) refl
        | inr name ↦ rw (register_account, good, name, same) refl
      ];
    }

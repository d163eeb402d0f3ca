-- ===== src/UserStore/Outcome.antt =====
-- What `registerUser` and `login` may answer, and what they leave behind.
use cpp_ai_service.Base.{
  ℕ, ◌≡◌, refl, sym, ap, true, not, ◌&&◌, [], some, none, Option, arith, Bytes, List, ◌∙◌, is_empty,
  Bool-cases, Option-cases, inl, inr, leb, length, same_bytes,
}
use cpp_ai_service.Base.Dictionary.{bytes_key, insert, lookup}
use cpp_ai_service.UserStore.State.{UserStore, AuthResult, Disk}
use cpp_ai_service.UserStore.Password.{validate_username, validate_password}
use cpp_ai_service.UserStore.File.{append_user}
use cpp_ai_service.UserStore.Accounts.{
  is_registration_limited, recent, attempts_of, register_user, admit_user, finish_store, store_user,
  new_user, refused, profile, no_session,
}

-- Either nothing but the file and the noted attempts changes, and there is an error; or the name and
-- the password are good, the name was free, and the account is added.
pub data Registered (store : UserStore) (username password : Bytes) (entropy : List ℕ)
    : UserStore × AuthResult → Type 0 where
  denied :
      {after : UserStore} (error : Bytes)
      → after.users ≡ store.users
      → after.sessions ≡ store.sessions
      → Registered store username password entropy (after, refused error)
  stored :
      {after : UserStore} {result : AuthResult}
      → validate_username username ≡ none
      → validate_password password ≡ none
      → lookup username store.users ≡ none
      → after.users ≡ insert username (new_user username password entropy) store.users
      → after.sessions ≡ store.sessions
      → result ≡ record {
        ok = true;
        error = [];
        user = profile (new_user username password entropy);
        session = no_session;
      }
      → Registered store username password entropy (after, result)

module _ (disk : Disk) (before : UserStore) (username password : Bytes) (entropy : List ℕ)
    (good_name : validate_username username ≡ none)
    (good_password : validate_password password ≡ none) where
  abbrev Ends : UserStore × AuthResult → Type 0
  Ends = Registered before username password entropy

  finish_store-Registered :
      (store : UserStore) (written : Option Bytes × Option Bytes)
      → store.users ≡ before.users
      → store.sessions ≡ before.sessions
      → lookup username before.users ≡ none
      → Ends (finish_store store (new_user username password entropy) written)
  unfolding finish_store new_user
  finish_store-Registered store (file, some text) users sessions free = denied text users sessions
  finish_store-Registered store (file, none) users sessions free =
      stored good_name good_password free
        (ap (insert username (new_user username password entropy)) users) sessions refl

  admit_user-Registered :
      (store : UserStore) (invite : Bytes)
      → store.users ≡ before.users
      → store.sessions ≡ before.sessions
      → Ends (admit_user disk store username password invite entropy)
  unfolding admit_user store_user
  admit_user-Registered store invite users sessions =
      elim (Bool-cases
        (not (is_empty store.invite_code) && not (same_bytes invite store.invite_code))) [
          | inl e ↦ rw (e, admit_user) (denied _ users sessions)
          | inr e ↦ elim (Option-cases (lookup username store.users)) [
            | inr (user, e') ↦ rw (e, e', admit_user) (denied _ users sessions)
            | inl e' ↦
                rw (e, e', admit_user)
                  (finish_store-Registered store
                    (append_user disk store.path store.file (new_user username password entropy))
                    users sessions (ap (lookup username) (sym users) ∙ e'))
          ]
        ]

limited_keeps :
    (store : UserStore) (client : Bytes) (now : ℕ)
    → ((is_registration_limited store client now).0.users ≡ store.users)
      × ((is_registration_limited store client now).0.sessions ≡ store.sessions)
unfolding is_registration_limited
limited_keeps store client now =
    elim (Bool-cases (
      leb store.registration_limit_per_minute
        (length (recent now (attempts_of (lookup client store.registration_attempts)))))) [
          | inl e ↦ (ground arith, ground arith)
          | inr e ↦ (ground arith, ground arith)
        ]

-- A registration either is refused with an error and changes neither the users nor the sessions, or
-- had a valid name, which was free, and a valid password, adds exactly the new user, and answers
-- with its profile.
pub register_user-Registered :
    (disk : Disk) (store : UserStore) (username password invite client : Bytes) (now : ℕ)
    (entropy : List ℕ)
    → Registered store username password entropy
        (register_user disk store username password invite client now entropy)
unfolding register_user
register_user-Registered disk store username password invite client now entropy =
    elim (Option-cases (validate_username username)) [
      | inr (e, bad) ↦ rw (bad, register_user) (denied e refl refl)
      | inl valid ↦ elim (Option-cases (validate_password password)) [
        | inr (e, bad) ↦ rw (valid, bad, register_user) (denied e refl refl)
        | inl fine ↦
            let (users, sessions) = limited_keeps store client now in
            elim (Bool-cases (is_registration_limited store client now).1) [
              | inl limited ↦ rw (valid, fine, limited, register_user) (denied _ users sessions)
              | inr admitted ↦
                  rw (valid, fine, admitted, register_user)
                    (admit_user-Registered disk store username password entropy valid fine
                      (is_registration_limited store client now).0 invite users sessions)
            ]
      ]
    ]

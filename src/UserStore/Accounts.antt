-- ===== src/UserStore/Accounts.antt =====
-- src/UserStore.cc: the constructor, `registerUser`, `login`, `isRegistrationLimitedLocked`,
-- `createSessionLocked`. A method returns the new store beside its result. The numbers that the
-- random device gives and the times that the clocks show are arguments.
use cpp_ai_service.Base.{
  ℕ, ◌+◌, ◌*◌, Bool, true, false, not, ◌&&◌, [], ◌∷◌, ◌++◌, List, Option, none, some, Bytes, codes,
  leb, if◌then◌else◌, is_empty, same_bytes, length,
}
use cpp_ai_service.Base.Dictionary.{bytes_key, lookup, insert}
use cpp_ai_service.UserStore.State.{
  UserStore, UserProfile, SessionInfo, StoredUser, AuthResult, Disk,
}
use cpp_ai_service.UserStore.Password.{
  validate_username, validate_password, demo_hash_password, random_hex,
}
use cpp_ai_service.UserStore.File.{append_user}

abbrev pub no_profile : UserProfile
no_profile = record { username = []; role = [] }

abbrev pub no_session : SessionInfo
no_session = record { token = []; user = no_profile; expires_at = 0 }

-- `AuthResult result; result.ok = false; result.error = error;`
abbrev pub refused : Bytes → AuthResult
refused error = record { ok = false; error = error; user = no_profile; session = no_session }

abbrev pub profile : StoredUser → UserProfile
profile user = record { username = user.username; role = user.role }

-- Both clocks count nanoseconds.
abbrev pub second : ℕ
second = 1_000_000_000

-- `std::chrono::minutes(1)`.
abbrev pub window : ℕ
window = 60 * second

-- The attempts of the last minute; `attempt >= now - window` with no subtraction.
unfoldable pub recent : ℕ → List ℕ → List ℕ
recent now [] = []
recent now (attempt ∷ attempts) =
    let rest = recent now attempts in if leb now (attempt + window) then attempt ∷ rest else rest

abbrev pub attempts_of : Option (List ℕ) → List ℕ
attempts_of none = []
attempts_of (some attempts) = attempts

-- Whether the client is refused; if not, the attempt is noted.
unfoldable pub is_registration_limited : UserStore → Bytes → ℕ → UserStore × Bool
is_registration_limited store client now =
    let kept = recent now (attempts_of (lookup client store.registration_attempts)) in
    if leb store.registration_limit_per_minute (length kept)
    then (
      record store { registration_attempts = insert client kept store.registration_attempts },
      true,
    )
    else (
      record store {
        registration_attempts = insert client (kept ++ now ∷ []) store.registration_attempts;
      },
      false,
    )

abbrev pub exists_already : Option StoredUser → Bool
exists_already none = false
exists_already (some user) = true

-- The account that `registerUser` makes.
unfoldable pub new_user : Bytes → Bytes → List ℕ → StoredUser
new_user username password entropy =
    let salt = random_hex entropy in
    record {
      username = username;
      role = codes "user";
      salt = salt;
      password_hash = demo_hash_password salt password;
    }

-- `registerUser` behind the write: the account is stored if its line was written.
unfoldable pub finish_store :
    UserStore → StoredUser → Option Bytes × Option Bytes → UserStore × AuthResult
finish_store store user (file, some text) = (record store { file = file }, refused text)
finish_store store user (file, none) = (
  record store { users = insert user.username user store.users; file = file },
  record { ok = true; error = []; user = profile user; session = no_session },
)

unfoldable pub store_user : Disk → UserStore → StoredUser → UserStore × AuthResult
store_user disk store user = finish_store store user (append_user disk store.path store.file user)

-- `registerUser` behind the rate limit.
unfoldable pub admit_user :
    Disk → UserStore → Bytes → Bytes → Bytes → List ℕ → UserStore × AuthResult
admit_user disk store username password invite entropy =
    if not (is_empty store.invite_code) && not (same_bytes invite store.invite_code)
    then (store, refused (codes "invalid invite code"))
    else if exists_already (lookup username store.users)
    then (store, refused (codes "username already exists"))
    else store_user disk store (new_user username password entropy)

unfoldable pub register_user :
    Disk → UserStore → Bytes → Bytes → Bytes → Bytes → ℕ → List ℕ → UserStore × AuthResult
register_user disk store username password invite client now entropy =
    elim (validate_username username) [
      | some error ↦ (store, refused error)
      | none ↦ elim (validate_password password) [
        | some error ↦ (store, refused error)
        | none ↦
            let (noted, limited) = is_registration_limited store client now in
            if limited
            then (noted, refused (codes "too many registration attempts"))
            else admit_user disk noted username password invite entropy
      ]
    ]

unfoldable pub create_session : UserStore → StoredUser → ℕ → List ℕ → UserStore × SessionInfo
create_session store user now entropy =
    let session : SessionInfo = record {
      token = random_hex entropy;
      user = profile user;
      expires_at = now + store.session_ttl_seconds * second;
    } in
    (record store { sessions = insert session.token session store.sessions }, session)

unfoldable pub login : UserStore → Bytes → Bytes → ℕ → List ℕ → UserStore × AuthResult
login store username password now entropy = elim (lookup username store.users) [
  | none ↦ (store, refused (codes "invalid username or password"))
  | some found ↦
      if not (same_bytes (demo_hash_password found.salt password) found.password_hash)
      then (store, refused (codes "invalid username or password"))
      else let (after, session) = create_session store found now entropy in
        (after, record { ok = true; error = []; user = profile found; session = session })
]

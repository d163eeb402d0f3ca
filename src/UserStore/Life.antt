-- ===== src/UserStore/Life.antt =====
-- An account from its registration to the end of a session.
use cpp_ai_service.Base.{
  ℕ, ◌+◌, ◌*◌, ◌≤◌, ◌<◌, ◌≡◌, refl, ap, true, false, [], ◌∷◌, ◌++◌, some, none, arith, Bytes, List,
  ◌∙◌, if◌then◌else◌, codes, is_empty, Bool-cases, inl, inr, leb, length, same_bytes,
  same_bytes_refl, All, drop-append_length,
}
use cpp_ai_service.Base.Finding.{starts_with_self}
use cpp_ai_service.Base.Dictionary.{bytes_key, insert, lookup, erase, lookup-insert, lookup-erase}
use cpp_ai_service.HttpCodec.Strings.{trim, skip_spaces, drop_end_spaces}
use cpp_ai_service.UserStore.State.{UserStore, StoredUser, AuthResult, Disk, SessionInfo}
use cpp_ai_service.UserStore.Password.{demo_hash_password, random_hex}
use cpp_ai_service.UserStore.Hex.{IsHexByte, random_hex-IsHexByte, length-random_hex}
use cpp_ai_service.UserStore.Accounts.{
  register_user, new_user, refused, profile, login, create_session, second,
}
use cpp_ai_service.UserStore.Sessions.{bearer, bearer_token, authenticate}
use cpp_ai_service.UserStore.Outcome.{Registered, denied, stored, register_user-Registered}

skip_hex : (s : Bytes) → All IsHexByte s → skip_spaces s ≡ s
unfolding skip_spaces
skip_hex [] h = refl
skip_hex (c ∷ s) h = ground arith

drop_end_hex : (s : Bytes) → All IsHexByte s → drop_end_spaces s ≡ s
unfolding drop_end_spaces
drop_end_hex [] h = refl
drop_end_hex (c ∷ s) h = ground (arith, drop_end_hex s h.1)

trim_hex : (s : Bytes) → All IsHexByte s → trim s ≡ s
unfolding trim
trim_hex s h = ap drop_end_spaces (skip_hex s h) ∙ drop_end_hex s h

-- The session that a login with these random numbers and at this time opens.
abbrev pub session_for : UserStore → StoredUser → ℕ → List ℕ → SessionInfo
session_for store user now entropy = record {
  token = random_hex entropy;
  user = profile user;
  expires_at = now + store.session_ttl_seconds * second;
}

abbrev pub opened : SessionInfo → AuthResult
opened session = record { ok = true; error = []; user = session.user; session = session }

abbrev pub with_session : UserStore → SessionInfo → UserStore
with_session store session = record store { sessions = insert session.token session store.sessions }

-- A login under a name that is there opens a session where the stored salt and the password make
-- the stored hash. Otherwise it is refused and nothing changes.
pub login_of_user :
    (store : UserStore) (username password : Bytes) (now : ℕ) (entropy : List ℕ) {user : StoredUser}
    → lookup username store.users ≡ some user
    → login store username password now entropy ≡ (
        if same_bytes (demo_hash_password user.salt password) user.password_hash
        then (
          with_session store (session_for store user now entropy),
          opened (session_for store user now entropy),
        )
        else (store, refused (codes "invalid username or password")))
unfolding login create_session
login_of_user store username password now entropy {user} found =
    elim (Bool-cases (same_bytes (demo_hash_password user.salt password) user.password_hash)) [
      | inl e ↦ rw (found, e, login, create_session) refl
      | inr e ↦ rw (found, e, login) refl
    ]

module _ (disk : Disk) (store : UserStore) (username password invite client : Bytes) (now : ℕ)
    (entropy : List ℕ) where
  abbrev registration : UserStore × AuthResult
  registration = register_user disk store username password invite client now entropy

  login_of_Registered :
      (end : UserStore × AuthResult) (later : ℕ) (fresh : List ℕ)
      → Registered store username password entropy end
      → end.1.ok ≡ true
      → login end.0 username password later fresh ≡ (
        with_session end.0 (session_for end.0 (new_user username password entropy) later fresh),
        opened (session_for end.0 (new_user username password entropy) later fresh),
      )
  login_of_Registered end later fresh (denied error users sessions) ok = cc
  login_of_Registered end later fresh
        (stored {after} good_name good_password free users sessions result) ok =
      login_of_user after username password later fresh {user = new_user username password entropy}
        (ap (lookup username) users
          ∙ lookup-insert username username (new_user username password entropy) store.users
          ∙ (rw (same_bytes_refl username) refl))
      ∙ (unfold new_user in
          rw (same_bytes_refl (demo_hash_password (random_hex entropy) password)) refl)

  -- After a registration that succeeded, a login with the same name and password, at any time and
  -- with any random numbers, opens a session for the new user.
  pub login-register_user :
      (later : ℕ) (fresh : List ℕ)
      → registration.1.ok ≡ true
      → login registration.0 username password later fresh ≡ (
        with_session registration.0
            (session_for registration.0 (new_user username password entropy) later fresh),
        opened (session_for registration.0 (new_user username password entropy) later fresh),
      )
  login-register_user later fresh ok =
      login_of_Registered registration later fresh
        (register_user-Registered disk store username password invite client now entropy) ok

hex_token : (entropy : List ℕ) → 0 < length entropy → is_empty (random_hex entropy) ≡ false
hex_token entropy h = filled (random_hex entropy) (omega (arith, length-random_hex entropy))
  where
    filled : (s : Bytes) → 0 < length s → is_empty s ≡ false
    filled [] h = absurd (omega arith)
    filled (c ∷ s) h = refl

bearer_token-append :
    (entropy : List ℕ)
    → 0 < length entropy
    → bearer_token (bearer ++ random_hex entropy) ≡ some (random_hex entropy)
unfolding bearer_token
bearer_token-append entropy h =
    rw
      (
        drop-append_length bearer (random_hex entropy),
        trim_hex (random_hex entropy) (random_hex-IsHexByte entropy),
        starts_with_self bearer (random_hex entropy),
        hex_token entropy h,
      )
      refl

authenticate_of_token :
    (store : UserStore) (header token : Bytes) (now : ℕ) (session : SessionInfo)
    → bearer_token header ≡ some token
    → lookup token store.sessions ≡ some session
    → authenticate store header now ≡ (
        if leb session.expires_at now
        then (
          record store { sessions = erase token store.sessions },
          refused (codes "session token expired"),
        )
        else (store, opened session))
unfolding authenticate
authenticate_of_token store header token now session read found =
    rw (read, authenticate) (rw found refl)

authenticate_unknown :
    (store : UserStore) (header token : Bytes) (now : ℕ)
    → bearer_token header ≡ some token
    → lookup token store.sessions ≡ none
    → authenticate store header now ≡ (store, refused (codes "invalid session token"))
unfolding authenticate
authenticate_unknown store header token now read absent = rw (read, authenticate) (rw absent refl)

-- The store just after a login, and the header that the client sends.
module _ (store : UserStore) (user : StoredUser) (now : ℕ) (entropy : List ℕ)
    (random : 0 < length entropy) where
  abbrev session : SessionInfo
  session = session_for store user now entropy

  abbrev pub header : Bytes
  header = bearer ++ random_hex entropy

  abbrev pub holding : UserStore
  holding = with_session store session

  abbrev pub without : UserStore
  without = record store { sessions = erase session.token holding.sessions }

  holds : lookup session.token holding.sessions ≡ some session
  holds =
      lookup-insert session.token session.token session store.sessions
      ∙ (rw (same_bytes_refl session.token) refl)

  -- The session of a login, with a token that is not empty, is accepted up to its time, and the
  -- store does not change.
  pub authenticate_live :
      (t : ℕ) → t < session.expires_at → authenticate holding header t ≡ (holding, opened session)
  authenticate_live t h =
      authenticate_of_token holding header session.token t session
        (bearer_token-append entropy random) holds
      ∙ (let e : leb session.expires_at t ≡ false = ground arith in rw e refl)

  -- From its time on, the session of a login with a token that is not empty is refused as expired,
  -- and after that refusal, at any time, as unknown.
  pub authenticate_expired :
      (t later : ℕ)
      → session.expires_at ≤ t
      → (authenticate holding header t ≡ (without, refused (codes "session token expired")))
        × (authenticate without header later ≡ (without, refused (codes "invalid session token")))
  authenticate_expired t later h = (
    authenticate_of_token holding header session.token t session
          (bearer_token-append entropy random) holds
        ∙ (let e : leb session.expires_at t ≡ true = ground arith in rw e refl),
    authenticate_unknown without header session.token later (bearer_token-append entropy random) (
        lookup-erase session.token session.token holding.sessions
        ∙ (rw (same_bytes_refl session.token) refl)),
  )

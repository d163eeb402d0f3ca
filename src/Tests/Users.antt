-- ===== src/Tests/Users.antt =====
-- The user store of src/UserStore.cc at concrete inputs.
use cpp_ai_service.Base.{
  ℕ, ◌≤◌, ◌<◌, ◌≡◌, refl, true, none, some, [], ◌∷◌, arith, List, codes, length, same_bytes,
  ne_of_same_bytes, before_bytes,
}
use cpp_ai_service.Base.Dictionary.{bytes_key, lookup, insert}
use cpp_ai_service.UserStore.State.{UserStore, StoredUser, AuthResult, Disk}
use cpp_ai_service.UserStore.Password.{
  demo_hash_password, validate_username, validate_password, all_name_bytes,
}
use cpp_ai_service.UserStore.File.{
  append_user, before_last_slash, load, ensure_parent_directory, user_line, read_user,
}
use cpp_ai_service.UserStore.Accounts.{
  is_registration_limited, admit_user, finish_store, store_user, recent, register_user, login,
  new_user, refused,
}
use cpp_ai_service.UserStore.Sessions.{authenticate}
use cpp_ai_service.UserStore.UserLine.{IsSafe, read_user-user_line, read_user_named_salt}
use cpp_ai_service.UserStore.Restore.{file_text}
use cpp_ai_service.UserStore.Restart.{IsSynced, restart, register_user-IsSynced, load-restart}
use cpp_ai_service.UserStore.RateLimit.{inside, admitted, admitted_limit}
use cpp_ai_service.UserStore.Outcome.{Registered, register_user-Registered}
use cpp_ai_service.UserStore.Life.{
  session_for, opened, with_session, login-register_user, header, holding, without,
  authenticate_live, authenticate_expired,
}

abbrev pub disk : Disk
disk = record {
  mkdir_works = λ path. true;
  is_directory = λ path. true;
  reads = true;
  opens = true;
  short_write = none;
}

abbrev empty_store : UserStore
empty_store = record {
  path = codes "users.jsonl";
  invite_code = [];
  session_ttl_seconds = 60;
  registration_limit_per_minute = 2;
  users = [];
  sessions = [];
  registration_attempts = [];
  file = none;
}

abbrev bob : StoredUser
bob = record {
  username = codes "bob";
  role = codes "user";
  salt = codes "00ff";
  password_hash = demo_hash_password (codes "00ff") (codes "secret99");
}

abbrev plain_bob : StoredUser
plain_bob = record {
  username = codes "bob";
  role = codes "user";
  salt = codes "00ff";
  password_hash = codes "0123456789abcdef";
}

abbrev salty : StoredUser
salty = record {
  username = codes "salt";
  role = codes "user";
  salt = codes "00ff";
  password_hash = codes "0123456789abcdef";
}

empty-IsSynced : IsSynced empty_store
empty-IsSynced = record { registered = []; safe = tt; file_lines = refl; users_inserted = refl }

registers :
    (register_user disk empty_store
      (codes "bob")
      (codes "secret99")
      []
      (codes "client")
      100
      (7 ∷ [])).1.ok
    ≡ true
unfolding register_user validate_username validate_password all_name_bytes is_registration_limited
    admit_user finish_store store_user append_user lookup insert same_bytes before_bytes recent
    ensure_parent_directory before_last_slash new_user
registers = refl

register_user-IsSynced_example :
    IsSynced
      (register_user disk empty_store
        (codes "bob")
        (codes "secret99")
        []
        (codes "client")
        100
        (7 ∷ [])).0
register_user-IsSynced_example =
    register_user-IsSynced disk empty_store (codes "bob") (codes "secret99") [] (codes "client") 100
      (7 ∷ []) refl (ne_of_same_bytes _ _ (unfold same_bytes in refl))
      (ne_of_same_bytes _ _ (unfold same_bytes in refl)) empty-IsSynced

plain_bob-IsSafe : IsSafe plain_bob
plain_bob-IsSafe = record {
  plain = record {
    plain_username = omega arith;
    plain_role = omega arith;
    plain_salt = omega arith;
    plain_hash = omega arith;
  };
  name_ne_salt = ne_of_same_bytes _ _ (unfold same_bytes in refl);
  name_ne_hash = ne_of_same_bytes _ _ (unfold same_bytes in refl);
  role_ne_salt = ne_of_same_bytes _ _ (unfold same_bytes in refl);
  role_ne_hash = ne_of_same_bytes _ _ (unfold same_bytes in refl);
  salt_ne_hash = ne_of_same_bytes _ _ (unfold same_bytes in refl);
}

read_user-user_line_example : read_user (user_line plain_bob) ≡ some plain_bob
read_user-user_line_example = read_user-user_line plain_bob plain_bob-IsSafe

abbrev plain_store : UserStore
plain_store = record empty_store {
  users = (codes "bob", plain_bob) ∷ [];
  file = some (file_text (plain_bob ∷ []));
}

plain-IsSynced : IsSynced plain_store
plain-IsSynced = record {
  registered = plain_bob ∷ [];
  safe = (plain_bob-IsSafe, tt);
  file_lines = refl;
  users_inserted = unfold insert in refl;
}

load-restart_example :
    load disk (restart plain_store)
    ≡ (record (restart plain_store) { users = (codes "bob", plain_bob) ∷ [] }, none)
load-restart_example =
    load-restart disk plain_store (unfold ensure_parent_directory in refl) plain-IsSynced

read_user_named_salt_example :
    read_user (user_line salty) ≡ some (record salty { salt = codes "user" })
read_user_named_salt_example =
    read_user_named_salt salty
      (record {
        plain_username = omega arith;
        plain_role = omega arith;
        plain_salt = omega arith;
        plain_hash = omega arith;
      })
      refl (ne_of_same_bytes _ _ (unfold same_bytes in refl))
      (ne_of_same_bytes _ _ (unfold same_bytes in refl))

abbrev tries : List ℕ
tries = 0 ∷ 1 ∷ 2 ∷ []

no_attempts : lookup (codes "client") empty_store.registration_attempts ≡ none
unfolding lookup
no_attempts = refl

admitted_limit_example : length (inside 0 (admitted empty_store (codes "client") tries)) ≤ 2
admitted_limit_example =
    admitted_limit empty_store (codes "client") tries 0 no_attempts (omega arith)

abbrev pub bob_store : UserStore
bob_store = record empty_store { users = (codes "bob", bob) ∷ [] }

bob_found : lookup (codes "bob") bob_store.users ≡ some bob
unfolding lookup same_bytes
bob_found = refl

abbrev registered : UserStore × AuthResult
registered =
    register_user disk empty_store (codes "bob") (codes "secret99") [] (codes "client") 100 (7 ∷ [])

login-register_user_example : login registered.0 (codes "bob") (codes "secret99") 200 (9 ∷ []) ≡ (
  with_session registered.0
      (session_for registered.0 (new_user (codes "bob") (codes "secret99") (7 ∷ [])) 200 (9 ∷ [])),
  opened
      (session_for registered.0 (new_user (codes "bob") (codes "secret99") (7 ∷ [])) 200 (9 ∷ [])),
)
login-register_user_example =
    login-register_user disk empty_store (codes "bob") (codes "secret99") [] (codes "client") 100
      (7 ∷ []) 200 (9 ∷ []) registers

abbrev numbers : List ℕ
numbers = 1 ∷ []

one_number : 0 < length numbers
one_number = omega arith

authenticate_live_example :
    authenticate
      (holding empty_store bob 5 (1 ∷ []) one_number)
      (header empty_store bob 5 (1 ∷ []) one_number)
      10
    ≡ (
      holding empty_store bob 5 (1 ∷ []) one_number,
      opened (session_for empty_store bob 5 (1 ∷ [])),
    )
authenticate_live_example = authenticate_live empty_store bob 5 (1 ∷ []) one_number 10 (omega arith)

authenticate_expired_example :
    (authenticate
        (holding empty_store bob 5 (1 ∷ []) one_number)
        (header empty_store bob 5 (1 ∷ []) one_number)
        60000000005
      ≡ (without empty_store bob 5 (1 ∷ []) one_number, refused (codes "session token expired")))
    × (authenticate
          (without empty_store bob 5 (1 ∷ []) one_number)
          (header empty_store bob 5 (1 ∷ []) one_number)
          7
        ≡ (without empty_store bob 5 (1 ∷ []) one_number, refused (codes "invalid session token")))
authenticate_expired_example =
    authenticate_expired empty_store bob 5 (1 ∷ []) one_number 60000000005 7 (omega arith)

register_user-Registered_example :
    Registered empty_store (codes "bob") (codes "secret99") (7 ∷ []) registered
register_user-Registered_example =
    register_user-Registered disk empty_store (codes "bob") (codes "secret99") [] (codes "client")
      100 (7 ∷ [])

abbrev hashed : StoredUser
hashed = record {
  username = codes "password_hash";
  role = codes "user";
  salt = codes "00ff";
  password_hash = codes "0123456789abcdef";
}

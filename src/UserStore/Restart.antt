-- ===== src/UserStore/Restart.antt =====
-- The user file and the users in memory agree, whatever is registered.
use cpp_ai_service.Base.{
  ℕ, Bool, ◌≡◌, ◌≢◌, refl, sym, ap, subst, true, false, if◌then◌else◌, [], ◌∷◌, ◌++◌, some, none,
  arith, Bytes, List, All, All-append, codes, ◌∙◌, Option, same_bytes, ne_of_same_bytes, Bool-cases,
  Option-cases, inl, inr, ◌⊎◌, leb, length,
}
use cpp_ai_service.Base.Dictionary.{bytes_key, insert, lookup}
use cpp_ai_service.UserStore.State.{UserStore, StoredUser, Disk}
use cpp_ai_service.UserStore.Password.{
  validate_username, validate_password, random_hex, demo_hash_password,
}
use cpp_ai_service.UserStore.Hex.{
  IsHexByte-Plain, IsNameByte-Plain, random_hex-IsHexByte, demo_hash_password-IsHexByte,
  validate_username_sound, IsHexByte,
}
use cpp_ai_service.UserStore.File.{
  user_line, append_user, text_lines, load_lines, load, contents, ensure_parent_directory,
}
use cpp_ai_service.UserStore.UserLine.{IsSafe}
use cpp_ai_service.UserStore.Restore.{
  file_text, insert_all, file_text_snoc, insert_all_snoc, load_lines-file_text,
}
use cpp_ai_service.UserStore.Accounts.{
  register_user, admit_user, store_user, finish_store, new_user, is_registration_limited, recent,
  attempts_of,
}

-- The file holds a line for each registered user, and the users in memory are those.
pub record IsSynced (store : UserStore) : Type 0 where
  pub registered : List StoredUser
  pub safe : All IsSafe registered
  pub file_lines : contents store.file ≡ file_text registered
  pub users_inserted : store.users ≡ insert_all registered []

not_hex : (s : Bytes) → All IsHexByte s → s ≢ codes "password_hash"
not_hex s h e =
    let bad : All IsHexByte (codes "password_hash") = subst (All IsHexByte) e h in
    omega (arith, bad.0)

-- What `registerUser` stores is safe, but for two names.
new_user-IsSafe :
    (username password : Bytes) (entropy : List ℕ)
    → validate_username username ≡ none
    → username ≢ codes "salt"
    → username ≢ codes "password_hash"
    → IsSafe (new_user username password entropy)
unfolding new_user
new_user-IsSafe username password entropy valid ns nh = record {
  plain = record {
    plain_username = IsNameByte-Plain username (validate_username_sound username valid).2;
    plain_role = omega arith;
    plain_salt = IsHexByte-Plain (random_hex entropy) (random_hex-IsHexByte entropy);
    plain_hash =
        IsHexByte-Plain (demo_hash_password (random_hex entropy) password)
          (demo_hash_password-IsHexByte (random_hex entropy) password);
  };
  name_ne_salt = ns;
  name_ne_hash = nh;
  role_ne_salt = ne_of_same_bytes (codes "user") (codes "salt") (unfold same_bytes in refl);
  role_ne_hash =
      ne_of_same_bytes (codes "user") (codes "password_hash") (unfold same_bytes in refl);
  salt_ne_hash = not_hex (random_hex entropy) (random_hex-IsHexByte entropy);
}

-- Where no write is cut short, the line is written whole or the file stays as it is.
append_user_cases :
    (disk : Disk) (path : Bytes) (file : Option Bytes) (user : StoredUser)
    → disk.short_write ≡ none
    → (append_user disk path file user
        ≡ (some (contents file ++ (user_line user ++ 10 ∷ [])), none))
      ⊎ ((e : Bytes) × (append_user disk path file user ≡ (file, some e)))
unfolding append_user
append_user_cases disk path file user whole =
    elim (Bool-cases (ensure_parent_directory disk path)) [
      | inr e ↦ inr (codes "failed to create user data directory", ground arith)
      | inl e ↦ elim (Bool-cases disk.opens) [
        | inr e' ↦ inr (codes "failed to open user data file", ground arith)
        | inl e' ↦ inl (ground arith)
      ]
    ]

store_user-IsSynced :
    (disk : Disk) (store : UserStore) (user : StoredUser)
    → disk.short_write ≡ none
    → IsSafe user
    → IsSynced store
    → IsSynced (store_user disk store user).0
unfolding store_user
store_user-IsSynced disk store user whole safe s =
    elim (append_user_cases disk store.path store.file user whole) [
      | inr (text, e) ↦ rw e (
          unfold finish_store in
          record {
            registered = s.registered;
            safe = s.safe;
            file_lines = s.file_lines;
            users_inserted = s.users_inserted;
          })
      | inl e ↦ rw e (
          unfold finish_store in
          record {
            registered = s.registered ++ user ∷ [];
            safe = All-append IsSafe s.registered (user ∷ []) s.safe (safe, tt);
            file_lines =
                ap (λ (text : Bytes). text ++ (user_line user ++ 10 ∷ [])) s.file_lines
                ∙ sym (file_text_snoc s.registered user);
            users_inserted =
                ap (insert user.username user) s.users_inserted
                ∙ sym (insert_all_snoc s.registered user []);
          })
    ]

admit_user-IsSynced :
    (disk : Disk) (store : UserStore) (username password invite : Bytes) (entropy : List ℕ)
    → disk.short_write ≡ none
    → IsSafe (new_user username password entropy)
    → IsSynced store
    → IsSynced (admit_user disk store username password invite entropy).0
unfolding admit_user
admit_user-IsSynced disk store username password invite entropy whole safe s =
    ground (arith, store_user-IsSynced disk store (new_user username password entropy) whole safe s)

limited-IsSynced :
    (store : UserStore) (client : Bytes) (now : ℕ)
    → IsSynced store
    → IsSynced (is_registration_limited store client now).0
unfolding is_registration_limited
limited-IsSynced store client now s =
    elim (Bool-cases (leb store.registration_limit_per_minute (length kept))) [
      | inl e ↦
          rw (e, is_registration_limited)
            (record {
              registered = s.registered;
              safe = s.safe;
              file_lines = s.file_lines;
              users_inserted = s.users_inserted;
            })
      | inr e ↦
          rw (e, is_registration_limited)
            (record {
              registered = s.registered;
              safe = s.safe;
              file_lines = s.file_lines;
              users_inserted = s.users_inserted;
            })
    ]
  where
    kept : List ℕ
    kept = recent now (attempts_of (lookup client store.registration_attempts))

-- Whatever a registration does (refuse the name, the password, the rate, the invitation or the
-- taken name, fail to make the directory or to open the file, or succeed), the file keeps a line
-- for each user in memory, as long as no write is cut short and the name is neither `salt` nor
-- `password_hash`.
pub register_user-IsSynced :
    (disk : Disk) (store : UserStore) (username password invite client : Bytes) (now : ℕ)
    (entropy : List ℕ)
    → disk.short_write ≡ none
    → username ≢ codes "salt"
    → username ≢ codes "password_hash"
    → IsSynced store
    → IsSynced (register_user disk store username password invite client now entropy).0
unfolding register_user
register_user-IsSynced disk store username password invite client now entropy whole ns nh s =
    elim (Option-cases (validate_username username)) [
      | inr (e, bad) ↦ rw (bad, register_user) s
      | inl valid ↦ elim (Option-cases (validate_password password)) [
        | inr (e, bad) ↦ rw (valid, bad, register_user) s
        | inl fine ↦ elim (Bool-cases (is_registration_limited store client now).1) [
          | inl limited ↦
              rw (valid, fine, limited, register_user) (limited-IsSynced store client now s)
          | inr admitted ↦
              rw (valid, fine, admitted, register_user)
                (admit_user-IsSynced disk (is_registration_limited store client now).0 username
                  password invite entropy whole
                  (new_user-IsSafe username password entropy valid ns nh)
                  (limited-IsSynced store client now s))
        ]
      ]
    ]

-- The process starts again: what is only in memory is lost.
abbrev pub restart : UserStore → UserStore
restart store = record store { users = []; sessions = []; registration_attempts = [] }

abbrev reloaded : UserStore → UserStore
reloaded store = record store { sessions = []; registration_attempts = [] }

load_of_file :
    (disk : Disk) (store : UserStore) {text : Bytes} {users : List (Bytes × StoredUser)}
    → ensure_parent_directory disk store.path ≡ true
    → disk.reads ≡ true
    → store.file ≡ some text
    → load_lines (text_lines text) store.users ≡ (users, none)
    → load disk store ≡ (record store { users = users }, none)
unfolding load
load_of_file disk store ready opened present read = ground arith

load_of_unread_file :
    (disk : Disk) (store : UserStore)
    → ensure_parent_directory disk store.path ≡ true
    → disk.reads ≡ false
    → load disk store ≡ (store, none)
unfolding load
load_of_unread_file disk store ready refused = ground arith

load_of_no_file :
    (disk : Disk) (store : UserStore)
    → ensure_parent_directory disk store.path ≡ true
    → store.file ≡ none
    → load disk store ≡ (store, none)
unfolding load
load_of_no_file disk store ready absent = ground arith

no_lines : (users : List StoredUser) → [] ≡ file_text users → insert_all users [] ≡ []
no_lines [] h = refl
no_lines (user ∷ users) h = absurd (filled user (10 ∷ file_text users) (sym h))
  where
    filled : (user : StoredUser) (rest : Bytes) → (user_line user ++ rest) ≢ []
    filled user rest e = unfold user_line in cc

load_readable :
    (disk : Disk) (store : UserStore)
    → ensure_parent_directory disk store.path ≡ true
    → disk.reads ≡ true
    → IsSynced store
    → load disk (restart store) ≡ (record (restart store) { users = store.users }, none)
load_readable disk store ready opened s = elim (Option-cases store.file) [
  | inl absent ↦
      let empty : store.users ≡ [] =
        s.users_inserted ∙ no_lines s.registered (ap contents (sym absent) ∙ s.file_lines) in
      load_of_no_file disk (restart store) ready absent
      ∙ ap (λ (users : List (Bytes × StoredUser)). (record (restart store) { users = users }, none))
          (sym empty)
  | inr (text, present) ↦
      let lines : text ≡ file_text s.registered = ap contents (sym present) ∙ s.file_lines in
      load_of_file disk (restart store) ready opened present (
        ap (λ (t : Bytes). load_lines (text_lines t) []) lines
        ∙ load_lines-file_text s.registered [] s.safe
        ∙ ap (λ (users : List (Bytes × StoredUser)). (users, none)) (sym s.users_inserted))
]

load_either :
    (disk : Disk) (store : UserStore) (opened : Bool)
    → ensure_parent_directory disk store.path ≡ true
    → IsSynced store
    → disk.reads ≡ opened
    → load disk (restart store)
      ≡ (record (restart store) { users = if opened then store.users else [] }, none)
load_either disk store true ready s opens = load_readable disk store ready opens s
load_either disk store false ready s opens = load_of_unread_file disk (restart store) ready opens

-- Where the directory is there and the file has a line for each user in memory, `load` on a store
-- that starts anew with this file ends without an error: with the users that were in memory if the
-- file opens for reading, and with no user at all if it does not.
pub load-restart :
    (disk : Disk) (store : UserStore)
    → ensure_parent_directory disk store.path ≡ true
    → IsSynced store
    → load disk (restart store)
      ≡ (record (restart store) { users = if disk.reads then store.users else [] }, none)
load-restart disk store ready s = load_either disk store disk.reads ready s refl

-- ===== src/UserStore/File.antt =====
-- src/UserStore.cc: `ensureParentDirectory`, `appendUserLocked`, `load`.
use cpp_ai_service.Base.{
  Bool, true, ◌||◌, [], ◌∷◌, ◌++◌, List, Option, none, some, Bytes, codes, ◌==◌, if◌then◌else◌,
  ◌>>=◌, is_empty, take,
}
use cpp_ai_service.Base.Dictionary.{bytes_key, insert}
use cpp_ai_service.HttpCodec.Strings.{json_escape, json_string, trim}
use cpp_ai_service.HttpCodec.Json.{extract_json_string_field}
use cpp_ai_service.UserStore.State.{UserStore, StoredUser, Disk}

-- The text before the last slash, if there is a slash.
unfoldable pub before_last_slash : Bytes → Option Bytes
before_last_slash [] = none
before_last_slash (c ∷ s) = elim (before_last_slash s) [
  | some dir ↦ some (c ∷ dir)
  | none ↦ if c == b'/' then some [] else none
]

unfoldable pub ensure_parent_directory : Disk → Bytes → Bool
unfolding before_last_slash
ensure_parent_directory disk path = elim (before_last_slash path) [
  | none ↦ true
  | some dir ↦ is_empty dir || disk.mkdir_works dir || disk.is_directory dir
]

-- The line of a user, without its line end: a quote in a value is escaped.
unfoldable pub user_line : StoredUser → Bytes
unfolding json_escape
user_line user =
    codes "{\"username\":"
    ++ (json_string user.username
        ++ (codes ",\"role\":"
            ++ (json_string user.role
                ++ (codes ",\"salt\":"
                    ++ (json_string user.salt
                        ++ (codes ",\"password_hash\":"
                            ++ (json_string user.password_hash ++ codes "}")))))))

abbrev pub contents : Option Bytes → Bytes
contents none = []
contents (some text) = text

-- `appendUserLocked`: the file afterwards, and the error if there is one.
unfoldable pub append_user : Disk → Bytes → Option Bytes → StoredUser → Option Bytes × Option Bytes
append_user disk path file user =
    let line = user_line user ++ 10 ∷ [] in
    if ensure_parent_directory disk path
    then if disk.opens
      then elim disk.short_write [
        | none ↦ (some (contents file ++ line), none)
        | some n ↦
            (some (contents file ++ take n line), some (codes "failed to write user data file"))
      ]
      else (file, some (codes "failed to open user data file"))
    else (file, some (codes "failed to create user data directory"))

-- The lines that `getline` reads.
unfoldable pub text_lines : Bytes → List Bytes
text_lines [] = []
text_lines (c ∷ s) =
    let rest = text_lines s in
    if c == 10
    then [] ∷ rest
    else elim rest [ [] ↦ (c ∷ []) ∷ [] | line ∷ lines ↦ (c ∷ line) ∷ lines ]

unfoldable pub read_user : Bytes → Option StoredUser
unfolding extract_json_string_field
read_user line = do
  username ← extract_json_string_field line (codes "username")
  role ← extract_json_string_field line (codes "role")
  salt ← extract_json_string_field line (codes "salt")
  password_hash ← extract_json_string_field line (codes "password_hash")
  some (record { username = username; role = role; salt = salt; password_hash = password_hash })

-- The loop of `load`: the users read so far stay where a line is refused.
unfoldable pub load_lines :
    List Bytes → List (Bytes × StoredUser) → List (Bytes × StoredUser) × Option Bytes
load_lines [] users = (users, none)
load_lines (line ∷ lines) users =
    let skipped = load_lines lines users in
    let read : List (Bytes × StoredUser) × Option Bytes = elim (read_user line) [
      | none ↦ (users, some (codes "failed to parse user data file"))
      | some user ↦ load_lines lines (insert user.username user users)
    ] in
    if is_empty (trim line) then skipped else read

-- A user file that does not open counts as empty.
unfoldable pub load : Disk → UserStore → UserStore × Option Bytes
load disk store =
    if ensure_parent_directory disk store.path
    then elim store.file [
      | none ↦ (store, none)
      | some text ↦
          let (users, error) = load_lines (text_lines text) store.users in
          let read : UserStore × Option Bytes = (record store { users = users }, error) in
          if disk.reads then read else (store, none)
    ]
    else (store, some (codes "failed to create user data directory"))

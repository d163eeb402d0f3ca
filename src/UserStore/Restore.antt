-- ===== src/UserStore/Restore.antt =====
-- `load` against the file that `registerUser` writes.
use cpp_ai_service.Base.{
  ◌≡◌, ◌≢◌, refl, false, [], ◌∷◌, ◌++◌, append_assoc, some, none, arith, Bytes, List, All,
  All-append, codes, ◌∙◌, is_empty,
}
use cpp_ai_service.Base.Dictionary.{bytes_key, insert}
use cpp_ai_service.HttpCodec.Strings.{quote, json_escape, json_string, trim}
use cpp_ai_service.HttpCodec.Escape.{NoControl, json_escape-NoControl}
use cpp_ai_service.UserStore.State.{StoredUser}
use cpp_ai_service.UserStore.File.{user_line, read_user, text_lines, load_lines}
use cpp_ai_service.UserStore.UserLine.{IsSafe, read_user-user_line}

-- The file after the registrations of these users, and the users then.
abbrev pub file_text : List StoredUser → Bytes
file_text [] = []
file_text (user ∷ users) = user_line user ++ 10 ∷ file_text users

abbrev pub insert_all : List StoredUser → List (Bytes × StoredUser) → List (Bytes × StoredUser)
insert_all [] m = m
insert_all (user ∷ users) m = insert_all users (insert user.username user m)

pub file_text_snoc :
    (users : List StoredUser) (user : StoredUser)
    → file_text (users ++ user ∷ []) ≡ file_text users ++ (user_line user ++ 10 ∷ [])
file_text_snoc [] user = refl
file_text_snoc (first ∷ users) user = simp (file_text_snoc users user, append_assoc)

pub insert_all_snoc :
    (users : List StoredUser) (user : StoredUser) (m : List (Bytes × StoredUser))
    → insert_all (users ++ user ∷ []) m ≡ insert user.username user (insert_all users m)
insert_all_snoc [] user m = refl
insert_all_snoc (first ∷ users) user m = insert_all_snoc users user (insert first.username first m)

record IsOneLine (s : Bytes) : Type 0 where
  free : All (λ c. c ≢ 10) s

IsOneLine-append : {s t : Bytes} → IsOneLine s → IsOneLine t → IsOneLine (s ++ t)
IsOneLine-append {s} {t} h k = record { free = All-append (λ c. c ≢ 10) s t h.free k.free }

NoControl-NoLineEnd : (s : Bytes) → All NoControl s → All (λ c. c ≢ 10) s
NoControl-NoLineEnd [] h = tt
NoControl-NoLineEnd (c ∷ s) h = (h.0.0, NoControl-NoLineEnd s h.1)

text_lines_of_line :
    (line rest : Bytes)
    → All (λ c. c ≢ 10) line
    → text_lines (line ++ 10 ∷ rest) ≡ line ∷ text_lines rest
unfolding text_lines
text_lines_of_line [] rest h = refl
text_lines_of_line (c ∷ line) rest h = ground (arith, text_lines_of_line line rest h.1)

json_string-IsOneLine : (s : Bytes) → IsOneLine (json_string s)
json_string-IsOneLine s = record {
  free = (
    omega arith,
    All-append (λ c. c ≢ 10) (json_escape s) (quote ∷ [])
        (NoControl-NoLineEnd (json_escape s) (json_escape-NoControl s)) (omega arith),
  );
}

user_line-IsOneLine : (user : StoredUser) → IsOneLine (user_line user)
unfolding user_line
user_line-IsOneLine user = key (codes "{\"username\":") (omega arith) (
    value user.username (
      key (codes ",\"role\":") (omega arith) (
        value user.role (
          key (codes ",\"salt\":") (omega arith) (
            value user.salt (
              key (codes ",\"password_hash\":") (omega arith)
                (value user.password_hash (record { free = omega arith }))))))))
  where
    key : (s : Bytes) {t : Bytes} → All (λ c. c ≢ 10) s → IsOneLine t → IsOneLine (s ++ t)
    key s h k = IsOneLine-append (record { free = h }) k

    value : (s : Bytes) {t : Bytes} → IsOneLine t → IsOneLine (json_string s ++ t)
    value s k = IsOneLine-append (json_string-IsOneLine s) k

trim-user_line : (user : StoredUser) → is_empty (trim (user_line user)) ≡ false
unfolding user_line trim
trim-user_line user = refl

load_lines_step :
    (line : Bytes) (lines : List Bytes) (users : List (Bytes × StoredUser)) {user : StoredUser}
    → is_empty (trim line) ≡ false
    → read_user line ≡ some user
    → load_lines (line ∷ lines) users ≡ load_lines lines (insert user.username user users)
unfolding load_lines
load_lines_step line lines users filled read = rw (filled, read)

-- Reading the file of any safe users back inserts them all, in their order, and finds no error.
pub load_lines-file_text :
    (users : List StoredUser) (m : List (Bytes × StoredUser))
    → All IsSafe users
    → load_lines (text_lines (file_text users)) m ≡ (insert_all users m, none)
load_lines-file_text [] m h = unfold load_lines text_lines in refl
load_lines-file_text (user ∷ users) m h =
    rw (text_lines_of_line (user_line user) (file_text users) (user_line-IsOneLine user).free) (
      load_lines_step (user_line user) (text_lines (file_text users)) m (trim-user_line user)
        (read_user-user_line user h.0)
      ∙ load_lines-file_text users (insert user.username user m) h.1)

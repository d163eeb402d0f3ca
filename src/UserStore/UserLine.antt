-- ===== src/UserStore/UserLine.antt =====
-- The line of a user in the file against `read_user`.
use cpp_ai_service.Base.{
  find, ◌≡◌, ◌≢◌, refl, sym, true, false, [], ◌∷◌, ◌++◌, append_assoc, some, arith, Bytes, List,
  All, codes, same_bytes, same_bytes_iff, ◌∙◌, inl, inr, Bool-cases,
}
use cpp_ai_service.HttpCodec.Strings.{quote}
use cpp_ai_service.HttpCodec.Json.{extract_json_string_field}
use cpp_ai_service.HttpCodec.Escape.{Plain, json_escape-Plain}
use cpp_ai_service.HttpCodec.Fields.{
  NoQuote, spell, behind, value_behind, extract-behind, value_behind-json_string,
}
use cpp_ai_service.UserStore.State.{StoredUser}
use cpp_ai_service.UserStore.File.{user_line, read_user}

-- Values that are written as they are; the segments of the line are then these.
pub record IsPlainUser (user : StoredUser) : Type 0 where
  pub plain_username : All Plain user.username
  pub plain_role : All Plain user.role
  pub plain_salt : All Plain user.salt
  pub plain_hash : All Plain user.password_hash

abbrev segments : StoredUser → List Bytes
segments user =
    codes "username"
    ∷ codes ":"
    ∷ user.username
    ∷ codes ","
    ∷ codes "role"
    ∷ codes ":"
    ∷ user.role
    ∷ codes ","
    ∷ codes "salt"
    ∷ codes ":"
    ∷ user.salt
    ∷ codes ","
    ∷ codes "password_hash"
    ∷ codes ":"
    ∷ user.password_hash
    ∷ codes "}"
    ∷ []

user_line-spell :
    (user : StoredUser) → IsPlainUser user → user_line user ≡ codes "{" ++ spell (segments user)
unfolding user_line
user_line-spell user p = simp (
  json_escape-Plain user.username p.plain_username,
  json_escape-Plain user.role p.plain_role,
  json_escape-Plain user.salt p.plain_salt,
  json_escape-Plain user.password_hash p.plain_hash,
  append_assoc,
)

Plain-NoQuote : (s : Bytes) → All Plain s → NoQuote s
Plain-NoQuote [] h = tt
Plain-NoQuote (c ∷ s) h = (h.0.0, Plain-NoQuote s h.1)

segments-NoQuote : (user : StoredUser) → IsPlainUser user → All NoQuote (segments user)
segments-NoQuote user p = (
  omega arith,
  (
    omega arith,
    (
      Plain-NoQuote user.username p.plain_username,
      (
        omega arith,
        (
          omega arith,
          (
            omega arith,
            (
              Plain-NoQuote user.role p.plain_role,
              (
                omega arith,
                (
                  omega arith,
                  (
                    omega arith,
                    (
                      Plain-NoQuote user.salt p.plain_salt,
                      (
                        omega arith,
                        (
                          omega arith,
                          (
                            omega arith,
                            (Plain-NoQuote user.password_hash p.plain_hash, (omega arith, tt)),
                          ),
                        ),
                      ),
                    ),
                  ),
                ),
              ),
            ),
          ),
        ),
      ),
    ),
  ),
)

value_behind-Plain :
    (value rest : Bytes)
    → All Plain value
    → value_behind (b':' ∷ quote ∷ (value ++ quote ∷ rest)) ≡ some value
value_behind-Plain value rest h =
    let e = value_behind-json_string value rest in rw (json_escape-Plain value h, append_assoc) at e

differs : (s t : Bytes) → s ≢ t → same_bytes t s ≡ false
differs s t h = elim (Bool-cases (same_bytes t s)) [
  | inl e ↦ absurd (h (sym ((same_bytes_iff t s).0 e)))
  | inr e ↦ e
]

-- Which value each field's search comes to, as long as no value is spelled like a later field.
module _ (user : StoredUser) (p : IsPlainUser user) where
  extract-line :
      (field : Bytes) {rest : Bytes}
      → NoQuote field
      → behind field (segments user) ≡ some rest
      → extract_json_string_field (user_line user) field ≡ value_behind rest
  extract-line field hf e = rw (user_line-spell user p) (
      extract-behind (codes "{") field (segments user) (omega arith) hf (segments-NoQuote user p) e)

  extract_username :
      extract_json_string_field (user_line user) (codes "username") ≡ some user.username
  unfolding same_bytes
  extract_username =
      extract-line (codes "username") (omega arith) refl
      ∙ value_behind-Plain user.username _ p.plain_username

  -- The name `role` is passed over too: the value behind it is again the role's.
  extract_role : extract_json_string_field (user_line user) (codes "role") ≡ some user.role
  extract_role = elim (Bool-cases (same_bytes (codes "role") user.username)) [
    | inl same ↦
        extract-line (codes "role") (omega arith) (taken same)
        ∙ unfold value_behind find in value_behind-Plain user.role _ p.plain_role
    | inr other ↦
        extract-line (codes "role") (omega arith) (passed other)
        ∙ value_behind-Plain user.role _ p.plain_role
  ]
    where
      rest : Bytes
      rest = spell (
          user.role
          ∷ codes ","
          ∷ codes "salt"
          ∷ codes ":"
          ∷ user.salt
          ∷ codes ","
          ∷ codes "password_hash"
          ∷ codes ":"
          ∷ user.password_hash
          ∷ codes "}"
          ∷ [])

      taken :
          same_bytes (codes "role") user.username ≡ true
          → behind (codes "role") (segments user)
            ≡ some (codes "," ++ spell (codes "role" ∷ []) ++ quote ∷ b':' ∷ rest)
      taken same = rw same (unfold same_bytes in refl)

      passed :
          same_bytes (codes "role") user.username ≡ false
          → behind (codes "role") (segments user) ≡ some (b':' ∷ rest)
      passed other = rw other (unfold same_bytes in refl)

  extract_salt :
      user.username ≢ codes "salt"
      → user.role ≢ codes "salt"
      → extract_json_string_field (user_line user) (codes "salt") ≡ some user.salt
  extract_salt hu hr =
      extract-line (codes "salt") (omega arith) at ∙ value_behind-Plain user.salt _ p.plain_salt
    where
      at :
          behind (codes "salt") (segments user)
          ≡ some (
              b':'
              ∷ quote
              ∷ (user.salt
                  ++ spell (
                      codes ","
                      ∷ codes "password_hash"
                      ∷ codes ":"
                      ∷ user.password_hash
                      ∷ codes "}"
                      ∷ [])))
      at =
          rw (differs user.username (codes "salt") hu, differs user.role (codes "salt") hr)
            (unfold same_bytes in refl)

  extract_hash :
      user.username ≢ codes "password_hash"
      → user.role ≢ codes "password_hash"
      → user.salt ≢ codes "password_hash"
      → extract_json_string_field (user_line user) (codes "password_hash") ≡ some user.password_hash
  extract_hash hu hr hs =
      extract-line (codes "password_hash") (omega arith) at
      ∙ value_behind-Plain user.password_hash _ p.plain_hash
    where
      at :
          behind (codes "password_hash") (segments user)
          ≡ some (b':' ∷ quote ∷ (user.password_hash ++ spell (codes "}" ∷ [])))
      at =
          rw
            (
              differs user.username (codes "password_hash") hu,
              differs user.role (codes "password_hash") hr,
              differs user.salt (codes "password_hash") hs,
            )
            (unfold same_bytes in refl)

  -- A user called `salt` loses the salt: the search stops at the name.
  extract_salt_of_salt :
      user.username ≡ codes "salt"
      → extract_json_string_field (user_line user) (codes "salt") ≡ some user.role
  extract_salt_of_salt e =
      extract-line (codes "salt") (omega arith) at
      ∙ unfold value_behind find in value_behind-Plain user.role _ p.plain_role
    where
      at :
          behind (codes "salt") (segments user)
          ≡ some (
              codes ","
              ++ spell (
                  codes "role"
                  ∷ codes ":"
                  ∷ user.role
                  ∷ codes ","
                  ∷ codes "salt"
                  ∷ codes ":"
                  ∷ user.salt
                  ∷ codes ","
                  ∷ codes "password_hash"
                  ∷ codes ":"
                  ∷ user.password_hash
                  ∷ codes "}"
                  ∷ []))
      at = rw ((same_bytes_iff (codes "salt") user.username).1 (sym e)) (unfold same_bytes in refl)

  extract_hash_of_hash :
      user.username ≡ codes "password_hash"
      → extract_json_string_field (user_line user) (codes "password_hash") ≡ some user.role
  extract_hash_of_hash e =
      extract-line (codes "password_hash") (omega arith) at
      ∙ unfold value_behind find in value_behind-Plain user.role _ p.plain_role
    where
      at :
          behind (codes "password_hash") (segments user)
          ≡ some (
              codes ","
              ++ spell (
                  codes "role"
                  ∷ codes ":"
                  ∷ user.role
                  ∷ codes ","
                  ∷ codes "salt"
                  ∷ codes ":"
                  ∷ user.salt
                  ∷ codes ","
                  ∷ codes "password_hash"
                  ∷ codes ":"
                  ∷ user.password_hash
                  ∷ codes "}"
                  ∷ []))
      at =
          rw ((same_bytes_iff (codes "password_hash") user.username).1 (sym e))
            (unfold same_bytes in refl)

-- Fields that are written as they are, none of which is spelled like the field of a later value.
pub record IsSafe (user : StoredUser) : Type 0 where
  pub plain : IsPlainUser user
  pub name_ne_salt : user.username ≢ codes "salt"
  pub name_ne_hash : user.username ≢ codes "password_hash"
  pub role_ne_salt : user.role ≢ codes "salt"
  pub role_ne_hash : user.role ≢ codes "password_hash"
  pub salt_ne_hash : user.salt ≢ codes "password_hash"

read_user_of_fields :
    (line : Bytes) {u r s h : Bytes}
    → extract_json_string_field line (codes "username") ≡ some u
    → extract_json_string_field line (codes "role") ≡ some r
    → extract_json_string_field line (codes "salt") ≡ some s
    → extract_json_string_field line (codes "password_hash") ≡ some h
    → read_user line ≡ some (record { username = u; role = r; salt = s; password_hash = h })
unfolding read_user
read_user_of_fields line eu er es eh = ground arith

-- A user whose fields need no escape, none of them being the name of a later field where that
-- matters, is read back from its line as it was.
pub read_user-user_line : (user : StoredUser) → IsSafe user → read_user (user_line user) ≡ some user
read_user-user_line user h =
    read_user_of_fields (user_line user) (extract_username user h.plain) (extract_role user h.plain)
      (extract_salt user h.plain h.name_ne_salt h.role_ne_salt)
      (extract_hash user h.plain h.name_ne_hash h.role_ne_hash h.salt_ne_hash)

-- A user named `salt`, with no field to escape and with a role and a salt other than
-- `password_hash`, is read back with the role in place of the salt.
pub read_user_named_salt :
    (user : StoredUser)
    → IsPlainUser user
    → user.username ≡ codes "salt"
    → user.role ≢ codes "password_hash"
    → user.salt ≢ codes "password_hash"
    → read_user (user_line user) ≡ some (record user { salt = user.role })
read_user_named_salt user p e hr hs =
    read_user_of_fields (user_line user) (extract_username user p) (extract_role user p)
      (extract_salt_of_salt user p e) (extract_hash user p (λ e'. cc) hr hs)

-- A user named `password_hash`, with no field to escape and with a role other than `salt`, is read
-- back with the role in place of the hash.
pub read_user_named_password_hash :
    (user : StoredUser)
    → IsPlainUser user
    → user.username ≡ codes "password_hash"
    → user.role ≢ codes "salt"
    → read_user (user_line user) ≡ some (record user { password_hash = user.role })
read_user_named_password_hash user p e hr =
    read_user_of_fields (user_line user) (extract_username user p) (extract_role user p)
      (extract_salt user p (λ e'. cc) hr) (extract_hash_of_hash user p e)

-- ===== src/UserStore/State.antt =====
-- include/UserStore.h: the records, and the disk that the store writes to.
use cpp_ai_service.Base.{ℕ, Bool, List, Option, Bytes}

pub record UserProfile : Type 0 where
  pub username : Bytes
  pub role : Bytes

-- Times of the system clock are in nanoseconds since the epoch.
pub record SessionInfo : Type 0 where
  pub token : Bytes
  pub user : UserProfile
  pub expires_at : ℕ

pub record AuthResult : Type 0 where
  pub ok : Bool
  pub error : Bytes
  pub user : UserProfile
  pub session : SessionInfo

pub record StoredUser : Type 0 where
  pub username : Bytes
  pub role : Bytes
  pub salt : Bytes
  pub password_hash : Bytes

-- The store, with the contents of its user file: none where there is no such file.
pub record UserStore : Type 0 where
  pub path : Bytes
  pub invite_code : Bytes
  pub session_ttl_seconds : ℕ
  pub registration_limit_per_minute : ℕ
  pub users : List (Bytes × StoredUser)
  pub sessions : List (Bytes × SessionInfo)
  pub registration_attempts : List (Bytes × List ℕ)
  pub file : Option Bytes

-- What the system calls answer. `reads` is whether a user file that is there opens for reading, `opens`
-- whether it opens for appending; `short_write` is the number of bytes that reach the file where the
-- write fails.
pub record Disk : Type 0 where
  pub mkdir_works : Bytes → Bool
  pub is_directory : Bytes → Bool
  pub reads : Bool
  pub opens : Bool
  pub short_write : Option ℕ

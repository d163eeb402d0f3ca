-- ===== src/UserStore/RateLimit.antt =====
-- `isRegistrationLimitedLocked` over a client's attempts.
use native.Mathlib.Decide.{dec_lt}
use cpp_ai_service.Base.{
  ℕ, ◌+◌, ◌≤◌, ◌<◌, ◌≡◌, refl, sym, ap, true, false, ◌&&◌, [], ◌∷◌, ◌++◌, append_assoc, append-nil,
  none, Option, arith, Bytes, List, ◌∙◌, if◌then◌else◌, Bool-cases, inl, inr, ◌⊎◌, leb, length,
  length-append, same_bytes_refl,
}
use cpp_ai_service.Base.Dictionary.{bytes_key, insert, lookup, lookup-insert}
use cpp_ai_service.UserStore.State.{UserStore}
use cpp_ai_service.UserStore.Accounts.{is_registration_limited, recent, attempts_of, window}

-- The times in the minute that ends at `now`.
unfoldable pub inside : ℕ → List ℕ → List ℕ
inside now [] = []
inside now (time ∷ times) =
    let rest = inside now times in
    if leb time now && leb now (time + window) then time ∷ rest else rest

-- The attempts that are let through, of attempts at these times.
unfoldable pub admitted : UserStore → Bytes → List ℕ → List ℕ
admitted store client [] = []
admitted store client (now ∷ times) =
    let (noted, limited) = is_registration_limited store client now in
    let rest = admitted noted client times in if limited then rest else now ∷ rest

-- The times do not go back, and are not before `last`.
abbrev pub InOrder : ℕ → List ℕ → Type 0
InOrder last [] = Unit {0}
InOrder last (time ∷ times) = (last ≤ time) × InOrder time times

recent-append : (t : ℕ) (xs ys : List ℕ) → recent t (xs ++ ys) ≡ recent t xs ++ recent t ys
unfolding recent
recent-append t [] ys = refl
recent-append t (x ∷ xs) ys = ground (arith, recent-append t xs ys)

inside-append : (t : ℕ) (xs ys : List ℕ) → inside t (xs ++ ys) ≡ inside t xs ++ inside t ys
unfolding inside
inside-append t [] ys = refl
inside-append t (x ∷ xs) ys = ground (arith, inside-append t xs ys)

recent-recent : (s t : ℕ) (xs : List ℕ) → s ≤ t → recent t (recent s xs) ≡ recent t xs
unfolding recent
recent-recent s t [] h = refl
recent-recent s t (x ∷ xs) h = ground (arith, recent-recent s t xs h)

length-recent_mono : (s t : ℕ) (xs : List ℕ) → s ≤ t → length (recent t xs) ≤ length (recent s xs)
unfolding recent
length-recent_mono s t [] h = omega arith
length-recent_mono s t (x ∷ xs) h = ground (arith, length-recent_mono s t xs h)

length-inside-le : (t : ℕ) (xs : List ℕ) → length (inside t xs) ≤ length (recent t xs)
unfolding inside recent
length-inside-le t [] = omega arith
length-inside-le t (x ∷ xs) = ground (arith, length-inside-le t xs)

inside_before : (t now : ℕ) → t < now → inside t (now ∷ []) ≡ []
unfolding inside
inside_before t now h = ground arith

length-inside_one : (t now : ℕ) → length (inside t (now ∷ [])) ≤ 1
unfolding inside
length-inside_one t now = ground arith

-- What the store remembers is what counts of the history, from `last` on.
abbrev Tracks : UserStore → Bytes → ℕ → List ℕ → Type 0
Tracks store client last history =
    (t : ℕ)
    → last ≤ t
    → recent t (attempts_of (lookup client store.registration_attempts)) ≡ recent t history

abbrev Limits : ℕ → List ℕ → Type 0
Limits limit history = (t : ℕ) → length (inside t history) ≤ limit

module _ (store : UserStore) (client : Bytes) (now : ℕ) where
  kept : List ℕ
  kept = recent now (attempts_of (lookup client store.registration_attempts))

  abbrev noted : List ℕ → UserStore
  noted times = record store {
    registration_attempts = insert client times store.registration_attempts;
  }

  limited_cases :
      ((store.registration_limit_per_minute ≤ length kept)
        × (is_registration_limited store client now ≡ (noted kept, true)))
      ⊎ ((length kept < store.registration_limit_per_minute)
          × (is_registration_limited store client now ≡ (noted (kept ++ now ∷ []), false)))
  unfolding is_registration_limited kept
  limited_cases = elim (Bool-cases (leb store.registration_limit_per_minute (length kept))) [
    | inl e ↦ inl (ground arith, rw (e, is_registration_limited))
    | inr e ↦ inr (ground arith, rw (e, is_registration_limited))
  ]

  remembers :
      (times : List ℕ) → attempts_of (lookup client (noted times).registration_attempts) ≡ times
  remembers times =
      rw (lookup-insert client client times store.registration_attempts, same_bytes_refl client)
        refl

  module _ (last : ℕ) (history : List ℕ) (order : last ≤ now)
      (tracks : Tracks store client last history) where
    kept-recent : (t : ℕ) → now ≤ t → recent t kept ≡ recent t history
    unfolding kept
    kept-recent t h =
        recent-recent now t (attempts_of (lookup client store.registration_attempts)) h
        ∙ tracks t (omega arith)

    Tracks-kept : Tracks (noted kept) client now history
    Tracks-kept t h = ap (recent t) (remembers kept) ∙ kept-recent t h

    Tracks-added : Tracks (noted (kept ++ now ∷ [])) client now (history ++ now ∷ [])
    Tracks-added t h =
        ap (recent t) (remembers (kept ++ now ∷ []))
        ∙ recent-append t kept (now ∷ [])
        ∙ ap (λ (xs : List ℕ). xs ++ recent t (now ∷ [])) (kept-recent t h)
        ∙ sym (recent-append t history (now ∷ []))

    Limits-added :
        (limit : ℕ)
        → length kept < limit
        → Limits limit history
        → Limits limit (history ++ now ∷ [])
    unfolding kept
    Limits-added limit room bounds t = elim (dec_lt t now) [
      | yes before ↦
          rw (inside-append t history (now ∷ []), inside_before t now before, append-nil) (bounds t)
      | no after ↦ omega (
        arith,
        ap length (inside-append t history (now ∷ [])),
        length-append (inside t history) (inside t (now ∷ [])),
        length-inside_one t now,
        length-inside-le t history,
        length-recent_mono now t history (omega arith),
        ap length (tracks now order),
      )
    ]

-- The attempts let through so far, and those that follow.
admitted-Limits :
    (times : List ℕ) (store : UserStore) (client : Bytes) (last : ℕ) (history : List ℕ)
    → InOrder last times
    → Tracks store client last history
    → Limits store.registration_limit_per_minute history
    → Limits store.registration_limit_per_minute (history ++ admitted store client times)
unfolding admitted
admitted-Limits [] store client last history order tracks bounds = λ t. rw append-nil (bounds t)
admitted-Limits (now ∷ times) store client last history (first, order) tracks bounds =
    elim (limited_cases store client now) [
      | inl (full, e) ↦
          rw (e, admitted)
            (admitted-Limits times (noted store client now (kept store client now)) client now
              history order (Tracks-kept store client now last history first tracks) bounds)
      | inr (room, e) ↦
          let after =
            admitted-Limits times (noted store client now (kept store client now ++ now ∷ []))
              client now (history ++ now ∷ []) order
              (Tracks-added store client now last history first tracks)
              (Limits-added store client now last history first tracks
                store.registration_limit_per_minute room bounds) in
          λ t.
            rw (e, admitted)
              (rw
                (← append_assoc history (now ∷ []) (
                  admitted (noted store client now (kept store client now ++ now ∷ [])) client
                    times))
                (after t))
    ]

-- However often a client with no noted attempt tries, at times that do not go back, no minute holds
-- more attempts that were let through than the configured limit.
pub admitted_limit :
    (store : UserStore) (client : Bytes) (times : List ℕ) (t : ℕ)
    → lookup client store.registration_attempts ≡ none
    → InOrder 0 times
    → length (inside t (admitted store client times)) ≤ store.registration_limit_per_minute
admitted_limit store client times t fresh order =
    admitted-Limits times store client 0 [] order
      (λ s h. ap (λ (o : Option (List ℕ)). recent s (attempts_of o)) fresh)
      (λ s. unfold inside in omega arith) t

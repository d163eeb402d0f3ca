-- ===== src/Rag/Words.antt =====
-- `tokenize` gives words: not empty, of letters and digits only, and with no capital letter.
use cpp_ai_service.Base.{
  ℕ, ◌<◌, ◌≡◌, true, [], ◌∷◌, ◌++◌, List, Bytes, arith, All, All-append, is_alnum, Bool-cases, inl,
  inr, ◌⊎◌,
}
use cpp_ai_service.HttpCodec.Strings.{to_lower}
use cpp_ai_service.Rag.Tokens.{push_token, scan_tokens, tokenize}

-- A byte of a word.
abbrev pub IsLowerAlnum : ℕ → Type 0
IsLowerAlnum c = (is_alnum c ≡ true) × ((b'Z' < c) ⊎ (c < b'A'))

abbrev pub IsToken : Bytes → Type 0
IsToken [] = ⊥
IsToken (c ∷ s) = IsLowerAlnum c × All IsLowerAlnum s

abbrev IsLower : ℕ → Type 0
IsLower c = (b'Z' < c) ⊎ (c < b'A')

push_token-IsToken :
    (tokens : List Bytes) (current : Bytes)
    → All IsToken tokens
    → All IsLowerAlnum current
    → All IsToken (push_token tokens current)
unfolding push_token
push_token-IsToken tokens [] h word = h
push_token-IsToken tokens (c ∷ s) h word = All-append IsToken tokens ((c ∷ s) ∷ []) h (word, tt)

scan_tokens-IsToken :
    (text : Bytes) (tokens : List Bytes) (current : Bytes)
    → All IsLower text
    → All IsToken tokens
    → All IsLowerAlnum current
    → All IsToken (scan_tokens text tokens current)
unfolding scan_tokens
scan_tokens-IsToken [] tokens current low h word = push_token-IsToken tokens current h word
scan_tokens-IsToken (c ∷ text) tokens current low h word = elim (Bool-cases (is_alnum c)) [
  | inl e ↦ rw e (
      scan_tokens-IsToken text tokens (current ++ c ∷ []) low.1 h
        (All-append IsLowerAlnum current (c ∷ []) word ((e, low.0), tt)))
  | inr e ↦ rw e (
      scan_tokens-IsToken text (push_token tokens current) [] low.1
        (push_token-IsToken tokens current h word) tt)
]

to_lower-IsLower : (text : Bytes) → All IsLower (to_lower text)
unfolding to_lower
to_lower-IsLower [] = tt
to_lower-IsLower (c ∷ text) = (ground arith, to_lower-IsLower text)

-- Every token of any text is not empty, and holds only digits and small letters.
pub tokenize-IsToken : (text : Bytes) → All IsToken (tokenize text)
unfolding tokenize
tokenize-IsToken text = scan_tokens-IsToken (to_lower text) [] [] (to_lower-IsLower text) tt tt

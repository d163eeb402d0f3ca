-- ===== src/MemoryPool/Apart.antt =====
-- Lists of slots no two of which overlap, and slots in blocks.
use Prim.{tt}
use cpp_ai_service.Base.{
  ℕ, ◌+◌, ◌≡◌, Bool, true, false, ◌&&◌, ◌||◌, List, [], ◌∷◌, ◌++◌, leb, arith, All, append_assoc,
  sym, subst, Bool-cases, inl, inr,
}

module _ {κ} (P : ℕ → Type κ) where
  pub All-out : (xs : List ℕ) (y : ℕ) (ys : List ℕ) → All P (xs ++ y ∷ ys) → All P (y ∷ xs ++ ys)
  All-out [] y ys h = h
  All-out (x ∷ xs) y ys (p, h) = let (q, k) = All-out xs y ys h in (q, (p, k))

  pub All-in : (xs : List ℕ) (y : ℕ) (ys : List ℕ) → All P (y ∷ xs ++ ys) → All P (xs ++ y ∷ ys)
  All-in [] y ys h = h
  All-in (x ∷ xs) y ys (q, (p, k)) = (p, All-in xs y ys (q, k))

-- `size` bytes at the one and at the other do not overlap.
abbrev pub is_apart : ℕ → ℕ → ℕ → Bool
is_apart size a b = leb (a + size) b || leb (b + size) a

module _ (size : ℕ) where
  abbrev pub AllApart : List ℕ → Type 0
  AllApart [] = Unit
  AllApart (x ∷ xs) = All (λ (y : ℕ). is_apart size x y ≡ true) xs × AllApart xs

  pub AllApart-out :
      (xs : List ℕ) (y : ℕ) (ys : List ℕ) → AllApart (xs ++ y ∷ ys) → AllApart (y ∷ xs ++ ys)
  AllApart-out [] y ys h = h
  AllApart-out (x ∷ xs) y ys (p, h) =
      let (first, others) = All-out (λ (z : ℕ). is_apart size x z ≡ true) xs y ys p in
      let (k, rest) = AllApart-out xs y ys h in
      let flipped : is_apart size y x ≡ true = ground (arith, first) in
      ((flipped, k), (others, rest))

  pub AllApart-in :
      (xs : List ℕ) (y : ℕ) (ys : List ℕ) → AllApart (y ∷ xs ++ ys) → AllApart (xs ++ y ∷ ys)
  AllApart-in [] y ys h = h
  AllApart-in (x ∷ xs) y ys ((q, k), (others, rest)) =
      let flipped : is_apart size x y ≡ true = ground (arith, q) in
      (
        All-in (λ (z : ℕ). is_apart size x z ≡ true) xs y ys (flipped, others),
        AllApart-in xs y ys (k, rest),
      )

-- A slot that is freed goes from the slots in use to the free ones.
module _ {κ} (P : ℕ → Type κ) where
  pub All-freed :
      (xs : List ℕ) (slot : ℕ) (ys free : List ℕ)
      → All P ((xs ++ slot ∷ ys) ++ free)
      → All P ((xs ++ ys) ++ slot ∷ free)
  All-freed xs slot ys free h = All-in P (xs ++ ys) slot free (
      subst (λ (l : List ℕ). All P (slot ∷ l)) (sym (append_assoc xs ys free))
        (All-out P xs slot (ys ++ free) (subst (All P) (append_assoc xs (slot ∷ ys) free) h)))

pub AllApart-freed :
    (size : ℕ) (xs : List ℕ) (slot : ℕ) (ys free : List ℕ)
    → AllApart size ((xs ++ slot ∷ ys) ++ free)
    → AllApart size ((xs ++ ys) ++ slot ∷ free)
AllApart-freed size xs slot ys free h = AllApart-in size (xs ++ ys) slot free (
    subst (λ (l : List ℕ). AllApart size (slot ∷ l)) (sym (append_assoc xs ys free))
      (AllApart-out size xs slot (ys ++ free)
        (subst (AllApart size) (append_assoc xs (slot ∷ ys) free) h)))

-- The slot lies in the block, behind the pointer to the next block.
abbrev pub is_within : ℕ → ℕ → ℕ → Bool
is_within size slot block = leb (block + 8) slot && leb (slot + size) (block + 4096)

-- The slot lies in one of the blocks.
abbrev pub in_blocks : ℕ → List ℕ → ℕ → Bool
in_blocks size [] slot = false
in_blocks size (block ∷ blocks) slot = is_within size slot block || in_blocks size blocks slot

-- The slot is not between the two addresses.
abbrev pub is_outside : ℕ → ℕ → ℕ → ℕ → Bool
is_outside size low high slot = leb (slot + size) low || leb high slot

-- A block that overlaps no other has no slot of the others.
pub in_blocks-apart :
    (size : ℕ) (blocks : List ℕ) (block slot : ℕ)
    → All (λ (other : ℕ). is_apart 4096 block other ≡ true) blocks
    → in_blocks size blocks slot ≡ true
    → is_outside size block (block + 4096) slot ≡ true
in_blocks-apart size [] block slot h e = absurd (ground (arith, e))
in_blocks-apart size (other ∷ blocks) block slot (p, h) e =
    elim (Bool-cases (is_within size slot other)) [
      | inl within ↦ ground (arith, p, within)
      | inr without ↦ in_blocks-apart size blocks block slot h (ground (arith, e, without))
    ]

-- What follows of each member.
pub All-map : {P Q : ℕ → Type 0} (f : (x : ℕ) → P x → Q x) (xs : List ℕ) → All P xs → All Q xs
All-map f [] h = h
All-map f (x ∷ xs) (p, h) = (f x p, All-map f xs h)

pub All-first : (P : ℕ → Type 0) (xs ys : List ℕ) → All P (xs ++ ys) → All P xs
All-first P [] ys h = tt
All-first P (x ∷ xs) ys (p, h) = (p, All-first P xs ys h)

pub AllApart-first : (size : ℕ) (xs ys : List ℕ) → AllApart size (xs ++ ys) → AllApart size xs
AllApart-first size [] ys h = tt
AllApart-first size (x ∷ xs) ys (p, h) =
    (All-first (λ (y : ℕ). is_apart size x y ≡ true) xs ys p, AllApart-first size xs ys h)

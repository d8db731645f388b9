-- ===== src/Server/Anthropic/Blocks.antt =====
-- How often a block stands in a list of blocks, through what the encoder does with them.
use mini_cpm5_5080fast.Base.{
  ℕ, zero, suc, ◌+◌, ◌≤◌, ◌≡◌, refl, ap, ◌∙◌, Option, none, some, List, [], ◌∷◌, ◌++◌, ◌==◌,
  if◌then◌else◌, length, get_elem?, arith, Bool-cases, inl, inr,
}
use mini_cpm5_5080fast.Server.Anthropic.{resize, set_at, somes, insert, sort_unstable}

unfoldable pub count : ℕ → List ℕ → ℕ
count i [] = 0
count i (x ∷ xs) = (if i == x then 1 else 0) + count i xs

unfoldable pub remove : ℕ → List ℕ → List ℕ
remove i [] = []
remove i (x ∷ xs) = let rest = remove i xs in if i == x then xs else x ∷ rest

pub count-append : (i : ℕ) (xs ys : List ℕ) → count i (xs ++ ys) ≡ count i xs + count i ys
unfolding count
count-append i [] ys = omega arith
count-append i (x ∷ xs) ys = omega (arith, count-append i xs ys)

pub count-remove :
    (j i : ℕ) (xs : List ℕ)
    → 1 ≤ count i xs
    → count j (remove i xs) + (if j == i then 1 else 0) ≡ count j xs
unfolding count remove
count-remove j i [] h = absurd (omega arith)
count-remove j i (x ∷ xs) h = elim (Bool-cases (i == x)) [
  | inl e ↦ ground (arith, e)
  | inr e ↦ ground (arith, e, h, count-remove j i xs (ground (arith, e, h)))
]

pub count-none : (xs : List ℕ) → ((i : ℕ) → count i xs ≡ 0) → xs ≡ []
unfolding count
count-none [] h = refl
count-none (x ∷ xs) h = absurd (ground (arith, h x))

count-insert :
    (i x : ℕ) (xs : List ℕ) → count i (insert x xs) ≡ (if i == x then 1 else 0) + count i xs
unfolding count insert
count-insert i x [] = refl
count-insert i x (y ∷ ys) = ground (arith, count-insert i x ys)

pub count-sort_unstable : (i : ℕ) (xs : List ℕ) → count i (sort_unstable xs) ≡ count i xs
unfolding sort_unstable count
count-sort_unstable i [] = refl
count-sort_unstable i (x ∷ xs) =
    omega (arith, count-insert i x (sort_unstable xs), count-sort_unstable i xs)

somes-resize : (i n : ℕ) → count i (somes (resize [] n)) ≡ 0
unfolding resize somes count
somes-resize i zero = refl
somes-resize i (suc n) = somes-resize i n

set_at-fresh :
    (i index block : ℕ) (bs : List (Option ℕ))
    → length bs ≤ index
    → count i (somes (set_at (resize bs (suc index)) index block))
      ≡ (if i == block then 1 else 0) + count i (somes bs)
unfolding resize set_at somes count
set_at-fresh i zero block [] h = refl
set_at-fresh i (suc index) block [] h = set_at-fresh i index block [] (omega arith)
set_at-fresh i zero block (b ∷ bs) h = absurd (omega arith)
set_at-fresh i (suc index) block (none ∷ bs) h = set_at-fresh i index block bs (omega arith)
set_at-fresh i (suc index) block (some b ∷ bs) h =
    omega (arith, set_at-fresh i index block bs (omega arith))

-- a fresh slot: the block is one more
pub count-set_at :
    (i index block : ℕ) (bs : List (Option ℕ))
    → length bs ≤ index
    → count i (somes (set_at (resize bs (index + 1)) index block))
      ≡ (if i == block then 1 else 0) + count i (somes bs)
count-set_at i index block bs h =
    ap (λ n. count i (somes (set_at (resize bs n) index block))) (omega arith)
    ∙ set_at-fresh i index block bs h

pub length-set_at :
    (index block : ℕ) (bs : List (Option ℕ)) → length (set_at bs index block) ≡ length bs
unfolding set_at
length-set_at index block [] = refl
length-set_at zero block (b ∷ bs) = refl
length-set_at (suc index) block (b ∷ bs) = omega (arith, length-set_at index block bs)

pub length-resize : (n : ℕ) (bs : List (Option ℕ)) → length (resize bs n) ≡ n
unfolding resize
length-resize zero bs = refl
length-resize (suc n) [] = omega (arith, length-resize n [])
length-resize (suc n) (b ∷ bs) = omega (arith, length-resize n bs)

pub count-get_elem? :
    (bs : List (Option ℕ)) (index block : ℕ)
    → get_elem? bs index ≡ some (some block)
    → 1 ≤ count block (somes bs)
unfolding somes count
count-get_elem? [] index block e = absurd cc
count-get_elem? (none ∷ bs) zero block e = absurd (ground arith)
count-get_elem? (some b ∷ bs) zero block e = ground arith
count-get_elem? (none ∷ bs) (suc index) block e = count-get_elem? bs index block e
count-get_elem? (some b ∷ bs) (suc index) block e = ground (arith, count-get_elem? bs index block e)

-- ===== src/Std/Split.antt =====
-- Package strings: `Split` and `Join` at one separator byte, and `TrimSpace` on ASCII text.
use tokyo3_base.Base.{
  ℕ, ◌≡◌, refl, ap, ◌∙◌, Bool, true, false, ◌||◌, ◌&&◌, List, [], ◌∷◌, ◌++◌, arith, Bytes, leb,
  ◌==◌, if◌then◌else◌,
}
use mathlib.Core.List.{reverse}

cons_head : ℕ → List Bytes → List Bytes
cons_head x [] = (x ∷ []) ∷ []
cons_head x (p ∷ ps) = (x ∷ p) ∷ ps

-- An empty text splits into one empty part.
unfoldable pub split_on : ℕ → Bytes → List Bytes
unfolding cons_head
split_on c [] = [] ∷ []
split_on c (x ∷ s) = let rest = split_on c s in if x == c then [] ∷ rest else cons_head x rest

unfoldable pub join_with : ℕ → List Bytes → Bytes
join_with c [] = []
join_with c (p ∷ []) = p
join_with c (p ∷ q ∷ ps) = p ++ (c ∷ join_with c (q ∷ ps))

is_space : ℕ → Bool
is_space c = (c == 32) || (leb 9 c && leb c 13)

trim_left : Bytes → Bytes
unfolding is_space
trim_left [] = []
trim_left (c ∷ s) = if is_space c then trim_left s else c ∷ s

unfoldable pub trim_space : Bytes → Bytes
unfolding trim_left
trim_space s = reverse (trim_left (reverse (trim_left s)))

cons_head_shape :
    (x : ℕ) (ps : List Bytes) → (p : Bytes) × (qs : List Bytes) × (cons_head x ps ≡ p ∷ qs)
unfolding cons_head
cons_head_shape x [] = (x ∷ [], [], refl)
cons_head_shape x (p ∷ ps) = (x ∷ p, ps, refl)

split_on_shape : (c : ℕ) (s : Bytes) → (p : Bytes) × (ps : List Bytes) × (split_on c s ≡ p ∷ ps)
unfolding split_on
split_on_shape c [] = ([], [], refl)
split_on_shape c (x ∷ s) = choose (x == c)
  where
    choose :
        (b : Bool)
        → (p : Bytes) × (ps : List Bytes) × ((if b
              then [] ∷ split_on c s
              else cons_head x (split_on c s))
            ≡ p ∷ ps)
    choose true = ([], split_on c s, refl)
    choose false = cons_head_shape x (split_on c s)

-- A separator splits a text into the parts before it and the parts after it.
pub split_on-append :
    (c : ℕ) (a b : Bytes) → split_on c (a ++ (c ∷ b)) ≡ split_on c a ++ split_on c b
unfolding split_on
split_on-append c [] b = ground arith
split_on-append c (x ∷ a) b =
    let (p, ps, e) = split_on_shape c a in
    let both : split_on c (a ++ (c ∷ b)) ≡ p ∷ (ps ++ split_on c b) =
      split_on-append c a b ∙ ap (λ t. t ++ split_on c b) e in
    ground (arith, e, both)

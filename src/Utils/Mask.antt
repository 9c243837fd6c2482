-- ===== src/Utils/Mask.antt =====
-- MaskPhone (pkg/utils/phone.go) and MaskCard (pkg/utils/card.go) on the bytes of an ASCII string.
use go_backend_helpers.Prelude.{
  ℕ, ap, zero, suc, length-append, length-replicate, length-drop, ◌+◌, ◌-◌, ◌≤◌, ◌<◌, ◌≡◌, refl,
  List, [], ◌∷◌, ◌++◌, ◌||◌, ltb, leb, if◌then◌else◌, length, take, drop, replicate, arith,
}

-- '*'
abbrev pub star : ℕ
star = 42

-- `MaskPhone`
unfoldable pub mask_phone : List ℕ → List ℕ
mask_phone phone =
    if leb (length phone) 4
    then replicate 4 star
    else replicate (length phone - 4) star ++ drop (length phone - 4) phone

-- The loop of `MaskCard`, from index `i` on: `i > size - 5` is on Go's int, where `size - 5` may be
-- negative.
unfoldable pub mask_from : ℕ → ℕ → List ℕ → List ℕ
mask_from size i [] = []
mask_from size i (b ∷ bs) =
    (if ltb i 6 || ltb size (i + 5) then b else star) ∷ mask_from size (i + 1) bs

-- `MaskCard`
unfoldable pub mask_card : List ℕ → List ℕ
mask_card pan = mask_from (length pan) 0 pan

-- From the last four positions on, or from the first ten bytes of a shorter rest, all is shown.
mask_from-end : (size i : ℕ) (bs : List ℕ) → size < i + 5 → mask_from size i bs ≡ bs
unfolding mask_from
mask_from-end size i [] h = refl
mask_from-end size i (b ∷ bs) h = ground (arith, mask_from-end size (i + 1) bs)

mask_from-stars :
    (size i n : ℕ) (bs : List ℕ)
    → 6 ≤ i
    → n + 4 ≡ length bs
    → i + length bs ≡ size
    → mask_from size i bs ≡ replicate n star ++ drop n bs
unfolding mask_from
mask_from-stars size i zero bs h e s = mask_from-end size i bs (omega arith)
mask_from-stars size i (suc n) [] h e s = ground arith
mask_from-stars size i (suc n) (b ∷ bs) h e s =
    ground (arith, mask_from-stars size (i + 1) n bs (omega arith) (omega arith) (omega arith))

mask_from-start :
    (size i k n : ℕ) (bs : List ℕ)
    → i + k ≡ 6
    → k + (n + 4) ≡ length bs
    → i + length bs ≡ size
    → mask_from size i bs ≡ take k bs ++ replicate n star ++ drop n (drop k bs)
unfolding mask_from
mask_from-start size i zero n bs h e s = mask_from-stars size i n bs (omega arith) (omega arith) s
mask_from-start size i (suc k) n [] h e s = ground arith
mask_from-start size i (suc k) n (b ∷ bs) h e s =
    ground (arith, mask_from-start size (i + 1) k n bs (omega arith) (omega arith) (omega arith))

-- Of a card number of ten digits or more, six at the start and four at the end are shown and every
-- other one is masked.
mask_card_lem :
    (n : ℕ) (pan : List ℕ)
    → 6 + (n + 4) ≡ length pan
    → mask_card pan ≡ take 6 pan ++ replicate n star ++ drop n (drop 6 pan)
unfolding mask_card
mask_card_lem n pan e = mask_from-start (length pan) 0 6 n pan (omega arith) e (omega arith)

drop-replicate : (n : ℕ) (xs : List ℕ) → drop n (replicate n star ++ xs) ≡ xs
drop-replicate zero xs = refl
drop-replicate (suc n) xs = drop-replicate n xs

take-replicate : (n : ℕ) (xs : List ℕ) → take n (replicate n star ++ xs) ≡ replicate n star
take-replicate zero xs = refl
take-replicate (suc n) xs = ap (◌∷◌ star) (take-replicate n xs)

-- `MaskPhone` of more than four digits keeps the length and the last four digits, and masks the
-- others.
mask_phone_lem :
    (phone : List ℕ)
    → 4 < length phone
    → (length (mask_phone phone) ≡ length phone)
      × (drop (length phone - 4) (mask_phone phone) ≡ drop (length phone - 4) phone)
      × (take (length phone - 4) (mask_phone phone) ≡ replicate (length phone - 4) star)
unfolding mask_phone
mask_phone_lem phone h = (
  ground (
    arith,
    length-append (replicate (length phone - 4) star) (drop (length phone - 4) phone),
    length-replicate (length phone - 4) star,
    length-drop (length phone - 4) phone,
  ),
  ground (arith, drop-replicate (length phone - 4) (drop (length phone - 4) phone)),
  ground (arith, take-replicate (length phone - 4) (drop (length phone - 4) phone)),
)

-- ===== src/Tui/Split/Lengths.antt =====
-- layout.go, `weightedLengths`: the lengths add up to the total, and no uint64 wraps.
use native.Mathlib.Nat.{
  mul-div_cancel_left, div-le_of_le-mul, mul-le-mul_left, mul-le-mul, mul_comm,
}
use project_ariadne.Base.{
  ℕ, zero, suc, ◌+◌, ◌-◌, ◌*◌, ◌/◌, ◌%◌, ◌^◌, ◌≤◌, ◌<◌, ◌≡◌, refl, ap, ap₂, subst, ◌∙◌, List, [],
  ◌∷◌, arith, All, length, sum, ◌==◌, nat_eq, if◌then◌else◌, Bool-cases, inl, inr, false,
}
use project_ariadne.Layout.Edit.{rest_weights}
use project_ariadne.Tui.Split.{next_weight, weight_total_from, distribute, zeros, weighted_lengths}

-- uint32 weights.
abbrev pub IsUint32 : ℕ → Type 0
IsUint32 w = w < 4294967296

-- The exact sum of the first weights.
unfoldable pub weight_sum : ℕ → List ℕ → ℕ
weight_sum zero ws = 0
weight_sum (suc count) ws = next_weight ws + weight_sum count (rest_weights ws)

next_weight-bounds :
    (ws : List ℕ) → All IsUint32 ws → (1 ≤ next_weight ws) × (next_weight ws ≤ 4294967295)
next_weight-bounds [] h = (omega arith, omega arith)
next_weight-bounds (w ∷ ws) h = ground arith

rest-IsUint32 : (ws : List ℕ) → All IsUint32 ws → All IsUint32 (rest_weights ws)
rest-IsUint32 [] h = tt
rest-IsUint32 (w ∷ ws) h = h.1

weight_sum-bounds :
    (count : ℕ) (ws : List ℕ)
    → All IsUint32 ws
    → (count ≤ weight_sum count ws) × (weight_sum count ws ≤ count * 4294967295)
unfolding weight_sum
weight_sum-bounds zero ws h = (omega arith, omega arith)
weight_sum-bounds (suc count) ws h =
    let w = next_weight-bounds ws h in
    let rest = weight_sum-bounds count (rest_weights ws) (rest-IsUint32 ws h) in
    (omega arith, omega arith)

-- The first loop gives the exact sum.
weight_total_from_lem :
    (total count : ℕ) (ws : List ℕ)
    → All IsUint32 ws
    → total + count * 4294967295 < 2 ^ 64
    → weight_total_from total count ws ≡ total + weight_sum count ws
unfolding weight_total_from weight_sum
weight_total_from_lem total zero ws h b = omega arith
weight_total_from_lem total (suc count) ws h b =
    let w = next_weight-bounds ws h in
    let next = (total + next_weight ws) % 2 ^ 64 in
    omega
      (arith, weight_total_from_lem next count (rest_weights ws) (rest-IsUint32 ws h) (omega arith))

-- The shares of a length without machine integers: a child takes its weight's part of what remains,
-- rounded down, and the last one takes the rest.
unfoldable pub shares : ℕ → ℕ → List ℕ → List ℕ
shares remaining zero ws = []
shares remaining (suc zero) ws = remaining ∷ []
shares remaining (suc (suc count)) ws =
    let length = remaining * next_weight ws / weight_sum (suc (suc count)) ws in
    length ∷ shares (remaining - length) (suc count) (rest_weights ws)

share-le : (remaining w others : ℕ) → 1 ≤ w → remaining * w / (w + others) ≤ remaining
share-le remaining w others h = div-le_of_le-mul (w + others) (
    subst (λ n. remaining * w ≤ n) (mul_comm remaining (w + others))
      (mul-le-mul_left remaining (omega arith)))

product-fits : (remaining w : ℕ) → remaining ≤ 4294967295 → w ≤ 4294967295 → remaining * w < 2 ^ 64
product-fits remaining w r h = let product = mul-le-mul r h in omega arith

distribute-shares :
    (remaining count : ℕ) (ws : List ℕ)
    → All IsUint32 ws
    → remaining ≤ 4294967295
    → count ≤ 4294967295
    → distribute remaining (weight_sum count ws) count ws ≡ shares remaining count ws
unfolding distribute shares weight_sum
distribute-shares remaining zero ws h r c = refl
distribute-shares remaining (suc zero) ws h r c = refl
distribute-shares remaining (suc (suc count)) ws h r c =
    let w = next_weight-bounds ws h in
    let rest = weight_sum-bounds (suc count) (rest_weights ws) (rest-IsUint32 ws h) in
    let total = weight_sum (suc (suc count)) ws in
    let fits = product-fits remaining (next_weight ws) r w.1 in
    let length = remaining * next_weight ws / total in
    let exact : remaining * next_weight ws % 2 ^ 64 ≡ remaining * next_weight ws = omega arith in
    ap₂ (λ (l : ℕ) ls. l ∷ ls) (ap (λ n. n / total) exact)
      (ap₂ (λ a b. distribute a b (suc count) (rest_weights ws))
          (ap (λ n. remaining - n / total) exact) (omega arith)
        ∙ distribute-shares (remaining - length) (suc count) (rest_weights ws) (rest-IsUint32 ws h)
            (omega arith) (omega arith))

sum-shares :
    (remaining count : ℕ) (ws : List ℕ)
    → All IsUint32 ws
    → 1 ≤ count
    → sum (shares remaining count ws) ≡ remaining
unfolding shares sum weight_sum
sum-shares remaining zero ws h c = omega arith
sum-shares remaining (suc zero) ws h c = omega arith
sum-shares remaining (suc (suc count)) ws h c =
    let length = remaining * next_weight ws / weight_sum (suc (suc count)) ws in
    let w = next_weight-bounds ws h in
    omega (
      arith,
      share-le remaining (next_weight ws) (weight_sum (suc count) (rest_weights ws)) w.0,
      sum-shares (remaining - length) (suc count) (rest_weights ws) (rest-IsUint32 ws h)
          (omega arith),
    )

length-shares : (remaining count : ℕ) (ws : List ℕ) → length (shares remaining count ws) ≡ count
unfolding shares
length-shares remaining zero ws = refl
length-shares remaining (suc zero) ws = refl
length-shares remaining (suc (suc count)) ws = ap suc (
    length-shares (remaining - remaining * next_weight ws / weight_sum (suc (suc count)) ws)
      (suc count) (rest_weights ws))

sum-zeros : (count : ℕ) → (sum (zeros count) ≡ 0) × (length (zeros count) ≡ count)
unfolding zeros sum
sum-zeros zero = (refl, refl)
sum-zeros (suc count) = let rest = sum-zeros count in (omega arith, omega arith)

length-distribute :
    (count remaining total : ℕ) (ws : List ℕ) → length (distribute remaining total count ws) ≡ count
unfolding distribute
length-distribute zero remaining total ws = refl
length-distribute (suc zero) remaining total ws = refl
length-distribute (suc (suc count)) remaining total ws =
    ap suc (length-distribute (suc count) _ _ _)

pub length-weighted_lengths :
    (total count : ℕ) (ws : List ℕ) → length (weighted_lengths total ws count) ≡ count
unfolding weighted_lengths
length-weighted_lengths total count ws = elim (Bool-cases (total == 0)) [
  | inl empty ↦ rw empty (sum-zeros count).1
  | inr present ↦ rw present (length-distribute count total (weight_total_from 0 count ws) ws)
]

-- For at least one child, uint32 weights, and a length and a number of children below 2^32, no
-- machine integer wraps: the lengths are the exact shares, unless the total is 0, where all are 0.
-- There is one for each child, and they add up to the total.
pub weighted_lengths-shares :
    (total count : ℕ) (ws : List ℕ)
    → All IsUint32 ws
    → total ≤ 4294967295
    → 1 ≤ count
    → count ≤ 4294967295
    → (weighted_lengths total ws count
        ≡ (if total == 0 then zeros count else shares total count ws))
      × (length (weighted_lengths total ws count) ≡ count)
      × (sum (weighted_lengths total ws count) ≡ total)
unfolding weighted_lengths
weighted_lengths-shares total count ws h t p c =
    let exact : distribute total (weight_total_from 0 count ws) count ws ≡ shares total count ws =
      ap (λ n. distribute total n count ws)
        (omega (arith, weight_total_from_lem 0 count ws h (omega arith)))
      ∙ distribute-shares total count ws h t c in
    elim (Bool-cases (total == 0)) [
      | inl empty ↦ rw empty (
          let (nothing, one_each) = sum-zeros count in
          (refl, one_each, nothing ∙ ground (arith, empty)))
      | inr present ↦
          rw (present, exact) (refl, length-shares total count ws, sum-shares total count ws h p)
    ]

-- Lengths that are themselves the weights stay as they are.
settled-shares :
    (count : ℕ) (ws : List ℕ)
    → All (λ w. 1 ≤ w) ws
    → length ws ≡ count
    → (weight_sum count ws ≡ sum ws) × (shares (sum ws) count ws ≡ ws)
unfolding shares weight_sum sum
settled-shares zero [] h n = (refl, refl)
settled-shares zero (w ∷ ws) h n = absurd (omega arith)
settled-shares (suc count) [] h n = absurd (omega arith)
settled-shares (suc zero) (w ∷ []) h n = ((ground (arith, h.0)), ap (λ x. x ∷ []) (omega arith))
settled-shares (suc zero) (w ∷ v ∷ ws) h n = absurd (omega arith)
settled-shares (suc (suc count)) (w ∷ ws) h n =
    let (total, rest) = settled-shares (suc count) ws h.1 (omega arith) in
    let here : next_weight (w ∷ ws) ≡ w = ground (arith, h.0) in
    let first : (w + sum ws) * w / (w + sum ws) ≡ w = mul-div_cancel_left w (omega (arith, h.0)) in
    let share : (w + sum ws) * next_weight (w ∷ ws) / weight_sum (suc (suc count)) (w ∷ ws) ≡ w =
      ap₂ (λ a b. (w + sum ws) * a / b) here (omega (arith, total, here)) ∙ first in
    (
      omega (arith, total, here),
      ap₂ (λ (x : ℕ) xs. x ∷ xs) share
          (ap (λ n. shares n (suc count) ws) (omega (arith, share)) ∙ rest),
    )

small-IsUint32 : (ws : List ℕ) → sum ws ≤ 4294967295 → All IsUint32 ws
unfolding sum
small-IsUint32 [] b = tt
small-IsUint32 (w ∷ ws) b = (omega arith, small-IsUint32 ws (omega arith))

count-le-sum : (ws : List ℕ) → All (λ w. 1 ≤ w) ws → length ws ≤ sum ws
unfolding sum
count-le-sum [] h = omega arith
count-le-sum (w ∷ ws) h = omega (arith, h.0, count-le-sum ws h.1)

-- If the weights are lengths of at least 1 that add up to the total, below 2^32, then they are the
-- lengths: what was fixed by weights stays as it is.
pub weighted_lengths-settled :
    (ws : List ℕ)
    → All (λ w. 1 ≤ w) ws
    → 1 ≤ length ws
    → sum ws ≤ 4294967295
    → weighted_lengths (sum ws) ws (length ws) ≡ ws
weighted_lengths-settled ws h n b =
    let count = count-le-sum ws h in
    (weighted_lengths-shares (sum ws) (length ws) ws (small-IsUint32 ws b) b n (omega arith)).0
    ∙ (rw (positive (sum ws) (omega arith)) (settled-shares (length ws) ws h refl).1)
  where
    positive : (total : ℕ) → 1 ≤ total → (total == 0) ≡ false
    positive total h = ground arith

-- ===== src/Goroutines/Counting.antt =====
-- Sums over the goroutines.
use gluau.Prelude.{ℕ, zero, suc, ◌+◌, ◌≤◌, ◌<◌, ◌≡◌, refl, inl, inr, Bool-cases, ◌==◌, arith}
use gluau.Goroutines.{Thread, set_thread}

-- A weight, added up over the goroutines below `n`.
unfoldable pub sum_of : (Thread → ℕ) → ℕ → (ℕ → Thread) → ℕ
sum_of w zero f = 0
sum_of w (suc n) f = w (f n) + sum_of w n f

module _ (w : Thread → ℕ) (f : ℕ → Thread) where
  sum_of-above : (n i : ℕ) (t : Thread) → n ≤ i → sum_of w n (set_thread f i t) ≡ sum_of w n f
  unfolding sum_of
  sum_of-above zero i t h = refl
  sum_of-above (suc n) i t h = ground (arith, sum_of-above n i t)

  -- What one goroutine's change does to the sum.
  pub sum_of-set_thread :
      (n i : ℕ) (t : Thread) → i < n → sum_of w n (set_thread f i t) + w (f i) ≡ sum_of w n f + w t
  unfolding sum_of
  sum_of-set_thread zero i t h = elim h [ ]
  sum_of-set_thread (suc n) i t h = elim (Bool-cases (i == n)) [
    | inl last ↦ ground (arith, sum_of-above n i t)
    | inr below ↦ ground (arith, sum_of-set_thread n i t)
  ]

  pub le-sum_of : (n i : ℕ) → i < n → w (f i) ≤ sum_of w n f
  unfolding sum_of
  le-sum_of zero i h = elim h [ ]
  le-sum_of (suc n) i h = elim (Bool-cases (i == n)) [
    | inl last ↦ ground arith
    | inr below ↦ ground (arith, le-sum_of n i)
  ]

  -- A positive sum has a positive part.
  pub sum_of_pos : (n : ℕ) → 0 < sum_of w n f → (i : ℕ) × (i < n) × (0 < w (f i))
  unfolding sum_of
  sum_of_pos zero h = elim h [ ]
  sum_of_pos (suc n) h = elim (Bool-cases (w (f n) == 0)) [
    | inl none_here ↦ let (i, below, pos) = sum_of_pos n (ground arith) in (i, omega arith, pos)
    | inr some_here ↦ (n, omega arith, ground arith)
  ]

  pub sum_of-zero : (n : ℕ) → ((i : ℕ) → i < n → w (f i) ≡ 0) → sum_of w n f ≡ 0
  unfolding sum_of
  sum_of-zero zero h = refl
  sum_of-zero (suc n) h = omega (arith, h n (omega arith), sum_of-zero n (λ i b. h i (omega arith)))

pub sum_of-add :
    (v w : Thread → ℕ) (n : ℕ) (f : ℕ → Thread)
    → sum_of (λ t. v t + w t) n f ≡ sum_of v n f + sum_of w n f
unfolding sum_of
sum_of-add v w zero f = refl
sum_of-add v w (suc n) f = omega (arith, sum_of-add v w n f)

-- ===== src/Reveal/Canvas.antt =====
-- How much of a coating is scratched off: `calculateProgress` and the threshold of
-- packages/nextjs/components/scratch/SingleScratchView.tsx. A canvas is read as the list of its
-- alpha bytes, `none` where there is no canvas or no context.
use lucky_scratch.Prelude.{
  ℕ, ◌*◌, Bool, ◌&&◌, Option, none, some, List, ltb, leb, ◌==◌, count_by, length,
}

-- A share of the pixels: how many are transparent, and how many there are.
pub record Progress : Type 0 where
  pub transparent : ℕ
  pub total : ℕ

unfoldable pub calculate_progress : Option (List ℕ) → Progress
calculate_progress none = record { transparent = 0; total = 1 }
calculate_progress (some alphas) = record {
  transparent = count_by (λ a. a == 0) alphas;
  total = length alphas;
}

-- `p >= THRESHOLD`, which no share of zero pixels satisfies.
unfoldable pub reaches_threshold : Progress → Bool
reaches_threshold p = ltb 0 p.total && leb (55 * p.total) (100 * p.transparent)

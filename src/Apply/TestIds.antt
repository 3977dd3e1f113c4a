-- ===== src/Apply/TestIds.antt =====
-- Event IDs for a concrete platform: the slots in unary.
use Prim.Native.Nat.{ℕ, zero, suc}
use Prim.Native.String.{String, [], ◌∷◌, count}
use Prim.Native.String.count
use mathlib.Core.Path.{◌≡◌, ap, ◌∙◌}

abbrev pub unary : ℕ → String
unary zero = []
unary (suc n) = "1" ∷ unary n

pub count-unary : (n : ℕ) → count (unary n) ≡ n
count-unary zero = count.nil
count-unary (suc n) = count.cons "1" (unary n) ∙ ap suc (count-unary n)

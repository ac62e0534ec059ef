-- ===== src/Base/Logic.antt =====
-- Conjunctions of tests.
use mathlib.Core.Path.{◌≡◌}
use mathlib.Core.Bool.{Bool, true, false, not, ◌&&◌}
use native.Mathlib.Omega.{arith}

pub and_elim : (a b : Bool) → (a && b) ≡ true → (a ≡ true) × (b ≡ true)
and_elim a b h = ground arith

pub and_intro : {a b : Bool} → a ≡ true → b ≡ true → (a && b) ≡ true
and_intro h k = ground arith

pub not_elim : (a : Bool) → not a ≡ true → a ≡ false
not_elim a h = ground arith

pub not_intro : {a : Bool} → a ≡ false → not a ≡ true
not_intro h = ground arith

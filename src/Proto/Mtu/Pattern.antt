-- ===== src/Proto/Mtu/Pattern.antt =====
-- The pattern is a list that repeats every four bytes.
use playit_agent.Common.{
  ℕ, zero, suc, ◌+◌, ◌%◌, ◌≤◌, ◌≡◌, refl, ap, ◌∷◌, ◌++◌, length, take, drop, arith,
}
use Prim.Native.Nat.add
use native.Mathlib.Nat.{add-zero}
use mathlib.Core.Path.{ap₂}
use playit_agent.Proto.Mtu.{pattern_byte, fill}

pub length-fill : (n i : ℕ) → length (fill n i) ≡ n
unfolding fill
length-fill zero i = refl
length-fill (suc n) i = ap suc (length-fill n (i + 1))

pub take-fill : (n m i : ℕ) → n ≤ m → take n (fill m i) ≡ fill n i
unfolding fill
take-fill zero m i h = refl
take-fill (suc n) zero i h = absurd (omega arith)
take-fill (suc n) (suc m) i h = ap (◌∷◌ (pattern_byte i)) (take-fill n m (i + 1) (omega arith))

pub drop-fill : (k m i : ℕ) → drop k (fill (k + m) i) ≡ fill m (i + k)
unfolding fill
drop-fill zero m i = cc (add.zero m, add-zero i)
drop-fill (suc k) m i =
    let e : suc k + m ≡ suc (k + m) = omega arith in
    let f : i + suc k ≡ (i + 1) + k = omega arith in rw (e, f) (drop-fill k m (i + 1))

pub fill-append : (n m i : ℕ) → fill (n + m) i ≡ fill n i ++ fill m (i + n)
unfolding fill
fill-append zero m i = cc (add.zero m, add-zero i)
fill-append (suc n) m i =
    let e : suc n + m ≡ suc (n + m) = omega arith in
    let f : i + suc n ≡ (i + 1) + n = omega arith in
    rw (e, f) (ap (◌∷◌ (pattern_byte i)) (fill-append n m (i + 1)))

pattern_byte_periodic : (i j : ℕ) → i % 4 ≡ j % 4 → pattern_byte i ≡ pattern_byte j
unfolding pattern_byte
pattern_byte_periodic i j e = rw e

pub fill_periodic : (n i j : ℕ) → i % 4 ≡ j % 4 → fill n i ≡ fill n j
unfolding fill
fill_periodic zero i j e = refl
fill_periodic (suc n) i j e =
    ap₂ ◌∷◌ (pattern_byte_periodic i j e) (fill_periodic n (i + 1) (j + 1) (omega arith))

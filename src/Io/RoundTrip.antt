-- ===== src/Io/RoundTrip.antt =====
-- What it means that a reader takes back what was written, and how that is built up field by field.
use playit_agent.Common.{
  ℕ, ◌+◌, ◌≡◌, refl, [], ◌++◌, append_assoc, append-nil, arith, take-append, drop-append, ltb-false,
  length, length-append,
}
use native.Mathlib.Nat.{add-zero}
use playit_agent.Io.{
  count, write_all, read_exact, ok, Bytes, Written, Reader, ◌▷◌, no_bytes, pure, ◌>>=◌,
}

-- `w` writes some bytes, and reports `missed` fewer than it wrote; `r` reads `a` off those bytes,
-- whatever follows them, and leaves what follows.
pub record RoundTrip {ℓ} {A : Type ℓ} (missed : ℕ) (w : Written) (r : Reader A) (a : A)
    : Type ℓ where
  pub bytes : Bytes
  pub reported : ℕ
  pub wrote : w ≡ ok (bytes, reported)
  pub counted : length bytes ≡ reported + missed
  pub reads : (rest : Bytes) → r (bytes ++ rest) ≡ ok (a, rest)

module _ {ℓ} {A : Type ℓ} where
  pub done : (a : A) → RoundTrip 0 no_bytes (pure a) a
  unfolding pure
  done a = record {
    bytes = [];
    reported = 0;
    wrote = refl;
    counted = omega arith;
    reads = λ rest. refl;
  }

module _ {ℓ κ} {A : Type ℓ} {B : Type κ} {missed : ℕ} {w ws : Written} {r : Reader A} {a : A}
    {b : B} (k : A → Reader B) where
  pub then_field :
      RoundTrip 0 w r a → RoundTrip missed ws (k a) b → RoundTrip missed (w ▷ ws) (r >>= k) b
  unfolding ◌>>=◌ ◌▷◌
  then_field f g = record {
    bytes = f.bytes ++ g.bytes;
    reported = f.reported + g.reported;
    wrote = rw (f.wrote, g.wrote) refl;
    counted = omega (arith, length-append f.bytes g.bytes, f.counted, g.counted);
    reads = λ rest.
        rw (append_assoc f.bytes g.bytes rest, f.reads (g.bytes ++ rest), ◌>>=◌) (g.reads rest);
  }

-- A fixed array is taken off the front of the stream.
pub read_exact-append :
    (n : ℕ) (bs rest : Bytes) → length bs ≡ n → read_exact n (bs ++ rest) ≡ ok (bs, rest)
unfolding read_exact
read_exact-append n bs rest e =
    rw (ltb-false (length (bs ++ rest)) n (omega (arith, length-append bs rest)))
      (rw (take-append n bs rest e, drop-append n bs rest e) refl)

module _ {ℓ} {A : Type ℓ} where
  -- `let mut len = n` counts in advance what is written without being counted.
  pub counted_ahead :
      (n missed : ℕ) {w : Written} {r : Reader A} {a : A}
      → RoundTrip (n + missed) w r a
      → RoundTrip missed (count n ▷ w) r a
  unfolding ◌▷◌
  counted_ahead n missed g = record {
    bytes = g.bytes;
    reported = n + g.reported;
    wrote = rw g.wrote refl;
    counted = omega (arith, g.counted);
    reads = g.reads;
  }

  -- A field that is written by `write_all`, and not counted.
  pub then_uncounted {κ} :
      {B : Type κ} (n missed : ℕ) (bs : Bytes) {ws : Written} (r : Reader B) {b : B}
      (k : B → Reader A) {a : A}
      → length bs ≡ n
      → ((rest : Bytes) → r (bs ++ rest) ≡ ok (b, rest))
      → RoundTrip missed ws (k b) a
      → RoundTrip (n + missed) (write_all bs ▷ ws) (r >>= k) a
  unfolding ◌▷◌ ◌>>=◌
  then_uncounted n missed bs r k e reads g = record {
    bytes = bs ++ g.bytes;
    reported = 0 + g.reported;
    wrote = rw g.wrote refl;
    counted = omega (arith, length-append bs g.bytes, g.counted);
    reads =
        λ rest. rw (append_assoc bs g.bytes rest, reads (g.bytes ++ rest), ◌>>=◌) (g.reads rest);
  }

  -- The last field of a message, whose count may be off.
  pub last_field {κ} :
      {B : Type κ} {missed : ℕ} {w : Written} {r : Reader B} {b : B} (f : B → A)
      → RoundTrip missed w r b
      → RoundTrip missed (w ▷ no_bytes) (r >>= (λ x. pure (f x))) (f b)
  unfolding ◌▷◌ ◌>>=◌ pure
  last_field f g = record {
    bytes = g.bytes;
    reported = g.reported;
    wrote = rw (g.wrote, append-nil g.bytes, add-zero g.reported) refl;
    counted = g.counted;
    reads = λ rest. rw (g.reads rest, ◌>>=◌) refl;
  }

  -- What is read is passed through a function.
  pub map_field {κ} :
      {B : Type κ} {missed : ℕ} {w : Written} {r : Reader B} {b : B} (f : B → A)
      → RoundTrip missed w r b
      → RoundTrip missed w (r >>= (λ x. pure (f x))) (f b)
  unfolding ◌>>=◌ pure
  map_field f g = record {
    bytes = g.bytes;
    reported = g.reported;
    wrote = g.wrote;
    counted = g.counted;
    reads = λ rest. rw (g.reads rest, ◌>>=◌) refl;
  }

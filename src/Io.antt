-- ===== src/Io.antt =====
-- Rust's `io::Result`, and the streams that a message is written to and read from.
-- A panic (a failed `assert!` or `unwrap`) is a third outcome beside success and error.
-- A writer is a growing `Vec<u8>`: a write is what it appends and the count it reports.
-- A reader is a `&[u8]`: what is left of it stands beside what was read.
pub mod RoundTrip
use playit_agent.Common.{
  ℕ, zero, suc, ◌+◌, ◌<◌, List, [], ◌∷◌, ◌++◌, length, take, drop, ltb, if◌then◌else◌, Option, none,
  some,
}

-- `std::io::ErrorKind`, as far as the code makes such errors.
pub data IoError : Type 0 where
  unexpected_eof invalid_data invalid_input unsupported write_zero other : IoError

pub data Result {ℓ} (A : Type ℓ) : Type ℓ where
  ok : A → Result A
  err : IoError → Result A
  panicked : Result A

abbrev pub Bytes : Type 0
Bytes = List ℕ

abbrev pub Written : Type 0
Written = Result (Bytes × ℕ)

-- `sum += first?; sum += second?`
infixr 20 ◌▷◌
unfoldable pub ◌▷◌ : Written → Written → Written
ok (bs, n) ▷ ok (cs, m) = ok (bs ++ cs, n + m)
ok (bs, n) ▷ err e = err e
ok (bs, n) ▷ panicked = panicked
err e ▷ w = err e
panicked ▷ w = panicked

-- `let mut sum = 0` with nothing written.
abbrev pub no_bytes : Written
no_bytes = ok ([], 0)

-- `out.write_all(bytes)?` where the caller adds the count itself.
abbrev pub write_all : Bytes → Written
write_all bs = ok (bs, 0)

-- `sum += n` with nothing written.
abbrev pub count : ℕ → Written
count n = ok ([], n)

abbrev pub Reader {ℓ} : Type ℓ → Type ℓ
Reader A = Bytes → Result (A × Bytes)

module _ {ℓ} {A : Type ℓ} where
  unfoldable pub pure : A → Reader A
  pure a bs = ok (a, bs)

  unfoldable pub fail : IoError → Reader A
  fail e bs = err e

module _ {ℓ κ} {A : Type ℓ} {B : Type κ} where
  abbrev pub continue : Result (A × Bytes) → (A → Reader B) → Result (B × Bytes)
  continue (ok (a, rest)) k = k a rest
  continue (err e) k = err e
  continue panicked k = panicked

  infixl 5 ◌>>=◌ ◌>>◌
  unfoldable pub ◌>>=◌ : Reader A → (A → Reader B) → Reader B
  ◌>>=◌ m k bs = continue (m bs) k

  unfoldable pub ◌>>◌ : Reader A → Reader B → Reader B
  ◌>>◌ m k bs = continue (m bs) (λ _. k)

-- `read.read_exact(&mut buffer)` with a buffer of `n` bytes.
unfoldable pub read_exact : ℕ → Reader Bytes
read_exact n bs = if ltb (length bs) n then err unexpected_eof else ok (take n bs, drop n bs)

-- ===== src/Proto/Mtu/Verify.antt =====
-- The loop that checks the pattern accepts exactly the pattern.
use mathlib.Core.Path.{ap₂}
use playit_agent.Common.{
  ℕ, zero, suc, ◌+◌, ◌-◌, ◌%◌, ◌≤◌, ◌<◌, min, ◌≡◌, ◌≢◌, refl, sym, ap, ◌∙◌, inl, inr, Bool, true,
  false, ◌++◌, append_assoc, length, take, drop, arith, ltb, ltb-true, ltb-false, leb-true,
  leb-false, ◌↔◌, eq_bytes, eq_bytes_refl, Bool-cases, take-append-drop, take-append, drop-append,
  length-append, ltb→lt, ltb→ge, eq_bytes_sound, if◌then◌else◌,
}
use playit_agent.Io.{
  Result, ok, err, panicked, unexpected_eof, invalid_data, Bytes, read_exact, ◌>>=◌, fail,
}
use playit_agent.Io.RoundTrip.{RoundTrip}
use playit_agent.Proto.Mtu.{
  fill, mtu_test_pattern, write_mtu_pattern, expected_chunk, verify_loop, verify_mtu_pattern,
}
use playit_agent.Proto.Mtu.Pattern.{length-fill, take-fill, drop-fill, fill-append, fill_periodic}

-- A chunk at `i` is compared with the pattern at `i`.
expected_chunk-eq : (i size : ℕ) → size ≤ 128 → expected_chunk i size ≡ fill size i
unfolding expected_chunk mtu_test_pattern
expected_chunk-eq i size h =
    let k : ℕ = i % 4 in
    let e : k + (2048 - k) ≡ 2048 = omega arith in
    ap (λ (n : ℕ). take size (drop k (fill n 0))) (sym e)
    ∙ ap (take size) (drop-fill k (2048 - k) 0)
    ∙ take-fill size (2048 - k) (0 + k) (omega arith)
    ∙ fill_periodic size (0 + k) i (omega arith)

abbrev chunk : ℕ → ℕ → ℕ
chunk i len = min (len - i) 128

-- One round of the loop.
verify_round :
    (rounds i len : ℕ) (bs : Bytes)
    → i < len
    → verify_loop (suc rounds) i len bs ≡ (
        if ltb (length bs) (chunk i len)
        then err unexpected_eof
        else if eq_bytes (take (chunk i len) bs) (fill (chunk i len) i)
        then verify_loop rounds (i + chunk i len) len (drop (chunk i len) bs)
        else err invalid_data)
unfolding verify_loop ◌>>=◌ read_exact fail
verify_round rounds i len bs h =
    rw (ltb-true i len h, verify_loop)
      (rw (expected_chunk-eq i (chunk i len) (omega arith))
        (elim (Bool-cases (ltb (length bs) (chunk i len))) [
          | inl e ↦ rw e refl
          | inr e ↦
              rw e (elim (Bool-cases (eq_bytes (take (chunk i len) bs) (fill (chunk i len) i))) [
                | inl f ↦ rw f refl
                | inr f ↦ rw f refl
              ])
        ]))

verify_end :
    (rounds i len : ℕ) (bs : Bytes) → len ≤ i → verify_loop (suc rounds) i len bs ≡ ok (tt, bs)
unfolding verify_loop
verify_end rounds i len bs h = rw (ltb-false i len h, verify_loop)

-- What is left of the pattern from `i` on begins with the chunk of this round.
split_chunk :
    (i len : ℕ) (rest : Bytes)
    → fill (len - i) i ++ rest
      ≡ fill (chunk i len) i ++ (fill (len - (i + chunk i len)) (i + chunk i len) ++ rest)
split_chunk i len rest =
    let c : ℕ = chunk i len in
    let e : len - i ≡ c + (len - (i + c)) = omega arith in
    ap (λ (n : ℕ). fill n i ++ rest) e
    ∙ ap (λ (bs : Bytes). bs ++ rest) (fill-append c (len - (i + c)) i)
    ∙ append_assoc (fill c i) (fill (len - (i + c)) (i + c)) rest

-- The round accepts the chunk.
verify_round-fill :
    (rounds i len : ℕ) (rest : Bytes)
    → i < len
    → verify_loop (suc rounds) i len (fill (chunk i len) i ++ rest)
      ≡ verify_loop rounds (i + chunk i len) len rest
verify_round-fill rounds i len rest h =
    let c : ℕ = chunk i len in
    let n : length (fill c i) ≡ c = length-fill c i in
    verify_round rounds i len (fill c i ++ rest) h
    ∙ rw (ltb-false (length (fill c i ++ rest)) c (omega (arith, length-append (fill c i) rest))) (
        rw (take-append c (fill c i) rest n, drop-append c (fill c i) rest n)
          (rw (eq_bytes_refl (fill c i)) refl))

verify_loop-fill :
    (rounds i len : ℕ) (rest : Bytes)
    → len - i < rounds
    → i ≤ len
    → verify_loop rounds i len (fill (len - i) i ++ rest) ≡ ok (tt, rest)
verify_loop-fill zero i len rest h le = absurd (omega arith)
verify_loop-fill (suc rounds) i len rest h le = elim (Bool-cases (ltb i len)) [
  | inl more ↦
      ap (verify_loop (suc rounds) i len) (split_chunk i len rest)
      ∙ verify_round-fill rounds i len _ (ltb→lt i len more)
      ∙ verify_loop-fill rounds (i + chunk i len) len rest (omega (arith, ltb→lt i len more))
          (omega arith)
  | inr over ↦
      let e : len - i ≡ 0 = omega (arith, ltb→ge i len over) in
      verify_end rounds i len _ (ltb→ge i len over)
      ∙ ap (λ (n : ℕ). ok (tt, fill n i ++ rest)) e
      ∙ unfold fill in refl
]

-- A round that accepts has compared the chunk, and its next round accepts.
round_accepts :
    (short same : Bool) (next : Result (Unit {0} × Bytes)) {r : Unit {0} × Bytes}
    → (if short then err unexpected_eof else if same then next else err invalid_data) ≡ ok r
    → (same ≡ true) × (next ≡ ok r)
round_accepts true same next h = cc h
round_accepts false true next h = (refl, h)
round_accepts false false next h = cc h

-- What the loop accepts begins with the pattern.
verify_loop_sound :
    (rounds i len : ℕ) (bs rest : Bytes)
    → i ≤ len
    → verify_loop rounds i len bs ≡ ok (tt, rest)
    → bs ≡ fill (len - i) i ++ rest
unfolding fill
verify_loop_sound zero i len bs rest le h = unfold verify_loop in cc h
verify_loop_sound (suc rounds) i len bs rest le h = elim (Bool-cases (ltb i len)) [
  | inl more ↦
      let c : ℕ = chunk i len in
      let (same, next) =
        round_accepts _ _ _ (sym (verify_round rounds i len bs (ltb→lt i len more)) ∙ h) in
      sym (take-append-drop c bs)
      ∙ ap₂ ◌++◌ (eq_bytes_sound _ _ same)
          (verify_loop_sound rounds (i + c) len (drop c bs) rest (omega arith) next)
      ∙ sym (split_chunk i len rest)
  | inr over ↦
      let e : len - i ≡ 0 = omega (arith, ltb→ge i len over) in
      rw e (cc (verify_end rounds i len bs (ltb→ge i len over), h))
]

verify_loop-ne-panicked :
    (rounds i len : ℕ) (bs : Bytes) → len - i < rounds → verify_loop rounds i len bs ≢ panicked
verify_loop-ne-panicked zero i len bs h e = absurd (omega arith)
verify_loop-ne-panicked (suc rounds) i len bs h e = elim (Bool-cases (ltb i len)) [
  | inl more ↦
      let lt : i < len = ltb→lt i len more in
      verify_loop-ne-panicked rounds (i + chunk i len) len (drop (chunk i len) bs) (omega arith)
        (round_panics _ _ _ (sym (verify_round rounds i len bs lt) ∙ e))
  | inr over ↦ cc (verify_end rounds i len bs (ltb→ge i len over), e)
]
  where
    round_panics :
        (short same : Bool) (next : Result (Unit {0} × Bytes))
        → (if short then err unexpected_eof else if same then next else err invalid_data) ≡ panicked
        → next ≡ panicked
    round_panics true same next p = cc p
    round_panics false true next p = p
    round_panics false false next p = cc p

-- The check of an MTU message of any length runs to its end: it accepts or returns an error, and
-- its rounds, one for each byte and one more, do not run out.
pub verify_mtu_pattern-ne-panicked : (len : ℕ) (bs : Bytes) → verify_mtu_pattern len bs ≢ panicked
unfolding verify_mtu_pattern
verify_mtu_pattern-ne-panicked len bs = verify_loop-ne-panicked (suc len) 0 len bs (omega arith)

-- The check accepts exactly the streams that begin with `len` bytes of the repeated pattern, and
-- leaves what follows them.
pub verify_mtu_pattern_iff :
    (len : ℕ) (bs rest : Bytes)
    → (verify_mtu_pattern len bs ≡ ok (tt, rest)) ↔ (bs ≡ fill len 0 ++ rest)
unfolding verify_mtu_pattern
verify_mtu_pattern_iff len bs rest =
    let e : len - 0 ≡ len = omega arith in
    (
      λ h.
          verify_loop_sound (suc len) 0 len bs rest (omega arith) h
          ∙ ap (λ (n : ℕ). fill n 0 ++ rest) e,
      λ h.
          ap (verify_loop (suc len) 0 len) (h ∙ ap (λ (n : ℕ). fill n 0 ++ rest) (sym e))
          ∙ verify_loop-fill (suc len) 0 len rest (omega arith) (omega arith),
    )

-- The writer's bytes pass the check.
pub mtu_pattern-RoundTrip :
    (len : ℕ) → len ≤ 2048 → RoundTrip 0 (write_mtu_pattern len) (verify_mtu_pattern len) tt
unfolding write_mtu_pattern
mtu_pattern-RoundTrip len h = record {
  bytes = fill len 0;
  reported = len;
  wrote =
      rw (leb-true len 2048 h)
        (ap (λ (bs : Bytes). ok (bs, len)) (unfold mtu_test_pattern in take-fill len 2048 0 h));
  counted = omega (arith, length-fill len 0);
  reads = λ rest. (verify_mtu_pattern_iff len (fill len 0 ++ rest) rest).1 refl;
}

-- A longer pattern is refused by a panic.
pub write_mtu_pattern-panicked : (len : ℕ) → 2048 < len → write_mtu_pattern len ≡ panicked
unfolding write_mtu_pattern
write_mtu_pattern-panicked len h = rw (leb-false len 2048 h)

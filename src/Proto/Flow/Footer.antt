-- ===== src/Proto/Flow/Footer.antt =====
-- The footer that is written fills exactly the length that was asked for.
use playit_agent.Common.{
  ℕ, zero, suc, drop-drop, ◌+◌, ◌-◌, ◌≤◌, ◌≡◌, refl, sym, ap, ◌∙◌, inl, inr, Bool-cases, true,
  false, none, some, List, [], ◌∷◌, ◌++◌, append_assoc, drop, length, length-append, length-drop,
  ltb, ltb-false, ltb→ge, if◌then◌else◌, arith,
}
use playit_agent.Io.{ok, Bytes}
use playit_agent.Wire.{Wire, WireLaws}
use playit_agent.Proto.Flow.{
  UdpFlow, Fields, footer_len, footer_fields, write_fields, write_footer, tail_of, in_front,
  accepted,
}

unfoldable pub total : Fields → ℕ
total [] = 0
total ((w, n) ∷ fs) = w + total fs

-- `footer_len` is the number of bytes that `write_to` writes.
pub total-footer_fields : (f : UdpFlow) → total (footer_fields f) ≡ footer_len f
unfolding total footer_fields footer_len
total-footer_fields (UdpFlow.v4 src dst frag none) = refl
total-footer_fields (UdpFlow.v4 src dst none (some e)) = refl
total-footer_fields (UdpFlow.v4 src dst (some f) (some e)) = refl
total-footer_fields (UdpFlow.v6 src dst none) = refl
total-footer_fields (UdpFlow.v6 src dst (some e)) = refl

-- Cutting a list behind its first part and some more.
drop_further : {A : Type 0} (k : ℕ) (xs ys : List A) → drop (length xs + k) (xs ++ ys) ≡ drop k ys
drop_further k [] ys = let e : 0 + k ≡ k = omega arith in ap (λ (n : ℕ). drop n ys) e
drop_further k (x ∷ xs) ys =
    let e : suc (length xs) + k ≡ suc (length xs + k) = omega arith in
    ap (λ (n : ℕ). drop n (x ∷ (xs ++ ys))) e ∙ drop_further k xs ys

pub tail_of-append : (n : ℕ) (xs ys : Bytes) → n ≤ length ys → tail_of n (xs ++ ys) ≡ tail_of n ys
tail_of-append n xs ys h =
    let e : length (xs ++ ys) - n ≡ length xs + (length ys - n) =
      omega (arith, length-append xs ys) in
    ap (λ (m : ℕ). drop m (xs ++ ys)) e ∙ drop_further (length ys - n) xs ys

pub tail_of_self : (n : ℕ) (ys : Bytes) → length ys ≡ n → tail_of n ys ≡ ys
tail_of_self n ys e = let z : length ys - n ≡ 0 = omega arith in ap (λ (m : ℕ). drop m ys) z

-- The bytes of the fields.
module _ (wire : Wire) where
  unfoldable pub joined : Fields → Bytes
  joined [] = []
  joined ((w, n) ∷ fs) = wire.be_bytes w n ++ joined fs

module _ (wire : Wire) (laws : WireLaws wire) where
  open wire use {be_bytes}

  pub length-joined : (fs : Fields) → length (joined wire fs) ≡ total fs
  unfolding joined total
  length-joined [] = refl
  length-joined ((w, n) ∷ fs) = omega (
    arith,
    length-append (be_bytes w n) (joined wire fs),
    laws.length-be_bytes w n,
    length-joined fs,
  )

  tail_of_end :
      (n : ℕ) (payload : Bytes) (fs : Fields)
      → total fs ≡ n
      → tail_of n (payload ++ joined wire fs) ≡ joined wire fs
  tail_of_end n payload fs e =
      tail_of-append n payload (joined wire fs) (omega (arith, length-joined fs))
      ∙ tail_of_self n (joined wire fs) (omega (arith, length-joined fs))

  -- The last fields are the end of the slice.
  pub tail_of-joined :
      (k n : ℕ) (payload : Bytes) (fs : Fields)
      → total (drop k fs) ≡ n
      → tail_of n (payload ++ joined wire fs) ≡ joined wire (drop k fs)
  unfolding joined
  tail_of-joined zero n payload fs e = tail_of_end n payload fs e
  tail_of-joined (suc k) n payload [] e = tail_of_end n payload [] e
  tail_of-joined (suc k) n payload ((w, v) ∷ fs) e =
      ap (tail_of n) (sym (append_assoc payload (be_bytes w v) (joined wire fs)))
      ∙ tail_of-joined k n (payload ++ be_bytes w v) fs e

  write_fields-joined :
      (fs : Fields) (slice : Bytes)
      → total fs ≤ length slice
      → write_fields wire fs slice ≡ ok (joined wire fs ++ drop (total fs) slice)
  unfolding write_fields joined total
  write_fields-joined [] slice h = refl
  write_fields-joined ((w, n) ∷ fs) slice h = rw (ltb-false (length slice) w (omega arith)) (
      ap (in_front (be_bytes w n))
        (write_fields-joined fs (drop w slice) (omega (arith, length-drop w slice)))
      ∙ ap (λ (left : Bytes). ok (be_bytes w n ++ (joined wire fs ++ left)))
          (drop-drop w (total fs) slice)
      ∙ ap ok (sym (append_assoc (be_bytes w n) (joined wire fs) (drop (w + total fs) slice))))

  -- `write_to` never panics. Where the slice has room for the footer it returns true, the front of
  -- the slice is the footer and the rest is as it was; else it returns false and writes nothing.
  pub write_footer_lem :
      (f : UdpFlow) (slice : Bytes)
      → write_footer wire f slice ≡ (
          if ltb (length slice) (footer_len f)
          then ok (false, slice)
          else ok (true, joined wire (footer_fields f) ++ drop (footer_len f) slice))
  unfolding write_footer
  write_footer_lem f slice = elim (Bool-cases (ltb (length slice) (footer_len f))) [
    | inl short ↦ rw short refl
    | inr room ↦
        let e : total (footer_fields f) ≡ footer_len f = total-footer_fields f in
        rw room (
          ap accepted (write_fields-joined (footer_fields f) slice (omega (arith, ltb→ge _ _ room)))
          ∙ ap (λ (n : ℕ). ok (true, joined wire (footer_fields f) ++ drop n slice)) e)
  ]

-- ===== src/Slab/Lists.antt =====
-- A slab that is a list of slots, the lowest vacant slot the next to be taken.
use playit_agent.Common.{
  ℕ, zero, suc, ◌+◌, ◌<◌, ◌≡◌, refl, ap, Option, none, some, List, [], count, ◌∷◌, ◌==◌,
  if◌then◌else◌, arith,
}
use playit_agent.Slab.{SlabOps, SlabLaws, occupied}

module _ {T : Type 0} where
  abbrev pub get : ℕ → List (Option T) → Option T
  get i [] = none
  get zero (o ∷ os) = o
  get (suc i) (o ∷ os) = get i os

  abbrev pub vacant_key : List (Option T) → ℕ
  vacant_key [] = 0
  vacant_key (none ∷ os) = 0
  vacant_key (some t ∷ os) = suc (vacant_key os)

  abbrev pub insert : T → List (Option T) → List (Option T)
  insert t [] = some t ∷ []
  insert t (none ∷ os) = some t ∷ os
  insert t (some u ∷ os) = some u ∷ insert t os

  abbrev pub put : ℕ → Option T → List (Option T) → List (Option T)
  put i o [] = []
  put zero o (o' ∷ os) = o ∷ os
  put (suc i) o (o' ∷ os) = o' ∷ put i o os

  -- A write to a slot that is occupied.
  abbrev pub set : ℕ → T → List (Option T) → List (Option T)
  set i t [] = []
  set zero t (none ∷ os) = none ∷ os
  set zero t (some u ∷ os) = some t ∷ os
  set (suc i) t (o ∷ os) = o ∷ set i t os

  -- The occupied slots, the first slot being number `n`.
  abbrev pub slots_from : ℕ → List (Option T) → List ℕ
  slots_from n [] = []
  slots_from n (none ∷ os) = slots_from (suc n) os
  slots_from n (some t ∷ os) = n ∷ slots_from (suc n) os

  get-vacant_key : (os : List (Option T)) → get (vacant_key os) os ≡ none
  get-vacant_key [] = refl
  get-vacant_key (none ∷ os) = refl
  get-vacant_key (some t ∷ os) = get-vacant_key os

  get-insert :
      (t : T) (os : List (Option T)) (i : ℕ)
      → get i (insert t os) ≡ (if vacant_key os == i then some t else get i os)
  get-insert t [] zero = ground arith
  get-insert t [] (suc i) = ground arith
  get-insert t (none ∷ os) zero = refl
  get-insert t (none ∷ os) (suc i) = ground arith
  get-insert t (some u ∷ os) zero = ground arith
  get-insert t (some u ∷ os) (suc i) = grind (arith, get-insert t os i)

  get-set :
      (j : ℕ) (t u : T) (os : List (Option T)) (i : ℕ)
      → get j os ≡ some u
      → get i (set j t os) ≡ (if j == i then some t else get i os)
  get-set j t u [] i h = cc h
  get-set zero t u (none ∷ os) i h = cc h
  get-set zero t u (some v ∷ os) zero h = refl
  get-set zero t u (some v ∷ os) (suc i) h = ground arith
  get-set (suc j) t u (o ∷ os) zero h = ground arith
  get-set (suc j) t u (o ∷ os) (suc i) h = grind (arith, get-set j t u os i h)

  get-put :
      (j : ℕ) (os : List (Option T)) (i : ℕ)
      → get i (put j none os) ≡ (if j == i then none else get i os)
  get-put j [] i = ground arith
  get-put zero (o ∷ os) zero = refl
  get-put zero (o ∷ os) (suc i) = ground arith
  get-put (suc j) (o ∷ os) zero = ground arith
  get-put (suc j) (o ∷ os) (suc i) = grind (arith, get-put j os i)

  slots_from-set :
      (n j : ℕ) (t : T) (os : List (Option T)) → slots_from n (set j t os) ≡ slots_from n os
  slots_from-set n j t [] = refl
  slots_from-set n zero t (none ∷ os) = refl
  slots_from-set n zero t (some u ∷ os) = refl
  slots_from-set n (suc j) t (none ∷ os) = slots_from-set (suc n) j t os
  slots_from-set n (suc j) t (some u ∷ os) = ap (◌∷◌ n) (slots_from-set (suc n) j t os)

  count-slots_before : (n m : ℕ) (os : List (Option T)) → m < n → count m (slots_from n os) ≡ 0
  count-slots_before n m [] h = refl
  count-slots_before n m (none ∷ os) h = count-slots_before (suc n) m os (omega arith)
  count-slots_before n m (some t ∷ os) h =
      let later : count m (slots_from (suc n) os) ≡ 0 =
        count-slots_before (suc n) m os (omega arith) in
      ground arith

  count-slots :
      (n i m : ℕ) (os : List (Option T))
      → m ≡ n + i
      → count m (slots_from n os) ≡ occupied (get i os)
  count-slots n i m [] e = refl
  count-slots n zero m (none ∷ os) e = count-slots_before (suc n) m os (omega arith)
  count-slots n zero m (some t ∷ os) e =
      let later : count m (slots_from (suc n) os) ≡ 0 =
        count-slots_before (suc n) m os (omega arith) in
      ground arith
  count-slots n (suc i) m (none ∷ os) e = count-slots (suc n) i m os (omega arith)
  count-slots n (suc i) m (some t ∷ os) e =
      let later : count m (slots_from (suc n) os) ≡ occupied (get i os) =
        count-slots (suc n) i m os (omega arith) in
      ground arith

-- The slab over lists, and that it is one.
abbrev pub list_slab : (T : Type 0) → SlabOps T
list_slab T = record {
  Slab = List (Option T);
  empty = [];
  get = get;
  vacant_key = vacant_key;
  insert = insert;
  set = set;
  remove = λ i. put i none;
  slots = slots_from 0;
}

pub list_slab_laws : (T : Type 0) → SlabLaws (list_slab T)
list_slab_laws T = record {
  get-empty = λ i. refl;
  get-vacant_key = get-vacant_key;
  get-insert = get-insert;
  get-set = get-set;
  get-remove = get-put;
  slots-set = slots_from-set 0;
  count-slots = λ s i. count-slots 0 i i s (omega arith);
}

-- ===== src/Slab.antt =====
-- The crate `slab`, which is not part of the repository: values in numbered slots. It is a parameter
-- of what is built on it, with the laws of `SlabLaws`.
pub mod Lists
use playit_agent.Common.{
  ℕ, ◌+◌, ◌≡◌, refl, ap, ◌∙◌, eq_true, arith, Option, none, some, List, [], ◌∷◌, length, ◌==◌,
  count, if◌then◌else◌,
}

pub record SlabOps (T : Type 0) : Type 1 where
  pub Slab : Type 0
  pub empty : Slab
  pub get : ℕ → Slab → Option T
  -- `vacant_entry().key()`, and `vacant_entry().insert(t)`
  pub vacant_key : Slab → ℕ
  pub insert : T → Slab → Slab
  -- What is written through `get_mut`, to a slot that is occupied.
  pub set : ℕ → T → Slab → Slab
  pub remove : ℕ → Slab → Slab
  -- The slots of `iter`, in its order.
  pub slots : Slab → List ℕ

abbrev pub occupied {ℓ} : {A : Type ℓ} → Option A → ℕ
occupied none = 0
occupied (some a) = 1

module _ {T : Type 0} (slab : SlabOps T) where
  open slab use {get, vacant_key, insert, set, remove, slots}

  -- What is assumed of the crate: a slot holds what was last put there, the vacant slot is vacant, and
  -- the iteration meets every occupied slot once.
  pub record SlabLaws : Type 0 where
    pub get-empty : (i : ℕ) → get i slab.empty ≡ none
    pub get-vacant_key : (s : slab.Slab) → get (vacant_key s) s ≡ none
    pub get-insert :
        (t : T) (s : slab.Slab) (i : ℕ)
        → get i (insert t s) ≡ (if vacant_key s == i then some t else get i s)
    pub get-set :
        (j : ℕ) (t u : T) (s : slab.Slab) (i : ℕ)
        → get j s ≡ some u
        → get i (set j t s) ≡ (if j == i then some t else get i s)
    pub get-remove :
        (j : ℕ) (s : slab.Slab) (i : ℕ) → get i (remove j s) ≡ (if j == i then none else get i s)
    pub slots-set : (j : ℕ) (t : T) (s : slab.Slab) → slots (set j t s) ≡ slots s
    pub count-slots : (s : slab.Slab) (i : ℕ) → count i (slots s) ≡ occupied (get i s)

-- `len`
abbrev pub slab_len : {T : Type 0} (slab : SlabOps T) → slab.Slab → ℕ
slab_len slab s = length (slab.slots s)

-- An empty slab has no slots.
pub slab_len-empty : {T : Type 0} (slab : SlabOps T) → SlabLaws slab → slab_len slab slab.empty ≡ 0
slab_len-empty slab laws =
    uncounted (slab.slots slab.empty)
      (λ i. laws.count-slots slab.empty i ∙ ap occupied (laws.get-empty i))
  where
    uncounted : (l : List ℕ) → ((i : ℕ) → count i l ≡ 0) → length l ≡ 0
    uncounted [] none_of = refl
    uncounted (x ∷ xs) none_of =
        let first : 1 + count x xs ≡ 0 = rw (eq_true x x refl) at (none_of x) in
        absurd (omega arith)

-- ===== src/Prelude/Distinct.antt =====
-- Association lists in which each key stands once, built entry by entry.
use xrdhover.Prelude.{Bool-cases}
use mathlib.Core.Path.{sym, subst, ◌≡◌, refl}
use mathlib.Core.Bool.{false}
use mathlib.Core.Option.{none, some, some-injective}
use mathlib.Core.Logic.{inl, inr}
use mathlib.Core.List.{[], ◌∷◌, ◌++◌}
use native.Mathlib.Omega.{arith}
use xrdhover.Prelude.Lists.{All}
use xrdhover.Prelude.Text.{Text, text_eq, text_eq_iff}
use xrdhover.Prelude.Dict.{Dict, lookup, insert}

module _ {ℓ} {V : Type ℓ} where
  abbrev pub DistinctKeys : Dict V → Type 0
  DistinctKeys [] = Unit
  DistinctKeys ((k, v) ∷ m) = All (λ e. text_eq k e.0 ≡ false) m × DistinctKeys m

  lookup-snoc :
      (j k : Text) (v : V) (m : Dict V)
      → lookup j m ≡ none
      → text_eq k j ≡ false
      → lookup j (m ++ (k, v) ∷ []) ≡ none
  unfolding lookup
  lookup-snoc j k v [] h e = rw e refl
  lookup-snoc j k v ((i, w) ∷ m) h e = ground (arith, lookup-snoc j k v m, h, e)

  pub insert-fresh :
      (k : Text) (v : V) (m : Dict V) → lookup k m ≡ none → insert k v m ≡ m ++ (k, v) ∷ []
  unfolding lookup insert
  insert-fresh k v [] h = refl
  insert-fresh k v ((j, w) ∷ m) h = ground (arith, insert-fresh k v m, h)

-- No key of the second map stands in the first.
abbrev pub Fresh {ℓ κ} : {V : Type ℓ} {W : Type κ} → Dict W → Dict V → Type κ
Fresh dst m = All (λ e. lookup e.0 dst ≡ none) m

pub Fresh-snoc {ℓ κ} :
    {V : Type ℓ} {W : Type κ} (k : Text) (w : W) (dst : Dict W) (m : Dict V)
    → Fresh dst m
    → All (λ e. text_eq k e.0 ≡ false) m
    → Fresh (dst ++ (k, w) ∷ []) m
Fresh-snoc k w dst [] h d = tt
Fresh-snoc k w dst ((j, v) ∷ m) h d = (lookup-snoc j k w dst h.0 d.0, Fresh-snoc k w dst m h.1 d.1)

pub Fresh-nil {ℓ κ} : {V : Type ℓ} (W : Type κ) (m : Dict V) → Fresh {W = W} [] m
unfolding lookup
Fresh-nil W [] = tt
Fresh-nil W (e ∷ m) = (refl, Fresh-nil W m)

pub All-insert {ℓ} :
    {V : Type ℓ} (P : Text × V → Type 0) (k : Text) (v : V) (m : Dict V)
    → P (k, v)
    → All P m
    → All P (insert k v m)
unfolding insert
All-insert P k v [] p h = (p, tt)
All-insert P k v ((j, w) ∷ m) p h = elim (Bool-cases (text_eq j k)) [
  | inl q ↦ rw q (subst (λ (i : Text). P (i, v)) (sym ((text_eq_iff j k).0 q)) p, h.1)
  | inr q ↦ rw q (h.0, All-insert P k v m p h.1)
]

pub All-lookup {ℓ} :
    {V : Type ℓ} (P : Text × V → Type 0) (k : Text) (v : V) (m : Dict V)
    → All P m
    → lookup k m ≡ some v
    → P (k, v)
unfolding lookup
All-lookup {V = V} P k v [] h e = cc
All-lookup {V = V} P k v ((j, w) ∷ m) h e = elim (Bool-cases (text_eq j k)) [
  | inl q ↦
      subst (λ (i : Text). P (i, v)) ((text_eq_iff j k).0 q)
        (subst (λ (x : V). P (j, x)) (some-injective _ _ (rw q at e)) h.0)
  | inr q ↦ All-lookup P k v m h.1 (rw q at e)
]

pub DistinctKeys-insert {ℓ} :
    {V : Type ℓ} (k : Text) (v : V) (m : Dict V) → DistinctKeys m → DistinctKeys (insert k v m)
unfolding insert
DistinctKeys-insert k v [] d = (tt, tt)
DistinctKeys-insert k v ((j, w) ∷ m) d = elim (Bool-cases (text_eq j k)) [
  | inl q ↦ rw q d
  | inr q ↦
      rw q (All-insert (λ e. text_eq j e.0 ≡ false) k v m q d.0, DistinctKeys-insert k v m d.1)
]

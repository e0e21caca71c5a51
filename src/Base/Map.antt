-- ===== src/Base/Map.antt =====
-- Go maps with text keys: association lists in insertion order, one entry for each key.
use Prim.Native.Nat.{◌+◌, ◌≤◌}
use mathlib.Core.Path.{◌≡◌, refl, subst}
use mathlib.Core.Logic.{◌≢◌, inl, inr}
use mathlib.Core.Bool.{true}
use mathlib.Core.Option.{Option, none, some}
use mathlib.Core.List.{List, [], ◌∷◌}
use native.Mathlib.Omega.{arith}
use gsm_system.Base.Tests.{if◌then◌else◌, Bool-cases}
use gsm_system.Base.Lists.{length, All}
use gsm_system.Base.Text.{Text, eqb, eqb_iff}

module _ {ℓ} {V : Type ℓ} where
  -- m[k]
  unfoldable pub find : Text → List (Text × V) → Option V
  find k [] = none
  find k ((j, v) ∷ m) = if eqb j k then some v else find k m

  -- m[k] = v
  unfoldable pub put : Text → V → List (Text × V) → List (Text × V)
  put k v [] = (k, v) ∷ []
  put k v ((j, w) ∷ m) = let rest = put k v m in if eqb j k then (k, v) ∷ m else (j, w) ∷ rest

  -- delete(m, k)
  unfoldable pub delete : Text → List (Text × V) → List (Text × V)
  delete k [] = []
  delete k ((j, w) ∷ m) = let rest = delete k m in if eqb j k then m else (j, w) ∷ rest

  -- The key is not in the map.
  abbrev pub Lacks : Text → List (Text × V) → Type 0
  Lacks k m = All (λ e. e.0 ≢ k) m

  abbrev pub HasDistinctKeys : List (Text × V) → Type 0
  HasDistinctKeys [] = Unit
  HasDistinctKeys ((k, v) ∷ m) = Lacks k m × HasDistinctKeys m

module _ {ℓ} {V : Type ℓ} where
  pub find-put :
      (k j : Text) (v : V) (m : List (Text × V))
      → find j (put k v m) ≡ (if eqb k j then some v else find j m)
  unfolding find put
  find-put k j v [] = refl
  find-put k j v ((i, w) ∷ m) =
      ground (arith, eqb_iff k j, eqb_iff i k, eqb_iff i j, find-put k j v m)

  pub find-Lacks : (k : Text) (m : List (Text × V)) → Lacks k m → find k m ≡ none
  unfolding find
  find-Lacks k [] h = refl
  find-Lacks k ((j, w) ∷ m) h = ground (arith, eqb_iff j k, find-Lacks k m h.1)

  pub find-delete :
      (k j : Text) (m : List (Text × V))
      → HasDistinctKeys m
      → find j (delete k m) ≡ (if eqb k j then none else find j m)
  unfolding find delete
  find-delete k j [] h = ground arith
  find-delete k j ((i, w) ∷ m) h =
      ground
        (arith, eqb_iff k j, eqb_iff i k, eqb_iff i j, find-delete k j m h.1, find-Lacks i m h.0)

  pub put-All {κ} :
      (P : Text × V → Type κ) (k : Text) (v : V) (m : List (Text × V))
      → P (k, v)
      → All P m
      → All P (put k v m)
  unfolding put
  put-All P k v [] p h = (p, tt)
  put-All P k v ((j, w) ∷ m) p h = elim (Bool-cases (eqb j k)) [
    | inl e ↦ rw e (p, h.1)
    | inr e ↦ rw e (h.0, put-All P k v m p h.1)
  ]

  pub delete-All {κ} :
      (P : Text × V → Type κ) (k : Text) (m : List (Text × V)) → All P m → All P (delete k m)
  unfolding delete
  delete-All P k [] h = h
  delete-All P k ((j, w) ∷ m) h = elim (Bool-cases (eqb j k)) [
    | inl e ↦ rw e h.1
    | inr e ↦ rw e (h.0, delete-All P k m h.1)
  ]

  pub put-HasDistinctKeys :
      (k : Text) (v : V) (m : List (Text × V)) → HasDistinctKeys m → HasDistinctKeys (put k v m)
  unfolding put
  put-HasDistinctKeys k v [] h = (tt, tt)
  put-HasDistinctKeys k v ((j, w) ∷ m) h = elim (Bool-cases (eqb j k)) [
    | inl e ↦ rw e (rw ((eqb_iff j k).0 e) at h)
    | inr e ↦ rw e (
      put-All (λ e'. e'.0 ≢ j) k v m (λ same. ground (arith, eqb_iff j k)) h.0,
      put-HasDistinctKeys k v m h.1,
    )
  ]

  pub delete-HasDistinctKeys :
      (k : Text) (m : List (Text × V)) → HasDistinctKeys m → HasDistinctKeys (delete k m)
  unfolding delete
  delete-HasDistinctKeys k [] h = h
  delete-HasDistinctKeys k ((j, w) ∷ m) h = elim (Bool-cases (eqb j k)) [
    | inl e ↦ rw e h.1
    | inr e ↦ rw e (delete-All (λ e'. e'.0 ≢ j) k m h.0, delete-HasDistinctKeys k m h.1)
  ]

  same_entry :
      {j k : Text} {w v : V} → eqb j k ≡ true → some w ≡ some v → ◌≡◌ {A = Text × V} (j, w) (k, v)
  same_entry {j} {k} s e = ground (arith, eqb_iff j k)

  pub find-All {κ} :
      (P : Text × V → Type κ) (k : Text) (m : List (Text × V)) {v : V}
      → All P m
      → find k m ≡ some v
      → P (k, v)
  unfolding find
  find-All P k [] h e = absurd (cc)
  find-All P k ((j, w) ∷ m) {v} h e = elim (Bool-cases (eqb j k)) [
    | inl s ↦ subst P (same_entry s (rw (s, find) at e)) h.0
    | inr s ↦ find-All P k m h.1 (rw (s, find) at e)
  ]

  pub length-put :
      (k : Text) (v : V) (m : List (Text × V))
      → length (put k v m) ≡ (elim (find k m) [ none ↦ length m + 1 | some _ ↦ length m ])
  unfolding find put
  length-put k v [] = omega arith
  length-put k v ((j, w) ∷ m) = ground (arith, length-put k v m)

  pub length-delete : (k : Text) (m : List (Text × V)) → length (delete k m) ≤ length m
  unfolding delete
  length-delete k [] = omega arith
  length-delete k ((j, w) ∷ m) = ground (arith, length-delete k m)

-- ===== src/Parser/Merge/Laws.antt =====
-- internal/parser/sms.go: every request keeps one message, in the order of its first report.
use gsm_system.Base.{
  ◌≡◌, ◌≢◌, refl, sym, ap, subst, ◌∙◌, inl, inr, false, List, [], ◌∷◌, ◌++◌, map, All, arith,
  Bool-cases, if◌then◌else◌, append-nil,
}
use gsm_system.Base.Text.{Text, eqb, eqb_iff, eqb_refl}
use gsm_system.Parser.Notice.{Candidate}
use gsm_system.Parser.Merge.{Entry, merge_entry, absorb, absorb_all}

abbrev pub identities : List Entry → List Text
identities es = map (λ e. e.identity) es

abbrev pub identities_of : List Candidate → List Text
identities_of cs = map (λ c. c.identity) cs

unfoldable pub without : Text → List Text → List Text
without i [] = []
without i (j ∷ js) = let rest = without i js in if eqb j i then rest else j ∷ rest

-- Each text once, where it stands first.
unfoldable pub once : List Text → List Text
unfolding without
once [] = []
once (i ∷ is) = i ∷ without i (once is)

abbrev pub AreDistinct : List Text → Type 0
AreDistinct [] = Unit
AreDistinct (i ∷ is) = All (λ j. j ≢ i) is × AreDistinct is

without-lacks : (i : Text) (js : List Text) → All (λ j. j ≢ i) (without i js)
unfolding without
without-lacks i [] = tt
without-lacks i (j ∷ js) = elim (Bool-cases (eqb j i)) [
  | inl e ↦ rw e (without-lacks i js)
  | inr e ↦ rw e ((λ s. ground (arith, eqb_iff j i)), without-lacks i js)
]

without-All : (P : Text → Type 0) (i : Text) (js : List Text) → All P js → All P (without i js)
unfolding without
without-All P i [] h = tt
without-All P i (j ∷ js) h = elim (Bool-cases (eqb j i)) [
  | inl e ↦ rw e (without-All P i js h.1)
  | inr e ↦ rw e (h.0, without-All P i js h.1)
]

without-AreDistinct : (i : Text) (js : List Text) → AreDistinct js → AreDistinct (without i js)
unfolding without
without-AreDistinct i [] h = tt
without-AreDistinct i (j ∷ js) h = elim (Bool-cases (eqb j i)) [
  | inl e ↦ rw e (without-AreDistinct i js h.1)
  | inr e ↦ rw e (without-All (λ k. k ≢ j) i js h.0, without-AreDistinct i js h.1)
]

pub once-AreDistinct : (is : List Text) → AreDistinct (once is)
unfolding once
once-AreDistinct [] = tt
once-AreDistinct (i ∷ is) =
    (without-lacks i (once is), without-AreDistinct i (once is) (once-AreDistinct is))

-- What a round does to the identities.
add : Text → List Text → List Text
add i [] = i ∷ []
add i (j ∷ js) = let rest = add i js in if eqb j i then j ∷ js else j ∷ rest

add_all : List Text → List Text → List Text
add_all [] js = js
add_all (i ∷ is) js = add_all is (add i js)

identity-merge_entry : (c : Candidate) (e : Entry) → (merge_entry c e).identity ≡ e.identity
unfolding merge_entry
identity-merge_entry c e = ground arith

identities-absorb :
    (c : Candidate) (es : List Entry) → identities (absorb c es) ≡ add c.identity (identities es)
unfolding absorb add
identities-absorb c [] = refl
identities-absorb c (e ∷ es) = elim (Bool-cases (eqb e.identity c.identity)) [
  | inl h ↦ rw h (ap (λ i. i ∷ identities es) (identity-merge_entry c e))
  | inr h ↦ rw h (ap (λ is. e.identity ∷ is) (identities-absorb c es))
]

identities-absorb_all :
    (cs : List Candidate) (es : List Entry)
    → identities (absorb_all cs es) ≡ add_all (identities_of cs) (identities es)
unfolding absorb_all add_all
identities-absorb_all [] es = refl
identities-absorb_all (c ∷ cs) es =
    identities-absorb_all cs (absorb c es)
    ∙ ap (λ js. add_all (identities_of cs) js) (identities-absorb c es)

-- The texts that are not among `js`.
others : List Text → List Text → List Text
others [] xs = xs
others (j ∷ js) xs = others js (without j xs)

without_twice : (i : Text) (xs : List Text) → without i (without i xs) ≡ without i xs
unfolding without
without_twice i [] = refl
without_twice i (x ∷ xs) = elim (Bool-cases (eqb x i)) [
  | inl e ↦ rw e (without_twice i xs)
  | inr e ↦ rw e (rw e (ap (λ l. x ∷ l) (without_twice i xs)))
]

without_comm : (i j : Text) (xs : List Text) → without i (without j xs) ≡ without j (without i xs)
unfolding without
without_comm i j [] = refl
without_comm i j (x ∷ xs) = ground (arith, without_comm i j xs)

others-nil : (js : List Text) → others js [] ≡ []
unfolding others without
others-nil [] = refl
others-nil (j ∷ js) = others-nil js

without_self : (i : Text) (l : List Text) → without i (i ∷ l) ≡ without i l
unfolding without
without_self i l = rw (eqb_refl i)

without_other : (i j : Text) (l : List Text) → eqb i j ≡ false → without i (j ∷ l) ≡ j ∷ without i l
unfolding without
without_other i j l h = ground (arith, eqb_iff i j, eqb_iff j i)

-- Behind a round for `i`, the texts that are not yet there.
add-once :
    (i : Text) (js xs : List Text)
    → add i js ++ others (add i js) xs ≡ js ++ others js (i ∷ without i xs)
unfolding add others
add-once i [] xs = refl
add-once i (j ∷ js) xs = elim (Bool-cases (eqb j i)) [
  | inl e ↦ rw e (ap (λ l. j ∷ (js ++ others js l)) (same ((eqb_iff j i).0 e)))
  | inr e ↦ rw e (
      ap (λ l. j ∷ l)
        (add-once i js (without j xs)
          ∙ ap (λ l. js ++ others js (i ∷ l)) (without_comm i j xs)
          ∙ ap (λ l. js ++ others js l) (sym (without_other j i (without i xs) e))))
]
  where
    same : j ≡ i → without j xs ≡ without j (i ∷ without i xs)
    same h =
        subst (λ k. without k xs ≡ without k (i ∷ without i xs)) (sym h)
          (sym (without_self i (without i xs) ∙ without_twice i xs))

add_all-once : (is js : List Text) → add_all is js ≡ js ++ others js (once is)
unfolding add_all once
add_all-once [] js = sym (ap (λ l. js ++ l) (others-nil js) ∙ append-nil js)
add_all-once (i ∷ is) js = add_all-once is (add i js) ∙ add-once i js (once is)

-- The messages' identities are those of the candidates, each once, in the order of its first report.
pub identities-absorb_all-once :
    (cs : List Candidate) → identities (absorb_all cs []) ≡ once (identities_of cs)
unfolding others
identities-absorb_all-once cs = identities-absorb_all cs [] ∙ add_all-once (identities_of cs) []

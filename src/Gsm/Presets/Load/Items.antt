-- ===== src/Gsm/Presets/Load/Items.antt =====
-- Loading a list of valid presets with distinct identifiers, and the sorted list of a map's values.
use gsm_system.Base.{
  ◌+◌, ◌≡◌, ◌≢◌, refl, sym, ap, ◌∙◌, true, false, List, [], ◌∷◌, Option, none, some, All, length,
  if◌then◌else◌, arith, Bool-cases, inl, inr,
}
use gsm_system.Base.Text.{Text, eqb, eqb_iff, less}
use gsm_system.Base.Map.{find, put, HasDistinctKeys, Lacks, find-put}
use gsm_system.Gsm.Presets.{Preset, valid_preset, insert_by_id, sort_by_id, values}
use gsm_system.Gsm.Presets.Invariant.{IsEntry, IsSound}
use gsm_system.Gsm.Presets.Load.{load_items}
use gsm_system.Gsm.Presets.Load.Sound.{AllValid}

find_id : Text → List Preset → Option Preset
find_id k [] = none
find_id k (p ∷ ps) = if eqb p.id k then some p else find_id k ps

abbrev HasDistinctIds : List Preset → Type 0
HasDistinctIds [] = Unit
HasDistinctIds (p ∷ ps) = All (λ q. q.id ≢ p.id) ps × HasDistinctIds ps

abbrev or_else : Option Preset → Option Preset → Option Preset
or_else none o = o
or_else (some p) o = some p

less_irrefl : (s : Text) → less s s ≡ false
unfolding less
less_irrefl [] = refl
less_irrefl (c ∷ s) = ground (arith, less_irrefl s)

find_id-insert_by_id :
    (k : Text) (p : Preset) (l : List Preset)
    → find_id k (insert_by_id p l) ≡ (if eqb p.id k then some p else find_id k l)
unfolding find_id insert_by_id
find_id-insert_by_id k p [] = refl
find_id-insert_by_id k p (q ∷ l) =
    ground (arith, find_id-insert_by_id k p l, eqb_iff p.id k, eqb_iff q.id k, less_irrefl k)

find_id-sort_by_id : (k : Text) (l : List Preset) → find_id k (sort_by_id l) ≡ find_id k l
unfolding find_id sort_by_id
find_id-sort_by_id k [] = refl
find_id-sort_by_id k (p ∷ l) =
    find_id-insert_by_id k p (sort_by_id l)
    ∙ ap (λ o. if eqb p.id k then some p else o) (find_id-sort_by_id k l)

find_id-values :
    (k : Text) (m : List (Text × Preset)) → All IsEntry m → find_id k (values m) ≡ find k m
unfolding find_id find
find_id-values k [] h = refl
find_id-values k ((j, p) ∷ m) h = rw (h.0.0, find_id-values k m h.1)

insert_by_id-All :
    (P : Preset → Type 0) (p : Preset) (l : List Preset) → P p → All P l → All P (insert_by_id p l)
unfolding insert_by_id
insert_by_id-All P p [] h k = (h, tt)
insert_by_id-All P p (q ∷ l) h k = elim (Bool-cases (less q.id p.id)) [
  | inl e ↦ rw e (k.0, insert_by_id-All P p l h k.1)
  | inr e ↦ rw e (h, k)
]

pub sort_by_id-All : (P : Preset → Type 0) (l : List Preset) → All P l → All P (sort_by_id l)
unfolding sort_by_id
sort_by_id-All P [] h = h
sort_by_id-All P (p ∷ l) h = insert_by_id-All P p (sort_by_id l) h.0 (sort_by_id-All P l h.1)

insert_by_id-HasDistinctIds :
    (p : Preset) (l : List Preset)
    → All (λ q. q.id ≢ p.id) l
    → HasDistinctIds l
    → HasDistinctIds (insert_by_id p l)
unfolding insert_by_id
insert_by_id-HasDistinctIds p [] h k = (tt, tt)
insert_by_id-HasDistinctIds p (q ∷ l) h k = elim (Bool-cases (less q.id p.id)) [
  | inl e ↦ rw e (
    insert_by_id-All (λ r. r.id ≢ q.id) p l (λ s. h.0 (sym s)) k.0,
    insert_by_id-HasDistinctIds p l h.1 k.1,
  )
  | inr e ↦ rw e (h, k)
]

sort_by_id-HasDistinctIds : (l : List Preset) → HasDistinctIds l → HasDistinctIds (sort_by_id l)
unfolding sort_by_id
sort_by_id-HasDistinctIds [] h = h
sort_by_id-HasDistinctIds (p ∷ l) h =
    insert_by_id-HasDistinctIds p (sort_by_id l) (sort_by_id-All (λ q. q.id ≢ p.id) l h.0)
      (sort_by_id-HasDistinctIds l h.1)

length-insert_by_id : (p : Preset) (l : List Preset) → length (insert_by_id p l) ≡ length l + 1
unfolding insert_by_id
length-insert_by_id p [] = omega arith
length-insert_by_id p (q ∷ l) = ground (arith, length-insert_by_id p l)

length-sort_by_id : (l : List Preset) → length (sort_by_id l) ≡ length l
unfolding sort_by_id
length-sort_by_id [] = refl
length-sort_by_id (p ∷ l) = omega (arith, length-insert_by_id p (sort_by_id l), length-sort_by_id l)

length-values : (m : List (Text × Preset)) → length (values m) ≡ length m
length-values [] = refl
length-values (e ∷ m) = omega (arith, length-values m)

values-Lacks :
    (k : Text) (m : List (Text × Preset))
    → All IsEntry m
    → Lacks k m
    → All (λ q. q.id ≢ k) (values m)
values-Lacks k [] h l = tt
values-Lacks k ((j, p) ∷ m) h l = ((λ e. l.0 (sym h.0.0 ∙ e)), values-Lacks k m h.1 l.1)

values-HasDistinctIds :
    (m : List (Text × Preset)) → All IsEntry m → HasDistinctKeys m → HasDistinctIds (values m)
values-HasDistinctIds [] h d = tt
values-HasDistinctIds ((k, p) ∷ m) h d =
    (rw h.0.0 (values-Lacks k m h.1 d.0), values-HasDistinctIds m h.1 d.1)

values-AllValid : (m : List (Text × Preset)) → All IsEntry m → AllValid (values m)
values-AllValid [] h = tt
values-AllValid ((k, p) ∷ m) h = (h.0.1, values-AllValid m h.1)

fresh-put :
    (p : Preset) (m : List (Text × Preset)) (l : List Preset)
    → All (λ q. q.id ≢ p.id) l
    → All (λ q. find q.id m ≡ none) l
    → All (λ q. find q.id (put p.id p m) ≡ none) l
fresh-put p m [] d f = tt
fresh-put p m (q ∷ l) d f =
    (ground (arith, find-put p.id q.id p m, eqb_iff p.id q.id), fresh-put p m l d.1 f.1)

find_id-absent : (k : Text) (l : List Preset) → All (λ q. q.id ≢ k) l → find_id k l ≡ none
unfolding find_id
find_id-absent k [] d = refl
find_id-absent k (q ∷ l) d = ground (arith, eqb_iff q.id k, find_id-absent k l d.1)

first_then_rest :
    (k : Text) (p : Preset) (l : List Preset) (m : List (Text × Preset))
    → All (λ q. q.id ≢ p.id) l
    → or_else (find_id k l) (find k (put p.id p m))
      ≡ or_else (if eqb p.id k then some p else find_id k l) (find k m)
first_then_rest k p l m d =
    ground (arith, find-put p.id k p m, eqb_iff p.id k, find_id-absent p.id l d)

load_items_lem :
    (m : List (Text × Preset)) (l : List Preset)
    → AllValid l
    → HasDistinctIds l
    → All (λ q. find q.id m ≡ none) l
    → (m' : List (Text × Preset)) × (load_items m l ≡ some m')
      × ((k : Text) → find k m' ≡ or_else (find_id k l) (find k m))
unfolding load_items find_id
load_items_lem m [] v d f = (m, refl, λ k. refl)
load_items_lem m (p ∷ l) v d f =
    let (m', e, same) = load_items_lem (put p.id p m) l v.1 d.1 (fresh-put p m l d.0 f.1) in
    (m', rw (v.0, f.0, load_items) e, λ k. same k ∙ first_then_rest k p l m d.0)

nothing_there : (l : List Preset) → All (λ q. find {V = Preset} q.id [] ≡ none) l
unfolding find
nothing_there [] = tt
nothing_there (q ∷ l) = (refl, nothing_there l)

or_else-none : (o : Option Preset) → or_else o none ≡ o
or_else-none none = refl
or_else-none (some p) = refl

-- Loading the sorted values of a sound map gives a map with the same bindings.
pub load_items-sort_by_id :
    (m : List (Text × Preset))
    → IsSound m
    → (m' : List (Text × Preset)) × (load_items [] (sort_by_id (values m)) ≡ some m')
      × ((k : Text) → find k m' ≡ find k m)
unfolding find
load_items-sort_by_id m h =
    let (m', e, same) =
      load_items_lem [] (sort_by_id (values m))
        (sort_by_id-All (λ p. valid_preset p ≡ true) (values m) (values-AllValid m h.entries))
        (sort_by_id-HasDistinctIds (values m) (values-HasDistinctIds m h.entries h.distinct))
        (nothing_there (sort_by_id (values m))) in
    (
      m',
      e,
      λ k. same k ∙ or_else-none _ ∙ find_id-sort_by_id k (values m) ∙ find_id-values k m h.entries,
    )

pub length-sort_by_id-values :
    (m : List (Text × Preset)) → length (sort_by_id (values m)) ≡ length m
length-sort_by_id-values m = length-sort_by_id (values m) ∙ length-values m

-- ===== src/Parser/Merge/Summary.antt =====
-- internal/parser/sms.go: what a message is made of, out of the reports of its request alone.
use mathlib.Core.Path.{fun_ext}
use gsm_system.Base.{
  ℕ, ◌≡◌, ◌≢◌, refl, sym, ap, ◌∙◌, Bool, true, false, List, [], ◌∷◌, Option, none, some, map, All,
  arith, if◌then◌else◌,
}
use gsm_system.Base.Text.{Text, eqb, eqb_iff, eqb_refl}
use gsm_system.Parser.Party.{Sms, empty_sms, or_else, merge_sms, apply_structured_sms}
use gsm_system.Parser.Notice.{Candidate}
use gsm_system.Parser.Merge.{
  Entry, entry_of, merge_entry, absorb, absorb_all, candidates_of, parse_smqueue_log,
}
use gsm_system.Parser.Merge.Laws.{
  identities, identities_of, once, AreDistinct, once-AreDistinct, identities-absorb_all-once,
}

-- The reports of one request, in order.
unfoldable pub about : Text → List Candidate → List Candidate
about i [] = []
about i (c ∷ cs) = let rest = about i cs in if eqb c.identity i then c ∷ rest else rest

-- The first value that is not empty.
unfoldable pub earliest : (Sms → Text) → List Candidate → Text
earliest value [] = []
earliest value (c ∷ cs) = or_else (value c.sms) (earliest value cs)

unfoldable pub first_structured : List Candidate → Option Sms
first_structured [] = none
first_structured (c ∷ cs) =
    let rest = first_structured cs in if c.structured then some c.sms else rest

-- The reports up to the first structured one, that one included.
unfoldable pub up_to_structured : List Candidate → List Candidate
up_to_structured [] = []
up_to_structured (c ∷ cs) =
    let rest = up_to_structured cs in if c.structured then c ∷ [] else c ∷ rest

abbrev pub told_by : Option Sms → List Candidate → Sms
told_by none cs = record {
  time = earliest (λ s. s.time) cs;
  text = earliest (λ s. s.text) cs;
  sender_number = earliest (λ s. s.sender_number) cs;
  sender_imsi = earliest (λ s. s.sender_imsi) cs;
  receiver_number = earliest (λ s. s.receiver_number) cs;
  receiver_imsi = earliest (λ s. s.receiver_imsi) cs;
}
told_by (some s) cs = record s { time = earliest (λ s. s.time) (up_to_structured cs) }

-- What the reports of one request say: the first structured one alone, with the earliest time
-- known till then; with none structured, for each field the earliest value.
unfoldable pub told : List Candidate → Sms
unfolding earliest first_structured up_to_structured
told cs = told_by (first_structured cs) cs

merge_all : List Candidate → Entry → Entry
merge_all [] e = e
merge_all (c ∷ cs) e = merge_all cs (merge_entry c e)

merge_all-structured :
    (cs : List Candidate) (i : Text) (s : Sms)
    → merge_all cs (record { identity = i; sms = s; structured = true })
      ≡ record { identity = i; sms = s; structured = true }
unfolding merge_all
merge_all-structured [] i s = refl
merge_all-structured (c ∷ cs) i s = rw (merge_entry-structured c i s) (merge_all-structured cs i s)
  where
    merge_entry-structured :
        (c : Candidate) (i : Text) (s : Sms)
        → merge_entry c (record { identity = i; sms = s; structured = true })
          ≡ record { identity = i; sms = s; structured = true }
    merge_entry-structured c i s = unfold merge_entry in ground arith

or_else_assoc : (a b x : Text) → or_else (or_else a b) x ≡ or_else a (or_else b x)
or_else_assoc [] b x = refl
or_else_assoc (c ∷ a) b x = refl

or_else-nil : (a : Text) → or_else a [] ≡ a
or_else-nil [] = refl
or_else-nil (c ∷ a) = refl

abbrev with_flag : Bool → Text → ℕ → Sms → Candidate
with_flag b j p m = record { identity = j; position = p; sms = m; structured = b }

told_by-merge :
    (o : Option Sms) (i : Text) (q : ℕ) (s : Sms) (j : Text) (p : ℕ) (m : Sms) (cs : List Candidate)
    → told_by o (with_flag false i q (merge_sms s m) ∷ cs)
      ≡ told_by o (with_flag false i q s ∷ with_flag false j p m ∷ cs)
unfolding earliest up_to_structured merge_sms
told_by-merge none i q s j p m cs = simp or_else_assoc
told_by-merge (some t) i q s j p m cs = simp or_else_assoc

abbrev unstructured : Text → Sms → Entry
unstructured i s = record { identity = i; sms = s; structured = false }

merge_all-told_step :
    (b : Bool) (j : Text) (p : ℕ) (m : Sms) (cs : List Candidate) (i : Text) (q : ℕ) (s : Sms)
    → ((t : Sms) → (merge_all cs (unstructured i t)).sms ≡ told (with_flag false i q t ∷ cs))
    → (merge_all cs (merge_entry (with_flag b j p m) (unstructured i s))).sms
      ≡ told (with_flag false i q s ∷ with_flag b j p m ∷ cs)
unfolding told merge_entry apply_structured_sms
merge_all-told_step true j p m cs i q s ih =
    rw (merge_all-structured cs i (apply_structured_sms s m)) (simp or_else-nil)
merge_all-told_step false j p m cs i q s ih =
    ih (merge_sms s m) ∙ told_by-merge (first_structured cs) i q s j p m cs

merge_all-told :
    (cs : List Candidate) (i : Text) (q : ℕ) (s : Sms)
    → (merge_all cs (unstructured i s)).sms ≡ told (with_flag false i q s ∷ cs)
unfolding merge_all
merge_all-told [] i q s = unfold told in simp or_else-nil
merge_all-told (c ∷ cs) i q s =
    merge_all-told_step c.structured c.identity c.position c.sms cs i q s
      (λ t. merge_all-told cs i q t)

-- The entry of the identity, as `byIdentity` finds it.
find_entry : Text → List Entry → Option Entry
find_entry i [] = none
find_entry i (e ∷ es) = let rest = find_entry i es in if eqb e.identity i then some e else rest

join : Candidate → Option Entry → Entry
join c none = entry_of c
join c (some e) = merge_entry c e

join_all : List Candidate → Option Entry → Option Entry
join_all [] o = o
join_all (c ∷ cs) o = join_all cs (some (join c o))

identity-merge_entry : (c : Candidate) (e : Entry) → (merge_entry c e).identity ≡ e.identity
unfolding merge_entry
identity-merge_entry c e = ground arith

find_entry-absorb :
    (i : Text) (c : Candidate) (es : List Entry)
    → find_entry i (absorb c es)
      ≡ (if eqb c.identity i then some (join c (find_entry i es)) else find_entry i es)
unfolding find_entry absorb join
find_entry-absorb i c [] = refl
find_entry-absorb i c (e ∷ es) = ground (
  arith,
  find_entry-absorb i c es,
  eqb_iff e.identity c.identity,
  eqb_iff e.identity i,
  eqb_iff c.identity i,
  identity-merge_entry c e,
)

join_all-if :
    (b : Bool) (c : Candidate) (cs : List Candidate) (o : Option Entry)
    → join_all cs (if b then some (join c o) else o) ≡ join_all (if b then c ∷ cs else cs) o
unfolding join_all
join_all-if true c cs o = refl
join_all-if false c cs o = refl

find_entry-absorb_all :
    (i : Text) (cs : List Candidate) (es : List Entry)
    → find_entry i (absorb_all cs es) ≡ join_all (about i cs) (find_entry i es)
unfolding absorb_all about join_all
find_entry-absorb_all i [] es = refl
find_entry-absorb_all i (c ∷ cs) es =
    find_entry-absorb_all i cs (absorb c es)
    ∙ ap (λ o. join_all (about i cs) o) (find_entry-absorb i c es)
    ∙ join_all-if (eqb c.identity i) c (about i cs) (find_entry i es)

abbrev sms_of : Option Entry → Sms
sms_of none = empty_sms
sms_of (some e) = e.sms

join_all-some : (cs : List Candidate) (e : Entry) → join_all cs (some e) ≡ some (merge_all cs e)
unfolding join_all merge_all join
join_all-some [] e = refl
join_all-some (c ∷ cs) e = join_all-some cs (merge_entry c e)

entry-told :
    (b : Bool) (j : Text) (p : ℕ) (m : Sms) (cs : List Candidate)
    → (merge_all cs (entry_of (with_flag b j p m))).sms ≡ told (with_flag b j p m ∷ cs)
unfolding told
entry-told true j p m cs = rw (merge_all-structured cs j m) (simp or_else-nil)
entry-told false j p m cs = merge_all-told cs j p m

sms_of-join_all : (cs : List Candidate) → sms_of (join_all cs none) ≡ told cs
unfolding join_all join
sms_of-join_all [] = unfold told in refl
sms_of-join_all (c ∷ cs) =
    ap sms_of (join_all-some cs (entry_of c))
    ∙ entry-told c.structured c.identity c.position c.sms cs

abbrev sms_in : List Entry → Text → Sms
sms_in es i = sms_of (find_entry i es)

map-agree :
    (e : Entry) (es : List Entry) (is : List Text)
    → All (λ j. j ≢ e.identity) is
    → map (sms_in (e ∷ es)) is ≡ map (sms_in es) is
map-agree e es [] h = refl
map-agree e es (i ∷ is) h =
    ap (λ s. s ∷ map (sms_in (e ∷ es)) is) (other h.0)
    ∙ ap (λ l. sms_in es i ∷ l) (map-agree e es is h.1)
  where
    other : i ≢ e.identity → sms_in (e ∷ es) i ≡ sms_in es i
    other n = unfold find_entry in ground (arith, eqb_iff e.identity i)

sms-map-identities :
    (es : List Entry)
    → AreDistinct (identities es)
    → map (λ e. e.sms) es ≡ map (sms_in es) (identities es)
sms-map-identities [] h = refl
sms-map-identities (e ∷ es) h =
    ap (λ l. e.sms ∷ l) (sms-map-identities es h.1 ∙ sym (map-agree e es (identities es) h.0))
    ∙ ap (λ s. s ∷ map (sms_in (e ∷ es)) (identities es)) self
  where
    self : e.sms ≡ sms_in (e ∷ es) e.identity
    self = unfold find_entry in (rw (eqb_refl e.identity))

absorb_all-told :
    (cs : List Candidate)
    → map (λ e. e.sms) (absorb_all cs []) ≡ map (λ i. told (about i cs)) (once (identities_of cs))
absorb_all-told cs =
    sms-map-identities (absorb_all cs []) distinct
    ∙ ap (λ is. map (sms_in (absorb_all cs [])) is) (identities-absorb_all-once cs)
    ∙ ap (λ f. map f (once (identities_of cs))) (fun_ext each)
  where
    distinct : AreDistinct (identities (absorb_all cs []))
    distinct = rw (identities-absorb_all-once cs) (once-AreDistinct (identities_of cs))

    each : (i : Text) → sms_in (absorb_all cs []) i ≡ told (about i cs)
    each i =
        unfold find_entry in
        ap sms_of (find_entry-absorb_all i cs []) ∙ sms_of-join_all (about i cs)

-- The parser gives one message for each request of each smqueue generation, in the order of its
-- first report, and what it says comes from the reports of that request alone: the first
-- structured record, with the earliest time known till then, or, where there is none, for each
-- field the earliest value that is not empty.
pub parse_smqueue_log-told :
    (log : Text)
    → parse_smqueue_log log
      ≡ map (λ i. told (about i (candidates_of log))) (once (identities_of (candidates_of log)))
unfolding parse_smqueue_log
parse_smqueue_log-told log = absorb_all-told (candidates_of log)

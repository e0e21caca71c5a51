-- ===== src/Parser/Sgsn.antt =====
-- internal/parser/ue.go: the addresses that the SGSN list assigns to IMSIs.
-- `fold` and `address` stand for unicode.ToLower above 127 and for net.ParseIP with its String.
use gsm_system.Base.{
  ℕ, ◌+◌, ◌≡◌, refl, sym, ap, subst, ◌∙◌, ◌⊎◌, inl, inr, Bool, true, false, ◌||◌, List, [], ◌∷◌,
  Option, none, some, take, drop, Bool-cases, ◌==◌, if◌then◌else◌,
}
use gsm_system.Base.Text.{
  Text, codes, eqb, eqb_iff, eqb_refl, is_empty, one_of, index_of, split, trim_space, trim,
}
use gsm_system.Base.Utf8.{fields}
use gsm_system.Base.Map.{find, put, find-put}
use gsm_system.Parser.Tmsi.{lower_text, is_none_word}

abbrev cut_value : ℕ → Bool
cut_value c =
    c == 32
    || c == b','
    || c == b';'
    || c == b'('
    || c == b')'
    || c == b'['
    || c == b']'
    || c == b'<'
    || c == b'>'

-- An assigned address is not replaced by none.
abbrev keep_or_put : Text → Text → Option Text → List (Text × Text) → List (Text × Text)
keep_or_put imsi ip none m = put imsi ip m
keep_or_put imsi ip (some _) m = if is_empty ip then m else put imsi ip m

module _ (fold : Text → Text) (address : Text → Option Text) where
  abbrev first_address : List Text → Text
  first_address [] = []
  first_address (c ∷ cs) = elim (address (trim_space c)) [ none ↦ first_address cs | some ip ↦ ip ]

  unfoldable pub first_valid_ip : Text → Text
  unfolding split
  first_valid_ip value = if is_none_word value then [] else first_address (split b',' value)

  -- One token of a line, with the IMSI and the address seen so far.
  abbrev keyed : Text → Text → Text × Text → Text × Text
  keyed key value (imsi, ip) =
      if eqb key (codes "imsi")
      then (trim cut_value value, ip)
      else if one_of (codes "ip" ∷ codes "ips" ∷ []) key
      then (imsi, trim cut_value value)
      else (imsi, ip)

  abbrev token_of : Text → Option ℕ → Text × Text → Text × Text
  token_of tok none seen = seen
  token_of tok (some i) seen = keyed (lower_text fold (take i tok)) (drop (i + 1) tok) seen

  unfoldable pub tokens : List Text → Text × Text → Text × Text
  unfolding eqb trim index_of
  tokens [] seen = seen
  tokens (tok ∷ toks) seen = tokens toks (token_of tok (index_of tok (codes "=")) seen)

  abbrev observation_of : Text × Text → List (Text × Text)
  observation_of (imsi, ip) = if is_empty imsi then [] else (imsi, first_valid_ip ip) ∷ []

  unfoldable pub record_address : Text × Text → List (Text × Text) → List (Text × Text)
  unfolding first_valid_ip
  record_address (imsi, ip) m =
      let address = first_valid_ip ip in
      if is_empty imsi then m else keep_or_put imsi address (find imsi m) m

  -- The loop over the lines; an empty line has no tokens.
  unfoldable pub record_lines : List Text → List (Text × Text) → List (Text × Text)
  unfolding record_address tokens fields trim_space
  record_lines [] m = m
  record_lines (l ∷ ls) m =
      let line = trim_space l in
      record_lines ls
        (if is_empty line then m else record_address (tokens (fields line) ([], [])) m)

  unfoldable pub parse_sgsn : Text → List (Text × Text)
  unfolding record_lines split
  parse_sgsn out = record_lines (split b'\n' out) []

  abbrev note : Bool → Text × Text → List (Text × Text) → List (Text × Text)
  note true seen rest = rest
  note false (imsi, ip) rest = if is_empty imsi then rest else (imsi, first_valid_ip ip) ∷ rest

  -- What the lines say, one after the other: an IMSI, and its first valid address or none.
  unfoldable pub observations : List Text → List (Text × Text)
  unfolding first_valid_ip tokens fields trim_space
  observations [] = []
  observations (l ∷ ls) =
      let rest = observations ls in
      note (is_empty (trim_space l)) (tokens (fields (trim_space l)) ([], [])) rest

-- An earlier address counts only where no later one is assigned.
abbrev or_last : Text → Option Text → Option Text
or_last ip (some a) = some a
or_last [] none = none
or_last (c ∷ ip) none = some (c ∷ ip)

-- The last address that is assigned to the IMSI, if any is.
unfoldable pub last_address : Text → List (Text × Text) → Option Text
last_address imsi [] = none
last_address imsi ((j, ip) ∷ rest) =
    let last = last_address imsi rest in if eqb j imsi then or_last ip last else last

unfoldable pub is_seen : Text → List (Text × Text) → Bool
is_seen imsi [] = false
is_seen imsi ((j, ip) ∷ rest) = eqb j imsi || is_seen imsi rest

-- An earlier value, the last address assigned, and whether the IMSI is seen at all.
abbrev pub behind : Option Text → Option Text → Bool → Option Text
behind old (some a) seen = some a
behind (some b) none seen = some b
behind none none true = some []
behind none none false = none

-- The last address assigned to the IMSI; empty for an IMSI without one; `none` for an unknown IMSI.
unfoldable pub assigned : Text → List (Text × Text) → Option Text
unfolding last_address is_seen
assigned imsi obs = behind none (last_address imsi obs) (is_seen imsi obs)

abbrev later : Option Text → Text → List (Text × Text) → Option Text
later old imsi obs = behind old (last_address imsi obs) (is_seen imsi obs)

put_all : List (Text × Text) → List (Text × Text) → List (Text × Text)
put_all [] m = m
put_all ((j, ip) ∷ obs) m = put_all obs (keep_or_put j ip (find j m) m)

-- The value of one key behind an observation of it.
abbrev updated : Text → Option Text → Option Text
updated ip none = some ip
updated ip (some a) = if is_empty ip then some a else some ip

find-keep_same :
    (imsi ip : Text) (m : List (Text × Text)) (o : Option Text)
    → find imsi m ≡ o
    → find imsi (keep_or_put imsi ip o m) ≡ updated ip o
find-keep_same imsi ip m none h =
    find-put imsi imsi ip m ∙ ap (λ b. if b then some ip else find imsi m) (eqb_refl imsi)
find-keep_same imsi [] m (some a) h = h
find-keep_same imsi (c ∷ ip) m (some a) h =
    find-put imsi imsi (c ∷ ip) m
    ∙ ap (λ b. if b then some (c ∷ ip) else find imsi m) (eqb_refl imsi)

find-keep_other :
    (imsi j ip : Text) (m : List (Text × Text)) (o : Option Text)
    → eqb j imsi ≡ false
    → find imsi (keep_or_put j ip o m) ≡ find imsi m
find-keep_other imsi j ip m none h =
    find-put j imsi ip m ∙ ap (λ b. if b then some ip else find imsi m) h
find-keep_other imsi j [] m (some a) h = refl
find-keep_other imsi j (c ∷ ip) m (some a) h =
    find-put j imsi (c ∷ ip) m ∙ ap (λ b. if b then some (c ∷ ip) else find imsi m) h

later_same :
    (imsi ip : Text) (o : Option Text) (obs : List (Text × Text))
    → later (updated ip o) imsi obs ≡ later o imsi ((imsi, ip) ∷ obs)
unfolding last_address is_seen
later_same imsi ip o obs =
    rw (eqb_refl imsi) (cases ip o (last_address imsi obs) (is_seen imsi obs))
  where
    cases :
        (ip : Text) (o last : Option Text) (seen : Bool)
        → behind (updated ip o) last seen ≡ behind o (or_last ip last) true
    cases ip o (some a) seen = refl
    cases [] none none true = refl
    cases [] none none false = refl
    cases [] (some a) none seen = refl
    cases (c ∷ ip) none none seen = refl
    cases (c ∷ ip) (some a) none seen = refl

later_other :
    (imsi j ip : Text) (o : Option Text) (obs : List (Text × Text))
    → eqb j imsi ≡ false
    → later o imsi obs ≡ later o imsi ((j, ip) ∷ obs)
unfolding last_address is_seen
later_other imsi j ip o obs h = rw h refl

find-put_all :
    (imsi : Text) (obs m : List (Text × Text))
    → find imsi (put_all obs m) ≡ later (find imsi m) imsi obs
unfolding put_all
find-put_all imsi [] m = unfold last_address in unfold is_seen in alone (find imsi m)
  where
    alone : (o : Option Text) → o ≡ behind o none false
    alone none = refl
    alone (some a) = refl
find-put_all imsi ((j, ip) ∷ obs) m =
    find-put_all imsi obs (keep_or_put j ip (find j m) m) ∙ step (Bool-cases (eqb j imsi))
  where
    kept : List (Text × Text)
    kept = keep_or_put j ip (find j m) m

    same : j ≡ imsi → later (find imsi kept) imsi obs ≡ later (find imsi m) imsi ((j, ip) ∷ obs)
    same h =
        subst
          (λ k.
            later (find imsi (keep_or_put k ip (find k m) m)) imsi obs
            ≡ later (find imsi m) imsi ((k, ip) ∷ obs))
          (sym h)
          (ap (λ o. later o imsi obs) (find-keep_same imsi ip m (find imsi m) refl)
            ∙ later_same imsi ip (find imsi m) obs)

    step :
        (eqb j imsi ≡ true) ⊎ (eqb j imsi ≡ false)
        → later (find imsi kept) imsi obs ≡ later (find imsi m) imsi ((j, ip) ∷ obs)
    step (inl e) = same ((eqb_iff j imsi).0 e)
    step (inr e) =
        ap (λ o. later o imsi obs) (find-keep_other imsi j ip m (find j m) e)
        ∙ later_other imsi j ip (find imsi m) obs e

module _ (fold : Text → Text) (address : Text → Option Text) where
  noted :
      (blank : Bool) (seen : Text × Text) (obs m : List (Text × Text))
      (rest : List (Text × Text) → List (Text × Text))
      → ((m' : List (Text × Text)) → rest m' ≡ put_all obs m')
      → rest (if blank then m else record_address fold address seen m)
        ≡ put_all (note fold address blank seen obs) m
  unfolding record_address put_all
  noted true seen obs m rest h = h m
  noted false ([], ip) obs m rest h = h m
  noted false (c ∷ imsi, ip) obs m rest h =
      h (keep_or_put (c ∷ imsi) (first_valid_ip fold address ip) (find (c ∷ imsi) m) m)

  record_lines-put_all :
      (ls : List Text) (m : List (Text × Text))
      → record_lines fold address ls m ≡ put_all (observations fold address ls) m
  unfolding record_lines observations put_all
  record_lines-put_all [] m = refl
  record_lines-put_all (l ∷ ls) m =
      noted (is_empty (trim_space l)) (tokens fold address (fields (trim_space l)) ([], []))
        (observations fold address ls) m (record_lines fold address ls)
        (λ m'. record_lines-put_all ls m')

  -- The map has, for every IMSI, the last valid address that a line gives with it: a later line
  -- without an address takes none away. An IMSI that only stands in lines without one has the empty
  -- text, and one that stands in no line is not in the map.
  pub find-parse_sgsn :
      (out imsi : Text)
      → find imsi (parse_sgsn fold address out)
        ≡ assigned imsi (observations fold address (split b'\n' out))
  unfolding parse_sgsn
  find-parse_sgsn out imsi =
      ap (λ m. find imsi m) (record_lines-put_all (split b'\n' out) [])
      ∙ find-put_all imsi (observations fold address (split b'\n' out)) []
      ∙ unfold assigned in (unfold find in refl)

-- ===== src/Subscriber/Snapshot.antt =====
-- internal/subscriber/store.go: subscribers from one snapshot of both tables.
use gsm_system.Base.{Bool, [], ◌∷◌, List, Option, none, some, if◌then◌else◌}
use gsm_system.Base.Text.{Text, codes, eqb, less, is_empty, is_some, trim_space}
use gsm_system.Base.Map.{find, put, delete}

pub record Subscriber : Type 0 where
  pub imsi : Text
  pub number : Option Text
  pub consistent : Bool

abbrev pub Table : Type 0
Table = List (Text × Text)

-- The rows of the two tables seen so far.
pub record Tables : Type 0 where
  pub sips : Table
  pub dials : Table

abbrev add_to : Text → Text → Table → Option Table
add_to k v t = if is_some (find k t) then none else some (put k v t)

abbrev with_sips : Tables → Option Table → Option Tables
with_sips t none = none
with_sips t (some s) = some (record t { sips = s })

abbrev with_dials : Tables → Option Table → Option Tables
with_dials t none = none
with_dials t (some d) = some (record t { dials = d })

-- One row: its label, an identity that is not empty and not yet in its table, and the value.
unfoldable pub add_row : Tables → List Text → Option Tables
add_row t (label ∷ imsi ∷ value ∷ []) =
    if is_empty imsi
    then none
    else if eqb label (codes "S")
    then with_sips t (add_to imsi value t.sips)
    else if eqb label (codes "D")
    then with_dials t (add_to imsi value t.dials)
    else none
add_row t _ = none

abbrev bind {ℓ κ} : {A : Type ℓ} {B : Type κ} → Option A → (A → Option B) → Option B
bind none f = none
bind (some a) f = f a

unfoldable pub add_rows : Tables → List (List Text) → Option Tables
add_rows t [] = some t
add_rows t (row ∷ l) = bind (add_row t row) λ t'. add_rows t' l

-- The number of a dial row that is not blank.
abbrev pub number_of : Option Text → Option Text
number_of none = none
number_of (some d) = if is_empty (trim_space d) then none else some (trim_space d)

abbrev pub agrees : Text → Option Text → Bool
agrees caller none = is_empty (trim_space caller)
agrees caller (some d) = eqb (trim_space caller) (trim_space d)

-- `subscriberFromParts`
unfoldable pub subscriber_from_parts : Text → Text → Option Text → Subscriber
subscriber_from_parts imsi caller dial = record {
  imsi = imsi;
  number = number_of dial;
  consistent = agrees caller dial;
}

-- sort.Strings of the keys of a map, which all differ
unfoldable pub insert_entry : Text × Text → Table → Table
insert_entry e [] = e ∷ []
insert_entry e (f ∷ l) = let rest = insert_entry e l in if less f.0 e.0 then f ∷ rest else e ∷ f ∷ l

unfoldable pub sort_entries : Table → Table
sort_entries [] = []
sort_entries (e ∷ l) = insert_entry e (sort_entries l)

-- The loop over the identities: each takes its dial row away.
unfoldable pub join : Table → Table → List Subscriber × Table
join [] dials = ([], dials)
join ((imsi, caller) ∷ l) dials =
    let (out, rest) = join l (delete imsi dials) in
    (subscriber_from_parts imsi caller (find imsi dials) ∷ out, rest)

abbrev no_orphans : List Subscriber × Table → Option (List Subscriber)
no_orphans (out, []) = some out
no_orphans (out, d ∷ rest) = none

abbrev joined : Tables → Option (List Subscriber)
joined t = no_orphans (join (sort_entries t.sips) t.dials)

-- `subscribersFromSnapshot`; `none` stands for `ErrInconsistent`.
unfoldable pub subscribers_from_snapshot : List (List Text) → Option (List Subscriber)
subscribers_from_snapshot rows = bind (add_rows (record { sips = []; dials = [] }) rows) joined

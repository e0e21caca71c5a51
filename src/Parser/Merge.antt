-- ===== src/Parser/Merge.antt =====
-- internal/parser/sms.go: one message for each request, out of the candidates in log order.
pub mod Laws
pub mod Summary
use gsm_system.Base.{
  ℕ, Bool, true, false, not, List, [], ◌∷◌, ◌++◌, Option, none, some, map, ltb, if◌then◌else◌,
}
use gsm_system.Base.Text.{Text, eqb}
use gsm_system.Parser.Native.{clean_log, restart_positions}
use gsm_system.Parser.Party.{Sms, merge_sms, apply_structured_sms}
use gsm_system.Parser.Notice.{Candidate, parse_notice_events}
use gsm_system.Parser.Delivery.{parse_delivery_events}

-- sort.SliceStable by position
unfoldable pub insert_by_position : Candidate → List Candidate → List Candidate
insert_by_position c [] = c ∷ []
insert_by_position c (d ∷ ds) =
    let rest = insert_by_position c ds in if ltb d.position c.position then d ∷ rest else c ∷ d ∷ ds

unfoldable pub sort_by_position : List Candidate → List Candidate
unfolding insert_by_position
sort_by_position [] = []
sort_by_position (c ∷ cs) = insert_by_position c (sort_by_position cs)

-- One message of the result, with its identity in `byIdentity` and its flag in `structured`.
pub record Entry : Type 0 where
  pub identity : Text
  pub sms : Sms
  pub structured : Bool

unfoldable pub merge_entry : Candidate → Entry → Entry
unfolding merge_sms apply_structured_sms
merge_entry c e =
    if c.structured
    then if e.structured
      then e
      else record e { sms = apply_structured_sms e.sms c.sms; structured = true }
    else if e.structured
    then e
    else record e { sms = merge_sms e.sms c.sms }

abbrev pub entry_of : Candidate → Entry
entry_of c = record { identity = c.identity; sms = c.sms; structured = c.structured }

-- One round of the loop.
unfoldable pub absorb : Candidate → List Entry → List Entry
unfolding merge_entry
absorb c [] = entry_of c ∷ []
absorb c (e ∷ es) =
    let rest = absorb c es in if eqb e.identity c.identity then merge_entry c e ∷ es else e ∷ rest

unfoldable pub absorb_all : List Candidate → List Entry → List Entry
unfolding absorb
absorb_all [] es = es
absorb_all (c ∷ cs) es = absorb_all cs (absorb c es)

abbrev pub candidates_in : Text → List ℕ → List Candidate
candidates_in clean restarts =
    parse_notice_events clean restarts ++ parse_delivery_events clean restarts

unfoldable pub candidates_of : Text → List Candidate
unfolding clean_log restart_positions parse_notice_events parse_delivery_events sort_by_position
candidates_of log =
    let clean = clean_log log in sort_by_position (candidates_in clean (restart_positions clean))

unfoldable pub entries_of : Text → List Entry
unfolding candidates_of absorb_all
entries_of log = absorb_all (candidates_of log) []

unfoldable pub parse_smqueue_log : Text → List Sms
unfolding entries_of
parse_smqueue_log log = map (λ e. e.sms) (entries_of log)

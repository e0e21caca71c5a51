-- ===== src/Subscriber/Tests.antt =====
-- Binding a number on concrete rows.
use gsm_system.Base.{◌≡◌, refl, true, [], ◌∷◌, List, none, some}
use gsm_system.Base.Text.{Text, codes, eqb, trim_space}
use gsm_system.Base.Number.{atoi}
use gsm_system.Base.Map.{find, put, delete}
use gsm_system.Subscriber.Snapshot.{
  add_row, add_rows, subscriber_from_parts, sort_entries, insert_entry, join,
  subscribers_from_snapshot,
}
use gsm_system.Subscriber.Binding.{
  StoreEnv, updated, answer, list_all, get, binding_state, project_tmsi, bind_number,
}
use gsm_system.Subscriber.Agree.{OnAnswer, Binds, bind_number-Binds}

abbrev bound_rows : List (List Text)
bound_rows =
    (codes "D" ∷ codes "001010000000001" ∷ codes "2101" ∷ [])
    ∷ (codes "S" ∷ codes "001010000000001" ∷ codes "2101" ∷ [])
    ∷ []

abbrev pub bind_env : StoreEnv
bind_env = record {
  before = some ((codes "1" ∷ codes "0" ∷ codes "0" ∷ []) ∷ []);
  transaction_runs = true;
  after_failure = none;
  after = some bound_rows;
  tmsi = record { exists = true; rows = some ((codes "1" ∷ []) ∷ []); update_runs = true };
}

pub bind_answers :
    bind_number bind_env (codes "2101")
    ≡ answer (record {
      subscriber = record {
        imsi = codes "001010000000001";
        number = some (codes "2101");
        consistent = true;
      };
      projection = updated;
    })
unfolding bind_number binding_state get list_all subscribers_from_snapshot add_rows add_row
    subscriber_from_parts sort_entries insert_entry join find put delete project_tmsi trim_space eqb
    atoi
bind_answers = refl

bind_number-Binds_example :
    OnAnswer (Binds bind_env (codes "2101")) (bind_number bind_env (codes "2101"))
bind_number-Binds_example = bind_number-Binds bind_env (codes "2101")

abbrev unbind_env : StoreEnv
unbind_env = record bind_env {
  before = some bound_rows;
  after = some (
      (codes "D" ∷ codes "001010000000001" ∷ [] ∷ [])
      ∷ (codes "S" ∷ codes "001010000000001" ∷ [] ∷ [])
      ∷ []);
}

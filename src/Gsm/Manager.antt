-- ===== src/Gsm/Manager.antt =====
-- internal/gsm/manager.go: what is observed of the cell's processes, and the manager's own state.
pub mod Status
pub mod Start
pub mod Stop
pub mod Profile
pub mod Rollback
pub mod Launch
pub mod Overlay
pub mod Tests
use gsm_system.Base.{
  ℕ, Bool, true, false, ◌||◌, [], ◌∷◌, List, Option, none, some, any, if◌then◌else◌,
}
use gsm_system.Gsm.Params.{StartParams}
use gsm_system.Gsm.Sms.Session.{Session}

pub data Service : Type 0 where
  open_bts sip_auth_serve smqueue asterisk transceiver : Service

-- `CellProcs`
abbrev pub cell_procs : List Service
cell_procs =
    Service.open_bts ∷ Service.sip_auth_serve ∷ Service.smqueue ∷ Service.asterisk
    ∷ Service.transceiver ∷ []

-- `managedProcess`: a child of the manager.
pub record Process : Type 0 where
  pub service : Service
  pub pid : ℕ

-- What one look at the system sees: which children have not been reaped, and which names run.
pub record Seen : Type 0 where
  pub alive : ℕ → Bool
  pub running : Service → Bool

-- `Manager`; `started_at` is `none` for the zero time.
pub record Manager : Type 0 where
  pub open_bts : Option Process
  pub owned_children : List Process
  pub started_at : Option ℕ
  pub last_start : StartParams
  pub sms_session : Option Session

-- `managedProcess.alive`
abbrev pub is_alive : Seen → Option Process → Bool
is_alive seen none = false
is_alive seen (some p) = seen.alive p.pid

-- `cellRunningLocked`
unfoldable pub cell_running : Seen → Manager → Bool
cell_running seen m =
    is_alive seen m.open_bts || (seen.running Service.open_bts || seen.running Service.transceiver)

-- `anyServiceRunningLocked`
unfoldable pub any_service_running : Seen → Manager → Bool
any_service_running seen m =
    is_alive seen m.open_bts
    || (any (λ p. seen.alive p.pid) m.owned_children || any seen.running cell_procs)

-- `WithStoppedCell`, for an operation on a state.
pub data Gated {ℓ} (E : Type ℓ) : Type ℓ where
  refused : Gated E
  ran : Option E → Gated E

unfoldable pub with_stopped_cell {ℓ κ} :
    {S : Type ℓ} {E : Type κ} → Seen → Manager → (S → S × Option E) → S → S × Gated E
with_stopped_cell seen m operation s =
    if cell_running seen m then (s, refused) else (let (s', e) = operation s in (s', ran e))

-- ===== src/Engine/Types.antt =====
-- The data of the engine and of its store (internal/config/engine.go, store_sqlite.go). Times are
-- nanoseconds; what the source formats into an audit detail or a revision's message is kept as data.
use nfvis.Prelude.{ℕ, String, Bool, Option, List}
use nfvis.Model.{Config, ValidateError}

-- The statements of the store, one for each method that runs one.
pub data Stmt : Type 0 where
  select_latest select_revision insert_revision select_revisions delete_revisions : Stmt
  insert_lock update_lock delete_lock select_lock : Stmt
  upsert_confirmed select_confirmed delete_confirmed : Stmt
  insert_audit select_audit : Stmt

pub data Error : Type 0 where
  sql : Stmt → Error
  locked : String → Error
  lock_not_held : String → Error
  no_revision : ℕ → Error
  corrupt : Error
  not_editing : Error
  confirm_required : Error
  nothing_to_confirm : Error
  merge_failed : Error
  validation : List ValidateError → Error
  substrate : String → Error

pub data Result {ℓ} (A : Type ℓ) : Type ℓ where
  ok : A → Result A
  err : Error → Result A

-- What a high-risk change does, in the words of internal/config/audit_highrisk.go.
pub data Intent : Type 0 where
  create_user : String → String → Intent
  reset_password : String → Intent
  change_class : String → String → String → Intent
  delete_user : String → String → Intent
  create_class : String → ℕ → ℕ → Intent
  adjust_class : String → ℕ → ℕ → Intent
  delete_class : String → Intent
  change_policy : List (String × ℕ × ℕ) → Intent
  install_cert remove_cert change_cert : String → String → Intent

-- `AuditEntry.Detail`.
pub data Detail : Type 0 where
  implicit_confirm : Detail
  explicit_confirm : ℕ → Detail
  rollback_cancels : Detail
  rolled_back : ℕ → ℕ → Detail
  lock_timed_out : Detail
  auto_rolled_back : ℕ → Detail
  rejected : List ValidateError → Detail
  intends : List Intent → Detail
  unfinished : List Intent → Error → Detail
  changes : Config → Config → Detail
  substrate_failed : Config → Config → String → Detail
  operation : String → Detail

pub data Action : Type 0 where
  commit confirm rollback rollback_auto lock_timeout : Action
  custom : String → Action

pub data Outcome : Type 0 where
  success failure intent : Outcome
  reported : String → Outcome

pub record AuditEntry : Type 0 where
  pub time : ℕ
  pub user : String
  pub action : Action
  pub detail : Detail
  pub result : Outcome
  pub time_synced : Option Bool

pub record LockInfo : Type 0 where
  pub holder : String
  pub acquired_at : ℕ
  pub last_activity : ℕ

pub record ConfirmedInfo : Type 0 where
  pub base_rev : ℕ
  pub deadline : ℕ
  pub holder : String

pub data Message : Type 0 where
  text : String → Message
  initial : Message
  auto_rollback : ℕ → Message

-- A row of `config_revisions`; `B` is the type of the stored JSON.
pub record Revision (B : Type 0) : Type 0 where
  pub rev : ℕ
  pub committed_at : ℕ
  pub message : Message
  pub user : String
  pub config_json : B

pub record Session : Type 0 where
  pub user : String
  pub source : String

pub record CommitOpts : Type 0 where
  pub confirmed_minutes : ℕ
  pub message : String
  pub allow_no_super_user : Bool

pub data Warning : Type 0 where
  management_changed : Warning
  vpp_changed : Warning
  pools_changed : Warning
  nat_table_kept : String → Warning
  numa_mismatch : String → String → String → ℕ → ℕ → Warning

pub record CommitResult : Type 0 where
  pub revision : ℕ
  pub confirmed_until : Option ℕ
  pub warnings : List Warning

pub record SessionView : Type 0 where
  pub holder : String
  pub acquired_at : ℕ
  pub last_activity : ℕ
  pub dirty : Bool
  pub confirmed_until : Option ℕ

-- `Event`: its type and message as one constructor.
pub data Event : Type 0 where
  confirmed_timeout : ℕ → Event
  confirmed_base_missing : ℕ → Error → Event
  confirmed_append_failed : Error → Event
  lock_timeout_event : String → Event

pub record ImageInfo : Type 0 where
  pub name : String
  pub type : String

pub record ImageResolver : Type 0 where
  pub lookup : String → Option ImageInfo
  pub names : List String

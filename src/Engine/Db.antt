-- ===== src/Engine/Db.antt =====
-- The SQLite store (internal/config/store_sqlite.go). `config_revisions` is kept in the order of
-- `ORDER BY rev DESC`, `audit_log` in that of `ORDER BY audit_id DESC`; `seq` is the counter of
-- AUTOINCREMENT. A statement that the database fails leaves the tables as they are: `fault` says
-- which kinds of statement fail during a call.
use nfvis.Prelude.{
  ℕ, suc, String, Bool, Option, none, some, List, [], ◌∷◌, ◌==◌, str_eq, if◌then◌else◌, take, drop,
}
use nfvis.Engine.Types.{
  Stmt, select_latest, select_revision, insert_revision, select_revisions, delete_revisions,
  insert_lock, update_lock, delete_lock, select_lock, upsert_confirmed, select_confirmed,
  delete_confirmed, insert_audit, select_audit, sql, locked, lock_not_held, no_revision, Result, ok,
  err, AuditEntry, LockInfo, ConfirmedInfo, Message, Revision,
}

pub record Db (B : Type 0) : Type 0 where
  pub revisions : List (Revision B)
  pub seq : ℕ
  pub lock : Option LockInfo
  pub confirmed : Option ConfirmedInfo
  pub audit : List AuditEntry
  pub fault : Stmt → Bool

-- `storeKeepRevisions`.
abbrev pub keep_revisions : ℕ
keep_revisions = 51

-- A call of the store: its result and the tables after it.
abbrev pub Sql : Type 0 → Type 0 → Type 0
Sql B A = Db B → Result A × Db B

module _ {B : Type 0} where
  abbrev pub statement : {A : Type 0} → Stmt → Sql B A → Sql B A
  statement s run db = if db.fault s then (err (sql s), db) else run db

  abbrev pub newest : List (Revision B) → ℕ × Option B
  newest [] = (0, none)
  newest (r ∷ rs) = (r.rev, some r.config_json)

  abbrev pub find_revision : ℕ → List (Revision B) → Result B
  find_revision n [] = err (no_revision n)
  find_revision n (r ∷ rs) = if r.rev == n then ok r.config_json else find_revision n rs

  -- `LatestRevision`: 0 and no data where the table is empty.
  unfoldable pub latest_revision : Sql B (ℕ × Option B)
  latest_revision = statement select_latest (λ db. (ok (newest db.revisions), db))

  unfoldable pub load_revision : ℕ → Sql B B
  load_revision n = statement select_revision (λ db. (find_revision n db.revisions, db))

  abbrev pub insert_row : B → ℕ → Message → String → Db B → Db B
  insert_row config_json at message user db = record db {
    revisions =
        record {
          rev = suc db.seq;
          committed_at = at;
          message = message;
          user = user;
          config_json = config_json;
        }
        ∷ db.revisions;
    seq = suc db.seq;
  }

  -- `AppendRevision`; the result is the row's number.
  unfoldable pub append_revision : B → ℕ → Message → String → Sql B ℕ
  append_revision config_json at message user =
      statement insert_revision (λ db. (ok (suc db.seq), insert_row config_json at message user db))

  -- `ListRevisions`: a limit of 0 is the default.
  unfoldable pub list_revisions : ℕ → Sql B (List (Revision B))
  list_revisions limit =
      statement select_revisions
        (λ db. (ok (take (if limit == 0 then keep_revisions else limit) db.revisions), db))

  unfoldable pub prune_revisions : ℕ → Sql B (Unit {0})
  prune_revisions keep =
      statement delete_revisions (λ db. (ok tt, record db { revisions = take keep db.revisions }))

  abbrev pub acquire : String → ℕ → Option LockInfo → Sql B (Unit {0})
  acquire holder at none db = (
    ok tt,
    record db { lock = some (record { holder = holder; acquired_at = at; last_activity = at }) },
  )
  acquire holder at (some cur) db =
      (err (locked (if db.fault select_lock then "" else cur.holder)), db)

  -- `AcquireLock`: `INSERT … ON CONFLICT DO NOTHING`.
  unfoldable pub acquire_lock : String → ℕ → Sql B (Unit {0})
  acquire_lock holder at = statement insert_lock (λ db. acquire holder at db.lock db)

  abbrev pub refresh : String → ℕ → Option LockInfo → Sql B (Unit {0})
  refresh holder at none db = (err (lock_not_held holder), db)
  refresh holder at (some cur) db =
      if str_eq cur.holder holder
      then (ok tt, record db { lock = some (record cur { last_activity = at }) })
      else (err (lock_not_held holder), db)

  -- `RefreshLock`: an update of the row of this holder.
  unfoldable pub refresh_lock : String → ℕ → Sql B (Unit {0})
  refresh_lock holder at = statement update_lock (λ db. refresh holder at db.lock db)

  abbrev pub release : String → Option LockInfo → Sql B (Unit {0})
  release holder none db = (err (lock_not_held holder), db)
  release holder (some cur) db =
      if str_eq cur.holder holder
      then (ok tt, record db { lock = none })
      else (err (lock_not_held holder), db)

  -- `ReleaseLock`: deletes the row of this holder only.
  unfoldable pub release_lock : String → Sql B (Unit {0})
  release_lock holder = statement delete_lock (λ db. release holder db.lock db)

  unfoldable pub get_lock : Sql B (Option LockInfo)
  get_lock = statement select_lock (λ db. (ok db.lock, db))

  unfoldable pub set_confirmed : ℕ → ℕ → String → Sql B (Unit {0})
  set_confirmed base_rev deadline holder = statement upsert_confirmed (λ db. (
    ok tt,
    record db {
      confirmed = some (record { base_rev = base_rev; deadline = deadline; holder = holder });
    },
  ))

  unfoldable pub get_confirmed : Sql B (Option ConfirmedInfo)
  get_confirmed = statement select_confirmed (λ db. (ok db.confirmed, db))

  unfoldable pub clear_confirmed : Sql B (Unit {0})
  clear_confirmed = statement delete_confirmed (λ db. (ok tt, record db { confirmed = none }))

  unfoldable pub append_audit : AuditEntry → Sql B (Unit {0})
  append_audit e = statement insert_audit (λ db. (ok tt, record db { audit = e ∷ db.audit }))

  unfoldable pub list_audit : ℕ → ℕ → Sql B (List AuditEntry)
  list_audit limit offset =
      statement select_audit (λ db. (ok (take limit (drop offset db.audit)), db))

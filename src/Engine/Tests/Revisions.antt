-- ===== src/Engine/Tests/Revisions.antt =====
-- Rollbacks, the history, and inherited password hashes.
use nfvis.Prelude.{get_elem?, take, some, List, [], ◌∷◌, ◌≡◌, refl, arith}
use nfvis.Model.{login_users}
use nfvis.Engine.Types.{ok}
use nfvis.Engine.Db.{keep_revisions}
use nfvis.Engine.State.{◌>>=◌, require_holder}
use nfvis.Engine.Lifecycle.{sweep}
use nfvis.Engine.Candidate.{inherit_sensitive}
use nfvis.Engine.History.{HistoryEntry, history, rollback_session}
use nfvis.Engine.Revisions.Rollbacks.{IsLoaded, rollback_loads}
use nfvis.Engine.Revisions.Listing.{IsListed, history_lists}
use nfvis.Engine.Revisions.Inherited.{AllInherit, inherit_sensitive_users}
use nfvis.Engine.Tests.Setup.{
  setup, alice, no_config, one_user, root_user, with_login, no_fault-IsHealthy, first_row, waiting,
}

held : require_holder alice (sweep setup 10 waiting).1 ≡ (ok one_user, (sweep setup 10 waiting).1)
unfolding sweep require_holder ◌>>=◌
held = refl

second : get_elem? (sweep setup 10 waiting).1.store.revisions 1 ≡ some first_row
unfolding sweep ◌>>=◌
second = refl

rollback_loads_example :
    IsLoaded setup 10 no_config
      (sweep setup 10 waiting).1
      (rollback_session setup 10 alice 1 waiting).1
rollback_loads_example =
    rollback_loads setup 10 alice 1 first_row no_config one_user waiting no_fault-IsHealthy
      (refl, (refl, tt)) held (omega arith) (omega arith) second refl

history_lists_example :
    (hs : List HistoryEntry) × (history 0 waiting ≡ (ok hs, waiting))
    × IsListed 2 2 (take keep_revisions waiting.store.revisions) hs
history_lists_example = history_lists setup 0 waiting no_fault-IsHealthy (refl, (refl, tt))

inherit_sensitive_users_example :
    AllInherit
      (login_users one_user)
      (login_users (with_login (root_user "" ∷ [])))
      (login_users (inherit_sensitive (with_login (root_user "" ∷ [])) one_user))
inherit_sensitive_users_example = inherit_sensitive_users (with_login (root_user "" ∷ [])) one_user

inherits_hash :
    login_users (inherit_sensitive (with_login (root_user "" ∷ [])) one_user) ≡ root_user "x" ∷ []
unfolding inherit_sensitive
inherits_hash = refl

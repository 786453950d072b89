-- ===== src/Engine/Revisions/Listing.antt =====
-- `History`: newest first, one entry current; and a commit as it is read back.
use nfvis.Prelude.{
  ℕ, zero, suc, some, List, [], ◌∷◌, true, ◌≡◌, refl, sym, ap, ◌∙◌, arith, subst, map, take, ◌==◌,
  if◌then◌else◌,
}
use nfvis.Model.{Config}
use nfvis.Engine.Types.{ok, Revision, Session, CommitOpts, CommitResult}
use nfvis.Engine.Db.{keep_revisions}
use nfvis.Engine.State.{Env, Engine, ◌>>=◌, committed}
use nfvis.Engine.Commit.{commit_session}
use nfvis.Engine.History.{HistoryEntry, newest_rev, entry_of, history, current_revision}
use nfvis.Engine.Healthy.{IsServed}
use nfvis.Engine.Reads.{row_committed}
use nfvis.Engine.Numbered.Rows.{Numbered, IsNumbered, take-Numbered}
use nfvis.Engine.Commits.Before.{before}
use nfvis.Engine.Commits.Success.{commit_success}

-- The entries show the rows, one by one, under the numbers n, n - 1, … down, and exactly the entry of
-- number `top` is current.
abbrev pub IsListed : {B : Type 0} → ℕ → ℕ → List (Revision B) → List HistoryEntry → Type 0
IsListed top n [] [] = Unit
IsListed top n [] (h ∷ hs) = ⊥
IsListed top n (r ∷ rs) [] = ⊥
IsListed top zero (r ∷ rs) (h ∷ hs) = ⊥
IsListed top (suc n) (r ∷ rs) (h ∷ hs) =
    (h.rev ≡ suc n)
    × (h.current ≡ (suc n == top))
    × (h.committed_at ≡ r.committed_at)
    × (h.user ≡ r.user)
    × (h.comment ≡ r.message)
    × IsListed top n rs hs

module _ {B : Type 0} where
  entries-IsListed :
      (top n : ℕ) (rs : List (Revision B))
      → Numbered n rs
      → IsListed top n rs (map (entry_of top) rs)
  entries-IsListed top n [] h = tt
  entries-IsListed top zero (r ∷ rs) h = elim h [ ]
  entries-IsListed top (suc n) (r ∷ rs) h =
      (h.0, ap (λ k. k == top) h.0, refl, refl, refl, entries-IsListed top n rs h.1)

  newest_rev-take :
      (k n : ℕ) (rs : List (Revision B))
      → Numbered n rs
      → IsListed n n (take k rs) (map (entry_of (newest_rev (take k rs))) (take k rs))
  newest_rev-take zero n rs h = tt
  newest_rev-take (suc k) n [] h = tt
  newest_rev-take (suc k) zero (r ∷ rs) h = elim h [ ]
  newest_rev-take (suc k) (suc n) (r ∷ rs) h =
      subst
        (λ t.
          IsListed (suc n) (suc n) (take (suc k) (r ∷ rs))
            (map (entry_of t) (take (suc k) (r ∷ rs))))
        (sym h.0)
        (entries-IsListed (suc n) (suc n) (take (suc k) (r ∷ rs))
          (take-Numbered (suc k) (suc n) (r ∷ rs) h))

module _ {B S : Type 0} (env : Env B S) where
  history_served :
      (limit : ℕ) (e : Engine B S)
      → IsServed e
      → let rs = take (if limit == 0 then keep_revisions else limit) e.store.revisions in
        history limit e ≡ (ok (map (entry_of (newest_rev rs)) rs), e)
  unfolding history ◌>>=◌
  history_served limit e h = ground arith

  -- `History` lists the newest revisions, as many as the limit says, or as are kept where it is 0:
  -- the entry of each has its time, user and message, the entries carry consecutive numbers down from
  -- the counter of revisions, and exactly the entry whose number is that counter is current; it changes
  -- nothing. The revisions are numbered without gaps and the database serves every statement.
  pub history_lists :
      (limit : ℕ) (e : Engine B S)
      → IsServed e
      → IsNumbered e
      → (hs : List HistoryEntry) × (history limit e ≡ (ok hs, e))
        × IsListed e.store.seq e.store.seq
            (take (if limit == 0 then keep_revisions else limit) e.store.revisions)
            hs
  history_lists limit e h n =
      (_, history_served limit e h, newest_rev-take _ e.store.seq e.store.revisions n)

  newest_is :
      (x : Engine B S) (r : Revision B) (rs : List (Revision B))
      → IsServed x
      → x.store.revisions ≡ r ∷ rs
      → current_revision x ≡ (ok r.rev, x)
  unfolding current_revision ◌>>=◌
  newest_is x r rs h p = ground arith

  -- A commit of a changed candidate that succeeds reads back: the committed configuration is then
  -- the candidate, and the number that the commit answers with is that of the newest revision. The
  -- database serves every statement, and a configuration that is written as JSON reads as itself.
  pub commit_reads_back :
      (now : ℕ) (sess : Session) (opts : CommitOpts) (e : Engine B S) (res : CommitResult)
      (e' : Engine B S)
      → IsServed e
      → ((c : Config) → env.decode (env.encode c) ≡ some c)
      → (before env now sess e).dirty ≡ true
      → commit_session env now sess opts e ≡ (ok res, e')
      → (c : Config) × ((before env now sess e).candidate ≡ some c)
        × (committed env e' ≡ (ok c, e'))
        × (current_revision e' ≡ (ok res.revision, e'))
  commit_reads_back now sess opts e res e' h rt d p =
      let (c, base, a, b, k) = commit_success env now sess opts e res e' h d p in
      (
        c,
        a,
        row_committed env e' c _ _ k.served k.revisions (rt c),
        newest_is e' _ _ k.served k.revisions ∙ ap (λ n. (ok n, e')) (sym k.revision),
      )

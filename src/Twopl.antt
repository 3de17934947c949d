-- ===== src/Twopl.antt =====
-- Transfers under two-phase locking: src/2pl/twopl.cc.
pub mod Transfer
pub mod Commit
pub mod Bank
pub mod Ledger
use raft_2pl.Prelude.{
  ℕ, Bool, true, false, not, Int32, slt, ◌==◌, if◌then◌else◌, add32, sub32, Run, ok, ◌>>=◌, ◌>>◌,
  assert,
}
use raft_2pl.Types.{Sizes, ClientRequest}
use raft_2pl.Kvs.{Kvs, lock, unlock, index_read, index_update}

-- The swap under `// sort`; `diff` stays as it is.
unfoldable pub sort_request : ClientRequest → ClientRequest
sort_request req = if slt req.to req.from then record req { from = req.to; to = req.from } else req

module _ (s : Sizes) where
  -- The branch in which the first lock is taken.
  pub lock_second : Kvs → ClientRequest → Run (Bool × ClientRequest × Kvs)
  lock_second kvs req = do
    (taken, both) ← lock s kvs req.to
    if taken
        then ok (true, req, both)
        else (do released ← unlock s both req.from; ok (false, req, released))

  -- `TxnExecutor::transferWork`. The request is a reference: the caller sees it sorted.
  unfoldable pub transfer_work : Kvs → ClientRequest → Run (Bool × ClientRequest × Kvs)
  unfolding lock_second
  transfer_work kvs request = do
    assert (not (request.from == request.to))
    let req = sort_request request
    (taken, first) ← lock s kvs req.from
    if taken then lock_second first req else ok (false, req, first)

  -- `DB::commitWork`.
  pub commit_work : ℕ → Kvs → ClientRequest → Run Kvs
  commit_work fuel kvs req = do
    from_val ← index_read s fuel kvs req.from
    to_val ← index_read s fuel kvs req.to
    let from_val' = sub32 from_val req.diff
    let to_val' = add32 to_val req.diff
    k₁ ← index_update s fuel kvs req.from from_val'
    k₂ ← index_update s fuel k₁ req.to to_val'
    k₃ ← unlock s k₂ req.from
    unlock s k₃ req.to

-- ===== src/Raft/Quorum.antt =====
-- How many acks commit a group: the leader's own copy does not count (src/server/raft.cc, notifier).
use raft_2pl.Prelude.{
  ◌>>=◌, ℕ, suc, ◌+◌, ◌/◌, ◌<◌, ◌≤◌, ◌≡◌, ◌∙◌, sym, ap, subst, refl, Int32, sign_bit, Bool, true,
  false, List, [], ◌∷◌, arith, Returns, inl, inr, add32, length,
}
use raft_2pl.Types.{Sizes}
use raft_2pl.Kvs.Table.{IsSized}
use raft_2pl.Status.{vote_at}
use raft_2pl.Worker.{Task, WorkerInfo}
use raft_2pl.Worker.Tasks.{has_task}
use raft_2pl.Rpc.{ResponseAppendEntries}
use raft_2pl.Twopl.Bank.{All}
use raft_2pl.Raft.{Node, is_quorum, notifier_step}
use raft_2pl.Raft.Invariant.{IsSound}
use raft_2pl.Raft.Acks.{is_decisive, TaskLeft, notifier_step-Acked}
use raft_2pl.Raft.Threads.{IsHeard, hear_all}

-- An ack of success for the record.
abbrev pub IsYes : WorkerInfo → Int32 → ResponseAppendEntries → Type 0
IsYes wi lsn a = IsHeard wi a × (a.success ≡ true) × (a.lsn ≡ lsn)

pub next_vote : (c v : ℕ) → c < sign_bit → v ≤ c / 2 → add32 v 1 ≡ v + 1
unfolding add32
next_vote c v h k = omega arith

pub is_quorum-few : (c v : ℕ) → c < sign_bit → v < c / 2 + 1 → is_quorum v c ≡ false
is_quorum-few c v h k = ground arith

pub is_quorum-more : (c v : ℕ) → c < sign_bit → v ≡ c / 2 + 1 → is_quorum v c ≡ true
is_quorum-more c v h k = ground arith

module _ (s : Sizes) (fuel : ℕ) (send_ok : Int32 → Bool) (sized : IsSized s) (memory : Task)
    (lsn : Int32) where
  few_acks :
      (n : Node) (v : ℕ) (acks : List ResponseAppendEntries)
      → IsSound s n
      → n.cluster_size < sign_bit
      → vote_at n.status.votes lsn ≡ v
      → v + length acks ≤ n.cluster_size / 2
      → All (IsYes n.info lsn) acks
      → Returns (hear_all s fuel send_ok n memory acks) λ m.
        IsSound s m
        × (m ≡ record n { status = m.status })
        × (vote_at m.status.votes lsn ≡ v + length acks)
  unfolding hear_all
  few_acks n v [] h small votes few all = (n, refl, (h, refl, votes ∙ omega arith))
  few_acks n v (a ∷ acks) h small votes few all =
      let (heard, success, mine) = all.0 in
      let (m, run, acked) =
        notifier_step-Acked s sized fuel send_ok n a memory heard.follower h heard.mine heard.known
          heard.natural in
      let before : vote_at n.status.votes a.lsn ≡ v = rw mine votes in
      let next = next_vote n.cluster_size v small (omega arith) in
      let few' = is_quorum-few n.cluster_size (v + 1) small (omega arith) in
      let undecided : is_decisive n a ≡ false = rw (success, before, next) few' in
      let e : m ≡ record n { status = m.status } = elim acked.outcome [
        | inl (why, same) ↦ same
        | inr (decisive, left) ↦ absurd (cc)
      ] in
      let now : vote_at m.status.votes lsn ≡ v + 1 =
        ap (vote_at m.status.votes) (sym mine)
        ∙ acked.voted undecided success
        ∙ ap (λ (x : ℕ). add32 x 1) before
        ∙ next in
      let info : n.info ≡ m.info = sym (ap (λ (x : Node). x.info) e) in
      let size : m.cluster_size ≡ n.cluster_size = ap (λ (x : Node). x.cluster_size) e in
      let (k, ran, (sound, f, count)) =
        few_acks m (v + 1) acks acked.sound (omega arith) now (omega arith)
          (subst (λ (wi : WorkerInfo). All (IsYes wi lsn) acks) info all.1) in
      (
        k,
        rw (run, ◌>>=◌) ran,
        (sound, f ∙ ap (λ (x : Node). record x { status = k.status }) e, count ∙ omega arith),
      )

  last_ack :
      (n : Node) (last : ResponseAppendEntries)
      → IsSound s n
      → n.cluster_size < sign_bit
      → has_task n.info.task_list lsn ≡ true
      → vote_at n.status.votes lsn ≡ n.cluster_size / 2
      → IsYes n.info lsn last
      → Returns
          (notifier_step s (suc fuel) send_ok n last memory)
          (λ k. IsSound s k × TaskLeft s send_ok n lsn k)
  last_ack n last h small stored votes (heard, success, mine) =
      let (k, ran, acked) =
        notifier_step-Acked s sized fuel send_ok n last memory heard.follower h heard.mine
          heard.known heard.natural in
      let half = n.cluster_size / 2 in
      let before : vote_at n.status.votes last.lsn ≡ half = rw mine votes in
      let here : has_task n.info.task_list last.lsn ≡ true = rw mine stored in
      let decided : is_decisive n last ≡ true =
        rw (success, before, next_vote n.cluster_size half small (omega arith))
          (is_quorum-more n.cluster_size (half + 1) small refl) in
      let left : TaskLeft s send_ok n lsn k = elim acked.outcome [
        | inl (inl few, same) ↦ absurd (cc)
        | inl (inr absent, same) ↦ absurd (cc)
        | inr (decisive, left) ↦ subst (λ (l : Int32). TaskLeft s send_ok n l k) mine left
      ] in
      (k, ran, (acked.sound, left))

  -- A sound node holds a stored task for a record for which no ack has been counted. The first
  -- acks of success, up to half of the cluster rounded down, change the status only: nothing is
  -- committed. The next one commits: the task leaves the list, and its requests are posted and
  -- answered.
  pub quorum_lem :
      (n : Node) (acks : List ResponseAppendEntries) (last : ResponseAppendEntries)
      → IsSound s n
      → n.cluster_size < sign_bit
      → has_task n.info.task_list lsn ≡ true
      → vote_at n.status.votes lsn ≡ 0
      → length acks ≡ n.cluster_size / 2
      → All (IsYes n.info lsn) (last ∷ acks)
      → Returns (hear_all s fuel send_ok n memory acks) λ m.
        (m ≡ record n { status = m.status })
        × Returns
            (notifier_step s (suc fuel) send_ok m last memory)
            (λ k. IsSound s k × TaskLeft s send_ok n lsn k)
  quorum_lem n acks last h small stored votes half all =
      let (m, run, (sound, e, count)) = few_acks n 0 acks h small votes (omega arith) all.1 in
      (
        m,
        run,
        (
          e,
          rw e (
              last_ack (record n { status = m.status }) last (subst (IsSound s) e sound) small
                stored (count ∙ omega arith) all.0),
        ),
      )

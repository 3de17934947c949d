-- ===== src/Raft/Progress/Votes.antt =====
-- The acks of the followers, one of each, commit a stored task.
use mathlib.Core.List.{append_assoc, append-nil}
use raft_2pl.Twopl.Bank.{All}
use raft_2pl.Prelude.{
  length, ℕ, ◌+◌, ◌/◌, ◌<◌, ◌≡◌, ◌∙◌, sym, ap, subst, refl, Int32, sign_bit, Bool, true, false,
  ◌==◌, arith, inl, inr, List, [], ◌∷◌, ◌++◌,
}
use raft_2pl.Types.{Sizes}
use raft_2pl.Kvs.Table.{IsSized}
use raft_2pl.Status.{vote_at}
use raft_2pl.Worker.{Task, WorkerInfo}
use raft_2pl.Worker.Tasks.{has_task}
use raft_2pl.Rpc.{ResponseAppendEntries, response_append_entries}
use raft_2pl.Raft.{Node}
use raft_2pl.Raft.Invariant.{IsSound}
use raft_2pl.Raft.Commits.{fixed}
use raft_2pl.Raft.Acks.{is_decisive, TaskLeft, notifier_step-Acked}
use raft_2pl.Raft.Quorum.{next_vote, is_quorum-few, is_quorum-more}
use raft_2pl.Raft.Answers.{tagged}
use raft_2pl.Raft.Answers.Steps.{produced}
use raft_2pl.Raft.Threads.{IsHeard, Moves, works, hears, produces, here, next}

-- The ack of a follower for a record.
abbrev pub ack_of : (term worker_id lsn node_id : Int32) → ResponseAppendEntries
ack_of term worker_id lsn node_id = record {
  rpc_kind = response_append_entries;
  term = term;
  success = true;
  lsn = lsn;
  worker_id = worker_id;
  r_node_id = node_id;
}

-- One ack of each of the followers for a record, by record and follower.
abbrev pub acks_of : Int32 → List Int32 → List (Int32 × Int32)
acks_of lsn [] = []
acks_of lsn (v ∷ vs) = (lsn, v) ∷ acks_of lsn vs

append-nil_parts {ℓ} : {A : Type ℓ} (xs ys : List A) → xs ++ ys ≡ [] → (xs ≡ []) × (ys ≡ [])
append-nil_parts [] ys e = (refl, e)
append-nil_parts (x ∷ xs) ys e = absurd (cc)

module _ (s : Sizes) (fuel : ℕ) (send_ok : Int32 → Bool) where
  pub Moves-trans :
      {n k m : Node}
      → Moves s fuel send_ok n k
      → Moves s fuel send_ok k m
      → Moves s fuel send_ok n m
  Moves-trans first here = first
  Moves-trans first (next moves last) = next (Moves-trans first moves) last

  -- No request comes in.
  abbrev pub IsQuiet : {n m : Node} → Moves s fuel send_ok n m → Type 0
  IsQuiet moves = produced s fuel send_ok moves ≡ []

  pub Moves-trans-IsQuiet :
      {n k m : Node} (first : Moves s fuel send_ok n k) (moves : Moves s fuel send_ok k m)
      → IsQuiet first
      → IsQuiet moves
      → IsQuiet (Moves-trans first moves)
  unfolding Moves-trans produced
  Moves-trans-IsQuiet first here h k = h
  Moves-trans-IsQuiet first (next moves (works n m o io run)) h k =
      Moves-trans-IsQuiet first moves h k
  Moves-trans-IsQuiet first (next moves (hears n m ack memory heard run)) h k =
      Moves-trans-IsQuiet first moves h k
  Moves-trans-IsQuiet first (next moves (produces n client command reqs a)) h k =
      let (early, late) =
        append-nil_parts (produced s fuel send_ok moves) (tagged client command reqs) k in
      rw (Moves-trans-IsQuiet first moves h early, late) refl

  -- The acks that were counted, by record and follower.
  unfoldable pub heard : {n m : Node} → Moves s fuel send_ok n m → List (Int32 × Int32)
  heard here = []
  heard (next moves (works n m o io run)) = heard moves
  heard (next moves (hears n m ack memory h run)) = heard moves ++ (ack.lsn, ack.r_node_id) ∷ []
  heard (next moves (produces n client command reqs a)) = heard moves

  pub heard_trans :
      {n k m : Node} (first : Moves s fuel send_ok n k) (moves : Moves s fuel send_ok k m)
      → heard (Moves-trans first moves) ≡ heard first ++ heard moves
  unfolding Moves-trans heard
  heard_trans first here = sym (append-nil (heard first))
  heard_trans first (next moves (works n m o io run)) = heard_trans first moves
  heard_trans first (next moves (hears n m ack memory h run)) =
      let x : List (Int32 × Int32) = (ack.lsn, ack.r_node_id) ∷ [] in
      ap (λ (l : List (Int32 × Int32)). l ++ x) (heard_trans first moves)
      ∙ append_assoc (heard first) (heard moves) x
  heard_trans first (next moves (produces n client command reqs a)) = heard_trans first moves

  -- From `n` the task of the record was committed, by these acks.
  pub record Committing (n : Node) (lsn : Int32) (acks : List (Int32 × Int32)) (m : Node)
      : Type 0 where
    pub moves : Moves s fuel send_ok n m
    pub quiet : IsQuiet moves
    pub heard_acks : heard moves ≡ acks
    pub left : TaskLeft s send_ok n lsn m
    pub same_fixed : fixed m ≡ fixed n
    pub others :
        (j : Int32) → (j == lsn) ≡ false → vote_at m.status.votes j ≡ vote_at n.status.votes j

  module _ (sized : IsSized s) (memory : Task) (term worker_id lsn : Int32) where
    one_ack :
        (n : Node) (id : Int32)
        → IsSound s n
        → IsHeard n.info (ack_of term worker_id lsn id)
        → n.cluster_size < sign_bit
        → has_task n.info.task_list lsn ≡ true
        → vote_at n.status.votes lsn ≡ n.cluster_size / 2
        → (m : Node) × Committing n lsn ((lsn, id) ∷ []) m
    unfolding produced heard
    one_ack n id h heard_of small stored votes =
        let ack = ack_of term worker_id lsn id in
        let (m, run, acked) =
          notifier_step-Acked s sized fuel send_ok n ack memory heard_of.follower h heard_of.mine
            heard_of.known heard_of.natural in
        let half = n.cluster_size / 2 in
        let decided : is_decisive n ack ≡ true =
          rw (votes, next_vote n.cluster_size half small (omega arith))
            (is_quorum-more n.cluster_size (half + 1) small refl) in
        (
          m,
          record {
            moves = next here (hears n m ack memory heard_of run);
            quiet = refl;
            heard_acks = refl;
            left = elim acked.outcome [
              | inl (inl few, same) ↦ absurd (cc)
              | inl (inr absent, same) ↦ absurd (cc)
              | inr (decisive, left) ↦ left
            ];
            same_fixed = acked.same_fixed;
            others = acked.others;
          },
        )

    -- One ack of each follower of the list; the last one commits the task.
    pub acks_commit :
        (id : Int32) (ids : List Int32) (n : Node)
        → IsSound s n
        → All (λ (v : Int32). IsHeard n.info (ack_of term worker_id lsn v)) (id ∷ ids)
        → n.cluster_size < sign_bit
        → has_task n.info.task_list lsn ≡ true
        → vote_at n.status.votes lsn + length ids ≡ n.cluster_size / 2
        → (m : Node) × Committing n lsn (acks_of lsn (id ∷ ids)) m
    unfolding produced heard
    acks_commit id [] n h known small stored votes =
        one_ack n id h known.0 small stored (omega (arith, votes))
    acks_commit id (i ∷ ids) n h known small stored votes =
        let ack = ack_of term worker_id lsn id in
        let heard_of = known.0 in
        let v = vote_at n.status.votes lsn in
        let (m, run, acked) =
          notifier_step-Acked s sized fuel send_ok n ack memory heard_of.follower h heard_of.mine
            heard_of.known heard_of.natural in
        let next_v = next_vote n.cluster_size v small (omega (arith, votes)) in
        let undecided : is_decisive n ack ≡ false =
          rw next_v (is_quorum-few n.cluster_size (v + 1) small (omega (arith, votes))) in
        let e : m ≡ record n { status = m.status } = elim acked.outcome [
          | inl (why, same) ↦ same
          | inr (decisive, left) ↦ absurd (cc)
        ] in
        let info : n.info ≡ m.info = sym (ap (λ (x : Node). x.info) e) in
        let size : m.cluster_size ≡ n.cluster_size = ap (λ (x : Node). x.cluster_size) e in
        let (last, done) =
          acks_commit i ids m acked.sound
            (subst
              (λ (wi : WorkerInfo).
                All (λ (v : Int32). IsHeard wi (ack_of term worker_id lsn v)) (i ∷ ids))
              info known.1)
            (omega arith)
            (subst (λ (wi : WorkerInfo). has_task wi.task_list lsn ≡ true) info stored)
            (omega (arith, votes, acked.voted undecided refl ∙ next_v)) in
        let step : Moves s fuel send_ok n m = next here (hears n m ack memory heard_of run) in
        (
          last,
          record {
            moves = Moves-trans step done.moves;
            quiet = Moves-trans-IsQuiet step done.moves refl done.quiet;
            heard_acks =
                heard_trans step done.moves
                ∙ ap (λ (l : List (Int32 × Int32)). (lsn, id) ∷ l) done.heard_acks;
            left = subst (λ (x : Node). TaskLeft s send_ok x lsn last) e done.left;
            same_fixed = done.same_fixed ∙ acked.same_fixed;
            others = λ j other. done.others j other ∙ acked.others j other;
          },
        )

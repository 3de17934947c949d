-- ===== src/Raft/Commits.antt =====
-- The commit of a task: its requests are committed in their order (src/server/raft.cc, notifier).
use mathlib.Core.List.{append_assoc, append-nil}
use raft_2pl.Prelude.{
  ◌>>=◌, ℕ, suc, ◌%◌, ◌<◌, ◌≡◌, ◌∙◌, sym, ap, subst, refl, Int32, u32, minus_one, Bool, false, List,
  [], ◌∷◌, ◌++◌, length, take, take-length, ◌==◌, Returns,
}
use raft_2pl.Types.{Sizes, ClientRequest, TransReq, max_group_entry}
use raft_2pl.Kvs.Table.{IsSized}
use raft_2pl.Worker.{FollowerInfo, Task, set_commit_index}
use raft_2pl.Raft.Clients.{send_to_client}
use raft_2pl.Rpc.{CommitMessage, cm_by_fields}
use raft_2pl.Nodes.{ClientNode}
use raft_2pl.Twopl.Transfer.{IsAccepted}
use raft_2pl.Twopl.Commit.{total}
use raft_2pl.Twopl.Bank.{All, IsConsistent, commit_returns, All-middle, commit_work-IsConsistent}
use raft_2pl.Twopl.Ledger.{balances_of, post_all, commit_posted}
use raft_2pl.Raft.{Node, Point, commit_xact, commit_xacts, commit_task}
use raft_2pl.Raft.Invariant.{
  requests, task_requests, sent_requests, IsCounted, IsSound, SentIsCounted, task_to_front,
  All-split,
}

-- What a commit leaves alone.
abbrev pub Kept : Type 0
Kept = List TransReq × List Task × List TransReq × TransReq × Point × Bool

abbrev pub kept : Node → Kept
kept n = (n.info.xact_queue, n.info.task_list, n.log_buffer, n.xact, n.point, n.can_do_xact_deq)

-- What no ack changes.
abbrev pub Fixed : Type 0
Fixed = Int32 × List FollowerInfo × Int32 × ℕ

abbrev pub fixed : Node → Fixed
fixed n = (n.info.worker_id, n.info.followers, n.cluster_size, n.lsn_counter)

-- The clients after the answers to a list of requests, one after the other, and what was sent.
abbrev pub answer_all :
    (Int32 → Bool)
    → List ClientNode
    → List TransReq
    → List ClientNode × List (Int32 × CommitMessage)
answer_all send_ok clients [] = (clients, [])
answer_all send_ok clients (x ∷ xs) =
    let first = send_to_client send_ok clients x.client_id (cm_by_fields x.command_id) in
    let rest = answer_all send_ok first.0 xs in (rest.0, first.1 ++ rest.1)

-- From `n` to `m` the requests of the list were answered.
abbrev pub Answered : (Int32 → Bool) → Node → List TransReq → Node → Type 0
Answered send_ok n xs m =
    let r = answer_all send_ok n.clients xs in (m.clients ≡ r.0) × (m.messages ≡ n.messages ++ r.1)

-- The pending requests, read off what is kept.
abbrev pending_of : Kept → List ClientRequest
pending_of k = requests k.2 ++ (sent_requests k.4 ++ task_requests k.1)

IsSound-kept :
    (s : Sizes) (n m : Node) (before rest : List Task) (t : Task)
    → n.info.task_list ≡ before ++ t ∷ rest
    → IsSound s n
    → kept m ≡ (n.info.xact_queue, before ++ rest, n.log_buffer, n.xact, n.point, n.can_do_xact_deq)
    → IsConsistent s (record {
      kvs = m.kvs;
      pending = requests n.log_buffer ++ (sent_requests n.point ++ task_requests (before ++ rest));
    })
    → IsSound s m
IsSound-kept s n m before rest t e h frame c =
    let back = sym frame in
    record {
      store =
          subst (λ (k : Kept). IsConsistent s (record { kvs = m.kvs; pending = pending_of k })) back
            c;
      queued = subst (λ (k : Kept). All (λ (x : TransReq). IsAccepted s x.req) k.0) back h.queued;
      retried = subst (λ (k : Kept). k.5 ≡ false → IsAccepted s (k.3).req) back h.retried;
      room = subst (λ (k : Kept). length k.2 < max_group_entry) back h.room;
      sent = subst (λ (k : Kept). SentIsCounted k.4) back h.sent;
      tasks =
          subst (λ (k : Kept). All IsCounted k.1) back
            (All-middle IsCounted before t rest (rw e at h.tasks)).1;
    }

module _ (s : Sizes) (sized : IsSized s) (fuel : ℕ) (send_ok : Int32 → Bool)
    (next_index : Int32) where
  -- The requests in front of the pending ones are committed in their order.
  commit_xacts_lem :
      (n : Node) (xs : List TransReq) (others : List ClientRequest)
      → IsConsistent s (record { kvs = n.kvs; pending = requests xs ++ others })
      → Returns (commit_xacts s (suc fuel) send_ok n next_index xs) λ m.
        IsConsistent s (record { kvs = m.kvs; pending = others })
        × (total s.database m.kvs.hash % u32 ≡ total s.database n.kvs.hash % u32)
        × (kept m ≡ kept n)
        × (balances_of m.kvs.hash ≡ post_all (balances_of n.kvs.hash) (requests xs))
        × Answered send_ok n xs m
        × (fixed m ≡ fixed n)
        × (m.status ≡ n.status)
  unfolding commit_xacts commit_xact set_commit_index
  commit_xacts_lem n [] others c =
      (n, refl, (c, refl, refl, refl, (refl, sym (append-nil n.messages)), refl, refl))
  commit_xacts_lem n (x ∷ xs) others c =
      let (kvs, run, done) =
        (commit_returns s (record { kvs = n.kvs; pending = requests (x ∷ xs) ++ others }) []
          (requests xs ++ others) x.req fuel sized c refl).0 in
      let next : IsConsistent s (record { kvs = kvs; pending = requests xs ++ others }) =
        commit_work-IsConsistent s _ [] (requests xs ++ others) x.req kvs refl done c in
      let sent = send_to_client send_ok n.clients x.client_id (cm_by_fields x.command_id) in
      let m : Node = record n {
        kvs = kvs;
        info = set_commit_index n.info next_index;
        clients = sent.0;
        messages = n.messages ++ sent.1;
      } in
      let (after, ran, (consistent, same, frame, posts, answers, same_fixed, same_status)) =
        commit_xacts_lem m xs others next in
      let post = commit_posted s n.kvs kvs x.req c.accepted.0 done in
      (
        after,
        rw (run, ◌>>=◌) ran,
        (
          consistent,
          same ∙ done.total,
          frame,
          posts ∙ ap (λ (b : ℕ → Int32). post_all b (requests xs)) post,
          (answers.0, answers.1 ∙ append_assoc n.messages sent.1 (answer_all send_ok sent.0 xs).1),
          same_fixed,
          same_status,
        ),
      )

  -- The task that a search took out of the list is committed.
  pub commit_task-IsSound :
      (n : Node) (before rest : List Task) (t : Task)
      → n.info.task_list ≡ before ++ t ∷ rest
      → (t.lsn == minus_one) ≡ false
      → IsSound s n
      → let loaded : Node = record n { info = record n.info { task_list = before ++ rest } } in
        Returns (commit_task s (suc fuel) send_ok loaded next_index t) λ m.
          IsSound s m
          × (total s.database m.kvs.hash % u32 ≡ total s.database n.kvs.hash % u32)
          × (kept m ≡ kept loaded)
          × All (IsAccepted s) (requests t.xact_set)
          × (balances_of m.kvs.hash ≡ post_all (balances_of n.kvs.hash) (requests t.xact_set))
          × Answered send_ok n t.xact_set m
          × (fixed m ≡ fixed n)
          × (m.status ≡ n.status)
  unfolding commit_task
  commit_task-IsSound n before rest t e real h =
      let counted = (All-middle IsCounted before t rest (rw e at h.tasks)).0 in
      let others =
        requests n.log_buffer ++ (sent_requests n.point ++ task_requests (before ++ rest)) in
      let front =
        task_to_front s n.kvs (requests n.log_buffer) (sent_requests n.point) before rest t (
          subst
            (λ (ts : List Task). IsConsistent s (record {
              kvs = n.kvs;
              pending = requests n.log_buffer ++ (sent_requests n.point ++ task_requests ts);
            }))
            e h.store) in
      let whole : take t.nlog t.xact_set ≡ t.xact_set = rw counted.0 (take-length t.xact_set) in
      let loaded : Node = record n { info = record n.info { task_list = before ++ rest } } in
      let (m, run, (consistent, same, frame, posts, answers, same_fixed, same_status)) =
        commit_xacts_lem loaded t.xact_set others front in
      (
        m,
        rw (real, whole) run,
        (
          IsSound-kept s n m before rest t e h frame consistent,
          same,
          frame,
          (All-split (IsAccepted s) (requests t.xact_set) others front.accepted).0,
          posts,
          answers,
          same_fixed,
          same_status,
        ),
      )

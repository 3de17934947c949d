-- ===== src/Raft/Acks.antt =====
-- The notifier: what an ack of a follower makes of the node (src/server/raft.cc, notifier).
use raft_2pl.Prelude.{
  ◌>>=◌, ℕ, suc, ◌%◌, ◌<◌, ◌≡◌, ◌∙◌, sym, ap, refl, Int32, u32, sign_bit, ◌&&◌, minus_one, Bool,
  true, false, is_negative, List, [], ◌∷◌, ◌++◌, arith, ◌⊎◌, inl, inr, ◌==◌, Returns, ok,
  Bool-cases, add32, ==_refl,
}
use raft_2pl.Types.{Sizes}
use raft_2pl.Kvs.Table.{IsSized}
use raft_2pl.Status.{Status, vote_at}
use raft_2pl.Status.Votes.{add_vote_count_lem}
use raft_2pl.Worker.{Task, FollowerInfo, task_load, get_follower_info_by_id}
use raft_2pl.Worker.Tasks.{has_task, take_task-cases}
use raft_2pl.Rpc.{ResponseAppendEntries}
use raft_2pl.Twopl.Commit.{total}
use raft_2pl.Raft.{Node, commit_task, count_ack, notifier_step, is_quorum}
use raft_2pl.Raft.Invariant.{IsSound, requests}
use raft_2pl.Twopl.Transfer.{IsAccepted}
use raft_2pl.Twopl.Bank.{All}
use raft_2pl.Twopl.Ledger.{balances_of, post_all}
use raft_2pl.Raft.Commits.{fixed, kept, Answered, commit_task-IsSound}

-- The ack counts, and with it the record has more votes than half of the cluster.
abbrev pub is_decisive : Node → ResponseAppendEntries → Bool
is_decisive n ack =
    ack.success && is_quorum (add32 (vote_at n.status.votes ack.lsn) 1) n.cluster_size

-- The task list before and after a task with the number `lsn` left it, the rest of what the worker
-- reads, the balances, to which its requests are posted in their order, and the answers.
abbrev pub TaskLeft : Sizes → (Int32 → Bool) → Node → Int32 → Node → Type 0
TaskLeft s send_ok n lsn m =
    (before : List Task) × (t : Task) × (rest : List Task) × (n.info.task_list ≡ before ++ t ∷ rest)
    × (t.lsn ≡ lsn)
    × (kept m ≡ kept (record n { info = record n.info { task_list = before ++ rest } }))
    × All (IsAccepted s) (requests t.xact_set)
    × (balances_of m.kvs.hash ≡ post_all (balances_of n.kvs.hash) (requests t.xact_set))
    × Answered send_ok n t.xact_set m

-- What an ack makes of a node. Only the status changes by an ack that is not decisive, or if no
-- task with its number is stored; by a decisive one such a task leaves the
-- list, and its requests are posted and answered.
pub record Acked (s : Sizes) (send_ok : Int32 → Bool) (n : Node) (ack : ResponseAppendEntries)
    (m : Node) : Type 0 where
  pub sound : IsSound s m
  pub total : total s.database m.kvs.hash % u32 ≡ total s.database n.kvs.hash % u32
  pub voted :
      is_decisive n ack ≡ false
      → ack.success ≡ true
      → vote_at m.status.votes ack.lsn ≡ add32 (vote_at n.status.votes ack.lsn) 1
  pub others :
      (j : Int32) → (j == ack.lsn) ≡ false → vote_at m.status.votes j ≡ vote_at n.status.votes j
  pub same_fixed : fixed m ≡ fixed n
  pub outcome :
      (((is_decisive n ack ≡ false) ⊎ (has_task n.info.task_list ack.lsn ≡ false))
        × (m ≡ record n { status = m.status }))
      ⊎ ((is_decisive n ack ≡ true) × TaskLeft s send_ok n ack.lsn m)

pub has_task-middle :
    (before rest : List Task) (t : Task) → has_task (before ++ t ∷ rest) t.lsn ≡ true
unfolding has_task
has_task-middle [] rest t = ground arith
has_task-middle (x ∷ before) rest t = ground (arith, has_task-middle before rest t)

-- An ack for which no task is stored changes the status only.
pub Acked-absent :
    (s : Sizes) (send_ok : Int32 → Bool) (n : Node) (ack : ResponseAppendEntries) (m : Node)
    → Acked s send_ok n ack m
    → has_task n.info.task_list ack.lsn ≡ false
    → m ≡ record n { status = m.status }
Acked-absent s send_ok n ack m acked absent = elim acked.outcome [
  | inl (why, same) ↦ same
  | inr (decisive, (before, t, rest, split, hit, left, accepted, posts, answers)) ↦
      let present : has_task n.info.task_list ack.lsn ≡ true =
        rw (split, ← hit) (has_task-middle before rest t) in
      absurd (cc)
]

-- What the search for the task decides, once the ack is decisive.
abbrev Found : Sizes → (Int32 → Bool) → Node → Int32 → Node → Type 0
Found s send_ok n lsn m =
    ((has_task n.info.task_list lsn ≡ false) × (m ≡ n)) ⊎ TaskLeft s send_ok n lsn m

decisive-Acked :
    (s : Sizes) (send_ok : Int32 → Bool) (n : Node) (ack : ResponseAppendEntries) (m : Node)
    (st : Status)
    → IsSound s m
    → total s.database m.kvs.hash % u32 ≡ total s.database n.kvs.hash % u32
    → is_decisive n ack ≡ true
    → Found s send_ok (record n { status = st }) ack.lsn m
    → m.status ≡ st
    → fixed m ≡ fixed n
    → ((j : Int32) → (j == ack.lsn) ≡ false → vote_at st.votes j ≡ vote_at n.status.votes j)
    → Acked s send_ok n ack m
decisive-Acked s send_ok n ack m st sound same decisive (inl (absent, e)) new fix others =
    let frame : m ≡ record n { status = m.status } =
      e ∙ ap (λ (x : Status). record n { status = x }) (sym (ap (λ (x : Node). x.status) e)) in
    record {
      sound = sound;
      total = same;
      voted = λ few. absurd (cc);
      others = λ k other. ap (λ (x : Status). vote_at x.votes k) new ∙ others k other;
      same_fixed = fix;
      outcome = inl (inr absent, frame);
    }
decisive-Acked s send_ok n ack m st sound same decisive (inr left) new fix others = record {
  sound = sound;
  total = same;
  voted = λ few. absurd (cc);
  others = λ k other. ap (λ (x : Status). vote_at x.votes k) new ∙ others k other;
  same_fixed = fix;
  outcome = inr (decisive, left);
}

module _ (s : Sizes) (sized : IsSized s) (fuel : ℕ) (send_ok : Int32 → Bool) where
  -- A node that changes in its status alone stays sound.
  status-IsSound : (n : Node) (st : Status) → IsSound s n → IsSound s (record n { status = st })
  status-IsSound n st h = record {
    store = h.store;
    queued = h.queued;
    retried = h.retried;
    room = h.room;
    sent = h.sent;
    tasks = h.tasks;
  }

  quorum_lem :
      (n : Node) (next_index lsn : Int32) (memory : Task)
      → is_negative lsn ≡ false
      → IsSound s n
      → let loaded = task_load n.info lsn memory in
        Returns
          (commit_task s (suc fuel) send_ok (record n { info = loaded.1 }) next_index loaded.0)
          λ m.
            IsSound s m
            × (total s.database m.kvs.hash % u32 ≡ total s.database n.kvs.hash % u32)
            × Found s send_ok n lsn m
            × (m.status ≡ n.status)
            × (fixed m ≡ fixed n)
  unfolding task_load commit_task
  quorum_lem n next_index lsn memory real h =
      let cases = take_task-cases n.info.task_list lsn (record memory { lsn = minus_one }) in
      elim cases [
        | inl (absent, e) ↦ (n, rw e refl, (h, refl, inl (absent, refl), refl, refl))
        | inr (before, t, rest, split, e, hit) ↦
            let named : (t.lsn == minus_one) ≡ false = ground arith in
            let (m, run, (sound, same, left, accepted, posts, answers, fix, stays)) =
              commit_task-IsSound s sized fuel send_ok next_index n before rest t split named h in
            (
              m,
              rw e run,
              (
                sound,
                same,
                inr (before, t, rest, split, hit, left, accepted, posts, answers),
                stays,
                fix,
              ),
            )
      ]

  -- An ack for the worker from a follower that it knows, for a record with a non-negative number:
  -- the notifier returns, the node stays sound, and the sum of the balances is the same modulo
  -- 2 ^ 32. Either this ack makes a quorum, a stored task with its number leaves the list, and the
  -- transfers of the task are posted to the balances and answered in their order, while the queue, the
  -- buffer, the request at hand and the other tasks stay; or only the status changes, and then the ack made no quorum or no such task is stored.
  pub notifier_step-Acked :
      (n : Node) (ack : ResponseAppendEntries) (memory : Task) (fi : FollowerInfo)
      → IsSound s n
      → n.info.worker_id ≡ ack.worker_id
      → get_follower_info_by_id n.info.followers ack.r_node_id ≡ ok fi
      → ack.lsn < sign_bit
      → Returns (notifier_step s (suc fuel) send_ok n ack memory) (Acked s send_ok n ack)
  unfolding notifier_step count_ack
  notifier_step-Acked n ack memory fi h mine known real =
      let own : (n.info.worker_id == ack.worker_id) ≡ true = ground arith in
      let natural : is_negative ack.lsn ≡ false = ground arith in
      elim (Bool-cases ack.success) [
        | inr failed ↦ (
          n,
          rw (own, ◌>>=◌, known, failed) refl,
          record {
            sound = h;
            total = refl;
            voted = λ few yes. absurd (cc);
            others = λ j other. refl;
            same_fixed = refl;
            outcome = inl (inl (ground arith), refl);
          },
        )
        | inl success ↦
            let (v, run, voted) = add_vote_count_lem n.status ack.lsn natural in
            let next = record n { status = v.1 } in
            let sound = status-IsSound n v.1 h in
            let other_votes : (j : Int32)
                → (j == ack.lsn) ≡ false
                → vote_at v.1.votes j ≡ vote_at n.status.votes j =
              λ j other. voted.votes j ∙ rw other refl in
            elim (Bool-cases (is_quorum v.0 n.cluster_size)) [
              | inr few ↦ (
                record n { status = v.1 },
                rw (own, ◌>>=◌, known, success, run, few) refl,
                record {
                  sound = sound;
                  total = refl;
                  voted = λ few' yes. voted.votes ack.lsn ∙ rw (==_refl ack.lsn) refl;
                  others = other_votes;
                  same_fixed = refl;
                  outcome = inl (inl (ground (arith, voted.count)), refl);
                },
              )
              | inl many ↦
                  let (m, ran, (kept, same, cases, stays, fix)) =
                    quorum_lem (record n { status = v.1 }) (add32 fi.next_index 1) ack.lsn memory
                      natural sound in
                  (
                    m,
                    rw (own, ◌>>=◌, known, success, run, many) ran,
                    decisive-Acked s send_ok n ack m v.1 kept same (ground (arith, voted.count))
                        cases stays fix other_votes,
                  )
            ]
      ]

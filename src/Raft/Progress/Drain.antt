-- ===== src/Raft/Progress/Drain.antt =====
-- A node without granted requests can serve all that is queued.
use raft_2pl.Prelude.{
  ℕ, zero, suc, ◌+◌, ◌/◌, ◌<◌, ◌≡◌, ◌∙◌, sym, ap, subst, refl, Int32, sign_bit, Bool, true, false,
  ◌==◌, List, [], ◌∷◌, ◌++◌, length, length-append, ok, arith,
}
use raft_2pl.Types.{Sizes, TransReq}
use raft_2pl.Kvs.Table.{IsSized}
use raft_2pl.Status.{Status, vote_at}
use raft_2pl.Worker.{Task, WorkerInfo, FollowerInfo, get_follower_info_by_id}
use raft_2pl.Worker.Tasks.{has_task}
use raft_2pl.Twopl.Bank.{All}
use raft_2pl.Raft.{Node}
use raft_2pl.Raft.Acks.{has_task-middle}
use raft_2pl.Raft.Commits.{Fixed, Kept}
use raft_2pl.Raft.Outstanding.{held, IsReal, outstanding}
use raft_2pl.Raft.Threads.{Moves, here, Moves-IsSound, IsHeard}
use raft_2pl.Raft.Answers.{Served}
use raft_2pl.Raft.Answers.Steps.{produced, Moves-Served}
use raft_2pl.Raft.Progress.Votes.{
  IsQuiet, Moves-trans, Moves-trans-IsQuiet, Committing, acks_commit, ack_of, acks_of, heard,
  heard_trans,
}
use raft_2pl.Raft.Progress.Turns.{waiting, IsReady, Cluster, cluster, Stored, store_next}

one_left :
    (before rest : List Task) (t u : Task) (ts : List Task)
    → ts ≡ t ∷ []
    → ts ≡ before ++ u ∷ rest
    → before ++ rest ≡ []
one_left [] [] t u ts e f = refl
one_left [] (x ∷ rest) t u ts e f =
    let h = ap (λ (l : List Task). length l) (sym e ∙ f) in absurd (omega arith)
one_left (x ∷ before) rest t u ts e f =
    let h = ap (λ (l : List Task). length l) (sym e ∙ f) in
    absurd (omega (arith, length-append before (u ∷ rest)))

-- One ack of each follower for each of the records from a number on.
abbrev pub all_acks : List Int32 → ℕ → ℕ → List (Int32 × Int32)
all_acks voters lsn zero = []
all_acks voters lsn (suc k) = acks_of lsn voters ++ all_acks voters (lsn + 1) k

abbrev IsKnown : List FollowerInfo → Int32 → Type 0
IsKnown followers v = (f : FollowerInfo) × (get_follower_info_by_id followers v ≡ ok f)

known-IsHeard :
    (wi : WorkerInfo) (term lsn : Int32)
    → lsn < sign_bit
    → (vs : List Int32) → All (IsKnown wi.followers) vs
    → All (λ (v : Int32). IsHeard wi (ack_of term wi.worker_id lsn v)) vs
known-IsHeard wi term lsn room [] h = tt
known-IsHeard wi term lsn room (v ∷ vs) h = (
  record { mine = refl; follower = h.0.0; known = h.0.1; natural = room },
  known-IsHeard wi term lsn room vs h.1,
)

module _ (s : Sizes) (fuel : ℕ) (send_ok : Int32 → Bool) (sized : IsSized s)
    (voters : List Int32) where
  -- Serving the next request leaves the node ready, with one less that waits.
  record ServedNext (n m : Node) : Type 0 where
    moves : Moves s fuel send_ok n m
    quiet : IsQuiet s fuel send_ok moves
    heard_acks : heard s fuel send_ok moves ≡ acks_of n.lsn_counter voters
    ready : IsReady s voters m
    count : suc (waiting m) ≡ waiting n
    counter : m.lsn_counter ≡ n.lsn_counter + 1

  ready_again :
      (n k m : Node) (h : IsReady s voters n) (st : Stored s fuel send_ok n k)
      → Committing s fuel send_ok k n.lsn_counter (acks_of n.lsn_counter voters) m
      → ServedNext n m
  ready_again n k m h st done =
      let (before, t, rest, split, hit, left, accepted, posts, answers) = done.left in
      let moves = Moves-trans s fuel send_ok st.moves done.moves in
      let on : m.can_do_xact_deq ≡ true = ap (λ (x : Kept). x.5) left ∙ st.free in
      let c : cluster m ≡ cluster n =
        ap (λ (f : Fixed). (f.0, f.1, f.2)) done.same_fixed ∙ st.same_cluster in
      let counter : m.lsn_counter ≡ n.lsn_counter + 1 =
        ap (λ (f : Fixed). f.3) done.same_fixed ∙ st.counter in
      let queue : m.info.xact_queue ≡ k.info.xact_queue = ap (λ (x : Kept). x.0) left in
      record {
        moves = moves;
        quiet = Moves-trans-IsQuiet s fuel send_ok st.moves done.moves st.quiet done.quiet;
        heard_acks =
            heard_trans s fuel send_ok st.moves done.moves
            ∙ ap (λ (l : List (Int32 × Int32)). l ++ heard s fuel send_ok done.moves) st.heard_acks
            ∙ done.heard_acks;
        ready = record {
          sound = (Moves-IsSound s fuel send_ok sized moves h.sound).0;
          idle = record {
            head = ap (λ (x : Kept). x.4) left ∙ st.head;
            buffer = ap (λ (x : Kept). x.2) left ∙ st.buffer;
            tasks =
                ap (λ (x : Kept). x.1) left
                ∙ one_left before rest st.task t k.info.task_list st.tasks split;
          };
          real = subst (All IsReal) (sym queue) st.real;
          retried = λ off. absurd (cc);
          small = omega (arith, h.small, ap (λ (x : Cluster). x.2) c);
          fresh = λ j le.
              let other : (j == n.lsn_counter) ≡ false = ground arith in
              done.others j other
              ∙ ap (λ (x : Status). vote_at x.votes j) st.status
              ∙ h.fresh j (omega arith);
          quorum = h.quorum ∙ ap (λ (x : Cluster). x.2 / 2 + 1) (sym c);
          distinct = h.distinct;
          known = subst (λ (x : Cluster). All (IsKnown x.1) voters) (sym c) h.known;
        };
        count = omega (
          arith,
          st.count,
          ap (λ (q : List TransReq). length q) queue,
          ap (λ (b : Bool). length (held b m.xact)) on,
        );
        counter = counter;
      }

  -- The acks of the voters for the stored task.
  commit_next :
      (n k : Node) (vs : List Int32)
      → IsReady s voters n
      → (st : Stored s fuel send_ok n k) → n.lsn_counter < sign_bit
      → voters ≡ vs
      → (m : Node) × Committing s fuel send_ok k n.lsn_counter (acks_of n.lsn_counter vs) m
  commit_next n k [] h st room e =
      absurd (omega (arith, h.quorum, ap (λ (l : List Int32). length l) e))
  commit_next n k (v ∷ vs) h st room e =
      let lsn = n.lsn_counter in
      let stored : has_task k.info.task_list lsn ≡ true =
        ap (λ (ts : List Task). has_task ts lsn) st.tasks
        ∙ subst (λ (l : Int32). has_task (st.task ∷ []) l ≡ true) st.lsn
            (has_task-middle [] [] st.task) in
      let votes : vote_at k.status.votes lsn ≡ 0 =
        ap (λ (x : Status). vote_at x.votes lsn) st.status ∙ h.fresh lsn (omega arith) in
      let size = ap (λ (x : Cluster). x.2) st.same_cluster in
      let known =
        subst (λ (x : Cluster). All (IsKnown x.1) (v ∷ vs)) (sym st.same_cluster)
          (subst (All (IsKnown n.info.followers)) e h.known) in
      acks_commit s fuel send_ok sized st.task k.status.current_term k.info.worker_id lsn v vs k
        (Moves-IsSound s fuel send_ok sized st.moves h.sound).0
        (known-IsHeard k.info k.status.current_term lsn room (v ∷ vs) known)
        (omega (arith, h.small)) stored
        (omega (arith, votes, h.quorum, ap (λ (l : List Int32). length l) e))

  serve_next :
      (n : Node)
      → IsReady s voters n
      → 0 < waiting n
      → n.lsn_counter + 1 < sign_bit
      → (m : Node) × ServedNext n m
  serve_next n h some room =
      let (k, st) = store_next s fuel send_ok sized voters n h some room in
      let (m, done) = commit_next n k voters h st (omega arith) refl in
      (m, ready_again n k m h st done)

  serve_all :
      (k : ℕ) (n : Node)
      → IsReady s voters n
      → waiting n ≡ k
      → n.lsn_counter + waiting n < sign_bit
      → (m : Node) × (moves : Moves s fuel send_ok n m) × IsQuiet s fuel send_ok moves
        × (heard s fuel send_ok moves ≡ all_acks voters n.lsn_counter k)
        × IsReady s voters m
        × (waiting m ≡ 0)
  unfolding produced heard
  serve_all zero n h count room = (n, here, refl, refl, h, count)
  serve_all (suc k) n h count room =
      let (m, next_one) = serve_next n h (omega arith) (omega arith) in
      let (last, moves, quiet, acks, ready, none) =
        serve_all k m next_one.ready (omega (arith, next_one.count))
          (omega (arith, next_one.count, next_one.counter)) in
      (
        last,
        Moves-trans s fuel send_ok next_one.moves moves,
        Moves-trans-IsQuiet s fuel send_ok next_one.moves moves next_one.quiet quiet,
        heard_trans s fuel send_ok next_one.moves moves
            ∙ ap (λ (l : List (Int32 × Int32)). l ++ heard s fuel send_ok moves) next_one.heard_acks
            ∙ ap (λ (l : List (Int32 × Int32)). acks_of n.lsn_counter voters ++ l)
                (acks ∙ ap (λ (x : ℕ). all_acks voters x k) next_one.counter),
        ready,
        none,
      )

nil_of_length : (xs : List TransReq) → length xs ≡ 0 → xs ≡ []
nil_of_length [] e = refl
nil_of_length (x ∷ xs) e = absurd (omega arith)

no_waiting :
    (s : Sizes) (voters : List Int32) (n : Node)
    → IsReady s voters n
    → waiting n ≡ 0
    → outstanding n ≡ []
no_waiting s voters n h none =
    let queue = nil_of_length n.info.xact_queue (omega arith) in
    let back = nil_of_length (held n.can_do_xact_deq n.xact) (omega arith) in
    rw (queue, back, h.idle.buffer, h.idle.head, h.idle.tasks) refl

pub Moves-drained :
    (s : Sizes) (fuel : ℕ) (send_ok : Int32 → Bool) (voters : List Int32) (n : Node)
    → IsSized s
    → IsReady s voters n
    → n.lsn_counter + waiting n < sign_bit
    → (m : Node) × (moves : Moves s fuel send_ok n m) × IsReady s voters m
      × (outstanding m ≡ [])
      × Served s send_ok n m []
      × (heard s fuel send_ok moves ≡ all_acks voters n.lsn_counter (waiting n))
Moves-drained s fuel send_ok voters n sized h room =
    let (m, moves, quiet, acks, ready, none) =
      serve_all s fuel send_ok sized voters (waiting n) n h refl room in
    let served =
      Moves-Served s fuel send_ok sized moves h.sound h.real (subst (All IsReal) (sym quiet) tt) in
    (
      m,
      moves,
      ready,
      no_waiting s voters m ready none,
      subst (Served s send_ok n m) quiet served,
      acks,
    )

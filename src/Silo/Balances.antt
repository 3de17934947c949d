-- ===== src/Silo/Balances.antt =====
-- What a transfer of the Silo engine writes, when no other thread runs
-- (src/silo/transaction.cc).
use raft_2pl.Prelude.{
  ℕ, ◌+◌, ◌/◌, ◌^◌, ◌%◌, ◌<◌, ◌≡◌, ◌∙◌, refl, slt, ltb, ◌==◌, ◌||◌, neg32, ==_refl, arith, Bool,
  true, false, inl, inr, ok, Returns, List, [], ◌∷◌, Bool-cases, add32, sub32,
}
use raft_2pl.Types.{ClientRequest}
use raft_2pl.Silo.{TxnExecutor, string_view}
use raft_2pl.Silo.Phases.{
  commit_tid, to_bytes, of_bytes, write_phase, write_all, written_val, overlay, transfer_work,
  sort_request,
}
use raft_2pl.Silo.Alone.{
  IsOpen, idle, from_amount, to_amount, validated, execute_run, validation_run,
}

-- The transfer is granted: the two tuples hold what the strings `u` and `v` write and are not
-- locked, no other tuple changes, and the executor is idle again.
pub record Transferred (t : TxnExecutor) (req : ClientRequest) (u v : List ℕ)
    (r : Bool × TxnExecutor) : Type 0 where
  pub granted : r.0 ≡ true
  pub from_val : (r.1.table req.from).val ≡ written_val t.write_val u (t.table req.from).val
  pub to_val : (r.1.table req.to).val ≡ written_val t.write_val v (t.table req.to).val
  pub free : ((r.1.table req.from).tidword.lock ≡ false) × ((r.1.table req.to).tidword.lock ≡ false)
  pub others : (k : ℕ) → (k == req.from || k == req.to) ≡ false → r.1.table k ≡ t.table k
  pub empty : (r.1.read_set ≡ []) × (r.1.write_set ≡ [])

sort_request-IsOpen :
    (t : TxnExecutor) (request : ClientRequest)
    → IsOpen t request
    → IsOpen t (sort_request request)
      × (ltb (sort_request request).to (sort_request request).from ≡ false)
unfolding sort_request
sort_request-IsOpen t request o = elim (Bool-cases (slt request.to request.from)) [
  | inl swap ↦ rw swap (
    record {
      small = o.small;
      from_in = o.to_in;
      to_in = o.from_in;
      apart = ground (arith, o.apart);
      from_free = o.to_free;
      to_free = o.from_free;
    },
    ground (arith, o.apart),
  )
  | inr keep ↦ rw keep (o, ground (arith, o.apart))
]

module _ (t : TxnExecutor) (request : ClientRequest) (epoch : ℕ) (u v : List ℕ) where
  -- A transfer whose keys are two tuples of the table that nobody has locked, where the bytes of
  -- both new amounts have a zero: alone, it returns true; the tuples of the two keys, in the sorted
  -- request, hold what the bytes before the first zero write, and are not locked; no other tuple
  -- changes.
  pub transfer_work-Transferred :
      IsOpen t request
      → string_view (to_bytes (from_amount t (sort_request request))) ≡ ok u
      → string_view (to_bytes (to_amount t (sort_request request))) ≡ ok v
      → Returns (transfer_work epoch (idle t) request) (Transferred t (sort_request request) u v)
  unfolding transfer_work write_phase write_all commit_tid
  transfer_work-Transferred o from_view to_view =
      let req = sort_request request in
      let (ready, order) = sort_request-IsOpen t request o in
      let apart : (req.to == req.from) ≡ false = ground (arith, ready.apart) in
      let ran = execute_run t req ready u v from_view to_view in
      let (w, r, valid) = validation_run t req ready u v epoch order in
      (
        (true, write_phase (validated t req u v epoch w r)),
        rw (o.apart, ran, valid) refl,
        record {
          granted = refl;
          from_val = rw (ready.apart, ==_refl req.from) refl;
          to_val = rw (==_refl req.to, apart) refl;
          free = (rw (ready.apart, ==_refl req.from) refl, rw (==_refl req.to) refl);
          others = λ k h.
              let not_from : (k == req.from) ≡ false = ground arith in
              let not_to : (k == req.to) ≡ false = ground arith in rw (not_from, not_to) refl;
          empty = (refl, refl);
        },
      )

string_view-zero : (n : ℕ) → n % 256 ≡ 0 → string_view (to_bytes n) ≡ ok []
unfolding string_view to_bytes
string_view-zero n h = rw h refl

-- If the lowest byte of the amount that the first key of the sorted request gets is zero, and the
-- other amount has a zero byte, then the transfer is granted, but the tuple of the first key gets
-- the executor's benchmark text in place of the amount.
pub transfer_work-zero_byte :
    (t : TxnExecutor) (request : ClientRequest) (epoch : ℕ) (v : List ℕ)
    → IsOpen t request
    → from_amount t (sort_request request) % 256 ≡ 0
    → string_view (to_bytes (to_amount t (sort_request request))) ≡ ok v
    → Returns
        (transfer_work epoch (idle t) request)
        λ r. (r.0 ≡ true) × ((r.1.table (sort_request request).from).val ≡ t.write_val)
unfolding written_val
transfer_work-zero_byte t request epoch v o zero_byte to_view =
    let from_view = string_view-zero (from_amount t (sort_request request)) zero_byte in
    let (r, run, done) = transfer_work-Transferred t request epoch [] v o from_view to_view in
    (r, run, (done.granted, done.from_val))

to_bytes-small : (n : ℕ) → n < 256 → to_bytes n ≡ n ∷ (0 ∷ (0 ∷ (0 ∷ [])))
unfolding to_bytes
to_bytes-small n h =
    let a : n % 256 ≡ n = omega arith in
    let b : n / 256 % 256 ≡ 0 = omega arith in
    let c : n / 2 ^ 16 % 256 ≡ 0 = omega arith in
    let d : n / 2 ^ 24 % 256 ≡ 0 = omega arith in rw (a, b, c, d) refl

string_view-small : (n : ℕ) → 0 < n → n < 256 → string_view (to_bytes n) ≡ ok (n ∷ [])
unfolding string_view
string_view-small n pos small = rw (to_bytes-small n small) (ground arith)

of_bytes-small : (n : ℕ) → n < 256 → of_bytes (to_bytes n) ≡ n
unfolding of_bytes
of_bytes-small n small = rw (to_bytes-small n small) (omega arith)

written_val-small :
    (write_val : List ℕ) (n m : ℕ)
    → n < 256
    → m < 256
    → written_val write_val (n ∷ []) (to_bytes m) ≡ to_bytes n
unfolding written_val overlay
written_val-small write_val n m small small' =
    rw (to_bytes-small n small, to_bytes-small m small') refl

-- The tuples of a sorted request whose old amounts, `p` and `q`, and new ones, `m` and `n`, have
-- one byte.
transfer_work-bytes :
    (t : TxnExecutor) (request : ClientRequest) (epoch m n p q : ℕ)
    → IsOpen t request
    → let req = sort_request request in
      (t.table req.from).val ≡ to_bytes p
      → (t.table req.to).val ≡ to_bytes q
      → from_amount t req ≡ m
      → to_amount t req ≡ n
      → (0 < m) × (m < 256) × (0 < n) × (n < 256) × (p < 256) × (q < 256)
      → Returns (transfer_work epoch (idle t) request) λ r.
        (r.0 ≡ true)
        × ((r.1.table req.from).val ≡ to_bytes m)
        × ((r.1.table req.to).val ≡ to_bytes n)
transfer_work-bytes t request epoch m n p q o old_p old_q new_m new_n (a, b, c, d, e, f) =
    let (r, run, done) =
      transfer_work-Transferred t request epoch (m ∷ []) (n ∷ []) o
        (rw new_m (string_view-small m a b)) (rw new_n (string_view-small n c d)) in
    (
      r,
      run,
      (
        done.granted,
        done.from_val ∙ rw old_p (written_val-small t.write_val m p b e),
        done.to_val ∙ rw old_q (written_val-small t.write_val n q d f),
      ),
    )

-- Two balances `a + d` and `b` of one byte, and a transfer of `d` that leaves both between 1 and
-- 255: alone, it is granted; the payer's tuple holds `a` and the payee's `b + d`, in whatever order
-- the keys are.
transfer_work-small :
    (t : TxnExecutor) (request : ClientRequest) (epoch a b : ℕ)
    → IsOpen t request
    → (t.table request.from).val ≡ to_bytes (a + request.diff)
    → (t.table request.to).val ≡ to_bytes b
    → 0 < a
    → a + request.diff < 256
    → 0 < b
    → b + request.diff < 256
    → Returns (transfer_work epoch (idle t) request) λ r.
      (r.0 ≡ true)
      × ((r.1.table request.from).val ≡ to_bytes a)
      × ((r.1.table request.to).val ≡ to_bytes (b + request.diff))
unfolding sort_request sub32 add32 neg32
transfer_work-small t request epoch a b o payer payee pos_a top_a pos_b top_b =
    let d = request.diff in
    let had : of_bytes (t.table request.from).val ≡ a + d =
      rw payer (of_bytes-small (a + d) top_a) in
    let got : of_bytes (t.table request.to).val ≡ b = rw payee (of_bytes-small b (omega arith)) in
    elim (Bool-cases (slt request.to request.from)) [
      | inl swap ↦
          let s : sort_request request
              ≡ record request { from = request.to; to = request.from; diff = neg32 d } =
            rw swap refl in
          let (r, run, (granted, to_val, from_val)) =
            transfer_work-bytes t request epoch (b + d) a b (a + d) o (rw s payee) (rw s payer)
              (rw (s, got) (omega arith)) (rw (s, had) (omega arith)) (omega arith) in
          (r, run, (granted, rw s at from_val, rw s at to_val))
      | inr keep ↦
          let s : sort_request request ≡ request = rw keep refl in
          let (r, run, (granted, from_val, to_val)) =
            transfer_work-bytes t request epoch a (b + d) (a + d) b o (rw s payer) (rw s payee)
              (rw (s, had) (omega arith)) (rw (s, got) (omega arith)) (omega arith) in
          (r, run, (granted, rw s at from_val, rw s at to_val))
    ]

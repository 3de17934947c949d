-- ===== src/Silo/Alone.antt =====
-- A transfer of the Silo engine up to its validation, when no other thread runs
-- (src/silo/transaction.cc).
use raft_2pl.Prelude.{
  ==_refl, ℕ, ◌<◌, ◌≤◌, ◌≡◌, refl, Int32, sign_bit, ltb, ◌==◌, ◌||◌, if◌then◌else◌, add32, sub32,
  arith, Bool, true, false, ◌∙◌, ap, fault, out_of_fuel, ok, List, [], ◌∷◌, ◌++◌, write_at,
}
use raft_2pl.Types.{ClientRequest}
use raft_2pl.Silo.{
  Tidword, Tuple, ReadElement, WriteElement, TxnExecutor, in_flight, max_word, committed, zero_word,
  begin_txn, with_bit, read, write, get_tuple, string_view, search_read_set, search_write_set,
  lock_write_set,
}
use raft_2pl.Silo.Locking.{taken, lock_from-free}
use raft_2pl.Silo.Phases.{
  is_aborted, execute, first_reads, to_bytes, of_bytes, key_of, validation_phase, check_reads,
  is_stale, sort, insert,
}

-- The keys of the request are two tuples of the table that nobody has locked.
pub record IsOpen (t : TxnExecutor) (req : ClientRequest) : Type 0 where
  pub small : t.tuple_num ≤ sign_bit
  pub from_in : req.from < t.tuple_num
  pub to_in : req.to < t.tuple_num
  pub apart : (req.from == req.to) ≡ false
  pub from_free : (t.table req.from).tidword.lock ≡ false
  pub to_free : (t.table req.to).tidword.lock ≡ false

-- The executor with its two sets empty, as `abort` and `writePhase` leave it.
abbrev pub idle : TxnExecutor → TxnExecutor
idle t = record t { read_set = []; write_set = [] }

abbrev pub from_amount : TxnExecutor → ClientRequest → Int32
from_amount t req = sub32 (of_bytes (t.table req.from).val) req.diff

abbrev pub to_amount : TxnExecutor → ClientRequest → Int32
to_amount t req = add32 (of_bytes (t.table req.to).val) req.diff

abbrev read_of : TxnExecutor → ℕ → ReadElement
read_of t k = record { key = k; tidword = (t.table k).tidword; val = (t.table k).val }

-- The executor after the reads and the writes; `u` and `v` are the strings of the new amounts.
abbrev executed : TxnExecutor → ClientRequest → List ℕ → List ℕ → TxnExecutor
executed t req u v = record t {
  status = in_flight;
  max_wset = zero_word;
  max_rset = zero_word;
  read_set = read_of t req.from ∷ (read_of t req.to ∷ []);
  write_set = record { key = req.from; val = u } ∷ (record { key = req.to; val = v } ∷ []);
}

key_of-small : (k n : ℕ) → k < n → n ≤ sign_bit → key_of k ≡ k
key_of-small k n h small = ground arith

read_fresh :
    (t : TxnExecutor) (k : ℕ)
    → search_read_set t.read_set k ≡ false
    → search_write_set t.write_set k ≡ false
    → k < t.tuple_num
    → (t.table k).tidword.lock ≡ false
    → read t k ≡ ok (record t { read_set = t.read_set ++ read_of t k ∷ [] })
unfolding read get_tuple
read_fresh t k a b inside free =
    let tuple : get_tuple t k ≡ ok (t.table k) = ground (arith, inside) in
    rw (a, b, tuple)
      (ap
        (λ (x : Bool).
          if x
          then fault out_of_fuel
          else ok (record t { read_set = t.read_set ++ read_of t k ∷ [] }))
        free)

write_fresh :
    (t : TxnExecutor) (k : ℕ) (val view : List ℕ)
    → string_view val ≡ ok view
    → search_write_set t.write_set k ≡ false
    → k < t.tuple_num
    → write t k val
      ≡ ok (record t { write_set = t.write_set ++ record { key = k; val = view } ∷ [] })
unfolding write get_tuple
write_fresh t k val view chars absent inside =
    let tuple : get_tuple t k ≡ ok (t.table k) = ground (arith, inside) in
    rw (chars, absent, tuple) refl

module _ (t : TxnExecutor) (req : ClientRequest) (ready : IsOpen t req) (u v : List ℕ)
    (from_view : string_view (to_bytes (from_amount t req)) ≡ ok u)
    (to_view : string_view (to_bytes (to_amount t req)) ≡ ok v) where
  pub execute_run : execute (idle t) req ≡ ok (executed t req u v)
  unfolding execute begin_txn first_reads search_read_set search_write_set
  execute_run =
      let a = key_of-small req.from t.tuple_num ready.from_in ready.small in
      let b = key_of-small req.to t.tuple_num ready.to_in ready.small in
      let t₀ = begin_txn (idle t) in
      let t₁ : TxnExecutor = record t₀ { read_set = read_of t req.from ∷ [] } in
      let t₂ : TxnExecutor = record t₁ {
        read_set = read_of t req.from ∷ (read_of t req.to ∷ []);
      } in
      let t₃ : TxnExecutor = record t₂ { write_set = record { key = req.from; val = u } ∷ [] } in
      let other : (req.from == req.to || false) ≡ false = rw (ready.apart) refl in
      let first = read_fresh t₀ req.from refl refl ready.from_in ready.from_free in
      let second = read_fresh t₁ req.to other refl ready.to_in ready.to_free in
      let third =
        write_fresh t₂ req.from (to_bytes (from_amount t req)) u from_view refl ready.from_in in
      let fourth = write_fresh t₃ req.to (to_bytes (to_amount t req)) v to_view other ready.to_in in
      rw (a, b, first, second, third, fourth) refl

check_reads-valid :
    (r : ReadElement) (rs : List ReadElement) (t : TxnExecutor)
    → is_stale t r ≡ false
    → check_reads (r ∷ rs) t
      ≡ check_reads rs (record t { max_rset = max_word t.max_rset (t.table r.key).tidword })
unfolding check_reads
check_reads-valid r rs t valid = rw valid refl

-- A tuple that the transaction has locked itself is not stale.
is_stale-own :
    (t : TxnExecutor) (r : ReadElement) (x : Tuple)
    → t.table r.key ≡ with_bit x true
    → r.tidword ≡ x.tidword
    → search_write_set t.write_set r.key ≡ true
    → is_stale t r ≡ false
unfolding is_stale
is_stale-own t r x held same own = rw (held, same, own) (ground arith)

-- The two tuples are locked by the transaction itself.
abbrev both_locked : (ℕ → Tuple) → ℕ → ℕ → ℕ → Tuple
both_locked table a b =
    let one = write_at table a (with_bit (table a) true) in write_at one b (with_bit (one b) true)

-- The executor after a validation that nobody disturbs.
abbrev pub validated :
    TxnExecutor → ClientRequest → List ℕ → List ℕ → ℕ → Tidword → Tidword → TxnExecutor
validated t req u v epoch max_w max_r = record (executed t req u v) {
  table = both_locked t.table req.from req.to;
  local_epoch = epoch;
  status = committed;
  max_wset = max_w;
  max_rset = max_r;
}

module _ (t : TxnExecutor) (req : ClientRequest) (ready : IsOpen t req) (u v : List ℕ)
    (epoch : ℕ) where
  -- A transaction that nobody disturbs is valid.
  pub validation_run :
      ltb req.to req.from ≡ false
      → (max_w max_r : Tidword) × (validation_phase epoch (executed t req u v)
          ≡ (true, validated t req u v epoch max_w max_r))
  unfolding validation_phase sort insert lock_write_set is_stale search_write_set
  validation_run order =
      let e = executed t req u v in
      let wa : WriteElement = record { key = req.from; val = u } in
      let wb : WriteElement = record { key = req.to; val = v } in
      let apart : (req.to == req.from) ≡ false = ground (arith, ready.apart) in
      let sorted : TxnExecutor = record e { write_set = sort e.write_set } in
      let same : sorted ≡ e = rw order refl in
      let l₁ = taken e wa in
      let l₂ = taken l₁ wb in
      let locked : lock_write_set sorted ≡ l₂ =
        ap lock_write_set same
        ∙ lock_from-free [] (wb ∷ []) e wa ready.from_free
        ∙ lock_from-free (wa ∷ []) [] l₁ wb (rw apart ready.to_free) in
      let c₁ : TxnExecutor = record l₂ { local_epoch = epoch } in
      let ra = read_of t req.from in
      let rb = read_of t req.to in
      let c₂ : TxnExecutor = record c₁ {
        max_rset = max_word c₁.max_rset (c₁.table req.from).tidword;
      } in
      let c₃ : TxnExecutor = record c₂ {
        max_rset = max_word c₂.max_rset (c₂.table req.to).tidword;
      } in
      let stale_a : is_stale c₁ ra ≡ false =
        is_stale-own c₁ ra (t.table req.from) (rw (ready.apart, ==_refl req.from) refl) refl
          (rw (==_refl req.from) refl) in
      let stale_b : is_stale c₂ rb ≡ false =
        is_stale-own c₂ rb (t.table req.to) (rw (==_refl req.to, apart) refl) refl
          (rw (ready.apart, ==_refl req.to) refl) in
      let checked : check_reads (ra ∷ (rb ∷ [])) c₁ ≡ (true, record c₃ { status = committed }) =
        check_reads-valid ra (rb ∷ []) c₁ stale_a ∙ check_reads-valid rb [] c₂ stale_b in
      let after : TxnExecutor → Bool × TxnExecutor = λ x.
        if is_aborted x.status
        then (false, x)
        else check_reads x.read_set (record x { local_epoch = epoch }) in
      (c₃.max_wset, c₃.max_rset, ap after locked ∙ checked)

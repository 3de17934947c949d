-- ===== src/Silo/Tids.antt =====
-- The tid that a transaction commits with (src/silo/transaction.cc, writePhase).
use raft_2pl.Prelude.{
  ℕ, ◌+◌, ◌-◌, ◌^◌, ◌<◌, ◌≤◌, ◌≡◌, ltb, arith, Bool, true, false, inl, inr, Bool-cases, to_nat,
}
use raft_2pl.Silo.{Tidword, obj, max_word, next_tid, zero_word, TxnExecutor}
use raft_2pl.Silo.Phases.{commit_tid}

-- The bit-field can count one up, and the epoch fits its field.
abbrev HasRoom : Tidword → Type 0
HasRoom w = (w.tid < 2 ^ 29 - 1) × (w.epoch < 2 ^ 32)

max_word-left : (v w : Tidword) → obj v ≤ obj (max_word v w)
max_word-left v w = elim (Bool-cases (ltb (obj v) (obj w))) [
  | inl less ↦ rw less (ground arith)
  | inr more ↦ rw more (omega arith)
]

max_word-right : (v w : Tidword) → obj w ≤ obj (max_word v w)
max_word-right v w = elim (Bool-cases (ltb (obj v) (obj w))) [
  | inl less ↦ rw less (omega arith)
  | inr more ↦ rw more (ground arith)
]

max_word-HasRoom : (v w : Tidword) → HasRoom v → HasRoom w → HasRoom (max_word v w)
max_word-HasRoom v w a b = elim (Bool-cases (ltb (obj v) (obj w))) [
  | inl less ↦ rw less b
  | inr more ↦ rw more a
]

obj-next_tid : (w : Tidword) → HasRoom w → obj (next_tid w) ≡ obj w + 8
obj-next_tid w room = omega (arith, room.0)

-- A commit clears the lock bit and sets `latest`.
abbrev unlocked : Tidword → Tidword
unlocked w = record w { lock = false; latest = true }

to_nat-bit : (b : Bool) → to_nat b ≤ 1
to_nat-bit true = omega arith
to_nat-bit false = omega arith

obj-unlocked : (w : Tidword) → obj w ≤ obj (unlocked w) + 1
obj-unlocked w = omega (arith, to_nat-bit w.lock, to_nat-bit w.latest)

epoch-le :
    (e : ℕ) (w : Tidword) → e < 2 ^ 32 → obj (record zero_word { epoch = e }) ≤ obj w → e ≤ w.epoch
epoch-le e w small h = omega (arith, to_nat-bit w.lock, to_nat-bit w.latest, to_nat-bit w.absent)

chain : {x s y p q r : ℕ} → x ≤ s → y ≡ s + 8 → y ≤ p → p ≤ q → q ≤ r + 1 → x < r
chain a b c d e = omega arith

-- The words that the transaction saw and the thread's last one have a tid field that can count one
-- up: the commit's word is greater than each of them, and its epoch is not below the thread's.
pub commit_tid_lem :
    (t : TxnExecutor)
    → HasRoom t.max_wset
    → HasRoom t.max_rset
    → HasRoom t.mrctid
    → t.local_epoch < 2 ^ 32
    → (obj t.max_wset < obj (commit_tid t))
      × (obj t.max_rset < obj (commit_tid t))
      × (obj t.mrctid < obj (commit_tid t))
      × (t.local_epoch ≤ (commit_tid t).epoch)
unfolding commit_tid
commit_tid_lem t w r m e =
    let seen = max_word t.max_wset t.max_rset in
    let a = next_tid seen in
    let b = next_tid t.mrctid in
    let c : Tidword = record zero_word { epoch = t.local_epoch } in
    let ab = max_word a b in
    let all = max_word ab c in
    let up = obj-next_tid seen (max_word-HasRoom t.max_wset t.max_rset w r) in
    let up' = obj-next_tid t.mrctid m in
    let a_le = max_word-left a b in
    let b_le = max_word-right a b in
    let ab_le = max_word-left ab c in
    let c_le = max_word-right ab c in
    let out = obj-unlocked all in
    (
      chain (max_word-left t.max_wset t.max_rset) up a_le ab_le out,
      chain (max_word-right t.max_wset t.max_rset) up a_le ab_le out,
      chain (omega arith) up' b_le ab_le out,
      epoch-le t.local_epoch all e c_le,
    )

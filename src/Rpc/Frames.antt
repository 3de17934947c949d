-- ===== src/Rpc/Frames.antt =====
-- The bytes of an acknowledgement: sendRPC of src/server/raft.cc with a header and a
-- response_append_entries, as Raft::logReceiver calls it, and the reads of Raft::notifier. An `int`
-- has four bytes, the lowest first, and a struct has the padding of the usual alignment, whose bytes
-- are an argument. A stream is the list of the bytes that the peer has sent; it ends there.
pub mod Acks
use mathlib.Core.List.{append_assoc, append-nil}
use raft_2pl.Twopl.Bank.{All}
use raft_2pl.Prelude.{
  ◌∙◌, sym, ap, le→ltb, length-append, take-length_append, drop-length_append, drop-length, ℕ, zero,
  suc, ◌+◌, ◌*◌, ◌/◌, ◌%◌, ◌^◌, ◌<◌, ◌≡◌, refl, Bool, true, false, not, ltb, ◌==◌, if◌then◌else◌,
  Int32, u32, Run, ok, fault, undefined, exit_failure, ◌>>=◌, List, [], ◌∷◌, ◌++◌, length, take,
  drop, to_nat, arith,
}
use raft_2pl.Rpc.{
  RpcKind, no_kind, notify_port, append_entries, request_vote, response_append_entries,
  response_request_vote, request_location, response_request_location, client_command,
  commit_message, client_exit, bye_from_raft, connect_notifier, kind_code, Header,
  ResponseAppendEntries,
}

bytes_of : Int32 → List ℕ
bytes_of n = n % 256 ∷ n / 256 % 256 ∷ n / 2 ^ 16 % 256 ∷ n / 2 ^ 24 % 256 ∷ []

int_of : (a b c d : ℕ) → Int32
int_of a b c d = a + 256 * b + 2 ^ 16 * c + 2 ^ 24 * d

-- `sizeof(HEADER)` and `sizeof(response_append_entries)`.
abbrev header_size : ℕ
header_size = 8

abbrev pub ack_size : ℕ
ack_size = 24

-- `sendRPC`: the header and `size` bytes of the payload.
unfoldable send_rpc : Header → List ℕ → Run (List ℕ)
unfolding bytes_of
send_rpc h payload =
    if ltb (length payload) h.size
    then fault undefined
    else ok ((bytes_of (kind_code h.kind) ++ bytes_of h.size) ++ take h.size payload)

-- `recv` of `n` bytes with MSG_WAITALL, and the exit that the callers take if there are fewer.
unfoldable recv : ℕ → List ℕ → Run (List ℕ × List ℕ)
recv n stream =
    if ltb (length stream) n then fault exit_failure else ok (take n stream, drop n stream)

-- The struct in memory.
unfoldable ack_bytes : List ℕ → ResponseAppendEntries → List ℕ
unfolding bytes_of
ack_bytes padding ack =
    bytes_of (kind_code ack.rpc_kind)
    ++ (bytes_of ack.term
        ++ (to_nat ack.success
            ∷ (padding
                ++ (bytes_of ack.lsn ++ (bytes_of ack.worker_id ++ bytes_of ack.r_node_id)))))

-- The kinds, in the order of their codes.
abbrev kinds : List RpcKind
kinds =
    no_kind ∷ notify_port ∷ append_entries ∷ request_vote ∷ response_append_entries
    ∷ response_request_vote ∷ request_location ∷ response_request_location ∷ client_command
    ∷ commit_message ∷ client_exit ∷ bye_from_raft ∷ connect_notifier ∷ []

-- A number that is no kind is an undefined value of the enumeration.
kind_in : List RpcKind → Int32 → Run RpcKind
unfolding kind_code
kind_in [] code = fault undefined
kind_in (k ∷ ks) code = if kind_code k == code then ok k else kind_in ks code

unfoldable header_of : List ℕ → Run Header
header_of (a ∷ b ∷ c ∷ d ∷ e ∷ f ∷ g ∷ h ∷ _) = do
  kind ← kind_in kinds (int_of a b c d)
  ok (record { kind = kind; size = int_of e f g h })
header_of _ = fault undefined

unfoldable ack_of : List ℕ → Run ResponseAppendEntries
ack_of
      (a ∷ b ∷ c ∷ d ∷ e ∷ f ∷ g ∷ h ∷ success ∷ _ ∷ _ ∷ _ ∷ i ∷ j ∷ k ∷ l ∷ m ∷ n ∷ o ∷ p ∷ q ∷ r
        ∷ s ∷ t ∷ _) =
    do
      kind ← kind_in kinds (int_of a b c d)
      ok (record {
        rpc_kind = kind;
        term = int_of e f g h;
        success = not (success == 0);
        lsn = int_of i j k l;
        worker_id = int_of m n o p;
        r_node_id = int_of q r s t;
      })
ack_of _ = fault undefined

-- The reads of the notifier: the header, then as many bytes as it says, into `buf`. More than `buf`
-- holds are written past its end.
unfoldable read_ack : List ℕ → List ℕ → Run (Header × ResponseAppendEntries × List ℕ × List ℕ)
read_ack buf stream = do
  (head, rest) ← recv header_size stream
  h ← header_of head
  if ltb ack_size h.size then fault undefined else (do
    (payload, later) ← recv h.size rest
    let filled = payload ++ drop h.size buf
    ack ← ack_of filled
    ok (h, ack, filled, later))

-- What the follower sends for an ack.
unfoldable send_ack : List ℕ → ResponseAppendEntries → Run (List ℕ)
unfolding send_rpc
send_ack padding ack =
    send_rpc (record { kind = response_append_entries; size = ack_size }) (ack_bytes padding ack)

-- The acks of a follower, one after the other.
pub send_acks : List ℕ → List ResponseAppendEntries → Run (List ℕ)
unfolding send_ack
send_acks padding [] = ok []
send_acks padding (a ∷ acks) = do
  first ← send_ack padding a
  rest ← send_acks padding acks
  ok (first ++ rest)

-- As many acks as the number says.
pub read_acks : ℕ → List ℕ → List ℕ → Run (List ResponseAppendEntries × List ℕ)
unfolding read_ack
read_acks zero buf stream = ok ([], stream)
read_acks (suc n) buf stream = do
  (h, ack, filled, later) ← read_ack buf stream
  (acks, last) ← read_acks n filled later
  ok (ack ∷ acks, last)

-- The fields of an ack are `int`s.
pub record IsWords (a : ResponseAppendEntries) : Type 0 where
  pub term : a.term < u32
  pub lsn : a.lsn < u32
  pub worker_id : a.worker_id < u32
  pub r_node_id : a.r_node_id < u32

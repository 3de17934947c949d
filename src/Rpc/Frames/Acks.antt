-- ===== src/Rpc/Frames/Acks.antt =====
-- What the notifier reads is what the follower sent.
use mathlib.Core.List.{append_assoc, append-nil}
use raft_2pl.Twopl.Bank.{All}
use raft_2pl.Prelude.{
  ◌∙◌, sym, ap, le→ltb, length-append, take-length_append, drop-length_append, drop-length, ℕ, ◌/◌,
  ◌%◌, ◌^◌, ◌<◌, ◌≡◌, refl, Bool, true, false, not, ltb, ◌==◌, Int32, u32, ok, ◌>>=◌, List, [], ◌∷◌,
  ◌++◌, length, drop, to_nat, arith,
}
use raft_2pl.Rpc.{
  RpcKind, no_kind, notify_port, append_entries, request_vote, response_append_entries,
  response_request_vote, request_location, response_request_location, client_command,
  commit_message, client_exit, bye_from_raft, connect_notifier, kind_code, Header,
  ResponseAppendEntries,
}
use raft_2pl.Rpc.Frames.{
  bytes_of, int_of, header_size, ack_size, recv, ack_bytes, kinds, kind_in, header_of, ack_of,
  read_ack, send_ack, send_acks, read_acks, IsWords,
}

int_of_bytes :
    (n : Int32)
    → n < u32
    → int_of (n % 256) (n / 256 % 256) (n / 2 ^ 16 % 256) (n / 2 ^ 24 % 256) ≡ n
unfolding int_of
int_of_bytes n h = omega arith

kind_in-kind_code : (k : RpcKind) → kind_in kinds (kind_code k) ≡ ok k
unfolding kind_in kind_code
kind_in-kind_code no_kind = refl
kind_in-kind_code notify_port = refl
kind_in-kind_code append_entries = refl
kind_in-kind_code request_vote = refl
kind_in-kind_code response_append_entries = refl
kind_in-kind_code response_request_vote = refl
kind_in-kind_code request_location = refl
kind_in-kind_code response_request_location = refl
kind_in-kind_code client_command = refl
kind_in-kind_code commit_message = refl
kind_in-kind_code client_exit = refl
kind_in-kind_code bye_from_raft = refl
kind_in-kind_code connect_notifier = refl

kind_code-lt : (k : RpcKind) → kind_code k < u32
unfolding kind_code
kind_code-lt k = ground arith

to_nat-back : (b : Bool) → not (to_nat b == 0) ≡ b
to_nat-back true = refl
to_nat-back false = refl

ack_of-ack_bytes :
    (a : ResponseAppendEntries) (x y z : ℕ) (rest : List ℕ)
    → IsWords a
    → ack_of (ack_bytes (x ∷ y ∷ z ∷ []) a ++ rest) ≡ ok a
unfolding ack_of ack_bytes
ack_of-ack_bytes a x y z rest h =
    rw
      (
        int_of_bytes (kind_code a.rpc_kind) (kind_code-lt a.rpc_kind),
        kind_in-kind_code a.rpc_kind,
        ◌>>=◌,
        int_of_bytes a.term h.term,
        int_of_bytes a.lsn h.lsn,
        int_of_bytes a.worker_id h.worker_id,
        int_of_bytes a.r_node_id h.r_node_id,
        to_nat-back a.success,
      )
      refl

ack_of-ack_bytes' :
    (a : ResponseAppendEntries) (x y z : ℕ)
    → IsWords a
    → ack_of (ack_bytes (x ∷ y ∷ z ∷ []) a) ≡ ok a
ack_of-ack_bytes' a x y z h =
    ap ack_of (sym (append-nil (ack_bytes (x ∷ y ∷ z ∷ []) a))) ∙ ack_of-ack_bytes a x y z [] h

abbrev ack_header : Header
ack_header = record { kind = response_append_entries; size = ack_size }

head_bytes : List ℕ
head_bytes = bytes_of (kind_code response_append_entries) ++ bytes_of ack_size

header_of-head_bytes : header_of head_bytes ≡ ok ack_header
unfolding head_bytes header_of bytes_of kind_code int_of kind_in
header_of-head_bytes = refl

length-head_bytes : length head_bytes ≡ header_size
unfolding head_bytes bytes_of
length-head_bytes = refl

length-ack_bytes :
    (x y z : ℕ) (a : ResponseAppendEntries) → length (ack_bytes (x ∷ y ∷ z ∷ []) a) ≡ ack_size
unfolding ack_bytes bytes_of
length-ack_bytes x y z a = refl

-- The bytes of an ack, as they are sent.
frame : (x y z : ℕ) → ResponseAppendEntries → List ℕ
frame x y z a = head_bytes ++ ack_bytes (x ∷ y ∷ z ∷ []) a

send_ack-frame :
    (x y z : ℕ) (a : ResponseAppendEntries) → send_ack (x ∷ y ∷ z ∷ []) a ≡ ok (frame x y z a)
unfolding send_ack frame ack_bytes head_bytes bytes_of
send_ack-frame x y z a = refl

recv-exact : (xs ys : List ℕ) → recv (length xs) (xs ++ ys) ≡ ok (xs, ys)
unfolding recv
recv-exact xs ys =
    let enough : ltb (length (xs ++ ys)) (length xs) ≡ false =
      le→ltb _ _ (omega (arith, length-append xs ys)) in
    rw (enough, take-length_append xs ys, drop-length_append xs ys) refl

read_ack-frame :
    (x y z : ℕ) (a : ResponseAppendEntries) (buf later : List ℕ)
    → IsWords a
    → length buf ≡ ack_size
    → read_ack buf (frame x y z a ++ later)
      ≡ ok (ack_header, a, ack_bytes (x ∷ y ∷ z ∷ []) a, later)
unfolding read_ack frame
read_ack-frame x y z a buf later h full =
    let body = ack_bytes (x ∷ y ∷ z ∷ []) a in
    let first : recv header_size ((head_bytes ++ body) ++ later) ≡ ok (head_bytes, body ++ later) =
      ap (recv header_size) (append_assoc head_bytes body later)
      ∙ ap (λ (k : ℕ). recv k (head_bytes ++ (body ++ later))) (sym length-head_bytes)
      ∙ recv-exact head_bytes (body ++ later) in
    let second : recv ack_size (body ++ later) ≡ ok (body, later) =
      ap (λ (k : ℕ). recv k (body ++ later)) (sym (length-ack_bytes x y z a))
      ∙ recv-exact body later in
    let none : drop ack_size buf ≡ [] = ap (λ (k : ℕ). drop k buf) (sym full) ∙ drop-length buf in
    rw (first, ◌>>=◌, header_of-head_bytes, second, none, append-nil body)
      (rw (ack_of-ack_bytes' a x y z h) refl)

-- The acks of a follower, whose fields are `int`s, come out of the stream as they were sent, in their
-- order, and what the follower sends later stays in the stream; no read goes past the buffer, which
-- holds one ack, and the notifier does not exit.
pub read_acks-send_acks :
    (x y z : ℕ) (acks : List ResponseAppendEntries) (buf later : List ℕ)
    → All IsWords acks
    → length buf ≡ ack_size
    → (bytes : List ℕ) × (send_acks (x ∷ y ∷ z ∷ []) acks ≡ ok bytes)
      × (read_acks (length acks) buf (bytes ++ later) ≡ ok (acks, later))
unfolding send_acks read_acks
read_acks-send_acks x y z [] buf later all full = ([], refl, refl)
read_acks-send_acks x y z (a ∷ acks) buf later all full =
    let (rest, sent, back) =
      read_acks-send_acks x y z acks (ack_bytes (x ∷ y ∷ z ∷ []) a) later all.1
        (length-ack_bytes x y z a) in
    let one = frame x y z a in
    (
      one ++ rest,
      rw (send_ack-frame x y z a, ◌>>=◌, sent) refl,
      rw
          (
            append_assoc one rest later,
            read_ack-frame x y z a buf (rest ++ later) all.0 full,
            ◌>>=◌,
            back,
          )
          refl,
    )

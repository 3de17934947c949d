-- ===== src/Client/Keys.antt =====
-- The lines that `createInput` makes.
use raft_2pl.Prelude.{ℕ, ◌<◌, sign_bit, arith}
use raft_2pl.Types.{constant_h}
use raft_2pl.Client.{create_line}

-- Whatever numbers below 2 ^ 31 `rand` gives, both keys are below 215, of the ten million keys of
-- the database, and the amount is below 1000.
create_line_lem :
    (from_rand diff_rand to_rand tx_id : ℕ)
    → from_rand < sign_bit
    → to_rand < sign_bit
    → let r = create_line constant_h from_rand diff_rand to_rand tx_id in
      (r.from < 215) × (r.to < 215) × (r.diff < 1000)
unfolding create_line
create_line_lem from_rand diff_rand to_rand tx_id f t = (omega arith, omega arith, omega arith)

-- ===== src/Config/Parse.antt =====
-- The configuration that a file is read to.
use raft_2pl.Prelude.{
  ℕ, zero, suc, ◌+◌, ◌≡◌, ◌∙◌, ap, arith, refl, Int32, of_u64, Run, ok, fault, out_of_fuel, ◌>>=◌,
  List, [], ◌∷◌, ◌++◌, map, some, length,
}
use raft_2pl.Text.{Text, colon}
use raft_2pl.Text.Words.{IsWord, split-joined}
use raft_2pl.Twopl.Bank.{All}
use raft_2pl.Config.{NodeConf, load_directory, load_node, load_nodes, new_config}

-- A line of the part that names the nodes.
pub data Line : Type 0 where
  blank : Line
  node : NodeConf → Line

abbrev blanks : ℕ → List Text → List Text
blanks zero lines = lines
blanks (suc k) lines = [] ∷ blanks k lines

abbrev nodes_of : List Line → List NodeConf
nodes_of [] = []
nodes_of (blank ∷ lines) = nodes_of lines
nodes_of (node n ∷ lines) = n ∷ nodes_of lines

load_directory-blanks :
    (k extra : ℕ) (c : ℕ) (cs : Text) (lines : List Text)
    → load_directory (suc (k + extra)) (blanks k ((c ∷ cs) ∷ lines)) ≡ ok (c ∷ cs, lines)
unfolding load_directory
load_directory-blanks zero extra c cs lines = refl
load_directory-blanks (suc k) extra c cs lines =
    let fewer : suc k + extra ≡ suc (k + extra) = omega arith in
    ap (λ (fuel : ℕ). load_directory fuel (blanks k ((c ∷ cs) ∷ lines))) fewer
    ∙ load_directory-blanks k extra c cs lines

-- On a file whose lines are all empty the search for the directory never ends, however many
-- rounds it is given.
load_directory-empty : (fuel k : ℕ) → load_directory fuel (blanks k []) ≡ fault out_of_fuel
unfolding load_directory
load_directory-empty zero k = refl
load_directory-empty (suc fuel) zero = load_directory-empty fuel zero
load_directory-empty (suc fuel) (suc k) = load_directory-empty fuel k

module _ (stoi : Text → Run Int32) (print_port : Int32 → Text) where
  abbrev print_line : Line → Text
  print_line blank = []
  print_line (node n) = n.hostname ++ colon ∷ print_port n.port

  -- The host's name and the port are words without a colon, and `stoi` reads the port back.
  abbrev IsPrinted : Line → Type 0
  IsPrinted blank = Unit
  IsPrinted (node n) =
      IsWord colon n.hostname
      × IsWord colon (print_port n.port)
      × (stoi (print_port n.port) ≡ ok n.port)

  load_nodes-node :
      (host : Text) (p : Int32) (lines : List Text) (nodes : List NodeConf)
      → IsWord colon host
      → IsWord colon (print_port p)
      → stoi (print_port p) ≡ ok p
      → load_nodes stoi lines ≡ ok nodes
      → load_nodes stoi ((host ++ colon ∷ print_port p) ∷ lines)
        ≡ ok (record { hostname = host; port = p } ∷ nodes)
  unfolding load_nodes load_node
  load_nodes-node [] p lines nodes h k e r = absurd h
  load_nodes-node (c ∷ cs) p lines nodes h k e r =
      let words = split-joined colon ((c ∷ cs) ∷ []) (print_port p) (h, tt) k in
      rw (words.1, ◌>>=◌, e, r) refl

  load_nodes_lem :
      (lines : List Line)
      → All IsPrinted lines
      → load_nodes stoi (map print_line lines) ≡ ok (nodes_of lines)
  unfolding load_nodes
  load_nodes_lem [] h = refl
  load_nodes_lem (blank ∷ lines) h = load_nodes_lem lines h.1
  load_nodes_lem (node n ∷ lines) h =
      load_nodes-node n.hostname n.port (map print_line lines) (nodes_of lines) h.0.0 h.0.1 h.0.2
        (load_nodes_lem lines h.1)

-- Reading a file that was written as empty lines, the directory, and lines that are empty or
-- `host:port`: with more rounds than leading empty lines, the configuration has the directory and
-- the nodes in the order of the lines, and the number of nodes is theirs.
pub new_config_lem :
    (stoi : Text → Run Int32) (print_port : Int32 → Text) (name : Text) (k extra c : ℕ) (cs : Text)
    (lines : List Line)
    → All (IsPrinted stoi print_port) lines
    → new_config stoi
        (suc (k + extra))
        name
        (some (blanks k ((c ∷ cs) ∷ map (print_line stoi print_port) lines)))
      ≡ ok (record {
        config_file_name = name;
        storage_directory_name = c ∷ cs;
        n_nodes = of_u64 (length (nodes_of lines));
        nodes = nodes_of lines;
      })
unfolding new_config
new_config_lem stoi print_port name k extra c cs lines h =
    rw
      (
        load_directory-blanks k extra c cs (map (print_line stoi print_port) lines),
        ◌>>=◌,
        load_nodes_lem stoi print_port lines h,
      )
      refl

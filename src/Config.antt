-- ===== src/Config.antt =====
-- The configuration file: src/server/config.cc and src/include/config.h. The file is the list of
-- its lines; `stoi` is the C++ library's. What is printed is not modelled.
pub mod Parse
use raft_2pl.Prelude.{
  ℕ, zero, suc, ◌+◌, Int32, of_u64, Run, ok, fault, undefined, exit_failure, out_of_fuel, ◌>>=◌,
  List, [], ◌∷◌, Option, none, some, get_elem?, length,
}
use raft_2pl.Text.{Text, colon, split}

pub record NodeConf : Type 0 where
  pub hostname : Text
  pub port : Int32

pub record Config : Type 0 where
  pub config_file_name : Text
  pub storage_directory_name : Text
  pub n_nodes : Int32
  pub nodes : List NodeConf

unfoldable set_storage_directory_name : Config → Text → Config
set_storage_directory_name config name = record config { storage_directory_name = name }

unfoldable get_storage_directory_name : Config → Text
get_storage_directory_name config = config.storage_directory_name

unfoldable set_number_of_nodes : Config → Int32 → Config
set_number_of_nodes config n = record config { n_nodes = n }

unfoldable get_number_of_nodes : Config → Int32
get_number_of_nodes config = config.n_nodes

unfoldable pub get_nodes : Config → List NodeConf
get_nodes config = config.nodes

unfoldable set_nodes : Config → List NodeConf → Config
set_nodes config nodes = record config { nodes = nodes }

-- `v[i]` of a vector: undefined out of range.
abbrev pub item_at {ℓ} : {A : Type ℓ} → List A → ℕ → Run A
item_at xs i = elim (get_elem? xs i) [ none ↦ fault undefined | some x ↦ ok x ]

-- `while (!loaded)`: the first line that is not empty, and the lines after it. A stream that has
-- ended leaves `str` empty, and the loop goes on.
pub load_directory : ℕ → List Text → Run (Text × List Text)
load_directory zero lines = fault out_of_fuel
load_directory (suc fuel) [] = load_directory fuel []
load_directory (suc fuel) ([] ∷ lines) = load_directory fuel lines
load_directory (suc fuel) ((c ∷ cs) ∷ lines) = ok (c ∷ cs, lines)

module _ (stoi : Text → Run Int32) where
  pub load_node : Text → Run NodeConf
  load_node str = do
    let strs = split str colon
    hostname ← item_at strs 0
    port_str ← item_at strs 1
    port ← stoi port_str
    ok (record { hostname = hostname; port = port })

  -- The loop over the rest of the lines: empty ones are passed over.
  pub load_nodes : List Text → Run (List NodeConf)
  unfolding load_node
  load_nodes [] = ok []
  load_nodes ([] ∷ lines) = load_nodes lines
  load_nodes ((c ∷ cs) ∷ lines) = do
    node ← load_node (c ∷ cs)
    rest ← load_nodes lines
    ok (node ∷ rest)

  -- `Config::Config`; a file that cannot be opened ends the process.
  pub new_config : ℕ → Text → Option (List Text) → Run Config
  unfolding load_nodes load_directory
  new_config fuel name none = fault exit_failure
  new_config fuel name (some lines) = do
    (directory, rest) ← load_directory fuel lines
    nodes ← load_nodes rest
    ok (record {
      config_file_name = name;
      storage_directory_name = directory;
      n_nodes = of_u64 (length nodes);
      nodes = nodes;
    })

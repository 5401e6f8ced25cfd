-- ===== src/ControlPlane/Nodes.antt =====
-- internal/service/node_service.go: the nodes, their addresses and transport profiles, and the choice
-- of the least loaded node. The repository is a parameter, and so are the operations on
-- floating-point numbers and sort.Slice.
pub mod Choice
pub mod Addresses
mod Tests
use ghost_node.Prelude.{
  String, Bool, Option, none, some, List, [], ◌∷◌, ◌==◌, if◌then◌else◌, Result, ok, err,
}
use ghost_node.Prelude.Int.{ℤ, pos}
use ghost_node.ControlPlane.Auth.{FindError, not_found, find_failed}

-- TransportProfile, whose JSON settings are kept as their text.
pub record TransportProfile : Type 0 where
  pub id : String
  pub node_id : String
  pub type_ : String
  pub port : ℤ
  pub config : String
  pub is_active : Bool
  pub priority : ℤ

-- float64: the operations that the score uses, with integers taken to their float.
pub record Floats : Type 1 where
  pub Float : Type 0
  pub of_ℤ : ℤ → Float
  pub half : Float
  pub three_tenths : Float
  pub fifth : Float
  pub add : Float → Float → Float
  pub mul : Float → Float → Float
  pub div : Float → Float → Float
  pub min : Float → Float → Float
  pub less : Float → Float → Bool

pub data NodeStatus : Type 0 where
  online offline draining : NodeStatus

pub data NodeError : Type 0 where
  node_not_found address_required no_profiles no_online_nodes no_profiled_nodes
        selected_unprofiled :
      NodeError
  creating_node finding_node updating_address repository_error listing_nodes listing_profiles :
      String → NodeError

pub record CreateNodeInput : Type 0 where
  pub name : String
  pub address : String
  pub region : String
  pub country : String

module _ (floats : Floats) where
  open floats use {Float, of_ℤ, add, mul, div, min, less}

  -- Node, without the columns that the service does not read.
  pub record Node : Type 0 where
    pub id : String
    pub name : String
    pub address : String
    pub region : String
    pub country : String
    pub status : NodeStatus
    pub cpu_usage : Float
    pub mem_usage : Float
    pub active_conns : ℤ
    pub transport_profiles : List TransportProfile

  -- NodeRepository, as far as the service calls it.
  pub record NodeRepository : Type 1 where
    pub State : Type 0
    pub create_node : State → Node → State × Result String Node
    pub find_node : State → String → Result FindError Node
    pub list_online : State → Result String (List Node)
    pub list_all : State → Result String (List Node)
    pub update_node : State → Node → State × Option String
    pub delete_node : State → String → State × Option String
    pub create_profile : State → TransportProfile → State × Option String
    pub list_profiles : State → String → Result String (List TransportProfile)

  -- The score of SelectBestNode.
  pub score : Node → Float
  score n =
      add
        (add (mul (div n.cpu_usage (of_ℤ (pos 100))) floats.half)
          (mul (div n.mem_usage (of_ℤ (pos 100))) floats.three_tenths))
        (mul (div (min (of_ℤ n.active_conns) (of_ℤ (pos 1000))) (of_ℤ (pos 1000))) floats.fifth)

  -- `if len(n.TransportProfiles) == 0 { continue }`
  candidate : Node → List TransportProfile → List (Node × Float) → List (Node × Float)
  candidate n [] later = later
  candidate n (p ∷ ps) later = (n, score n) ∷ later

  -- The candidates: the nodes with a profile, each with its score.
  pub pool : List Node → List (Node × Float)
  pool [] = []
  pool (n ∷ rest) = candidate n n.transport_profiles (pool rest)

  module _ (repo : NodeRepository) where
    open repo use {State}

    created : State × Result String Node → State × Result NodeError Node
    created (st, ok n) = (st, ok n)
    created (st, err e) = (st, err (creating_node e))

    -- Create
    pub create : State → CreateNodeInput → State × Result NodeError Node
    unfolding created
    create st input = created (
        repo.create_node st (record {
          id = "";
          name = input.name;
          address = input.address;
          region = input.region;
          country = input.country;
          status = offline;
          cpu_usage = of_ℤ (pos 0);
          mem_usage = of_ℤ (pos 0);
          active_conns = pos 0;
          transport_profiles = [];
        }))

    named : Result FindError Node → Result NodeError Node
    named (ok n) = ok n
    named (err not_found) = err node_not_found
    named (err (find_failed e)) = err (finding_node e)

    -- GetByID
    pub get_by_id : State → String → Result NodeError Node
    unfolding named
    get_by_id st id = named (repo.find_node st id)

    updated : Node → State × Option String → State × Result NodeError Node
    updated n (st, none) = (st, ok n)
    updated n (st, some e) = (st, err (updating_address e))

    readdressed : State → String → Result FindError Node → State × Result NodeError Node
    readdressed st address (err e) = (st, err node_not_found)
    readdressed st address (ok n) =
        let n' : Node = record n { address = address } in
        if n.address == address then (st, ok n) else updated n' (repo.update_node st n')

    -- UpdateAddress
    pub update_address : State → (id address : String) → State × Result NodeError Node
    update_address st id address =
        if address == ""
        then (st, err address_required)
        else readdressed st address (repo.find_node st id)

    outcome : State × Option String → State × Option NodeError
    outcome (st, none) = (st, none)
    outcome (st, some e) = (st, some (repository_error e))

    deleted : State → String → Result FindError Node → State × Option NodeError
    unfolding outcome
    deleted st id (err e) = (st, some node_not_found)
    deleted st id (ok n) = outcome (repo.delete_node st id)

    -- Delete
    pub delete : State → String → State × Option NodeError
    unfolding deleted
    delete st id = deleted st id (repo.find_node st id)

    attached : State → String → TransportProfile → Result FindError Node → State × Option NodeError
    unfolding outcome
    attached st id profile (err e) = (st, some node_not_found)
    attached st id profile (ok n) =
        outcome (repo.create_profile st (record profile { node_id = id }))

    -- AddTransportProfile
    pub add_transport_profile : State → String → TransportProfile → State × Option NodeError
    unfolding attached
    add_transport_profile st id profile = attached st id profile (repo.find_node st id)

    first_profile : Result String (List TransportProfile) → Result NodeError TransportProfile
    first_profile (err e) = err (listing_profiles e)
    first_profile (ok []) = err no_profiles
    first_profile (ok (p ∷ ps)) = ok p

    -- GetConnectionConfig
    pub get_connection_config : State → String → Result NodeError TransportProfile
    unfolding first_profile
    get_connection_config st id = first_profile (repo.list_profiles st id)

    profiled :
        Node → Result String (List TransportProfile) → Result NodeError (Node × TransportProfile)
    profiled n (err e) = err selected_unprofiled
    profiled n (ok []) = err selected_unprofiled
    profiled n (ok (p ∷ ps)) = ok (n, p)

    first_candidate : State → List (Node × Float) → Result NodeError (Node × TransportProfile)
    first_candidate st [] = err no_profiled_nodes
    first_candidate st (c ∷ cs) = profiled c.0 (repo.list_profiles st c.0.id)

    -- sort.Slice, on the candidates.
    abbrev pub SortSlice : Type 0
    SortSlice = (Node × Float → Node × Float → Bool) → List (Node × Float) → List (Node × Float)

    -- The comparison that SelectBestNode gives to sort.Slice.
    pub scores_less : Node × Float → Node × Float → Bool
    scores_less a b = floats.less a.1 b.1

    ranked :
        SortSlice → State → Result String (List Node) → Result NodeError (Node × TransportProfile)
    ranked sort st (err e) = err (listing_nodes e)
    ranked sort st (ok []) = err no_online_nodes
    ranked sort st (ok (n ∷ ns)) = first_candidate st (sort scores_less (pool (n ∷ ns)))

    -- SelectBestNode; `sort` is sort.Slice, which takes the comparison of two elements.
    pub select_best_node : SortSlice → State → Result NodeError (Node × TransportProfile)
    select_best_node sort st = ranked sort st (repo.list_online st)

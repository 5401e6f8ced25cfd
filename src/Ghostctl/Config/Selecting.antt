-- ===== src/Ghostctl/Config/Selecting.antt =====
-- Which configurations LoadConfig of cmd/ghostctl accepts, and which nodes a selector picks.
use ghost_node.Prelude.{
  ℕ, ◌+◌, String, ◌≡◌, refl, subst, ◌≢◌, inl, inr, true, false, Option, none, some, List, [], ◌∷◌,
  ◌++◌, arith, ◌==◌, eq_iff, Bool-cases, Result, ok, err, ◌>>=◌, All,
}
use ghost_node.Texts.{codes, equal_fold}
use ghost_node.Ghostctl.Config.{
  Settings, NodeConfig, ConfigError, Environment, seen, validate_from, validate, node, target_of,
  picked, targets_for, validated, expanded, resolve_config_path, load_config, wrapped, reading,
  parsing, decoding,
}

abbrev Complete : NodeConfig → Type 0
Complete n = (n.name ≢ "") × (n.instance_ocid ≢ "")

-- The name stands in none of the nodes.
abbrev Unused : String → List NodeConfig → Type 0
Unused name ns = All (λ n. n.name ≢ name) ns

abbrev pub Distinct : List NodeConfig → Type 0
Distinct [] = Unit
Distinct (n ∷ ns) = Unused n.name ns × Distinct ns

-- What a configuration must have.
abbrev pub IsValid : List NodeConfig → Type 0
IsValid ns = (ns ≢ []) × All Complete ns × Distinct ns

abbrev Fresh : List String → List NodeConfig → Type 0
Fresh names ns = All (λ n. seen n.name names ≡ false) ns

Fresh-Unused :
    (name : String) (names : List String) (ns : List NodeConfig)
    → Fresh (name ∷ names) ns
    → Unused name ns × Fresh names ns
unfolding seen
Fresh-Unused name names [] h = (tt, tt)
Fresh-Unused name names (n ∷ ns) (h, hs) = elim (Bool-cases (name == n.name)) [
  | inl y ↦ absurd (let g = rw (y, seen) at h in ground arith)
  | inr x ↦
      let (u, f) = Fresh-Unused name names ns hs in
      let g = rw (x, seen) at h in ((ground (arith, eq_iff name n.name), u), (g, f))
]

validate_from-IsValid :
    (i : ℕ) (names : List String) (ns : List NodeConfig)
    → validate_from i names ns ≡ none
    → All Complete ns × Distinct ns × Fresh names ns
unfolding validate_from
validate_from-IsValid i names [] e = (tt, tt, tt)
validate_from-IsValid i names (n ∷ ns) e = elim (Bool-cases (n.name == "")) [
  | inl y ↦ absurd (let g = rw y at e in ground arith)
  | inr x ↦ elim (Bool-cases (n.instance_ocid == "")) [
    | inl y ↦ absurd (let g = rw (x, y) at e in ground arith)
    | inr z ↦ elim (Bool-cases (seen n.name names)) [
      | inl y ↦ absurd (let g = rw (x, z, y) at e in ground arith)
      | inr f ↦
          let g = rw (x, z, f) at e in
          let (complete, distinct, fresh) = validate_from-IsValid (i + 1) (n.name ∷ names) ns g in
          let (unused, later) = Fresh-Unused n.name names ns fresh in
          (
            (
              (ground (arith, eq_iff n.name ""), ground (arith, eq_iff n.instance_ocid "")),
              complete,
            ),
            (unused, distinct),
            (f, later),
          )
    ]
  ]
]

validate-IsValid : (ns : List NodeConfig) → validate ns ≡ none → IsValid ns
unfolding validate
validate-IsValid [] e = absurd (ground arith)
validate-IsValid (n ∷ ns) e =
    let (complete, distinct, fresh) = validate_from-IsValid 0 [] (n ∷ ns) e in
    (ground arith, complete, distinct)

module _ (os : Environment) where
  -- What holds of every result of a load.
  abbrev Loads : Result ConfigError (Settings × String) → Type 0
  Loads (ok (cfg, path)) = IsValid cfg.nodes
  Loads (err e) = Unit

  bind-Loads :
      {A : Type 0} (r : Result ConfigError A) (f : A → Result ConfigError (Settings × String))
      → ((a : A) → Loads (f a))
      → Loads (r >>= f)
  bind-Loads (ok a) f h = h a
  bind-Loads (err e) f h = tt

  validated-Loads :
      (found : Settings) (path : String) (o : Option ConfigError)
      → validate found.nodes ≡ o
      → Loads (validated os (expanded os found) o >>= λ checked. ok (checked, path))
  unfolding validated expanded
  validated-Loads found path none h = validate-IsValid found.nodes h
  validated-Loads found path (some e) h = tt

  -- A configuration that LoadConfig returns has at least one node, each node has a name and an
  -- instance, and no name stands twice.
  pub load_config-IsValid :
      (flag_value path : String) (cfg : Settings)
      → load_config os flag_value ≡ ok (cfg, path)
      → IsValid cfg.nodes
  unfolding load_config
  load_config-IsValid flag_value path cfg e = subst Loads e (
      bind-Loads (resolve_config_path os flag_value) _ (λ file.
        bind-Loads (wrapped os (reading file) (os.read_file file)) _ (λ raw.
          bind-Loads (wrapped os (parsing file) (os.read_config _ (os.expand_env raw))) _ (λ yaml.
            bind-Loads (wrapped os (decoding file) (os.unmarshal yaml)) _
              (λ found. validated-Loads found file (validate found.nodes) refl)))))

node_first :
    (selector : String) (before after : List NodeConfig) (n : NodeConfig)
    → All (λ m. equal_fold (codes m.name) (codes selector) ≡ false) before
    → equal_fold (codes n.name) (codes selector) ≡ true
    → node (before ++ n ∷ after) selector ≡ some n
unfolding node
node_first selector [] after n earlier named = rw named refl
node_first selector (m ∷ before) after n (h, hs) named =
    rw h (node_first selector before after n hs named)

-- A selector other than `all` picks exactly the first node whose name agrees with it in all but
-- case.
pub targets_for_first :
    (cfg : Settings) (selector : String) (before after : List NodeConfig) (n : NodeConfig)
    → cfg.nodes ≡ before ++ n ∷ after
    → selector ≢ "all"
    → All (λ m. equal_fold (codes m.name) (codes selector) ≡ false) before
    → equal_fold (codes n.name) (codes selector) ≡ true
    → targets_for cfg selector ≡ ok (target_of n ∷ [])
unfolding targets_for picked
targets_for_first cfg selector before after n listed not_all earlier named =
    let other : (selector == "all") ≡ false = ground (arith, eq_iff selector "all") in
    rw (other, listed, node_first selector before after n earlier named) refl

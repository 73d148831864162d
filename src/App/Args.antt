-- ===== src/App/Args.antt =====
-- `Args` and the defaults of the configuration in src/apps/prover/src/types.rs. The parser of
-- options is that of the crate `app`, and the numbers are read by the standard library.
pub mod Laws
use Prim.Native.String.{String}
use linea_sgx_prover.Prelude.{ℕ, zero, suc, Option, none, some, List, [], ◌∷◌}
use linea_sgx_prover.Prelude.Results.{Result, ok, err, panic, ◌>>=◌, expect}

-- `default_wait_block` and `default_max_block`.
abbrev pub default_wait_block : ℕ
default_wait_block = 5

abbrev pub default_max_block : ℕ
default_max_block = 10

-- `RollupConfig`, whose contract is an address of the crate `eth_types`.
pub record RollupConfig (Address : Type 0) : Type 0 where
  pub endpoint : String
  pub contract : Address
  pub wait_block : ℕ
  pub max_block : ℕ

-- The fields that `serde` fills in.
unfoldable pub rollup_config :
    {Address : Type 0} → String → Address → Option ℕ → Option ℕ → RollupConfig Address
rollup_config endpoint contract wait_block max_block = record {
  endpoint = endpoint;
  contract = contract;
  wait_block = elim wait_block [ some n ↦ n | none ↦ default_wait_block ];
  max_block = elim max_block [ some n ↦ n | none ↦ default_max_block ];
}

pub record Args : Type 0 where
  pub executable : String
  pub port : ℕ
  pub cfg : String

-- `Args::default`.
abbrev pub default : Args
default = record { executable = ""; port = 18400; cfg = "config/prover.json" }

-- `Opt` of `getargs`, as far as the loop tells its cases apart.
pub data Opt : Type 0 where
  short_p short_c other : Opt

-- `Options` of `getargs`: the parser keeps its place in the arguments. `value` is `None` where it
-- fails.
pub record Options : Type 1 where
  pub State : Type 0
  pub ParseError : Type 0
  pub new : List String → State
  pub next_opt : State → Result ParseError (Option Opt) × State
  pub value : State → Option String × State
  -- `str::parse` to a `u32`.
  pub parse_u32 : String → Option ℕ

-- How `from_args` can end without arguments: the loop has no bound of its own.
pub data ArgsError : Type 0 where
  out_of_fuel : ArgsError

module _ (p : Options) where
  -- `out.port = opts.value().unwrap().parse().unwrap()`.
  unfoldable pub set_port : Args → p.State → Result ArgsError (Args × p.State)
  set_port out opts = do
    value ← expect (p.value opts).0
    port ← expect (p.parse_u32 value)
    ok (record out { port = port }, (p.value opts).1)

  -- `out.cfg = opts.value().unwrap().parse().unwrap()`: a string parses to itself.
  unfoldable pub set_cfg : Args → p.State → Result ArgsError (Args × p.State)
  set_cfg out opts = do
    value ← expect (p.value opts).0
    ok (record out { cfg = value }, (p.value opts).1)

  -- The match on an option. An unknown one is logged and passed over.
  unfoldable pub set_opt : Opt → Args → p.State → Result ArgsError (Args × p.State)
  set_opt short_p out opts = set_port out opts
  set_opt short_c out opts = set_cfg out opts
  set_opt other out opts = ok (out, opts)

  -- The loop of `from_args`.
  unfoldable pub read_opts : ℕ → Args → p.State → Result ArgsError Args
  read_opts zero out opts = err out_of_fuel
  read_opts (suc fuel) out opts = elim (p.next_opt opts).0 [
    | ok (some opt) ↦ set_opt opt out (p.next_opt opts).1 >>= λ r. read_opts fuel r.0 r.1
    | ok none ↦ ok out
    | err e ↦ panic
    | panic ↦ panic
  ]

  -- `Args::from_args`: `args.remove(0)` panics where there are none.
  unfoldable pub from_args : ℕ → List String → Result ArgsError Args
  from_args fuel [] = panic
  from_args fuel (executable ∷ args) =
      read_opts fuel (record default { executable = executable }) (p.new args)

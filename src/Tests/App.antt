-- ===== src/Tests/App.antt =====
-- The theorems on the proofs of execution, and on the arguments of the program, at concrete inputs.
use Prim.Native.String.{String}
use linea_sgx_prover.Prelude.{ℕ, Option, none, some, List, [], ◌∷◌, ◌≡◌, refl, arith}
use linea_sgx_prover.Prelude.Results.{Result, ok}
use linea_sgx_prover.Bytes.{Bytes}
use linea_sgx_prover.BtreeMap
use linea_sgx_prover.BtreeMap.{nat_ord}
use linea_sgx_prover.Linea.Blocks.{BatchTask}
use linea_sgx_prover.App.{Poes, Outcome}
use linea_sgx_prover.App.Args.{ArgsError, Opt, short_p, short_c, Options, from_args}
use linea_sgx_prover.App.Args.Laws.{
  port_given, cfg_given, Scans, finished, port_next, cfg_next, from_args-given,
}

-- A block and a proof are their state root, and a batch is its last proof.
abbrev last : Bytes → List Bytes → Bytes
last d [] = d
last d (x ∷ xs) = last x xs

abbrev roots : Poes
roots = record {
  Block = Bytes;
  Poe = Bytes;
  state_root = λ b. b;
  new_state_root = λ q. q;
  batch = λ d qs. ok (last d qs);
  sign = λ q. 1 ∷ q;
}

abbrev handle : ℕ → Outcome roots
handle n = ok (n ∷ [], n ∷ [])

abbrev two_blocks : BatchTask
two_blocks = record { data_hash = []; blocks = 4 ∷ 5 ∷ [] }

-- A parser that reads a port before anything else, and then a name of a file.
abbrev next_toy : List String → Result ArgsError (Option Opt) × List String
next_toy [] = (ok none, [])
next_toy (v ∷ []) = (ok (some short_c), v ∷ [])
next_toy (v ∷ w ∷ vs) = (ok (some short_p), v ∷ w ∷ vs)

abbrev value_toy : List String → Option String × List String
value_toy [] = (none, [])
value_toy (v ∷ vs) = (some v, vs)

abbrev toy_options : Options
toy_options = record {
  State = List String;
  ParseError = ArgsError;
  new = λ args. args;
  next_opt = next_toy;
  value = value_toy;
  parse_u32 = λ v. some 8080;
}

abbrev args : List String
args = "8080" ∷ "prover.json" ∷ []

scanned : Scans toy_options args (port_given 8080 ∷ cfg_given "prover.json" ∷ [])
scanned =
    port_next args args ("prover.json" ∷ []) "8080" 8080 (cfg_given "prover.json" ∷ []) refl refl
      refl
      (cfg_next ("prover.json" ∷ []) ("prover.json" ∷ []) [] "prover.json" [] refl refl
        (finished [] [] refl))

from_args-given_example :
    from_args toy_options 3 ("prover" ∷ args)
    ≡ ok (record { executable = "prover"; port = 8080; cfg = "prover.json" })
from_args-given_example =
    from_args-given toy_options 3 "prover" args (port_given 8080 ∷ cfg_given "prover.json" ∷ [])
      scanned (omega arith)

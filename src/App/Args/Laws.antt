-- ===== src/App/Args/Laws.antt =====
-- What `Args::from_args` of src/apps/prover/src/types.rs makes of the options that it is given.
use Prim.Native.String.{String}
use linea_sgx_prover.Prelude.{
  ℕ, zero, suc, ◌<◌, ◌≡◌, ◌∙◌, refl, arith, none, some, List, [], ◌∷◌, length,
}
use linea_sgx_prover.Prelude.Results.{ok}
use linea_sgx_prover.App.Args.{
  Args, default, Opt, short_p, short_c, other, Options, set_port, set_cfg, set_opt, read_opts,
  from_args,
}

-- An option with what it sets.
pub data Given : Type 0 where
  port_given : ℕ → Given
  cfg_given : String → Given
  passed_over : Given

-- The specification: each option sets its field, a later one of a kind over an earlier one.
abbrev pub given : List Given → Args → Args
given [] out = out
given (port_given n ∷ gs) out = given gs (record out { port = n })
given (cfg_given s ∷ gs) out = given gs (record out { cfg = s })
given (passed_over ∷ gs) out = given gs out

module _ (p : Options) where
  -- What the parser reads from a place: options with values that can be used, up to the end.
  pub data Scans : p.State → List Given → Type 0 where
    finished : (o o' : p.State) → p.next_opt o ≡ (ok none, o') → Scans o []
    port_next :
        (o o' o'' : p.State) (v : String) (n : ℕ) (gs : List Given)
        → p.next_opt o ≡ (ok (some short_p), o')
        → p.value o' ≡ (some v, o'')
        → p.parse_u32 v ≡ some n
        → Scans o'' gs
        → Scans o (port_given n ∷ gs)
    cfg_next :
        (o o' o'' : p.State) (v : String) (gs : List Given)
        → p.next_opt o ≡ (ok (some short_c), o')
        → p.value o' ≡ (some v, o'')
        → Scans o'' gs
        → Scans o (cfg_given v ∷ gs)
    other_next :
        (o o' : p.State) (gs : List Given)
        → p.next_opt o ≡ (ok (some other), o')
        → Scans o' gs
        → Scans o (passed_over ∷ gs)

  set_port-ok :
      (out : Args) (o o' : p.State) (v : String) (n : ℕ)
      → p.value o ≡ (some v, o')
      → p.parse_u32 v ≡ some n
      → set_opt p short_p out o ≡ ok (record out { port = n }, o')
  unfolding set_opt set_port
  set_port-ok out o o' v n val num = rw (set_opt, set_port, val, num) refl

  set_cfg-ok :
      (out : Args) (o o' : p.State) (v : String)
      → p.value o ≡ (some v, o')
      → set_opt p short_c out o ≡ ok (record out { cfg = v }, o')
  unfolding set_opt set_cfg
  set_cfg-ok out o o' v val = rw (set_opt, set_cfg, val) refl

  -- One round of the loop.
  read_next :
      (fuel : ℕ) (opt : Opt) (out : Args) (o o' : p.State) (out' : Args) (o'' : p.State)
      → p.next_opt o ≡ (ok (some opt), o')
      → set_opt p opt out o' ≡ ok (out', o'')
      → read_opts p (suc fuel) out o ≡ read_opts p fuel out' o''
  unfolding read_opts
  read_next fuel opt out o o' out' o'' at done =
      let moved : (p.next_opt o).1 ≡ o' = λ i. (at i).1 in
      rw (read_opts, at) (rw moved (rw done refl))

  -- Where the parser reads a list of options with usable values, the loop ends, for any fuel above
  -- their number, with the fields that they set.
  read_opts-given :
      (fuel : ℕ) (out : Args) (o : p.State) (gs : List Given)
      → Scans o gs
      → length gs < fuel
      → read_opts p fuel out o ≡ ok (given gs out)
  unfolding read_opts set_opt
  read_opts-given zero out o gs scans enough = absurd (omega arith)
  read_opts-given (suc fuel) out o [] (finished _ o' at) enough = rw (read_opts, at) refl
  read_opts-given (suc fuel) out o (port_given n ∷ gs) (port_next _ o' o'' v _ _ at val num rest)
        enough =
      read_next fuel short_p out o o' (record out { port = n }) o'' at
        (set_port-ok out o' o'' v n val num)
      ∙ read_opts-given fuel (record out { port = n }) o'' gs rest (omega arith)
  read_opts-given (suc fuel) out o (cfg_given v ∷ gs) (cfg_next _ o' o'' _ _ at val rest) enough =
      read_next fuel short_c out o o' (record out { cfg = v }) o'' at (set_cfg-ok out o' o'' v val)
      ∙ read_opts-given fuel (record out { cfg = v }) o'' gs rest (omega arith)
  read_opts-given (suc fuel) out o (passed_over ∷ gs) (other_next _ o' _ at rest) enough =
      read_next fuel other out o o' out o' at refl
      ∙ read_opts-given fuel out o' gs rest (omega arith)

  -- Where the parser reads a list of options with usable values from the arguments after the first,
  -- `from_args` ends, for any fuel above their number, with the defaults, the name of the executable
  -- and the fields that the options set, a later option over an earlier one.
  pub from_args-given :
      (fuel : ℕ) (executable : String) (args : List String) (gs : List Given)
      → Scans (p.new args) gs
      → length gs < fuel
      → from_args p fuel (executable ∷ args)
        ≡ ok (given gs (record default { executable = executable }))
  unfolding from_args
  from_args-given fuel executable args gs scans enough =
      read_opts-given fuel (record default { executable = executable }) (p.new args) gs scans enough

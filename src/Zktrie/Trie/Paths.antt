-- ===== src/Zktrie/Trie/Paths.antt =====
-- The leaf paths of src/common/zktrie/src/utils.rs are paths of the sparse trie.
use mathlib.Core.Path.{subst}
use linea_sgx_prover.Prelude.{
  ℕ, ◌+◌, ◌/◌, ◌%◌, ◌^◌, ◌<◌, zero, suc, [], ◌∷◌, ◌++◌, ◌≡◌, ◌≢◌, refl, ◌∙◌, ap, sym, arith, length,
  length-append,
}
use linea_sgx_prover.Prelude.Results.{ok}
use linea_sgx_prover.Bytes.{Bytes}
use linea_sgx_prover.Zktrie.Types.{Error}
use linea_sgx_prover.Zktrie.Path.{get_leaf_path}
use linea_sgx_prover.Zktrie.Path.Bits.{bits, length-bits, path_of, get_leaf_path_injective}
use linea_sgx_prover.Zktrie.Sparse.Tree.Reads.{IsPath}

abbrev AreBits : Bytes → Type 0
AreBits [] = Unit
AreBits (b ∷ p) = (b < 2) × AreBits p

append-AreBits : (p : Bytes) (b : ℕ) → AreBits p → b < 2 → AreBits (p ++ b ∷ [])
append-AreBits [] b bp small = (small, tt)
append-AreBits (c ∷ p) b bp small = (bp.0, append-AreBits p b bp.1 small)

bits-AreBits : (w n : ℕ) → AreBits (bits w n)
unfolding bits
bits-AreBits zero n = tt
bits-AreBits (suc w) n =
    append-AreBits (bits w (n / 2)) (n % 2) (bits-AreBits w (n / 2)) (omega arith)

marked-IsPath : (p : Bytes) → AreBits p → IsPath (p ++ 0x16 ∷ [])
marked-IsPath [] bp = refl
marked-IsPath (b ∷ []) bp = (bp.0, refl)
marked-IsPath (b ∷ c ∷ p) bp = (bp.0, marked-IsPath (c ∷ p) bp.1)

-- What a leaf path looks like.
pub record IsLeafPath (path : Bytes) : Type 0 where
  pub below : Bytes
  pub below_lem : path ≡ 1 ∷ below
  pub formed : IsPath path
  pub size : length path ≡ 42

pub get_leaf_path-IsLeafPath :
    (idx : ℕ) {path : Bytes} → get_leaf_path {E = Error} idx ≡ ok path → IsLeafPath path
get_leaf_path-IsLeafPath idx {path} h =
    let (small, digits) = path_of Error idx h in
    record {
      below = bits 40 idx ++ 0x16 ∷ [];
      below_lem = digits;
      formed =
          subst IsPath (sym digits)
            (marked-IsPath (1 ∷ bits 40 idx) (omega arith, bits-AreBits 40 idx));
      size =
          ap length digits
          ∙ omega (arith, length-bits 40 idx, length-append (bits 40 idx) (0x16 ∷ []));
    }

-- Other indices have other paths, and an index that has a path is far below 2^64.
pub get_leaf_path_ne :
    (i j : ℕ) {p q : Bytes}
    → get_leaf_path {E = Error} i ≡ ok p
    → get_leaf_path {E = Error} j ≡ ok q
    → i ≢ j
    → p ≢ q
get_leaf_path_ne i j {p} hi hj ne e = ne (get_leaf_path_injective Error i j hi (hj ∙ ap ok (sym e)))

pub get_leaf_path_fits :
    (idx : ℕ) {path : Bytes} → get_leaf_path {E = Error} idx ≡ ok path → idx + 1 < 2 ^ 64
get_leaf_path_fits idx h = let small = (path_of Error idx h).0 in omega arith

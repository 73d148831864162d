-- ===== src/Mimc/Field.antt =====
-- What src/common/mimc/src uses of the field that the crate `ff` derives for fr.rs.
use linea_sgx_prover.Prelude.{ℕ, ◌≡◌, Option, some, length}
use linea_sgx_prover.Bytes.{Bytes}

pub record PrimeField : Type 1 where
  pub F : Type 0
  pub Repr : Type 0
  pub zero : F
  pub add : F → F → F
  pub mul : F → F → F
  pub square : F → F
  -- `FrRepr([a, b, c, d])`
  pub limbs : ℕ → ℕ → ℕ → ℕ → Repr
  -- `read_be`; `none` is an input that is too short.
  pub read_be : Bytes → Option Repr
  pub write_be : Repr → Bytes
  -- `Fr(repr)`, which checks nothing.
  pub raw : Repr → F
  -- `none` is `NotInField`.
  pub from_raw_repr : Repr → Option F
  pub into_raw_repr : F → Repr
  pub into_repr : F → Repr

-- What the crate documents of these.
pub record IsLawful (f : PrimeField) : Type 0 where
  pub mul_assoc : (a b c : f.F) → f.mul (f.mul a b) c ≡ f.mul a (f.mul b c)
  pub square_lem : (a : f.F) → f.square a ≡ f.mul a a
  pub read_be_lem : (b : Bytes) → length b ≡ 32 → (r : f.Repr) × (f.read_be b ≡ some r)
  pub length-write_be : (r : f.Repr) → length (f.write_be r) ≡ 32
  -- A product is reduced.
  pub from_into_raw : (a b : f.F) → f.from_raw_repr (f.into_raw_repr (f.mul a b)) ≡ some (f.mul a b)
  -- The constant of fr.rs is an element of the field.
  pub r_square_lem :
      (r : f.F) × (f.from_raw_repr
          (f.limbs 2726216793283724667 14712177743343147295 12091039717619697043 81024008013859129)
        ≡ some r)

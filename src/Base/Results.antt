-- ===== src/Base/Results.antt =====
-- The outcome of a Go function that returns a value and an error: a value, an error, a panic, or
-- `blocked` for a function that waits for a lock that nobody releases. A panic is an index out of
-- range, or a nil pointer that is read.
use Prim.Native.Nat.{ℕ}
use mathlib.Core.Bool.{Bool, true, false}
use mathlib.Core.Option.{Option, none, some}
use mathlib.Core.Path.{◌≡◌, refl}
use native.Mathlib.Omega.{arith}

-- One constructor for each error text of the package; `conn_error` is an error number that the
-- netlink connection returned.
pub data Error : Type 0 where
  nil_address invalid_ip invalid_cidr nil_set nil_port l4_proto_zero unknown_family : Error
  unsupported_family unsupported_element nil_nat nat_without_target : Error
  no_chains nil_match_act nil_match_ref no_act_elements nil_verdict unsupported_match : Error
  nil_set_ref no_mask list_and_range list_without_range no_l3_parameter half_port_range : Error
  port_combination no_port_source no_port too_many_ports no_nat_target first_address_nil : Error
  first_port_zero no_action verdict_and_redirect invalid_redirect_port : Error
  many_chain_names no_chain_name unsupported_log_key redirect_without_match : Error
  id_not_found rule_not_found no_rule_id_tlv : Error
  set_not_found nil_action no_keys keys_and_vals nil_key unsupported_key mixed_families : Error
  nil_loadbalance : Error
  chain_exists no_chain no_chain_type no_table chain_not_added : Error
  unknown_expression invalid_json : Error
  conn_error : ℕ → Error

pub data Outcome {ℓ} (A : Type ℓ) : Type ℓ where
  panic : Outcome A
  blocked : Outcome A
  err : Error → Outcome A
  ok : A → Outcome A

module _ {ℓ κ} {A : Type ℓ} {B : Type κ} where
  infixl 5 ◌>>=◌
  -- What stops a function stops its caller.
  abbrev pub ◌>>=◌ : Outcome A → (A → Outcome B) → Outcome B
  panic >>= next = panic
  blocked >>= next = blocked
  err why >>= next = err why
  ok value >>= next = next value

-- What an answer behind a call says of the call.
pub bind_inv :
    {A B : Type 0} (m : Outcome A) (next : A → Outcome B) (b : B)
    → (m >>= next) ≡ ok b
    → (a : A) × (m ≡ ok a) × (next a ≡ ok b)
bind_inv panic next b h = absurd (ground arith)
bind_inv blocked next b h = absurd (ground arith)
bind_inv (err why) next b h = absurd (ground arith)
bind_inv (ok a) next b h = (a, refl, h)

module _ {ℓ} {A : Type ℓ} where
  infixl 5 ◌>>◌
  abbrev pub ◌>>◌ : Outcome (Unit {0}) → Outcome A → Outcome A
  check >> rest = check >>= λ _. rest

  -- Reading through a pointer.
  abbrev pub deref : Option A → Outcome A
  deref (some target) = ok target
  deref none = panic

-- `if stop { return nil, why }`
abbrev pub fail_if : (stop : Bool) (why : Error) → Outcome (Unit {0})
fail_if false why = ok tt
fail_if true why = err why

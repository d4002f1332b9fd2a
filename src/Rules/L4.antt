-- ===== src/Rules/L4.antt =====
-- nfrule_l4.go
use nftableslib.Base.{
  ℕ, false, Option, none, some, List, [], ◌∷◌, ◌++◌, Outcome, ok, err, panic, blocked, slice_items,
  if◌then◌else◌,
}
use nftableslib.Nft.{SetElement, SetDatatype}
use nftableslib.Host.{BinaryUtil, Host, Action, ◌>>=◌, pure, lift}
use nftableslib.Rule.{Port, L4Rule, Operator}
use nftableslib.Expressions.Port.{expr_for_list_port, expr_for_range_port, expr_for_port_set}
use nftableslib.Expressions.Meta.{expr_for_counter}
use nftableslib.Rules.Sets.{new_set}
use nftableslib.Rules.L3.{Built}

module _ ⦃bin : BinaryUtil⦄ where
  -- `se[i].Key = binaryutil.BigEndian.PutUint16(*port[i])`, which panics at a nil pointer.
  unfoldable pub port_elements : List (Option ℕ) → Outcome (List SetElement)
  port_elements [] = ok []
  port_elements (none ∷ ports) = panic
  port_elements (some p ∷ ports) = elim (port_elements ports) [
    | ok rest ↦ ok (
        record { key = bin.be_put_uint16 p; value = []; interval_end = false; verdict_data = none }
        ∷ rest)
    | err e ↦ err e
    | panic ↦ panic
    | blocked ↦ blocked
  ]

  module _ (host : Host) where
    -- `processPortList` for several ports: the set's key type is set by `processPort`.
    unfoldable pub port_set : ℕ → ℕ → List (Option ℕ) → Operator → Action host.S Built
    unfolding port_elements
    port_set l4_proto offset ports op = do
      set ← new_set host false SetDatatype.inet_service_type
      se ← lift (port_elements ports)
      re ← lift (expr_for_list_port l4_proto offset ports op (some set))
      pure (re, record { set = set; elements = se } ∷ [])

    unfoldable pub process_port_list : ℕ → ℕ → List (Option ℕ) → Operator → Action host.S Built
    process_port_list l4_proto offset (p ∷ q ∷ ports) op =
        port_set l4_proto offset (p ∷ q ∷ ports) op
    process_port_list l4_proto offset ports op = do
      re ← lift (expr_for_list_port l4_proto offset ports op none)
      pure (re, [])

    unfoldable pub process_port_ref : ℕ → ℕ → Option ℕ → Option ℕ → Port → Action host.S Built
    process_port_ref l4_proto offset (some from) (some to) port = do
      re ← lift (expr_for_range_port l4_proto offset (some from) (some to) port.rel_op)
      pure (re, [])
    process_port_ref l4_proto offset _ _ port = elim port.set_ref [
      | none ↦ pure ([], [])
      | some ref ↦ (do
        re ← lift (expr_for_port_set l4_proto offset (some ref) port.rel_op)
        pure (re, []))
    ]

    -- The switch: a list that is not empty, a full range, a set reference, or nothing.
    unfoldable pub process_port_sources : ℕ → ℕ → List (Option ℕ) → Port → Action host.S Built
    process_port_sources l4_proto offset [] port =
        process_port_ref l4_proto offset port.range_from port.range_to port
    process_port_sources l4_proto offset (p ∷ ports) port =
        process_port_list l4_proto offset (p ∷ ports) port.rel_op

    unfoldable pub process_port : ℕ → ℕ → Port → Action host.S Built
    process_port l4_proto offset port =
        process_port_sources l4_proto offset (slice_items port.list) port

    unfoldable pub optional_port : ℕ → ℕ → Option Port → Action host.S Built
    optional_port l4_proto offset none = pure ([], [])
    optional_port l4_proto offset (some port) = process_port l4_proto offset port

    unfoldable pub create_l4 : L4Rule → Action host.S Built
    create_l4 l4 = do
      (src, src_sets) ← optional_port l4.l4_proto 0 l4.src
      (dst, dst_sets) ← optional_port l4.l4_proto 2 l4.dst
      pure (src ++ (dst ++ (if l4.counter then expr_for_counter else [])), src_sets ++ dst_sets)

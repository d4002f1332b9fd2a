-- ===== src/Lifecycle/Methods.antt =====
-- The exported methods of `nfRules`, with the mutex that some of them take.
use nftableslib.Base.{ℕ, ◌≡◌, refl, true, false, Bytes, blocked}
use nftableslib.Nft.{Table}
use nftableslib.Host.{BinaryUtil, Host, Action, Guarded, locked}
use nftableslib.Rule.{Rule}
use nftableslib.Ranges.Order.{Sorter}
use nftableslib.RulesList.{RuleStore}
use nftableslib.Lifecycle.Operations.{Method, RuleOperation, create, create_imm, delete, delete_imm}

module _ (host : Host) where
  -- A method of the list behind the mutex.
  abbrev pub RulesMethod : Type 0 → Type 0
  RulesMethod = Action (Guarded RuleStore × host.S)

  -- What a method does to the list that the mutex guards, whether or not it has taken it.
  abbrev pub unguarded : {A : Type 0} → Method host A → RulesMethod A
  unguarded m (g, s) = let (o, (r, t)) = m (g.content, s) in (o, (record g { content = r }, t))

  -- `Delete`
  unfoldable pub delete_rule : ℕ → RulesMethod (Unit {0})
  delete_rule id = locked (unguarded (delete host id))

  -- `DeleteImm`
  unfoldable pub delete_rule_imm : ℕ → RulesMethod (Unit {0})
  delete_rule_imm handle = locked (unguarded (delete_imm host handle))

  module _ ⦃bin : BinaryUtil⦄ ⦃sorter : Sorter⦄ (table : Table) (chain : Bytes) where
    -- `Create`
    unfoldable pub create_rule : Rule → RulesMethod ℕ
    create_rule rule = locked (unguarded (create host table chain RuleOperation.operation_add rule))

    -- `CreateImm`
    unfoldable pub create_rule_imm : Rule → RulesMethod ℕ
    create_rule_imm rule =
        locked (unguarded (create_imm host table chain RuleOperation.operation_add rule))

    -- `Insert`, which does not take the mutex
    unfoldable pub insert_rule : Rule → RulesMethod ℕ
    insert_rule rule = unguarded (create host table chain RuleOperation.operation_insert rule)

    -- `InsertImm`, which does not take it either
    unfoldable pub insert_rule_imm : Rule → RulesMethod ℕ
    insert_rule_imm rule =
        unguarded (create_imm host table chain RuleOperation.operation_insert rule)

  -- From a free mutex a method that takes it does what it does to the list, and leaves it free.
  pub locked_free :
      {A : Type 0} (m : Method host A) (r : RuleStore) (s : host.S)
      → let (o, (r', t)) = m (r, s) in
        locked (unguarded m) (record { held = false; content = r }, s)
        ≡ (o, (record { held = false; content = r' }, t))
  locked_free m r s = refl

  -- From a held one it waits.
  pub locked_held :
      {A : Type 0} (m : Method host A) (r : RuleStore) (s : host.S)
      → locked (unguarded m) (record { held = true; content = r }, s)
        ≡ (blocked, (record { held = true; content = r }, s))
  locked_held m r s = refl

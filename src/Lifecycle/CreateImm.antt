-- ===== src/Lifecycle/CreateImm.antt =====
-- `CreateImm` and `InsertImm`: creating a rule and writing the kernel's handle into it.
use mathlib.Core.Path.{subst}
use nftableslib.Base.{ℕ, refl, Bytes, ◌==◌}
use nftableslib.Nft.{Table}
use nftableslib.Host.{BinaryUtil, Host, Action, ◌>>=◌, ◌>>◌, pure, lift, on_host, on_store}
use nftableslib.Rule.{Rule}
use nftableslib.Ranges.Order.{Sorter}
use nftableslib.RulesList.{RuleStore}
use nftableslib.RulesList.Store.{Ledger, Implements}
use nftableslib.Lifecycle.UserData.{handle_of}
use nftableslib.Lifecycle.Operations.{
  RuleOperation, create, create_imm, get_rule_handle, update_rule_handle_by_id,
}
use nftableslib.Lifecycle.Simulation.{Agrees, Simulates, Same, Simulates-bind}
use nftableslib.Lifecycle.Delete.{on_host-Simulates, Matches-refl}
use nftableslib.Lifecycle.Create.{create_entry, create-Agrees}
use nftableslib.Lifecycle.Update.{change_entry, with_handle, update_rule_handle_by_id-Agrees}

module _ ⦃bin : BinaryUtil⦄ ⦃sorter : Sorter⦄ (host : Host) (table : Table) (chain : Bytes) where
  -- The handle of the rule with an id, from the kernel's rules.
  abbrev pub kernel_handle : {R : Type 0} → ℕ → Action (R × host.S) ℕ
  kernel_handle id = on_host (host.get_rule table chain) >>= λ rules. lift (handle_of id rules)

  -- The end of the method, on a plain list.
  abbrev pub note_handle : ℕ → ℕ → Action (Ledger × host.S) ℕ
  note_handle id handle =
      on_store (change_entry (λ e. e.id == id) (with_handle handle)) >> pure handle

  -- `CreateImm` on a plain list.
  abbrev pub create_entry_imm : RuleOperation → Rule → Action (Ledger × host.S) ℕ
  create_entry_imm op rule = do
    id ← create_entry host table chain op rule
    on_host host.flush
    handle ← kernel_handle id
    note_handle id handle

  kernel_handle-Simulates :
      (id : ℕ) → Simulates host (Same host) (get_rule_handle host table chain id) (kernel_handle id)
  unfolding get_rule_handle
  kernel_handle-Simulates id =
      Simulates-bind host (Same host) (Same host {A = ℕ}) (on_host (host.get_rule table chain))
        (on_host (host.get_rule table chain)) (λ rules. lift (handle_of id rules))
        (λ rules. lift (handle_of id rules)) (on_host-Simulates host (host.get_rule table chain))
        λ rules rules' p r l s i.
          subst
            (λ x.
              Agrees host (Same host {A = ℕ}) (lift (handle_of id rules) (r, s))
                (lift (handle_of id x) (l, s)))
            p (Matches-refl host (handle_of id rules), i, refl)

  note_handle-Simulates :
      (id handle : ℕ)
      → Simulates host
          (Same host)
          (update_rule_handle_by_id host id handle >> pure handle)
          (note_handle id handle)
  note_handle-Simulates id handle =
      Simulates-bind host (Same host {A = Unit {0}}) (Same host {A = ℕ})
        (update_rule_handle_by_id host id handle)
        (on_store (change_entry (λ e. e.id == id) (with_handle handle))) (λ done. pure handle)
        (λ done. pure handle) (update_rule_handle_by_id-Agrees host id handle)
        λ a b p r l s i. (refl, i, refl)

  behind_handle :
      (id : ℕ)
      → Simulates host
          (Same host)
          (get_rule_handle host table chain id >>= λ handle.
            (update_rule_handle_by_id host id handle >> pure handle))
          (kernel_handle id >>= note_handle id)
  behind_handle id =
      Simulates-bind host (Same host) (Same host {A = ℕ}) (get_rule_handle host table chain id)
        (kernel_handle id) (λ handle. update_rule_handle_by_id host id handle >> pure handle)
        (note_handle id) (kernel_handle-Simulates id)
        λ handle handle' p.
          subst
            (λ x.
              Simulates host (Same host {A = ℕ})
                (update_rule_handle_by_id host id handle >> pure handle) (note_handle id x))
            p (note_handle-Simulates id handle)

  behind_create :
      (id : ℕ)
      → Simulates host
          (Same host)
          (on_host host.flush
            >> (get_rule_handle host table chain id >>= λ handle.
                (update_rule_handle_by_id host id handle >> pure handle)))
          (on_host host.flush >> (kernel_handle id >>= note_handle id))
  behind_create id =
      Simulates-bind host (Same host {A = Unit {0}}) (Same host {A = ℕ}) (on_host host.flush)
        (on_host host.flush)
        (λ done. get_rule_handle host table chain id >>= λ handle.
          (update_rule_handle_by_id host id handle >> pure handle))
        (λ done. kernel_handle id >>= note_handle id) (on_host-Simulates host host.flush)
        λ a b p. behind_handle id

  -- From a list on the heap and the plain list that it implements, CreateImm, or InsertImm, and
  -- `create_entry_imm` return the same handle or the same error and leave the connection in the same
  -- state, and the heap that is left implements the plain list that is left: a rule that is built
  -- stands at its end, and the handle of the kernel's rule with its id, if there is one, is written
  -- into the first entry with that id.
  pub create_imm-Agrees :
      (op : RuleOperation) (rule : Rule) (r : RuleStore) (l : Ledger) (s : host.S)
      → Implements r l
      → Agrees host
          (Same host)
          (create_imm host table chain op rule (r, s))
          (create_entry_imm op rule (l, s))
  unfolding create_imm
  create_imm-Agrees op rule =
      Simulates-bind host (Same host) (Same host {A = ℕ}) (create host table chain op rule)
        (create_entry host table chain op rule)
        (λ id.
          on_host host.flush
          >> (get_rule_handle host table chain id >>= λ handle.
              (update_rule_handle_by_id host id handle >> pure handle)))
        (λ id. on_host host.flush >> (kernel_handle id >>= note_handle id))
        (create-Agrees host table chain op rule)
        λ id id' p.
          subst
            (λ x.
              Simulates host (Same host {A = ℕ})
                (on_host host.flush
                  >> (get_rule_handle host table chain id >>= λ handle.
                      (update_rule_handle_by_id host id handle >> pure handle)))
                (on_host host.flush >> (kernel_handle x >>= note_handle x)))
            p (behind_create id)

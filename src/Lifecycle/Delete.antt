-- ===== src/Lifecycle/Delete.antt =====
-- `delete` and `DeleteImm` do with the list on the heap what they would do with a plain list.
use nftableslib.Base.{
  ℕ, refl, sym, inl, inr, Bool-cases, List, Outcome, ok, err, panic, blocked, ◌==◌, if◌then◌else◌,
}
use nftableslib.Host.{Host, Action, ◌>>=◌, ◌>>◌, pure, lift, on_host, on_store, store, keep}
use nftableslib.RulesList.{RuleStore, get_rule_by_id, get_rule_by_handle, remove_rule}
use nftableslib.RulesList.Store.{Entry, entry, Ledger, Implements}
use nftableslib.RulesList.Removal.{Matches, remove_entry, remove_rule-Implements}
use nftableslib.RulesList.Queries.{find_entry, IsEntry, queries-Implement}
use nftableslib.Lifecycle.Operations.{delete, delete_imm}
use nftableslib.Lifecycle.Simulation.{Agrees, Simulates, Same, Simulates-bind}

module _ (host : Host) where
  -- The connection is asked to delete the entry's rule if the kernel knows it.
  abbrev pub withdraw : {R : Type 0} → Entry → Action (R × host.S) (Unit {0})
  withdraw e = if e.rule.handle == 0 then pure tt else on_host (host.del_rule e.rule)

  -- `delete` on a plain list.
  abbrev pub delete_entry : ℕ → Action (Ledger × host.S) (Unit {0})
  delete_entry id = do
    l ← store
    e ← lift (find_entry (λ e. e.id == id) l.rules)
    withdraw e
    on_store (remove_entry e.id)

  -- `DeleteImm` on a plain list.
  abbrev pub delete_entry_imm : ℕ → Action (Ledger × host.S) (Unit {0})
  delete_entry_imm handle = do
    l ← store
    e ← lift (find_entry (λ e. e.rule.handle == handle) l.rules)
    delete_entry e.id
    on_host host.flush

  keep_lem :
      (o : Outcome RuleStore) (o' : Outcome Ledger) (r : RuleStore) (l : Ledger) (s : host.S)
      → Matches Implements o o'
      → Implements r l
      → Agrees host (Same host) (keep o (r, s)) (keep o' (l, s))
  keep_lem (ok a) (ok b) r l s p i = (refl, p, refl)
  keep_lem (ok a) (err e) r l s p i = absurd (cc)
  keep_lem (ok a) panic r l s p i = absurd (cc)
  keep_lem (err e) (ok b) r l s p i = absurd (cc)
  keep_lem (err e) (err e') r l s p i = (p, i, refl)
  keep_lem (err e) panic r l s p i = absurd (cc)
  keep_lem panic (ok b) r l s p i = absurd (cc)
  keep_lem panic (err e') r l s p i = absurd (cc)
  keep_lem panic panic r l s p i = (tt, i, refl)
  keep_lem (ok a) blocked r l s p i = absurd (cc)
  keep_lem (err e) blocked r l s p i = absurd (cc)
  keep_lem panic blocked r l s p i = absurd (cc)
  keep_lem blocked (ok b) r l s p i = absurd (cc)
  keep_lem blocked (err e) r l s p i = absurd (cc)
  keep_lem blocked panic r l s p i = absurd (cc)
  keep_lem blocked blocked r l s p i = (tt, i, refl)

  pub Matches-refl : {A : Type 0} (o : Outcome A) → Matches (Same host) o o
  Matches-refl (ok a) = refl
  Matches-refl (err e) = refl
  Matches-refl panic = tt
  Matches-refl blocked = tt

  pub on_host-Simulates :
      {A : Type 0} (m : Action host.S A) → Simulates host (Same host) (on_host m) (on_host m)
  on_host-Simulates m r l s i = (Matches-refl (m s).0, i, refl)

  remove-Simulates :
      (id : ℕ) → Simulates host (Same host) (on_store (remove_rule id)) (on_store (remove_entry id))
  remove-Simulates id r l s i =
      keep_lem (remove_rule id r) (remove_entry id l) r l s (remove_rule-Implements id r l i) i

  withdraw-Simulates : (e : Entry) → Simulates host (Same host) (withdraw e) (withdraw e)
  withdraw-Simulates e r l s i = elim (Bool-cases (e.rule.handle == 0)) [
    | inl zero_handle ↦ rw zero_handle (refl, i, refl)
    | inr handle ↦ rw handle (on_host-Simulates (host.del_rule e.rule) r l s i)
  ]

  -- What `delete` does once it has found the entry.
  delete_found-Simulates :
      (e : Entry)
      → Simulates host
          (Same host)
          (withdraw e >> on_store (remove_rule e.id))
          (withdraw e >> on_store (remove_entry e.id))
  delete_found-Simulates e =
      Simulates-bind host (Same host {A = Unit {0}}) (Same host {A = Unit {0}}) (withdraw e)
        (withdraw e) (λ _. on_store (remove_rule e.id)) (λ _. on_store (remove_entry e.id))
        (withdraw-Simulates e) λ a b p. remove-Simulates e.id

  abbrev Found : (RuleStore → Outcome ℕ) → (List Entry → Outcome Entry) → Type 0
  Found f g = (r : RuleStore) (l : Ledger) → Implements r l → Matches (IsEntry r) (f r) (g l.rules)

  -- Both deletions look an entry up and go on with it.
  look_up-Simulates :
      (f : RuleStore → Outcome ℕ) (g : List Entry → Outcome Entry)
      (after : Entry → Action (RuleStore × host.S) (Unit {0}))
      (after' : Entry → Action (Ledger × host.S) (Unit {0}))
      → Found f g
      → ((e : Entry) → Simulates host (Same host) (after e) (after' e))
      → Simulates host
          (Same host)
          (store >>= λ r. lift (f r) >>= λ a. after (entry (r.heap a)))
          (store >>= λ l. lift (g l.rules) >>= after')
  look_up-Simulates f g after after' h k =
      Simulates-bind host Implements (Same host {A = Unit {0}}) (store) (store)
        (λ r. lift (f r) >>= λ a. after (entry (r.heap a))) (λ l. lift (g l.rules) >>= after')
        (λ r l s i. (i, i, refl))
        λ r0 l0 i0.
          Simulates-bind host (IsEntry r0) (Same host {A = Unit {0}}) (lift (f r0))
            (lift (g l0.rules)) (λ a. after (entry (r0.heap a))) after'
            (λ r l s i. (h r0 l0 i0, i, refl)) λ a e p. rw (sym p) (k (entry (r0.heap a)))

  -- `delete` and `delete_entry` from any list on the heap and the plain list that it implements:
  -- the same outcome, the same calls of the connection, and again a heap that implements the list.
  delete-Simulates : (id : ℕ) → Simulates host (Same host) (delete host id) (delete_entry id)
  unfolding delete
  delete-Simulates id =
      look_up-Simulates (get_rule_by_id id) (find_entry λ e. e.id == id)
        (λ e. withdraw e >> on_store (remove_rule e.id))
        (λ e. withdraw e >> on_store (remove_entry e.id)) (λ r l i. (queries-Implement r l id i).0)
        delete_found-Simulates

  delete_then_flush-Simulates :
      (id : ℕ)
      → Simulates host
          (Same host)
          (delete host id >> on_host host.flush)
          (delete_entry id >> on_host host.flush)
  delete_then_flush-Simulates id =
      Simulates-bind host (Same host {A = Unit {0}}) (Same host {A = Unit {0}}) (delete host id)
        (delete_entry id) (λ _. on_host host.flush) (λ _. on_host host.flush) (delete-Simulates id)
        λ a b p. on_host-Simulates host.flush

  -- From a list on the heap and the plain list that it implements, `delete` and `DeleteImm` do the
  -- same as `delete_entry` and `delete_entry_imm`: the same outcome and the same calls of the
  -- connection, and the heap that is left implements the plain list that is left.
  pub delete-Agrees :
      (key : ℕ) (r : RuleStore) (l : Ledger) (s : host.S)
      → Implements r l
      → Agrees host (Same host) (delete host key (r, s)) (delete_entry key (l, s))
        × Agrees host (Same host) (delete_imm host key (r, s)) (delete_entry_imm key (l, s))
  unfolding delete_imm
  delete-Agrees key r l s i = (
    delete-Simulates key r l s i,
    look_up-Simulates (get_rule_by_handle key) (find_entry λ e. e.rule.handle == key)
        (λ e. delete host e.id >> on_host host.flush) (λ e. delete_entry e.id >> on_host host.flush)
        (λ r l i. (queries-Implement r l key i).1) (λ e. delete_then_flush-Simulates e.id) r l s i,
  )

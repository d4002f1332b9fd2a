-- ===== src/Json/DumpRefines.antt =====
-- `nfRules.Dump` answers as the plain list of rules does.
use nftableslib.Base.{ℕ, ◌≡◌, refl, sym, List, [], ◌∷◌, ◌++◌, Bytes, Outcome, ok, ◌>>=◌}
use nftableslib.Host.{BinaryUtil}
use nftableslib.RulesList.{Heap, RuleStore}
use nftableslib.RulesList.Store.{Entry, entries, Ledger, Implements}
use nftableslib.RulesList.Queries.{queries-Implement}
use nftableslib.Json.Rule.{Encoding, marshal_json}
use nftableslib.Json.Dump.{dump_nodes, dump_store}

module _ ⦃bin : BinaryUtil⦄ ⦃json : Encoding⦄ where
  -- The texts of the entries, one after another, up to the first that has none.
  unfoldable pub dump_entries : List Entry → Outcome Bytes
  dump_entries [] = ok []
  dump_entries (e ∷ es) = do
    text ← marshal_json e.rule e.sets
    b ← json.compact text
    rest ← dump_entries es
    ok (b ++ rest)

  dump_nodes-entries :
      (heap : Heap) (ps : List ℕ) → dump_nodes heap ps ≡ dump_entries (entries heap ps)
  unfolding dump_nodes dump_entries
  dump_nodes-entries heap [] = refl
  dump_nodes-entries heap (a ∷ ps) = rw (dump_nodes-entries heap ps) refl

  -- The dump of a list on the heap that stands for a plain list of rules is the texts of the plain
  -- list's rules in their order, or what stops the first of them that has no text.
  pub dump_store-dump_entries :
      (r : RuleStore) (l : Ledger) → Implements r l → dump_store r ≡ dump_entries l.rules
  unfolding dump_store
  dump_store-dump_entries r l implements =
      let (by_id, by_handle, (ps, listed, same), counted) = queries-Implement r l 0 implements in
      rw (listed, sym same) (dump_nodes-entries r.heap ps)

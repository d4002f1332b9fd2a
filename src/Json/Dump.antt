-- ===== src/Json/Dump.antt =====
-- The Dump methods of nfrules.go, nfchains.go and nftables.go: everything that the stores hold, as
-- one text after another. A Go map has no order of its own: the model's is that of its list.
use nftableslib.Base.{
  ℕ, Option, none, some, true, false, List, [], ◌∷◌, ◌++◌, Bytes, Outcome, ok, panic, blocked,
  ◌>>=◌,
}
use nftableslib.Host.{BinaryUtil, Host, Guarded, locked}
use nftableslib.Lifecycle.Methods.{RulesMethod, unguarded}
use nftableslib.RulesList.{Heap, RuleStore, dump_rules}
use nftableslib.Chains.{ChainMap}
use nftableslib.Tables.{FamilyMap, TableMap}
use nftableslib.Json.Rule.{Encoding, marshal_json}

module _ ⦃bin : BinaryUtil⦄ ⦃json : Encoding⦄ where
  -- The loop over the rules that `dumpRules` lists.
  unfoldable pub dump_nodes : Heap → List ℕ → Outcome Bytes
  dump_nodes heap [] = ok []
  dump_nodes heap (a ∷ es) = do
    text ← marshal_json (heap a).rule (heap a).sets
    b ← json.compact text
    rest ← dump_nodes heap es
    ok (b ++ rest)

  -- `nfRules.Dump` behind its mutex
  unfoldable pub dump_store : RuleStore → Outcome Bytes
  unfolding dump_nodes
  dump_store r = do es ← dump_rules r; dump_nodes r.heap es

  -- `nfRules.Dump`
  unfoldable pub dump_locked : (host : Host) → RulesMethod host Bytes
  dump_locked host = locked (unguarded host λ (r, s). (dump_store r, (r, s)))

  -- `c.Rules().Dump()`, where nobody holds the mutex of the rules; a nil interface panics.
  abbrev dump_rules_of : Option RuleStore → Outcome Bytes
  dump_rules_of none = panic
  dump_rules_of (some r) = dump_store r

  -- `nfChains.Dump`
  unfoldable pub dump_chains : ChainMap → Outcome Bytes
  dump_chains [] = ok []
  dump_chains ((name, c) ∷ m) = do
    b ← json.marshal_chain c.chain
    b' ← dump_rules_of c.rules
    rest ← dump_chains m
    ok (b ++ (b' ++ rest))

  -- `t.Chains().Dump()`, which takes the chains' mutex.
  abbrev dump_chains_of : Option (Guarded ChainMap) → Outcome Bytes
  dump_chains_of none = panic
  dump_chains_of (some g) = elim g.held [ true ↦ blocked | false ↦ dump_chains g.content ]

  unfoldable pub dump_family : FamilyMap → Outcome Bytes
  dump_family [] = ok []
  dump_family ((name, t) ∷ m) = do
    b ← json.marshal_table t.table
    b' ← dump_chains_of t.chains
    rest ← dump_family m
    ok (b ++ (b' ++ rest))

  -- `nfTables.Dump`
  unfoldable pub dump_tables : TableMap → Outcome Bytes
  unfolding dump_family
  dump_tables [] = ok []
  dump_tables ((family, inner) ∷ m) = do
    text ← dump_family inner
    rest ← dump_tables m
    ok (text ++ rest)

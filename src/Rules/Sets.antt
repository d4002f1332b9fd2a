-- ===== src/Rules/Sets.antt =====
-- The sets that a rule brings along (`nfSet`), and `getSetName` of nfrules.go.
use nftableslib.Base.{◌-◌, Bool, true, false, none, List, Bytes, length, drop, ok}
use nftableslib.Nft.{NfSet, SetElement, SetDatatype}
use nftableslib.Host.{Host, Action, ◌>>=◌, pure}

-- `nfSet`
pub record RuleSet : Type 0 where
  pub set : NfSet
  pub elements : List SetElement

module _ (host : Host) where
  -- A state transformer that does not fail.
  call : {A : Type 0} → (host.S → A × host.S) → Action host.S A
  call f s = let (a, t) = f s in (ok a, t)

  -- The last 12 characters of a new UUID, which has 36.
  unfoldable pub get_set_name : Action host.S Bytes
  unfolding call
  get_set_name = do name ← call host.new_uuid; pure (drop (length name - 12) name)

  -- `&nftables.Set{Anonymous: false, Constant: true, Name: getSetName(), ID: uint32(rand.Intn(0xffff))}`
  -- with the Interval flag and the key type that the callers fill in.
  unfoldable pub new_set : Bool → SetDatatype → Action host.S NfSet
  unfolding call get_set_name
  new_set interval key_type = do
    name ← get_set_name
    id ← call (host.rand_intn 0xffff)
    pure (record {
      table = none;
      id = id;
      name = name;
      anonymous = false;
      constant = true;
      interval = interval;
      is_map = false;
      has_timeout = false;
      timeout = 0;
      key_type = key_type;
      data_type = SetDatatype.no_type;
    })

-- ===== src/Tests/Fixtures.antt =====
-- Concrete parameters: byte order of a little-endian host, insertion sort, and a connection that
-- counts its calls and accepts everything.
use nftableslib.Base.{
  ℕ, zero, suc, ◌+◌, ◌*◌, ◌/◌, ◌%◌, ◌^◌, Bool, true, false, none, List, [], ◌∷◌, Bytes, Outcome, ok,
  err, conn_error, pos, ltb, refl, if◌then◌else◌, ◌>>=◌, replicate,
}
use nftableslib.Nft.{Chain, Table, NfRule, NfSet, SetDatatype, family_ipv4}
use nftableslib.Host.{BinaryUtil, Host}
use nftableslib.Host.Finishes.{Answering}
use nftableslib.Rule.{IpAddr}
use nftableslib.Ranges.Order.{Sorter}
use nftableslib.RulesList.{Heap}

abbrev pub put_be : ℕ → ℕ → Bytes
put_be zero n = []
put_be (suc k) n = (n / 256 ^ k) % 256 ∷ put_be k n

abbrev pub put_le : ℕ → ℕ → Bytes
put_le zero n = []
put_le (suc k) n = n % 256 ∷ put_le k (n / 256)

abbrev pub get_be : ℕ → Bytes → ℕ
get_be acc [] = acc
get_be acc (b ∷ bs) = get_be (acc * 256 + b) bs

instance abbrev pub little_endian : BinaryUtil
little_endian = record {
  be_put_uint16 = put_be 2;
  be_put_uint32 = put_be 4;
  be_uint32 = get_be 0;
  ne_put_uint16 = put_le 2;
  ne_put_uint32 = put_le 4;
}

abbrev insert_by : (IpAddr → IpAddr → Outcome Bool) → IpAddr → List IpAddr → Outcome (List IpAddr)
insert_by less a [] = ok (a ∷ [])
insert_by less a (b ∷ list) =
    less b a
    >>= elim [ true ↦ insert_by less a list >>= λ rest. ok (b ∷ rest) | false ↦ ok (a ∷ b ∷ list) ]

abbrev pub insertion_sort : (IpAddr → IpAddr → Outcome Bool) → List IpAddr → Outcome (List IpAddr)
insertion_sort less [] = ok []
insertion_sort less (a ∷ list) = insertion_sort less list >>= insert_by less a

instance abbrev pub insertion_sorter : Sorter
insertion_sorter = record { sort = insertion_sort }

abbrev pub table : Table
table = record { family = family_ipv4; name = b'f' ∷ [] }

-- A set that the host knows.
abbrev pub named_set : NfSet
named_set = record {
  table = none;
  id = 7;
  name = b's' ∷ [];
  anonymous = false;
  constant = false;
  interval = false;
  is_map = false;
  has_timeout = false;
  timeout = 0;
  key_type = SetDatatype.ip_addr_type;
  data_type = SetDatatype.no_type;
}

-- The connection's state is the number of calls, and the rules that it was handed.
abbrev pub counting_host : Host
counting_host = record {
  S = ℕ × List NfRule;
  new_uuid = λ s. (replicate 36 b'a', s);
  rand_intn = λ n s. (s.0, (s.0 + 1, s.1));
  add_set = λ set elements s. (ok set, s);
  add_rule = λ r s. (s.0 + 1, r ∷ s.1);
  insert_rule = λ r s. (s.0 + 1, r ∷ s.1);
  del_rule = λ r s. (ok tt, s);
  flush = λ s. (ok tt, s);
  get_rule = λ t c s. (ok (s.1), s);
  add_table = λ t s. (s.0 + 1, s.1);
  del_table = λ t s. (s.0 + 1, s.1);
  list_tables = λ s. (ok (table ∷ []), s);
  add_chain = λ c s. (c, (s.0 + 1, s.1));
  del_chain = λ c s. (s.0 + 1, s.1);
  list_chains = λ s. (ok [], s);
  del_set = λ set s. (s.0 + 1, s.1);
  get_sets = λ t s. (ok (named_set ∷ []), s);
  get_set_by_name = λ t n s. (ok named_set, s);
  get_set_elements = λ set s. (ok [], s);
  set_add_elements = λ set es s. (ok tt, (s.0 + 1, s.1));
  set_delete_elements = λ set es s. (ok tt, (s.0 + 1, s.1));
}

-- Every call of that connection returns.
pub counting_answers : Answering counting_host
counting_answers = record {
  add_set = λ set es s. refl;
  flush = λ s. refl;
  get_sets = λ t s. refl;
  get_set_by_name = λ t n s. refl;
  get_set_elements = λ set s. refl;
  set_add_elements = λ set es s. refl;
  set_delete_elements = λ set es s. refl;
  list_tables = λ s. refl;
  list_chains = λ s. refl;
  get_rule = λ t c s. refl;
}

-- The same connection, where the first three calls are not done yet: a deletion is busy until then,
-- the tables cannot be listed, and the table has a chain.
abbrev pub base_chain : Chain
base_chain = record {
  name = b'c' ∷ [];
  table = table;
  chain_type = b'n' ∷ [];
  hook = 1;
  priority = pos 0;
  policy = none;
}

abbrev pub busy_host : Host
busy_host = record counting_host {
  flush = λ s. if ltb s.0 3 then (err (conn_error 16), s) else (ok tt, s);
  list_tables = λ s. (err (conn_error 1), s);
}

abbrev pub listing_host : Host
listing_host = record counting_host { list_chains = λ s. (ok (base_chain ∷ []), s) }

pub listing_answers : Answering listing_host
listing_answers = record {
  add_set = λ set es s. refl;
  flush = λ s. refl;
  get_sets = λ t s. refl;
  get_set_by_name = λ t n s. refl;
  get_set_elements = λ set s. refl;
  set_add_elements = λ set es s. refl;
  set_delete_elements = λ set es s. refl;
  list_tables = λ s. refl;
  list_chains = λ s. refl;
  get_rule = λ t c s. refl;
}

-- A heap before any rule is made.
abbrev pub blank_heap : Heap
blank_heap a = record {
  id = 0;
  rule = record {
    table = table;
    chain = [];
    position = 0;
    handle = 0;
    exprs = [];
    user_data = none;
  };
  sets = [];
  next = none;
  prev = none;
}

-- ===== src/Nbt/Canonical.antt =====
-- The mapping that `json.dumps(…, sort_keys=True)` writes out: the keys of every compound in
-- order. UTF-8 keeps the order of code points, so the bytewise comparison is Python's.
use Prim.Native.String.{compare}
use text.Mathlib.Text.{is_le}
use endstone_blockdata_api.Base.{String, Bool}
use endstone_blockdata_api.Base.Sort.{sort}
use endstone_blockdata_api.Nbt.{
  Value, list, dict, Items, nil, cons, Fields, end, field, entries, of_entries,
}

unfoldable pub by_key : String × Value → String × Value → Bool
by_key (k, v) (j, w) = is_le (compare k j)

unfoldable mutual
  unfolding by_key sort entries of_entries

  pub canonical : Value → Value
  canonical (list vs) = list (canonical_items vs)
  canonical (dict fs) = dict (of_entries (sort by_key (entries (canonical_fields fs))))
  canonical v = v

  pub canonical_items : Items → Items
  canonical_items nil = nil
  canonical_items (cons v vs) = cons (canonical v) (canonical_items vs)

  pub canonical_fields : Fields → Fields
  canonical_fields end = end
  canonical_fields (field k v fs) = field k (canonical v) (canonical_fields fs)

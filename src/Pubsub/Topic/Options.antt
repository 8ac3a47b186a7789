-- ===== src/Pubsub/Topic/Options.antt =====
-- The options of a `WatchedTopic` in iot/lookup-table.go: `GetOption`, `SetOption`, `DeleteOption`,
-- `ReplaceOptions` and `OptionSize`. `kv` is the red-black tree of the container package.
use knotfreeiot.Base.{ℕ, Bytes, Bool, true, false, List, [], ◌∷◌, Option, none, some}
use knotfreeiot.Base.Keys.{TreeMap, bytes_eq}
use knotfreeiot.Pubsub.Topic.{MyRedblacktree, WatchedTopic}

module _ (kv : TreeMap MyRedblacktree Bytes Bytes) where
  unfoldable pub put_entries : List (Bytes × Bytes) → MyRedblacktree → MyRedblacktree
  put_entries [] t = t
  put_entries ((k, v) ∷ more) t = put_entries more (kv.put k v t)

  abbrev tree_of : Option MyRedblacktree → MyRedblacktree
  tree_of none = kv.empty
  tree_of (some t) = t

module _ {T F : Type 0} (kv : TreeMap MyRedblacktree Bytes Bytes) where
  unfoldable pub option_size : WatchedTopic T F → ℕ
  option_size wt = elim wt.optional_key_values [ none ↦ 0 | some t ↦ kv.size t ]

  -- The value with `ok`; a nil slice and an empty one are both `[]`.
  unfoldable pub get_option : WatchedTopic T F → Bytes → Bytes × Bool
  get_option wt key = elim wt.optional_key_values [
    | none ↦ ([], false)
    | some t ↦ elim (kv.get key t) [ none ↦ ([], false) | some val ↦ (val, true) ]
  ]

  unfoldable pub delete_option : Bytes → WatchedTopic T F → WatchedTopic T F
  delete_option key wt = elim wt.optional_key_values [
    | none ↦ wt
    | some t ↦ record wt { optional_key_values = some (kv.remove key t) }
  ]

  -- The map is given by its entries in the order in which the loop meets them.
  unfoldable pub replace_options : List (Bytes × Bytes) → WatchedTopic T F → WatchedTopic T F
  unfolding put_entries
  replace_options amap wt = record wt { optional_key_values = some (put_entries kv amap kv.empty) }

  unfoldable pub set_option : Bytes → Bytes → WatchedTopic T F → WatchedTopic T F
  set_option key val wt = record wt {
    optional_key_values = some (kv.put key val (tree_of kv wt.optional_key_values));
  }

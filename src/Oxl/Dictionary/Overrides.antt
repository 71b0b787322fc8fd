-- ===== src/Oxl/Dictionary/Overrides.antt =====
-- What `ApplyOverrides` of src/oxl/xl_api/xl_dictionary.cpp leaves under each key.
use odin_analytics.Prelude.{◌≡◌}
use odin_analytics.Prelude.Text.{Text}
use odin_analytics.Oxl.StdMap.{find_key, or_else, find_key-assign_all}
use odin_analytics.Oxl.Dictionary.{XlDictionary, apply_overrides}
use odin_analytics.Oxl.Dictionary.Invariant.{IsMade, IsMade-IsDictionary}

module _ {ℓ} {N : Type ℓ} where
  -- After overrides that the operations made are applied to a dictionary, a key has the value of the
  -- overrides if they have the key, and else the value that it had in the dictionary, if any.
  pub find_key-apply_overrides :
      (key : Text) (d overrides_dict : XlDictionary N)
      → IsMade overrides_dict
      → find_key key (apply_overrides d overrides_dict)
        ≡ or_else (find_key key overrides_dict) (find_key key d)
  unfolding apply_overrides
  find_key-apply_overrides key d overrides_dict made =
      find_key-assign_all key overrides_dict d (IsMade-IsDictionary made).0

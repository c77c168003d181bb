-- ===== src/Store/Interface.antt =====
-- What the store uses of the values it keeps (engine/datatypes/__init__.py): their type, their
-- length and their byte estimate. The store takes this interface as a parameter.
use redis_like_data_storage.Prelude.{ℕ, String, Bool, true, false, ◌≡◌, ◌==◌, ◌&&◌, not}
use redis_like_data_storage.Prelude.Int.{ℤ}

pub data Kind : Type 0 where
  string list hash set zset : Kind

-- `isinstance(value, kind)` on the five value types.
unfoldable pub same_kind : Kind → Kind → Bool
same_kind string string = true
same_kind list list = true
same_kind hash hash = true
same_kind set set = true
same_kind zset zset = true
same_kind _ _ = false

pub record Values : Type 1 where
  pub Value : Type 0
  pub kind : Value → Kind
  pub len : Value → ℕ
  -- `value_size`
  pub size : Value → ℤ
  -- `sys.getsizeof` of a text.
  pub str_size : String → ℤ
  -- The constructor of the type without arguments.
  pub new : Kind → Value
  pub kind-new : (k : Kind) → kind (new k) ≡ k
  pub len-new : (k : Kind) → len (new k) ≡ 0

-- An empty collection, which the store does not keep.
abbrev pub is_hollow : (vs : Values) → vs.Value → Bool
is_hollow vs v = not (same_kind (vs.kind v) string) && (vs.len v == 0)

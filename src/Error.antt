-- ===== src/Error.antt =====
-- src/error.rs: the error values that every operation returns. A message keeps its constant text
-- and the field's name; a value that the source interpolates into it is left out.
pub mod Result
use Prim.Native.String.{◌++◌ as str_append}
use vectis.Base.{String, ◌≡◌}

-- `VectisError`, behind `DynError`; `foreign` is an error of another type that is boxed there.
pub data DynError : Type 0 where
  token_decode_batch_too_large : DynError
  invalid_input not_found conflict forbidden invalid_signature : String → DynError
  config_signature_stale remote_unreachable storage overloaded internal : String → DynError
  foreign : String → DynError

-- `{a}{b}` in a format string.
abbrev pub concat : String → String → String
concat a b = str_append a b

prefixed : String → String → String
prefixed prefix message = concat prefix (concat ": " message)

pub with_prefix : String → DynError → DynError
with_prefix p token_decode_batch_too_large = token_decode_batch_too_large
with_prefix p (invalid_input m) = invalid_input (prefixed p m)
with_prefix p (not_found m) = not_found (prefixed p m)
with_prefix p (conflict m) = conflict (prefixed p m)
with_prefix p (forbidden m) = forbidden (prefixed p m)
with_prefix p (invalid_signature m) = invalid_signature (prefixed p m)
with_prefix p (config_signature_stale m) = config_signature_stale (prefixed p m)
with_prefix p (remote_unreachable m) = remote_unreachable (prefixed p m)
with_prefix p (storage m) = storage (prefixed p m)
with_prefix p (overloaded m) = overloaded (prefixed p m)
with_prefix p (internal m) = internal (prefixed p m)
with_prefix p (foreign m) = internal (prefixed p m)

-- ===== src/Cfgx/Message.antt =====
-- The texts of the errors of src/cfgx.cpp, and `IsMissingPathError`, which reads them.
use toolx_cpp.Prelude.{Bool, true, false, ◌||◌, ◌&&◌, ◌==◌, [], ◌∷◌, ◌++◌, Bytes, codes}
use toolx_cpp.Cfgx.Error.{
  PathReason, trailing_escape, trailing_dot, empty_segment, unterminated_index, after_empty_key,
  index_too_large, no_digits, missing_bracket, after_index, Error, path_empty, path_without_tokens,
  invalid_path, no_object_at_key, key_not_found, no_array_at_index, index_out_of_range,
  index_unsupported, set_no_object, set_no_array, set_failed, remove_no_object, remove_no_array,
  remove_key_no_object, remove_index_no_array, runtime_set_failed, runtime_remove_failed,
  compose_runtime_failed,
}
use toolx_cpp.Cfgx.Path.{to_string}

pub reason_text : PathReason → Bytes
reason_text trailing_escape = codes "trailing escape"
reason_text trailing_dot = codes "trailing '.' is not allowed"
reason_text empty_segment = codes "empty path segment"
reason_text unterminated_index = codes "unterminated index"
reason_text after_empty_key = codes "expected '.' or '[' after empty key"
reason_text index_too_large = codes "array index exceeds size_t maximum"
reason_text no_digits = codes "index must contain digits"
reason_text missing_bracket = codes "missing closing ']' for index"
reason_text after_index = codes "expected '.' or '[' after index"

unfoldable pub message : Error → Bytes
message path_empty = codes "path must not be empty"
message path_without_tokens = codes "path did not produce tokens"
message (invalid_path offset reason) =
    codes "invalid path at offset " ++ (to_string offset ++ (codes ": " ++ reason_text reason))
message (no_object_at_key k) =
    codes "type mismatch: expected object while traversing key '" ++ (k ++ codes "'")
message (key_not_found k) = codes "key not found: '" ++ (k ++ codes "'")
message no_array_at_index = codes "type mismatch: expected array while traversing index"
message index_out_of_range = codes "array index out of range"
message index_unsupported = codes "array index exceeds maximum supported array size"
message (set_no_object k) =
    codes "type mismatch: expected object while setting key '" ++ (k ++ codes "'")
message set_no_array = codes "type mismatch: expected array while setting index"
message set_failed = codes "set operation failed"
message remove_no_object = codes "type mismatch: expected object while removing path"
message remove_no_array = codes "type mismatch: expected array while removing path"
message remove_key_no_object = codes "type mismatch: expected object for remove key"
message remove_index_no_array = codes "type mismatch: expected array for remove index"
message (runtime_set_failed path e) =
    codes "runtime set failed at path '" ++ (path ++ (codes "': " ++ message e))
message (runtime_remove_failed path e) =
    codes "runtime remove failed at path '" ++ (path ++ (codes "': " ++ message e))
message (compose_runtime_failed e) = codes "compose runtime layer failed: " ++ message e

-- `text.find(part) != npos`.
unfoldable pub is_prefix : Bytes → Bytes → Bool
is_prefix [] s = true
is_prefix (c ∷ p) [] = false
is_prefix (c ∷ p) (d ∷ s) = c == d && is_prefix p s

unfoldable pub contains : Bytes → Bytes → Bool
contains part [] = is_prefix part []
contains part (c ∷ s) = is_prefix part (c ∷ s) || contains part s

unfoldable pub is_missing_path_error : Bytes → Bool
is_missing_path_error text =
    contains (codes "not found") text || contains (codes "out of range") text

-- ===== src/Status.antt =====
-- The status codes of src/include/yloc/status.h.
pub data Status : Type 0 where
  success invalid_args not_supported out_of_resources internal_exception : Status
  input_out_of_bounds init_error not_yet_implemented not_found insufficient_size : Status
  unexpected_size no_data unknown_error : Status

-- ===== src/People/Names.antt =====
-- The test of a name by `if not name`.
use text.Mathlib.Text.{◌==◌}
use face_identify.Prelude.{String, Bool}

abbrev pub is_empty_name : String → Bool
is_empty_name name = name == ""

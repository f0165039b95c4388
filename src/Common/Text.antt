-- ===== src/Common/Text.antt =====
-- Strings put together, apart from the operator on lists.
use Prim.Native.String.{String, ◌++◌}

-- `format!("{a}{b}")`
unfoldable pub concat : String → String → String
concat a b = a ++ b

-- ===== src/Prelude/Texts.antt =====
-- Texts put together, as an f-string does.
use codex_waiting_plgin.Prelude.{String}
use Prim.Native.String.{◌++◌}

abbrev pub joined : String → String → String
joined a b = a ++ b

-- ===== src/Model/Priorities.antt =====
-- internal/model/torrent.go: the constants of `FilePriority`.
use Prim.Native.String.{String}

abbrev pub skip : String
skip = "skip"

abbrev pub normal : String
normal = "normal"

abbrev pub high : String
high = "high"

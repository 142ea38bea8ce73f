-- ===== src/Model/States.antt =====
-- internal/model/torrent.go: the constants of `TorrentState`.
use Prim.Native.String.{String}

abbrev pub fetching_metadata : String
fetching_metadata = "fetching_metadata"

abbrev pub checking : String
checking = "checking"

abbrev pub queued : String
queued = "queued"

abbrev pub downloading : String
downloading = "downloading"

abbrev pub seeding : String
seeding = "seeding"

abbrev pub paused : String
paused = "paused"

abbrev pub error : String
error = "error"

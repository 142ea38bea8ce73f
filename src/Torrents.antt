-- ===== src/Torrents.antt =====
-- internal/daemon/session.go: the torrents that the daemon shows, in their order. One goroutine
-- owns the state and applies the commands one after the other, so that a command is a function of
-- the state. How `run` hands a command over, and what a cancelled context makes of it, is in
-- Torrents/Loop.antt.
pub mod Order
pub mod View
pub mod Loop
pub mod Distinct
pub mod Commands
use torrcli.Base.{
  ℕ, ℤ, shift, ◌≡◌, Bool, true, false, Option, none, some, List, [], ◌∷◌, ◌++◌, ltb, dec_str,
  length, if◌then◌else◌, count, erase, index_of, swap, lookup, put as put_entry, present,
  remove as delete, Exec, ok, err, not_found,
}
use torrcli.Model.{TorrentId, TorrentSnapshot}

pub record SessionState : Type 0 where
  pub torrents : List (TorrentId × TorrentSnapshot)
  pub order : List TorrentId

unfoldable pub new_state : SessionState
new_state = record { torrents = []; order = [] }

unfoldable pub put : TorrentSnapshot → Exec SessionState (Unit {0})
put torrent s = (
  record {
    torrents = put_entry dec_str torrent.id torrent s.torrents;
    order = elim (lookup dec_str torrent.id s.torrents) [
      | none ↦ s.order ++ torrent.id ∷ []
      | some _ ↦ s.order
    ];
  },
  ok tt,
)

unfoldable pub get : TorrentId → Exec SessionState TorrentSnapshot
get id s = elim (lookup dec_str id s.torrents) [
  | none ↦ (s, err (not_found id))
  | some torrent ↦ (s, ok torrent)
]

-- The snapshot of a name in the order. `zero` is the zero value that Go's map gives for a missing
-- key.
unfoldable pub list_from :
    TorrentSnapshot → List (TorrentId × TorrentSnapshot) → List TorrentId → List TorrentSnapshot
list_from zero torrents [] = []
list_from zero torrents (id ∷ ids) =
    let rest = list_from zero torrents ids in
    elim (lookup dec_str id torrents) [ none ↦ zero ∷ rest | some torrent ↦ torrent ∷ rest ]

unfoldable pub list : TorrentSnapshot → Exec SessionState (List TorrentSnapshot)
list zero s = (s, ok (list_from zero s.torrents s.order))

unfoldable pub remove : TorrentId → Exec SessionState (Unit {0})
remove id s = elim (lookup dec_str id s.torrents) [
  | none ↦ (s, err (not_found id))
  | some _ ↦
      (record { torrents = delete dec_str id s.torrents; order = erase dec_str id s.order }, ok tt)
]

-- The swap with the neighbour at `offset`, where there is one.
unfoldable pub move_order : ℕ → ℤ → List TorrentId → List TorrentId
move_order index offset order = elim (shift index offset) [
  | none ↦ order
  | some target ↦ if ltb target (length order) then swap order index target else order
]

unfoldable pub move : TorrentId → ℤ → Exec SessionState (Unit {0})
move id offset s = elim (index_of dec_str id s.order) [
  | none ↦ (s, err (not_found id))
  | some index ↦ (record s { order = move_order index offset s.order }, ok tt)
]

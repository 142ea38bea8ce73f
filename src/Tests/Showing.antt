-- ===== src/Tests/Showing.antt =====
-- The torrents that are shown.
use torrcli.Base.{pos, ◌≡◌, refl, true, false, dec_str, lookup, Exec, ok, [], ◌∷◌}
use torrcli.Model.{TorrentSnapshot, zero_snapshot}
use torrcli.Torrents
use torrcli.Torrents.{SessionState, new_state}
use torrcli.Torrents.Commands.{
  IsConsistent, after_commands, putting, moving, removing, after_commands-IsConsistent,
}
use torrcli.Torrents.View.{view, upsert, without, view-put, view-remove}
use torrcli.Torrents.Loop.{
  Point, start, finished, Reach, here, next, receive, answer, shut_down, Explained, IsStuck,
  Reach-Explained, Reach-IsStuck,
}
use torrcli.Torrents.Loop.Serving.{Served, Reach-Served}
use torrcli.Tests.{snapshot_of, state_a, state_a-IsOrdered, state_a-IsKeyed}

abbrev snapshot_b : TorrentSnapshot
snapshot_b = snapshot_of "b"

after_commands-IsConsistent_example : IsConsistent (
    after_commands
      (putting (snapshot_of "a") ∷ putting snapshot_b ∷ moving "a" (pos 1) ∷ removing "b" ∷ [])
      new_state)
after_commands-IsConsistent_example =
    after_commands-IsConsistent
      (putting (snapshot_of "a") ∷ putting snapshot_b ∷ moving "a" (pos 1) ∷ removing "b" ∷ [])

view-put_example :
    view zero_snapshot (Torrents.put snapshot_b state_a).0
    ≡ upsert snapshot_b (view zero_snapshot state_a)
view-put_example = view-put zero_snapshot snapshot_b state_a state_a-IsOrdered state_a-IsKeyed

remove_a-ok : (Torrents.remove "a" state_a).1 ≡ ok tt
unfolding Torrents.remove lookup dec_str
remove_a-ok = refl

view-remove_example :
    view zero_snapshot (Torrents.remove "a" state_a).0 ≡ without "a" (view zero_snapshot state_a)
view-remove_example =
    view-remove zero_snapshot "a" state_a state_a-IsOrdered state_a-IsKeyed remove_a-ok

abbrev put_b : Exec SessionState (Unit {0})
put_b = Torrents.put snapshot_b

abbrev after_put : Point (Unit {0})
after_put = record (start {A = Unit {0}} false state_a) {
  state = (put_b state_a).0;
  caller = finished (put_b state_a).1;
}

path : Reach put_b (start false state_a) after_put
path = next (next here (receive refl refl refl)) (answer (put_b state_a).1 refl refl)

Reach-Explained_example : Explained put_b state_a after_put
Reach-Explained_example = Reach-Explained put_b false state_a path

abbrev halted : Point (Unit {0})
halted = record (start {A = Unit {0}} true state_a) { stopped = true }

Reach-IsStuck_example : IsStuck put_b (record halted { done = true })
Reach-IsStuck_example =
    Reach-IsStuck put_b {p = halted} (record { stopped = refl; detached = refl; sending = refl })
      (next here (shut_down refl))

Reach-Served_example : Served put_b state_a (start false state_a)
Reach-Served_example = Reach-Served put_b false state_a (start false state_a) here refl

-- ===== src/Tests/Starting.antt =====
-- A start of the daemon and a round of the scheduler over two torrents.
use torrcli.Base.{
  pos, ◌≡◌, ◌≤◌, All, refl, some, [], ◌∷◌, false, dec_str, lookup, put as put_entry, ok, to_ℕ,
}
use torrcli.Model.{Session, TorrentId, zero_snapshot, default_config, is_complete}
use torrcli.Torrents.{SessionState, put, list, list_from}
use torrcli.Torrents.Order.{IsOrdered, put-IsOrdered}
use torrcli.Torrents.View.{IsKeyed, view}
use torrcli.Torrents.Loop.{run}
use torrcli.Daemon.{Daemon, clone_session, run_torrents, call_engine, put_torrent}
use torrcli.Daemon.Schedule.{
  set_scheduled, refreshed, start, hold, reconcile_one, reconcile_all, reconcile_schedule,
}
use torrcli.Daemon.Startup.{start_up}
use torrcli.Daemon.Limits.Knowing.{Holds}
use torrcli.Daemon.Limits.Round.{running}
use torrcli.Daemon.Limits.Round.Whole.{reconcile_schedule_bound}
use torrcli.Torrents.Commands.{put-IsKeyed}
use torrcli.Daemon.Steady.Saving.{IsSteady}
use torrcli.Daemon.Steady.Starting.{start_up-IsSteady}
use torrcli.Tests.{
  record_a, session_a-valid, snapshot_of, plain_text, state_a, state_a-IsOrdered, state_a-IsKeyed,
  willing, willing-IsNamed, daemon_a, digits,
}

start_up-IsSteady_example : IsSteady plain_text (start_up willing digits (λ e. "") daemon_a).0
start_up-IsSteady_example =
    start_up-IsSteady willing plain_text digits (λ e. "") daemon_a willing-IsNamed session_a-valid
      refl refl

abbrev KnowsAll : Unit {0} → TorrentId → Type 0
KnowsAll e id = Unit {0}

willing-Holds : Holds willing KnowsAll
willing-Holds = record {
  pauses = λ id e k. refl;
  after_pause = λ id j e k. tt;
  after_resume = λ id j e k. tt;
  after_snapshot = λ id j e k. tt;
}

abbrev state_ab : SessionState
state_ab = record {
  torrents = ("a", snapshot_of "a") ∷ ("b", snapshot_of "b") ∷ [];
  order = "a" ∷ "b" ∷ [];
}

-- Two downloads, of which one may run.
abbrev daemon_ab : Daemon (Unit {0}) Session
daemon_ab = record daemon_a {
  config = record (default_config "/data") { max_active_downloads = pos 1 };
  session = record {
    order = some ("a" ∷ "b" ∷ []);
    torrents = some (("a", record_a) ∷ ("b", record_a) ∷ []);
  };
  torrents = state_ab;
}

state_ab-IsOrdered : IsOrdered state_ab
unfolding put put_entry lookup dec_str
state_ab-IsOrdered = put-IsOrdered (snapshot_of "b") state_a state_a-IsOrdered

state_ab-IsKeyed : IsKeyed state_ab.torrents
unfolding put put_entry lookup dec_str
state_ab-IsKeyed = put-IsKeyed (snapshot_of "b") state_a state_a-IsKeyed

one_counted : (reconcile_schedule willing daemon_ab).1 ≡ ok (record { downloads = 1; seeds = 0 })
unfolding reconcile_schedule reconcile_all reconcile_one hold start set_scheduled refreshed
    put_torrent is_complete run_torrents call_engine run list list_from lookup clone_session dec_str
one_counted = refl

known_ab : All (λ t. KnowsAll daemon_ab.engine t.id) (view zero_snapshot state_ab)
unfolding list_from lookup dec_str
known_ab = (tt, (tt, tt))

reconcile_schedule_bound_example :
    let left =
      running
        (clone_session daemon_ab.session)
        false
        (view zero_snapshot state_ab)
        (reconcile_schedule willing daemon_ab).0.scheduled in
    (1 ≡ left) × (left ≤ to_ℕ (pos 1))
reconcile_schedule_bound_example =
    reconcile_schedule_bound willing KnowsAll false daemon_ab (record { downloads = 1; seeds = 0 })
      willing-Holds known_ab state_ab-IsOrdered state_ab-IsKeyed refl one_counted

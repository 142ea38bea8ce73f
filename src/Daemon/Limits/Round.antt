-- ===== src/Daemon/Limits/Round.antt =====
-- internal/daemon/scheduler.go: how many torrents a round of the scheduler leaves running.
pub mod Whole
use torrcli.Base.{
  ℕ, ◌+◌, ◌≤◌, ◌≡◌, ◌≢◌, inl, inr, refl, ◌∙◌, ap, arith, Bool, true, false, ◌&&◌, ite, Option, none,
  some, List, [], ◌∷◌, dec_str, lookup, Result, ok, err, Option-cases, Bool-cases, pure, ◌>>◌,
  if◌then◌else◌, is_positive, to_ℕ, to_ℕ-at_most,
}
use torrcli.Model.{Config, Session, TorrentId, TorrentState, TorrentSnapshot, is_complete}
use torrcli.Model.States
use torrcli.Engine.{Engine, request}
use torrcli.Daemon.{Daemon, items, put_torrent}
use torrcli.Daemon.Schedule.{
  Counts, active, limit, count_one, is_full, same, set_scheduled, refreshed, hold, start,
  reconcile_one, reconcile_all,
}
use torrcli.Daemon.Limits

-- 1 where a torrent with a record is a seed or, for `false`, a download, and is marked as running.
unfoldable pub running_one : Session → Bool → TorrentSnapshot → List (TorrentId × Bool) → ℕ
running_one session b t scheduled = elim (lookup dec_str t.id (items session.torrents)) [
  | none ↦ 0
  | some r ↦ elim (lookup dec_str t.id scheduled) [
    | some true ↦ if same b (is_complete t.progress) then 1 else 0
    | some false ↦ 0
    | none ↦ 0
  ]
]

unfoldable pub running : Session → Bool → List TorrentSnapshot → List (TorrentId × Bool) → ℕ
running session b [] scheduled = 0
running session b (t ∷ ts) scheduled =
    running_one session b t scheduled + running session b ts scheduled

pub running_one_off :
    (session : Session) (b : Bool) (t : TorrentSnapshot) (scheduled : List (TorrentId × Bool))
    → lookup dec_str t.id scheduled ≢ some true
    → running_one session b t scheduled ≡ 0
unfolding running_one
running_one_off session b t scheduled n = elim (Option-cases (lookup dec_str t.id scheduled)) [
  | inl e ↦ ground arith
  | inr (true, e) ↦ absurd (n e)
  | inr (false, e) ↦ ground arith
]

-- Where the torrent stands the same in two schedules.
pub running_one_kept :
    (session : Session) (b : Bool) (t : TorrentSnapshot) (old new : List (TorrentId × Bool))
    → lookup dec_str t.id new ≡ lookup dec_str t.id old
    → running_one session b t new ≡ running_one session b t old
unfolding running_one
running_one_kept session b t old new e = ground arith

-- A counter that has not passed its limit has not done so afterwards.
abbrev pub StaysBelow : Config → Counts → Counts → Type 0
StaysBelow config c c' =
    (b : Bool)
    → is_positive (limit b config) ≡ true
    → active b c ≤ to_ℕ (limit b config)
    → active b c' ≤ to_ℕ (limit b config)

module _ {E T : Type 0} (engine : Engine E) where
  -- A torrent that is held is marked as stopped, and the call returns no error.
  record Held (state : TorrentState) (t : TorrentSnapshot) (d : Daemon E T) : Type 0 where
    done : (hold engine state t d).1 ≡ ok tt
    config : (hold engine state t d).0.config ≡ d.config
    scheduled :
        (hold engine state t d).0.scheduled ≡ (set_scheduled engine t.id false d).0.scheduled

  Held-hold : (state : TorrentState) (t : TorrentSnapshot) (d : Daemon E T) → Held state t d
  unfolding hold
  Held-hold state t d =
      let d1 = (set_scheduled engine t.id false d).0 in
      let (u, e) = Limits.refreshed_ok engine t d1 in
      let k = Limits.refreshed-Leaves engine t d1 in
      let d2 = (refreshed engine t d1).0 in
      let p = Limits.put_torrent-Leaves engine (record u { state = state }) d2 in
      let q = Limits.put_torrent_ok {E = E} {T = T} engine (record u { state = state }) d2 in
      let f = (Limits.set_scheduled-Touches engine t.id false d).config in
      record {
        done = rw (e, hold) q;
        config = rw (e, hold) (p.config ∙ (k.config ∙ f));
        scheduled = rw (e, hold) (p.scheduled ∙ k.scheduled);
      }

  -- A torrent that is started is marked as running and counted, or is neither.
  data Started (b : Bool) (c : Counts) (t : TorrentSnapshot) (d : Daemon E T) : Type 0 where
    runs :
        (start engine b c t d).1 ≡ ok (count_one b c)
        → lookup dec_str t.id (start engine b c t d).0.scheduled ≡ some true
        → Started b c t d
    fails :
        (start engine b c t d).1 ≡ ok c
        → lookup dec_str t.id (start engine b c t d).0.scheduled ≢ some true
        → Started b c t d

  start-Touches :
      (b : Bool) (c : Counts) (t : TorrentSnapshot) (d : Daemon E T)
      → Started b c t d × Limits.Touches engine t.id d (start engine b c t d).0
  unfolding start
  start-Touches b c t d =
      let d1 = (set_scheduled engine t.id true d).0 in
      let (u, e) = Limits.refreshed_ok engine t d1 in
      let k = Limits.refreshed-Leaves engine t d1 in
      let d2 = (refreshed engine t d1).0 in
      let p = Limits.put_torrent-Leaves engine u d2 in
      let q = Limits.put_torrent_ok {E = E} {T = T} engine u d2 in
      let f = Limits.set_scheduled-Touches engine t.id true d in
      let s = p.scheduled ∙ k.scheduled in
      elim (Limits.set_scheduled-runs engine t.id d) [
        | inl (g, l) ↦ (
          runs (rw (g, e, start) refl) (rw (g, e, start) (ap (lookup dec_str t.id) s ∙ l)),
          record {
            config = rw (g, e, start) (p.config ∙ (k.config ∙ f.config));
            others = λ j n. rw (g, e, start) (ap (lookup dec_str j) s ∙ f.others j n);
          },
        )
        | inr (x, g, l) ↦ (fails (rw (g, start) refl) (rw (g, start) l), rw (g, start) f)
      ]

  -- What becomes of the two counters, of the schedule and of a limit that is not passed yet.
  pub record Accounted (session : Session) (t : TorrentSnapshot) (c : Counts) (d : Daemon E T)
      (m : Daemon E T × Result Counts) : Type 0 where
    pub counts : Counts
    pub result : m.1 ≡ ok counts
    pub touches : Limits.Touches engine t.id d m.0
    pub grows : (b : Bool) → active b counts ≡ active b c + running_one session b t m.0.scheduled
    pub bounded : StaysBelow d.config c counts

  pub hold-Accounted :
      (session : Session) (state : TorrentState) (t : TorrentSnapshot) (c : Counts) (d : Daemon E T)
      → (engine.pause request t.id d.engine).1 ≡ ok tt
      → Accounted session t c d ((hold engine state t >> pure c) d)
  unfolding running_one
  hold-Accounted session state t c d p =
      let h = Held-hold state t d in
      let f = Limits.set_scheduled-Touches engine t.id false d in
      let l = Limits.set_scheduled-stops engine t.id d p in
      record {
        counts = c;
        result = rw h.done refl;
        touches = record {
          config = rw h.done h.config;
          others = λ j n. rw h.done (ap (lookup dec_str j) h.scheduled ∙ f.others j n);
        };
        grows = λ b. rw h.done (
            omega (
              arith,
              running_one_off session b t (hold engine state t d).0.scheduled
                  (λ e. ground (arith, ap (lookup dec_str t.id) h.scheduled ∙ l)),
            ));
        bounded = λ b q k. k;
      }

  pub start-Accounted :
      (session : Session) (t : TorrentSnapshot) (c : Counts) (d : Daemon E T)
      {r : Limits.TorrentRecord}
      → lookup dec_str t.id (items session.torrents) ≡ some r
      → is_full (limit (is_complete t.progress) d.config) (active (is_complete t.progress) c)
        ≡ false
      → Accounted session t c d (start engine (is_complete t.progress) c t d)
  unfolding running_one
  start-Accounted session t c d k n =
      let (s, f) = start-Touches (is_complete t.progress) c t d in
      elim s [
        | runs e l ↦ record {
          counts = count_one (is_complete t.progress) c;
          result = e;
          touches = f;
          grows = λ b. rw (k, l, running_one) (counted b (is_complete t.progress));
          bounded = λ b q h. within b (is_complete t.progress) q h n;
        }
        | fails e l ↦ record {
          counts = c;
          result = e;
          touches = f;
          grows = λ b. omega (
            arith,
            running_one_off session b t (start engine (is_complete t.progress) c t d).0.scheduled l,
          );
          bounded = λ b q h. h;
        }
      ]
    where
      counted : (b k : Bool) → active b (count_one k c) ≡ active b c + (if same b k then 1 else 0)
      counted true true = ground arith
      counted true false = ground arith
      counted false true = ground arith
      counted false false = ground arith

      within :
          (b k : Bool)
          → is_positive (limit b d.config) ≡ true
          → active b c ≤ to_ℕ (limit b d.config)
          → is_full (limit k d.config) (active k c) ≡ false
          → active b (count_one k c) ≤ to_ℕ (limit b d.config)
      within true true q h n =
          omega (arith, to_ℕ-at_most (limit true d.config) (active true c) q (ground arith))
      within true false q h n = h
      within false true q h n = h
      within false false q h n =
          omega (arith, to_ℕ-at_most (limit false d.config) (active false c) q (ground arith))

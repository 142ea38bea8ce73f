-- ===== src/Daemon/Steady/Steps.antt =====
-- internal/daemon: the steps of the operations that do not touch the saved session.
use torrcli.Base.{
  ◌≡◌, ◌<◌, ◌⊎◌, inl, inr, refl, some, arith, dec_str, lookup, present, present_of_some,
  lookup_of_present, Exec, Result, ok, err,
}
use torrcli.Base.Outcome.Triple.{Triple, Keeps, Post}
use torrcli.Model.{Session, TorrentId, TorrentSnapshot}
use torrcli.State.Files.{Codec}
use torrcli.Engine.{Context, request, detached}
use torrcli.Torrents
use torrcli.Torrents.{SessionState}
use torrcli.Torrents.Loop.{Delivery, delivered, dropped, abandoned, run}
use torrcli.Torrents.Order.{put-IsOrdered}
use torrcli.Torrents.Commands.{put-IsKeyed}
use torrcli.Daemon.{
  Daemon, next_delivery, call_engine, get_torrent, put_torrent, unschedule, run_torrents,
}
use torrcli.Daemon.Steady.Saving.{IsSteady}

run-get :
    (v : Delivery) (id : TorrentId) (s : SessionState)
    → ((run v (Torrents.get id) s).0 ≡ s)
      × ((t : TorrentSnapshot)
          → (run v (Torrents.get id) s).1 ≡ ok t
          → lookup dec_str id s.torrents ≡ some t)
unfolding run Torrents.get
run-get delivered id s = (ground arith, λ t e. ground arith)
run-get dropped id s = (refl, λ t e. ground arith)
run-get abandoned id s = (ground arith, λ t e. ground arith)

-- A command that is delivered in some way has been applied or not.
pub run_cases :
    {A : Type 0} (v : Delivery) (m : Exec SessionState A) (s : SessionState)
    → ((run v m s).0 ≡ s) ⊎ ((run v m s).0 ≡ (m s).0)
unfolding run
run_cases delivered m s = inr refl
run_cases dropped m s = inl refl
run_cases abandoned m s = inr refl

pub list_same :
    (v : Delivery) (z : TorrentSnapshot) (s : SessionState) → (run v (Torrents.list z) s).0 ≡ s
unfolding run Torrents.list
list_same delivered z s = refl
list_same dropped z s = refl
list_same abandoned z s = refl

-- A torrent that is shown already keeps its place.
pub put_there :
    (t : TorrentSnapshot) (s : SessionState)
    → 0 < present dec_str t.id s.torrents
    → (Torrents.put t s).0.order ≡ s.order
unfolding Torrents.put
put_there t s h = ground (arith, lookup_of_present dec_str t.id s.torrents h)

module _ {E T : Type 0} (codec : Codec Session T) where
  -- The daemon is steady and shows the torrent.
  pub record SteadyWith (id : TorrentId) (d : Daemon E T) : Type 0 where
    pub steady : IsSteady codec d
    pub there : 0 < present dec_str id d.torrents.torrents

  -- The same, with a snapshot of the torrent at hand.
  pub record Having (id : TorrentId) (t : TorrentSnapshot) (d : Daemon E T) : Type 0 where
    pub shown : SteadyWith id d
    pub own : t.id ≡ id

  -- Two daemons that differ in their engine and schedule at most, and in what is still to come of
  -- deliveries.
  pub record SameData (d d' : Daemon E T) : Type 0 where
    pub session : d'.session ≡ d.session
    pub torrents : d'.torrents ≡ d.torrents
    pub files : d'.files ≡ d.files
    pub attempts : d'.attempts ≡ d.attempts

  pub SameData-IsSteady : {d d' : Daemon E T} → SameData d d' → IsSteady codec d → IsSteady codec d'
  SameData-IsSteady s h = record {
    valid = rw s.session h.valid;
    saved = rw (s.session, s.files) h.saved;
    synced = rw (s.session, s.torrents) h.synced;
    ordered = rw s.torrents h.ordered;
    keyed = rw s.torrents h.keyed;
    calm = rw s.attempts h.calm;
  }

  pub SameData-SteadyWith :
      (id : TorrentId) {d d' : Daemon E T} → SameData d d' → SteadyWith id d → SteadyWith id d'
  SameData-SteadyWith id s h = record {
    steady = SameData-IsSteady s h.steady;
    there = rw s.torrents h.there;
  }

  pub SameData-Having :
      (id : TorrentId) (t : TorrentSnapshot) {d d' : Daemon E T}
      → SameData d d'
      → Having id t d
      → Having id t d'
  SameData-Having id t s h = record { shown = SameData-SteadyWith id s h.shown; own = h.own }

  -- A state property that looks at nothing else.
  pub record IsDataOnly (P : Daemon E T → Type 0) : Type 0 where
    pub moved : {d d' : Daemon E T} → SameData d d' → P d → P d'

  pub Post-same :
      {A : Type 0} (P : Daemon E T → Type 0) (d : Daemon E T) (r : Result A)
      → P d
      → Post (λ a s. P s) P d r
  Post-same P d (ok a) h = h
  Post-same P d (err e) h = h

  pub Keeps-engine :
      {A : Type 0} (P : Daemon E T → Type 0) (m : Exec E A) → IsDataOnly P → Keeps P (call_engine m)
  unfolding call_engine
  Keeps-engine P m k = record {
    at = λ d h.
        Post-same P (call_engine m d).0 (call_engine m d).1
          (k.moved (record { session = refl; torrents = refl; files = refl; attempts = refl }) h);
  }

  pub Keeps-unschedule :
      (P : Daemon E T → Type 0) (id : TorrentId) → IsDataOnly P → Keeps P (unschedule id)
  unfolding unschedule
  Keeps-unschedule P id k = record {
    at = λ d h.
        k.moved (record { session = refl; torrents = refl; files = refl; attempts = refl }) h;
  }

  get_found :
      (id : TorrentId) (d : Daemon E T) (r : Result TorrentSnapshot)
      → IsSteady codec d
      → ((t : TorrentSnapshot) → r ≡ ok t → lookup dec_str id d.torrents.torrents ≡ some t)
      → Post (λ t s. Having id t s) (IsSteady codec) d r
  get_found id d (err e) h k = h
  get_found id d (ok t) h k =
      let e = k t refl in
      record {
        shown = record {
          steady = h;
          there = rw (present_of_some dec_str id d.torrents.torrents e) (omega arith);
        };
        own = h.keyed id t e;
      }

  Post-get :
      (id : TorrentId) (d d' : Daemon E T) (r : Result TorrentSnapshot)
      → IsSteady codec d
      → SameData d d'
      → ((t : TorrentSnapshot) → r ≡ ok t → lookup dec_str id d.torrents.torrents ≡ some t)
      → Post (λ t s. Having id t s) (IsSteady codec) d' r
  Post-get id d d' r h s k =
      get_found id d' r (SameData-IsSteady s h) (λ t e. rw s.torrents (k t e))

  pub triple_get :
      (c : Context) (id : TorrentId)
      → Triple (IsSteady codec) (get_torrent c id) (λ t s. Having id t s) (IsSteady codec)
  unfolding get_torrent run_torrents
  triple_get request id = record {
    at = λ d h.
        let found = run-get (next_delivery d.deliveries) id d.torrents in
        Post-get id d (get_torrent request id d).0 (get_torrent request id d).1 h
          (record { session = refl; torrents = found.0; files = refl; attempts = refl }) found.1;
  }
  triple_get detached id = record {
    at = λ d h.
        let found = run-get delivered id d.torrents in
        Post-get id d (get_torrent detached id d).0 (get_torrent detached id d).1 h
          (record { session = refl; torrents = found.0; files = refl; attempts = refl }) found.1;
  }

  -- A steady daemon whose torrents are the same but for one that was there already.
  pub put-IsSteady :
      (t : TorrentSnapshot) (d d' : Daemon E T)
      → IsSteady codec d
      → 0 < present dec_str t.id d.torrents.torrents
      → d'.session ≡ d.session
      → d'.files ≡ d.files
      → d'.attempts ≡ d.attempts
      → (d'.torrents ≡ d.torrents) ⊎ (d'.torrents ≡ (Torrents.put t d.torrents).0)
      → IsSteady codec d'
  put-IsSteady t d d' h p es ef ea (inl e) =
      SameData-IsSteady (record { session = es; torrents = e; files = ef; attempts = ea }) h
  put-IsSteady t d d' h p es ef ea (inr e) = record {
    valid = rw es h.valid;
    saved = rw (es, ef) h.saved;
    synced = rw (es, e, put_there t d.torrents p) h.synced;
    ordered = rw e (put-IsOrdered t d.torrents h.ordered);
    keyed = rw e (put-IsKeyed t d.torrents h.keyed);
    calm = rw ea h.calm;
  }

  pub triple_put :
      (c : Context) (id : TorrentId) (t : TorrentSnapshot) {R : Daemon E T → Type 0}
      → t.id ≡ id
      → Triple (SteadyWith id) (put_torrent c t) (λ u s. IsSteady codec s) R
  unfolding put_torrent run_torrents
  triple_put request id t own = record {
    at = λ d h.
        put-IsSteady t d (put_torrent request t d).0 h.steady (rw own h.there) refl refl refl
          (run_cases (next_delivery d.deliveries) (Torrents.put t) d.torrents);
  }
  triple_put detached id t own = record {
    at = λ d h.
        put-IsSteady t d (put_torrent detached t d).0 h.steady (rw own h.there) refl refl refl
          (inr refl);
  }

  pub Keeps-list :
      (z : TorrentSnapshot)
      → Keeps (IsSteady codec) (run_torrents {E = E} {T = T} request (Torrents.list z))
  unfolding run_torrents
  Keeps-list z = record {
    at = λ d h.
        let v = next_delivery d.deliveries in
        Post-same (IsSteady codec) (run_torrents {E = E} {T = T} request (Torrents.list z) d).0
          (run_torrents {E = E} {T = T} request (Torrents.list z) d).1
          (SameData-IsSteady
            (record {
              session = refl;
              torrents = list_same v z d.torrents;
              files = refl;
              attempts = refl;
            })
            h);
  }

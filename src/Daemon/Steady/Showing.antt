-- ===== src/Daemon/Steady/Showing.antt =====
-- What the daemon shows, while the scheduler goes over it.
use torrcli.Base.{
  ◌≡◌, ◌<◌, ◌⊎◌, inl, inr, refl, subst, List, [], ◌∷◌, arith, dec_str, present, present-put,
  put as put_entry, lookup_of_present, count, hit_self, Result, Error, ok, err,
}
use torrcli.Base.Outcome.Triple.{Keeps}
use torrcli.Model.{Session, TorrentId, TorrentSnapshot}
use torrcli.State.Files.{Codec}
use torrcli.Engine.{request}
use torrcli.Torrents
use torrcli.Torrents.{SessionState, list_from}
use torrcli.Torrents.Order.{IsOrdered}
use torrcli.Torrents.View.{IsKeyed}
use torrcli.Torrents.Loop.{Delivery, delivered, dropped, abandoned, run}
use torrcli.Daemon.{Daemon, next_delivery, put_torrent, run_torrents}
use torrcli.Daemon.Steady.Saving.{IsSteady}
use torrcli.Daemon.Steady.Steps.{SameData-IsSteady, IsDataOnly, put-IsSteady, run_cases}

pub Result-cases :
    {A : Type 0} (r : Result A) → ((a : A) × (r ≡ ok a)) ⊎ ((e : Error) × (r ≡ err e))
Result-cases (ok a) = inl (a, refl)
Result-cases (err e) = inr (e, refl)

present-put_old :
    (j k : TorrentId) (t : TorrentSnapshot) (m : List (TorrentId × TorrentSnapshot))
    → 0 < present dec_str j m
    → 0 < present dec_str j (put_entry dec_str k t m)
present-put_old j k t m h = ground (arith, present-put dec_str j k t m)

-- The torrents of a list are shown.
abbrev pub AllShown : SessionState → List TorrentSnapshot → Type 0
AllShown s [] = Unit {0}
AllShown s (t ∷ ts) = (0 < present dec_str t.id s.torrents) × AllShown s ts

list_from-AllShown :
    (z : TorrentSnapshot) (s : SessionState) (ids : List TorrentId)
    → IsKeyed s.torrents
    → ((id : TorrentId) → 0 < count dec_str id ids → 0 < present dec_str id s.torrents)
    → AllShown s (list_from z s.torrents ids)
unfolding list_from
list_from-AllShown z s [] k h = tt
list_from-AllShown z s (id ∷ ids) k h =
    let (t, e) =
      lookup_of_present dec_str id s.torrents (h id (omega (arith, hit_self dec_str id))) in
    rw (e, list_from)
      (
        rw (k id t e) (h id (omega (arith, hit_self dec_str id))),
        list_from-AllShown z s ids k (λ j p. h j (omega arith)),
      )

pub run-AllShown :
    (v : Delivery) (z : TorrentSnapshot) (s : SessionState) (ts : List TorrentSnapshot)
    → IsOrdered s
    → IsKeyed s.torrents
    → (run v (Torrents.list z) s).1 ≡ ok ts
    → AllShown s ts
unfolding run Torrents.list
run-AllShown delivered z s ts o k e =
    let f : list_from z s.torrents s.order ≡ ts = ground arith in
    subst (AllShown s) f (list_from-AllShown z s s.order k (λ id p. omega (arith, o id)))
run-AllShown dropped z s ts o k e = absurd (ground arith)
run-AllShown abandoned z s ts o k e = absurd (ground arith)

module _ {E T : Type 0} (codec : Codec Session T) where
  -- The daemon is steady and shows what was shown before.
  pub record Showing (s : SessionState) (d : Daemon E T) : Type 0 where
    pub steady : IsSteady codec d
    pub kept :
        (id : TorrentId)
        → 0 < present dec_str id s.torrents
        → 0 < present dec_str id d.torrents.torrents

  pub Showing-IsDataOnly : (s : SessionState) → IsDataOnly {E = E} codec (Showing s)
  Showing-IsDataOnly s = record {
    moved = λ same h. record {
      steady = SameData-IsSteady codec same h.steady;
      kept = λ id p. rw same.torrents (h.kept id p);
    };
  }

  put_kept :
      (t : TorrentSnapshot) (s : SessionState) (d d' : Daemon E T)
      → ((id : TorrentId)
          → 0 < present dec_str id s.torrents
          → 0 < present dec_str id d.torrents.torrents)
      → (d'.torrents ≡ d.torrents) ⊎ (d'.torrents ≡ (Torrents.put t d.torrents).0)
      → (id : TorrentId) → 0 < present dec_str id s.torrents
      → 0 < present dec_str id d'.torrents.torrents
  unfolding Torrents.put
  put_kept t s d d' k (inl e) id p = rw e (k id p)
  put_kept t s d d' k (inr e) id p = rw e (present-put_old id t.id t d.torrents.torrents (k id p))

  pub Keeps-put :
      (s : SessionState) (t : TorrentSnapshot)
      → 0 < present dec_str t.id s.torrents
      → Keeps (Showing s) (put_torrent request t)
  unfolding put_torrent run_torrents
  Keeps-put s t p = record {
    at = λ d h.
        let c = run_cases (next_delivery d.deliveries) (Torrents.put t) d.torrents in
        record {
          steady =
              put-IsSteady codec t d (put_torrent request t d).0 h.steady (h.kept t.id p) refl refl
                refl c;
          kept = put_kept t s d (put_torrent request t d).0 h.kept c;
        };
  }

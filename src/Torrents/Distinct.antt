-- ===== src/Torrents/Distinct.antt =====
-- internal/daemon/session.go: the torrents of the list that the daemon shows, each there once.
use torrcli.Base.{
  ◌≤◌, ◌<◌, ◌≡◌, ◌≢◌, ◌⊎◌, inl, inr, refl, sym, ◌∙◌, subst, arith, List, [], ◌∷◌, dec_str,
  lookup_of_present, present, count, hit_self, ok, err, Error, canceled,
}
use torrcli.Model.{TorrentId, TorrentSnapshot, zero_snapshot}
use torrcli.Torrents
use torrcli.Torrents.{SessionState, list_from}
use torrcli.Torrents.View.{IsKeyed, view}
use torrcli.Torrents.Loop.{Delivery, delivered, dropped, abandoned, run}

-- No torrent of the list has the ID; no two torrents have the same.
abbrev pub IsAbsent : TorrentId → List TorrentSnapshot → Type 0
IsAbsent id [] = Unit {0}
IsAbsent id (t ∷ ts) = (t.id ≢ id) × IsAbsent id ts

abbrev pub IsDistinct : List TorrentSnapshot → Type 0
IsDistinct [] = Unit {0}
IsDistinct (t ∷ ts) = IsAbsent t.id ts × IsDistinct ts

-- The snapshots that the daemon lists are of different torrents.
list_from-IsAbsent :
    (j : TorrentId) (m : List (TorrentId × TorrentSnapshot)) (ids : List TorrentId)
    → IsKeyed m
    → ((id : TorrentId) → 0 < count dec_str id ids → 0 < present dec_str id m)
    → count dec_str j ids ≡ 0
    → IsAbsent j (list_from zero_snapshot m ids)
unfolding list_from
list_from-IsAbsent j m [] k h z = tt
list_from-IsAbsent j m (id ∷ ids) k h z =
    let (t, e) = lookup_of_present dec_str id m (h id (omega (arith, hit_self dec_str id))) in
    let other : id ≢ j = λ f. ground arith in
    rw (e, list_from)
      (
        λ f. other (sym (k id t e) ∙ f),
        list_from-IsAbsent j m ids k (λ i p. h i (omega arith)) (omega arith),
      )

pub list_from-IsDistinct :
    (m : List (TorrentId × TorrentSnapshot)) (ids : List TorrentId)
    → IsKeyed m
    → ((id : TorrentId) → 0 < count dec_str id ids → 0 < present dec_str id m)
    → ((id : TorrentId) → count dec_str id ids ≤ 1)
    → IsDistinct (list_from zero_snapshot m ids)
unfolding list_from
list_from-IsDistinct m [] k h l = tt
list_from-IsDistinct m (id ∷ ids) k h l =
    let (t, e) = lookup_of_present dec_str id m (h id (omega (arith, hit_self dec_str id))) in
    rw (e, list_from)
      (
        subst (λ x. IsAbsent x (list_from zero_snapshot m ids)) (sym (k id t e))
            (list_from-IsAbsent id m ids k (λ i p. h i (omega arith))
              (omega (arith, l id, hit_self dec_str id))),
        list_from-IsDistinct m ids k (λ i p. h i (omega arith)) (λ i. omega (arith, l i)),
      )

-- What a run of the command that lists the torrents gives, if it gives anything.
pub run_listed :
    (v : Delivery) (s : SessionState)
    → ((run v (Torrents.list zero_snapshot) s) ≡ (s, ok (view zero_snapshot s)))
      ⊎ ((x : Error) × ((run v (Torrents.list zero_snapshot) s).1 ≡ err x))
unfolding run Torrents.list
run_listed delivered s = inl refl
run_listed dropped s = inr (canceled, refl)
run_listed abandoned s = inr (canceled, refl)

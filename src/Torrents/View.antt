-- ===== src/Torrents/View.antt =====
-- internal/daemon/session.go: the list of snapshots, one for each id, that the map and the order of
-- the session state stand for.
use torrcli.Base.{
  ◌≤◌, ◌<◌, ◌≡◌, ◌≢◌, refl, some, List, [], ◌∷◌, ◌++◌, inl, inr, ite, arith, dec_str, count, erase,
  hit_self, hit_ne, lookup, put as put_entry, remove as delete, lookup-put, lookup-remove, present,
  present_of_none, present_of_some, lookup_of_present, Option-cases, ok,
}
use torrcli.Model.{TorrentId, TorrentSnapshot}
use torrcli.Torrents.{SessionState, put, list_from, remove}
use torrcli.Torrents.Order.{IsOrdered}

-- A torrent replaces the one of its id, or goes to the end.
unfoldable pub upsert : TorrentSnapshot → List TorrentSnapshot → List TorrentSnapshot
upsert t [] = t ∷ []
upsert t (u ∷ us) = ite (dec_str u.id t.id) (t ∷ us) (u ∷ upsert t us)

unfoldable pub without : TorrentId → List TorrentSnapshot → List TorrentSnapshot
without id [] = []
without id (u ∷ us) = ite (dec_str u.id id) us (u ∷ without id us)

-- Each snapshot is kept under its own id.
abbrev pub IsKeyed : List (TorrentId × TorrentSnapshot) → Type 0
IsKeyed m = (id : TorrentId) (t : TorrentSnapshot) → lookup dec_str id m ≡ some t → t.id ≡ id

module _ (zero_value : TorrentSnapshot) where
  abbrev pub view : SessionState → List TorrentSnapshot
  view s = list_from zero_value s.torrents s.order

  list_from-put_absent :
      (t : TorrentSnapshot) (m : List (TorrentId × TorrentSnapshot)) (ids : List TorrentId)
      → count dec_str t.id ids ≡ 0
      → list_from zero_value (put_entry dec_str t.id t m) ids ≡ list_from zero_value m ids
  unfolding list_from
  list_from-put_absent t m [] h = refl
  list_from-put_absent t m (id ∷ ids) h = elim (dec_str id t.id) [
    | yes p ↦ absurd (ground arith)
    | no p ↦ ground (arith, list_from-put_absent t m ids, lookup-put dec_str id t.id t m)
  ]

  list_from-put_new :
      (t : TorrentSnapshot) (m : List (TorrentId × TorrentSnapshot)) (ids : List TorrentId)
      → list_from zero_value (put_entry dec_str t.id t m) (ids ++ t.id ∷ [])
        ≡ list_from zero_value (put_entry dec_str t.id t m) ids ++ t ∷ []
  unfolding list_from
  list_from-put_new t m [] = ground (arith, lookup-put dec_str t.id t.id t m)
  list_from-put_new t m (id ∷ ids) = ground (arith, list_from-put_new t m ids)

  -- The snapshots of the ids in the order, when each has one.
  abbrev Listed : List (TorrentId × TorrentSnapshot) → List TorrentId → Type 0
  Listed m ids = (k : TorrentId) → 0 < count dec_str k ids → 0 < present dec_str k m

  upsert_absent :
      (t : TorrentSnapshot) (m : List (TorrentId × TorrentSnapshot)) (ids : List TorrentId)
      → IsKeyed m
      → Listed m ids
      → count dec_str t.id ids ≡ 0
      → upsert t (list_from zero_value m ids) ≡ list_from zero_value m ids ++ t ∷ []
  unfolding upsert list_from
  upsert_absent t m [] k l h = refl
  upsert_absent t m (id ∷ ids) k l h =
      let (u, e) = lookup_of_present dec_str id m (l id (omega (arith, hit_self dec_str id))) in
      let rest = upsert_absent t m ids k (λ j n. l j (omega arith)) (omega arith) in
      let other : u.id ≢ t.id = λ p. ground (arith, k id u e) in ground (arith, rest, e)

  upsert_present :
      (t : TorrentSnapshot) (m : List (TorrentId × TorrentSnapshot)) (ids : List TorrentId)
      → IsKeyed m
      → Listed m ids
      → count dec_str t.id ids ≡ 1
      → list_from zero_value (put_entry dec_str t.id t m) ids
        ≡ upsert t (list_from zero_value m ids)
  unfolding upsert list_from
  upsert_present t m [] k l h = absurd (omega arith)
  upsert_present t m (id ∷ ids) k l h =
      let (u, e) = lookup_of_present dec_str id m (l id (omega (arith, hit_self dec_str id))) in
      elim (dec_str id t.id) [
        | yes p ↦
            ground (arith, list_from-put_absent t m ids, lookup-put dec_str id t.id t m, k id u e)
        | no p ↦
            let rest =
              upsert_present t m ids k (λ j n. l j (omega arith))
                (omega (arith, hit_ne dec_str id t.id p)) in
            ground (arith, rest, lookup-put dec_str id t.id t m, k id u e)
      ]

  -- Putting a torrent into the session state puts it into the list, if order and map agree and each
  -- snapshot is kept under its ID.
  pub view-put :
      (t : TorrentSnapshot) (s : SessionState)
      → IsOrdered s
      → IsKeyed s.torrents
      → view (put t s).0 ≡ upsert t (view s)
  unfolding put
  view-put t s o k = elim (Option-cases (lookup dec_str t.id s.torrents)) [
    | inl e ↦
        let z : count dec_str t.id s.order ≡ 0 =
          omega (arith, o t.id, present_of_none dec_str t.id s.torrents e) in
        rw (e, put)
          (ground (
            arith,
            list_from-put_new t s.torrents s.order,
            list_from-put_absent t s.torrents s.order z,
            upsert_absent t s.torrents s.order k (λ j n. omega (arith, o j)) z,
          ))
    | inr (u, e) ↦
        rw (e, put)
          (upsert_present t s.torrents s.order k (λ j n. omega (arith, o j))
            (omega (arith, o t.id, present_of_some dec_str t.id s.torrents e)))
  ]

  list_from-delete_absent :
      (id : TorrentId) (m : List (TorrentId × TorrentSnapshot)) (ids : List TorrentId)
      → count dec_str id ids ≡ 0
      → list_from zero_value (delete dec_str id m) ids ≡ list_from zero_value m ids
  unfolding list_from
  list_from-delete_absent id m [] h = refl
  list_from-delete_absent id m (j ∷ ids) h = elim (dec_str j id) [
    | yes p ↦ absurd (ground arith)
    | no p ↦ ground (arith, list_from-delete_absent id m ids, lookup-remove dec_str j id m)
  ]

  list_from-delete :
      (id : TorrentId) (m : List (TorrentId × TorrentSnapshot)) (ids : List TorrentId)
      → IsKeyed m
      → Listed m ids
      → count dec_str id ids ≤ 1
      → list_from zero_value (delete dec_str id m) (erase dec_str id ids)
        ≡ without id (list_from zero_value m ids)
  unfolding without list_from erase
  list_from-delete id m [] k l h = refl
  list_from-delete id m (j ∷ ids) k l h =
      let (u, e) = lookup_of_present dec_str j m (l j (omega (arith, hit_self dec_str j))) in
      elim (dec_str j id) [
        | yes p ↦ ground (arith, list_from-delete_absent id m ids, k j u e)
        | no p ↦
            let rest = list_from-delete id m ids k (λ i n. l i (omega arith)) (omega arith) in
            ground (arith, rest, lookup-remove dec_str j id m, k j u e)
      ]

  -- Removing a torrent from the session state, with success, removes it from the list, if order and
  -- map agree and each snapshot is kept under its ID.
  pub view-remove :
      (id : TorrentId) (s : SessionState)
      → IsOrdered s
      → IsKeyed s.torrents
      → (remove id s).1 ≡ ok tt
      → view (remove id s).0 ≡ without id (view s)
  unfolding remove
  view-remove id s o k h = elim (Option-cases (lookup dec_str id s.torrents)) [
    | inl e ↦ absurd (ground arith)
    | inr (u, e) ↦
        rw (e, remove)
          (list_from-delete id s.torrents s.order k (λ j n. omega (arith, o j))
            (omega (arith, o id, present_of_some dec_str id s.torrents e)))
  ]

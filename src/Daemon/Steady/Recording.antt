-- ===== src/Daemon/Steady/Recording.antt =====
-- The order of the saved session and the one that is shown, while a torrent is added.
use torrcli.Base.{
  ◌≡◌, inl, inr, refl, sym, ap, ◌∙◌, none, some, [], ◌∷◌, ◌++◌, arith, dec_str, lookup, present,
  present_of_some, present_of_none, count, Option-cases,
}
use torrcli.Model.{Session, TorrentId, TorrentRecord, TorrentSnapshot}
use torrcli.State.Files.{Codec}
use torrcli.State.Validate.{validate_session, check_order}
use torrcli.State.Validate.Sound.{check_order-IsValid}
use torrcli.Rpc.{AddTorrentParams}
use torrcli.Torrents
use torrcli.Torrents.{SessionState}
use torrcli.Daemon.{Daemon, items, clone_session}
use torrcli.Daemon.Add.{with_recorded}
use torrcli.Daemon.Steady.Sessions.{clone_items}
use torrcli.Daemon.Steady.Saving.{IsSteady}

-- The torrents of a valid session's order are those that have a record.
pub session_agrees :
    (s : Session) (id : TorrentId)
    → validate_session s ≡ none
    → count dec_str id (items s.order) ≡ present dec_str id (items s.torrents)
unfolding validate_session
session_agrees s id v = elim (Option-cases s.order) [
  | inl o ↦ absurd (ground arith)
  | inr (order, o) ↦ elim (Option-cases s.torrents) [
    | inl t ↦ absurd (ground arith)
    | inr (m, t) ↦
        let c : check_order [] m order ≡ none = ground arith in
        rw (o, t) ((check_order-IsValid m order c).agrees id)
  ]
]

clone_lookup :
    (s : Session) (id : TorrentId)
    → lookup dec_str id (items (clone_session s).torrents) ≡ lookup dec_str id (items s.torrents)
unfolding clone_session
clone_lookup s id = refl

recorded_new :
    (id : TorrentId) (p : AddTorrentParams) (t : TorrentSnapshot) (s : Session)
    → lookup dec_str id (items s.torrents) ≡ none
    → items (with_recorded id p t s).order ≡ items s.order ++ id ∷ []
unfolding with_recorded
recorded_new id p t s e = rw (e, with_recorded)

recorded_old :
    (id : TorrentId) (p : AddTorrentParams) (t : TorrentSnapshot) (s : Session) {r : TorrentRecord}
    → lookup dec_str id (items s.torrents) ≡ some r
    → items (with_recorded id p t s).order ≡ items s.order
unfolding with_recorded
recorded_old id p t s e = rw (e, with_recorded)

pub put_order_new :
    (t : TorrentSnapshot) (s : SessionState)
    → lookup dec_str t.id s.torrents ≡ none
    → (Torrents.put t s).0.order ≡ s.order ++ t.id ∷ []
unfolding Torrents.put
put_order_new t s e = rw (e, Torrents.put)

put_order_old :
    (t : TorrentSnapshot) (s : SessionState) {u : TorrentSnapshot}
    → lookup dec_str t.id s.torrents ≡ some u
    → (Torrents.put t s).0.order ≡ s.order
unfolding Torrents.put
put_order_old t s e = rw (e, Torrents.put)

module _ {E T : Type 0} (codec : Codec Session T) where
  -- The session's order and the one that is shown grow alike.
  pub recorded_order :
      (id : TorrentId) (p : AddTorrentParams) (t : TorrentSnapshot) (d : Daemon E T)
      → IsSteady codec d
      → t.id ≡ id
      → items (with_recorded id p t (clone_session d.session)).order
        ≡ (Torrents.put t d.torrents).0.order
  recorded_order id p t d h own =
      let agrees : present dec_str id (items d.session.torrents)
          ≡ present dec_str id d.torrents.torrents =
        omega (
          arith,
          session_agrees d.session id h.valid,
          h.ordered id,
          ap (count dec_str id) h.synced,
        ) in
      let c = clone_lookup d.session id in
      elim (Option-cases (lookup dec_str id (items d.session.torrents))) [
        | inl e ↦ elim (Option-cases (lookup dec_str t.id d.torrents.torrents)) [
          | inl f ↦
              recorded_new id p t (clone_session d.session) (c ∙ e)
              ∙ ap (λ l. l ++ id ∷ []) (clone_items d.session ∙ h.synced)
              ∙ ap (λ i. d.torrents.order ++ i ∷ []) (sym own)
              ∙ sym (put_order_new t d.torrents f)
          | inr (u, f) ↦ absurd (
              omega (
                arith,
                agrees,
                ap (λ i. present dec_str i d.torrents.torrents) own,
                present_of_none dec_str id (items d.session.torrents) e,
                present_of_some dec_str t.id d.torrents.torrents f,
              ))
        ]
        | inr (r, e) ↦ elim (Option-cases (lookup dec_str t.id d.torrents.torrents)) [
          | inl f ↦ absurd (
              omega (
                arith,
                agrees,
                ap (λ i. present dec_str i d.torrents.torrents) own,
                present_of_some dec_str id (items d.session.torrents) e,
                present_of_none dec_str t.id d.torrents.torrents f,
              ))
          | inr (u, f) ↦
              recorded_old id p t (clone_session d.session) (c ∙ e)
              ∙ clone_items d.session
              ∙ h.synced
              ∙ sym (put_order_old t d.torrents f)
        ]
      ]

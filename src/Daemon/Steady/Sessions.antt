-- ===== src/Daemon/Steady/Sessions.antt =====
-- Clones and changed records of a valid session.
use torrcli.Base.{
  ◌≡◌, ◌⊎◌, inl, inr, refl, none, some, List, [], ◌∷◌, dec_str, length, lookup, put, lookup-put,
  ◌<◌, count, present_of_some, arith, Option-cases,
}
use torrcli.Model.{Session, TorrentId, TorrentRecord}
use torrcli.Model.States
use torrcli.State.Validate.{check_record, check_entry, check_order, validate_session}
use torrcli.State.Validate.Sound.{check_order-IsValid}
use torrcli.Daemon.{items, copied, clone_session}
use torrcli.Daemon.Records.{
  Update, desired_state, sequential, file_priority, apply_update, shared_update, with_record,
}

-- The fields that validateSession looks at.
record SameChecked (r r' : TorrentRecord) : Type 0 where
  source : r'.source ≡ r.source
  save_path : r'.save_path ≡ r.save_path
  desired :
      (r'.desired_state ≡ r.desired_state)
      ⊎ (r'.desired_state ≡ States.downloading)
      ⊎ (r'.desired_state ≡ States.paused)

length-put_old :
    (id : TorrentId) (r r' : TorrentRecord) (m : List (TorrentId × TorrentRecord))
    → lookup dec_str id m ≡ some r
    → length (put dec_str id r' m) ≡ length m
unfolding lookup put
length-put_old id r r' [] h = ground arith
length-put_old id r r' ((j, v) ∷ m) h = ground (arith, length-put_old id r r' m)

check_record_same :
    (id : TorrentId) (r r' : TorrentRecord)
    → SameChecked r r'
    → check_record id r ≡ none
    → check_record id r' ≡ none
unfolding check_record
check_record_same id r r' s h = ground arith

check_entry-put :
    (seen : List (TorrentId × Unit {0})) (m : List (TorrentId × TorrentRecord)) (id k : TorrentId)
    (r r' : TorrentRecord)
    → lookup dec_str id m ≡ some r
    → SameChecked r r'
    → check_entry seen m k ≡ none
    → check_entry seen (put dec_str id r' m) k ≡ none
unfolding check_entry
check_entry-put seen m id k r r' e s h =
    ground (arith, lookup-put dec_str k id r' m, check_record_same k r r' s)

check_order-put :
    (seen : List (TorrentId × Unit {0})) (m : List (TorrentId × TorrentRecord))
    (ids : List TorrentId) (id : TorrentId) (r r' : TorrentRecord)
    → lookup dec_str id m ≡ some r
    → SameChecked r r'
    → check_order seen m ids ≡ none
    → check_order seen (put dec_str id r' m) ids ≡ none
unfolding check_order
check_order-put seen m [] id r r' e s h = ground (arith, length-put_old id r r' m e)
check_order-put seen m (k ∷ ids) id r r' e s h = ground (
  arith,
  check_entry-put seen m id k r r' e s,
  check_order-put (put dec_str k tt seen) m ids id r r' e s,
)

-- A valid session with one of its records changed where validateSession does not mind.
with_record-valid :
    (session : Session) (id : TorrentId) (r r' : TorrentRecord)
    → validate_session session ≡ none
    → lookup dec_str id (items session.torrents) ≡ some r
    → SameChecked r r'
    → validate_session (with_record id r' session) ≡ none
unfolding validate_session lookup
with_record-valid session id r r' v e s = elim (Option-cases session.order) [
  | inl o ↦ absurd (ground arith)
  | inr (order, o) ↦ elim (Option-cases session.torrents) [
    | inl t ↦ absurd (ground arith)
    | inr (m, t) ↦ ground (arith, check_order-put [] m order id r r')
  ]
]

-- A torrent that has a record stands in the order.
pub in_order :
    (session : Session) (id : TorrentId) (r : TorrentRecord)
    → validate_session session ≡ none
    → lookup dec_str id (items session.torrents) ≡ some r
    → 0 < count dec_str id (items session.order)
unfolding validate_session lookup
in_order session id r v e = elim (Option-cases session.order) [
  | inl o ↦ absurd (ground arith)
  | inr (order, o) ↦ elim (Option-cases session.torrents) [
    | inl t ↦ absurd (ground arith)
    | inr (m, t) ↦
        let c : check_order [] m order ≡ none = ground arith in
        let f : lookup dec_str id m ≡ some r = ground arith in
        let agrees = (check_order-IsValid m order c).agrees id in
        rw o (omega (arith, agrees, present_of_some dec_str id m f))
  ]
]

copied_same :
    (order : List TorrentId) (id : TorrentId)
    → 0 < count dec_str id order
    → copied order ≡ some order
copied_same [] id h = absurd (omega arith)
copied_same (x ∷ xs) id h = refl

items-copied : {A : Type 0} (l : List A) → items (copied l) ≡ l
items-copied [] = refl
items-copied (x ∷ xs) = refl

-- A clone names the same torrents, although its order may be nil where the session's is empty.
pub clone_items : (s : Session) → items (clone_session s).order ≡ items s.order
unfolding clone_session
clone_items s = items-copied (items s.order)

-- The clone of a valid session that has a torrent is that session.
pub clone-same :
    (session : Session) (id : TorrentId)
    → validate_session session ≡ none
    → 0 < count dec_str id (items session.order)
    → clone_session session ≡ session
unfolding validate_session clone_session
clone-same session id v h = elim (Option-cases session.order) [
  | inl o ↦ absurd (ground arith)
  | inr (order, o) ↦ elim (Option-cases session.torrents) [
    | inl t ↦ absurd (ground arith)
    | inr (m, t) ↦ ground (arith, copied_same order id)
  ]
]

-- The updates that the daemon makes: a desired state is one of the two that can be saved.
abbrev pub IsAllowed : Update → Type 0
IsAllowed (desired_state s) = (s ≡ States.downloading) ⊎ (s ≡ States.paused)
IsAllowed (sequential b) = Unit {0}
IsAllowed (file_priority key p) = Unit {0}

apply_update-SameChecked :
    (u : Update) (r : TorrentRecord) → IsAllowed u → SameChecked r (apply_update u r)
unfolding apply_update
apply_update-SameChecked (desired_state s) r a = record {
  source = refl;
  save_path = refl;
  desired = inr a;
}
apply_update-SameChecked (sequential b) r a = record {
  source = refl;
  save_path = refl;
  desired = inl refl;
}
apply_update-SameChecked (file_priority key p) r a = record {
  source = refl;
  save_path = refl;
  desired = inl refl;
}

pub update-valid :
    (session : Session) (id : TorrentId) (r : TorrentRecord) (u : Update)
    → validate_session session ≡ none
    → lookup dec_str id (items session.torrents) ≡ some r
    → IsAllowed u
    → validate_session (with_record id (apply_update u r) session) ≡ none
update-valid session id r u v e a =
    with_record-valid session id r (apply_update u r) v e (apply_update-SameChecked u r a)

shared_update-SameChecked : (u : Update) (r : TorrentRecord) → SameChecked r (shared_update u r)
unfolding shared_update
shared_update-SameChecked (desired_state s) r = record {
  source = refl;
  save_path = refl;
  desired = inl refl;
}
shared_update-SameChecked (sequential b) r = record {
  source = refl;
  save_path = refl;
  desired = inl refl;
}
shared_update-SameChecked (file_priority key p) r = ground arith

-- What a shared map takes on does not make the session invalid either.
pub shared_update-valid :
    (session : Session) (id : TorrentId) (r : TorrentRecord) (u : Update)
    → validate_session session ≡ none
    → lookup dec_str id (items session.torrents) ≡ some r
    → validate_session (with_record id (shared_update u r) session) ≡ none
shared_update-valid session id r u v e =
    with_record-valid session id r (shared_update u r) v e (shared_update-SameChecked u r)

-- ===== src/Anacrolix/Snapshots/Facts.antt =====
-- internal/engine/anacrolix/engine.go: what snapshot says of a torrent.
use native.Mathlib.Nat.{lt-div-mul-add, div-lt_iff_lt-mul}
use torrcli.Base.{
  ℕ, suc, ◌+◌, ◌-◌, ◌*◌, ◌/◌, ◌≤◌, ◌<◌, ◌≡◌, ◌≢◌, refl, arith, ℤ, pos, Bool, true, false, Option,
  none, some, leb, Option-cases, lookup, lookup-put_self, lookup-put_ne, inl, inr, ok, dec_str, ap,
  if_cases, subst, sym, Result,
}
use torrcli.Model.{TorrentId, TorrentState, TorrentSnapshot}
use torrcli.Model.States
use torrcli.Engine.{Context}
use torrcli.Anacrolix.Removal.{Info}
use torrcli.Anacrolix.Library.{Library}
use torrcli.Anacrolix.Entries.{State, Entry, check, boost_entry}
use torrcli.Anacrolix.Entries
use torrcli.Anacrolix.Snapshots.{
  rate, eta, state_of, sampled, snapshot, snapshot_locked, take_snapshot,
}

-- The ETA is the least number of seconds in which the rate brings in what remains.
pub IsEta : ℕ → ℕ → ℕ → Type 0
IsEta remaining rate seconds =
    (remaining ≤ seconds * rate) × ((k : ℕ) → remaining ≤ k * rate → seconds ≤ k)

eta-IsEta : (remaining n : ℕ) → IsEta remaining (suc n) (eta remaining (pos (suc n)))
unfolding eta IsEta
eta-IsEta remaining n =
    let above : remaining + n < (remaining + n) / suc n * suc n + suc n =
      lt-div-mul-add (omega arith) in
    (
      omega arith,
      λ k h.
          let below : (remaining + n) / suc n < suc k =
            (div-lt_iff_lt-mul (omega arith)).1 (grind arith) in
          omega arith,
    )

-- The states that snapshot tells apart.
pub data Told (paused : Bool) (info : Option Info) (completed length : ℕ)
    : TorrentState → Type 0 where
  told_paused : paused ≡ true → Told paused info completed length States.paused
  told_fetching :
      paused ≡ false → info ≡ none → Told paused info completed length States.fetching_metadata
  told_seeding :
      (i : Info)
      → paused ≡ false
      → info ≡ some i
      → length ≤ completed
      → Told paused info completed length States.seeding
  told_downloading :
      (i : Info)
      → paused ≡ false
      → info ≡ some i
      → completed < length
      → Told paused info completed length States.downloading

state_of-Told :
    (paused : Bool) (info : Option Info) (completed length : ℕ)
    → Told paused info completed length (state_of paused info completed length)
unfolding state_of
state_of-Told true info completed length = told_paused refl
state_of-Told false none completed length = told_fetching refl refl
state_of-Told false (some i) completed length =
    if_cases (Told false (some i) completed length) (leb length completed)
      (λ h. told_seeding i refl refl (ground arith))
      (λ h. told_downloading i refl refl (ground arith))

module _ {L H S M F : Type 0} (library : Library L H S M F) where
  -- A snapshot that is true of an entry, with the library as it is.
  pub record IsTrue (id : TorrentId) (e : Entry H S F) (l : L) (t : TorrentSnapshot) : Type 0 where
    pub named : t.id ≡ id
    pub sequential : t.sequential ≡ e.sequential
    pub completed : t.progress.completed ≡ library.bytes_completed e.torrent l
    pub total : t.progress.total ≡ library.length e.torrent l
    pub state :
        Told e.paused (library.info e.torrent l) t.progress.completed t.progress.total t.state
    pub seconds :
        (n : ℕ)
        → t.download_rate ≡ pos (suc n)
        → (k : ℕ) × (t.eta_seconds ≡ pos k)
          × IsEta (t.progress.total - t.progress.completed) (suc n) k

  snapshot-IsTrue :
      (id : TorrentId) (e : Entry H S F) (down up : ℤ) (l : L)
      → IsTrue id e l (snapshot library id e down up l)
  unfolding snapshot
  snapshot-IsTrue id e down up l =
      let completed = library.bytes_completed e.torrent l in
      let length = library.length e.torrent l in
      record {
        named = refl;
        sequential = refl;
        completed = refl;
        total = refl;
        state = state_of-Told e.paused (library.info e.torrent l) completed length;
        seconds = λ n h. (
          eta (length - completed) (pos (suc n)),
          ap (λ d. pos (eta (length - completed) d)) h,
          eta-IsEta (length - completed) n,
        );
      }

  -- What taking a snapshot gives, and what it leaves behind.
  pub record Taken (id : TorrentId) (s s' : State L H S F) (t : TorrentSnapshot) : Type 0 where
    pub entry : Entry H S F
    pub stored : lookup dec_str id s'.torrents ≡ some entry
    pub true_of : IsTrue id entry s'.outside t
    pub others :
        (j : TorrentId) → id ≢ j → lookup dec_str j s'.torrents ≡ lookup dec_str j s.torrents

  snapshot_locked-Taken :
      (id : TorrentId) (e : Entry H S F) (s : State L H S F) (t : TorrentSnapshot)
      → (snapshot_locked library id e s).1 ≡ ok t
      → Taken id s (snapshot_locked library id e s).0 t
  unfolding snapshot_locked
  snapshot_locked-Taken id e s t h =
      let r = boost_entry library e s.outside in
      let changed = sampled library r.1 r.0 in
      let k : snapshot library id changed changed.last_download_rate changed.last_upload_rate r.0
          ≡ t =
        ground (arith, h) in
      record {
        entry = changed;
        stored = lookup-put_self dec_str id changed s.torrents;
        true_of =
            subst (λ u. IsTrue id changed r.0 u) k
              (snapshot-IsTrue id changed changed.last_download_rate changed.last_upload_rate r.0);
        others = λ j n. lookup-put_ne dec_str j id changed s.torrents n;
      }

  -- A snapshot that is given is of the torrent that was asked for and true of its entry as it is stored then:
  -- the state is paused for a paused torrent, and otherwise fetching metadata, seeding or downloading
  -- as the metadata are unknown, all bytes are there or some are missing; with a positive download
  -- rate, the ETA is the least number of seconds in which it brings in what is missing. The other
  -- entries stay.
  pub take_snapshot-Taken :
      (context : Context) (id : TorrentId) (s : State L H S F) (t : TorrentSnapshot)
      → (take_snapshot library context id s).1 ≡ ok t
      → Taken id s (take_snapshot library context id s).0 t
  unfolding take_snapshot check Entries.entry
  take_snapshot-Taken context id s t h =
      elim (Option-cases (library.context_error context s.outside)) [
        | inr (x, e) ↦ absurd (ground arith)
        | inl e ↦ elim (Option-cases (lookup dec_str id s.torrents)) [
          | inl f ↦ absurd (ground arith)
          | inr (found, f) ↦
              let same : take_snapshot library context id s ≡ snapshot_locked library id found s =
                ground arith in
              subst (λ (m : State L H S F × Result TorrentSnapshot). m.1 ≡ ok t → Taken id s m.0 t)
                (sym same) (snapshot_locked-Taken id found s t) h
        ]
      ]

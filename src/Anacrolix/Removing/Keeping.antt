-- ===== src/Anacrolix/Removing/Keeping.antt =====
-- internal/engine/anacrolix/engine.go: steps that leave the engine's entries alone.
use torrcli.Base.{
  ◌≡◌, refl, ◌∙◌, arith, some, dec_str, lookup, Exec, Result, ok, err, lift, continue, ◌>>=◌,
}
use torrcli.Model.{TorrentId}
use torrcli.Engine.{Context}
use torrcli.Anacrolix.Library.{Library}
use torrcli.Anacrolix.Entries.{State, Entry, called, entry, check}

-- What leaves the entries alone.
abbrev pub Leaves : {L H S F A : Type 0} → Exec (State L H S F) A → Type 0
Leaves {L} {H} {S} {F} m = (s : State L H S F) → (m s).0.torrents ≡ s.torrents

module _ {L H S F A : Type 0} where
  pub Leaves-called : (m : Exec L A) → Leaves (called {H = H} {S = S} {F = F} m)
  unfolding called
  Leaves-called m s = refl

  pub Leaves-lift : (r : Result A) → Leaves (lift {S = State L H S F} r)
  Leaves-lift r s = refl

module _ {L H S F A B : Type 0} where
  pub Leaves-continue :
      (s : State L H S F) (r : Result A) (k : A → Exec (State L H S F) B)
      → ((a : A) → Leaves (k a))
      → (continue s r k).0.torrents ≡ s.torrents
  Leaves-continue s (ok a) k h = h a s
  Leaves-continue s (err e) k h = refl

  pub Leaves-bind :
      (m : Exec (State L H S F) A) (k : A → Exec (State L H S F) B)
      → Leaves m
      → ((a : A) → Leaves (k a))
      → Leaves (m >>= k)
  Leaves-bind m k g h s = Leaves-continue (m s).0 (m s).1 k h ∙ g s

module _ {L H S F : Type 0} where
  pub Leaves-entry : (id : TorrentId) → Leaves (entry {L = L} {H = H} {S = S} {F = F} id)
  unfolding entry
  Leaves-entry id s = ground arith

  pub entry_found :
      (id : TorrentId) (s : State L H S F) (e : Entry H S F)
      → (entry id s).1 ≡ ok e
      → lookup dec_str id s.torrents ≡ some e
  unfolding entry
  entry_found id s e h = ground arith

module _ {L H S M F : Type 0} (library : Library L H S M F) where
  pub Leaves-check : (context : Context) → Leaves (check library context)
  unfolding check
  Leaves-check context s = ground arith

-- ===== src/Torrents/Commands.antt =====
-- internal/daemon/session.go: the commands that change the torrents shown, in any sequence.
use torrcli.Base.{
  ℤ, refl, List, [], ◌∷◌, arith, dec_str, lookup, lookup-put, lookup-remove, present, index_of,
  Exec, Option-cases, inl, inr,
}
use torrcli.Model.{TorrentId, TorrentSnapshot}
use torrcli.Torrents
use torrcli.Torrents.{SessionState, new_state}
use torrcli.Torrents.Order.{IsOrdered, put-IsOrdered, remove-IsOrdered, move-IsOrdered}
use torrcli.Torrents.View.{IsKeyed}

pub put-IsKeyed :
    (t : TorrentSnapshot) (s : SessionState)
    → IsKeyed s.torrents
    → IsKeyed (Torrents.put t s).0.torrents
unfolding Torrents.put
put-IsKeyed t s k id u e = ground (arith, k id u, lookup-put dec_str id t.id t s.torrents)

pub remove-IsKeyed :
    (id : TorrentId) (s : SessionState)
    → IsKeyed s.torrents
    → IsKeyed (Torrents.remove id s).0.torrents
unfolding Torrents.remove
remove-IsKeyed id s k j u e = ground (arith, k j u, lookup-remove dec_str j id s.torrents)

move-IsKeyed :
    (id : TorrentId) (offset : ℤ) (s : SessionState)
    → IsKeyed s.torrents
    → IsKeyed (Torrents.move id offset s).0.torrents
unfolding Torrents.move
move-IsKeyed id offset s k = elim (Option-cases (index_of dec_str id s.order)) [
  | inl e ↦ rw (e, Torrents.move) k
  | inr (i, e) ↦ rw (e, Torrents.move) k
]

pub data Command : Type 0 where
  putting : TorrentSnapshot → Command
  removing : TorrentId → Command
  moving : TorrentId → ℤ → Command

abbrev pub apply_command : Command → Exec SessionState (Unit {0})
apply_command (putting t) = Torrents.put t
apply_command (removing id) = Torrents.remove id
apply_command (moving id offset) = Torrents.move id offset

-- Commands that the goroutine applies one after the other, whether they succeed or fail.
abbrev pub after_commands : List Command → SessionState → SessionState
after_commands [] s = s
after_commands (c ∷ cs) s = after_commands cs (apply_command c s).0

-- Order and map name the same torrents, each once in the order, and each snapshot is kept under its
-- own ID.
pub record IsConsistent (s : SessionState) : Type 0 where
  pub ordered : IsOrdered s
  pub keyed : IsKeyed s.torrents

apply_command-IsConsistent :
    (c : Command) (s : SessionState) → IsConsistent s → IsConsistent (apply_command c s).0
apply_command-IsConsistent (putting t) s h = record {
  ordered = put-IsOrdered t s h.ordered;
  keyed = put-IsKeyed t s h.keyed;
}
apply_command-IsConsistent (removing id) s h = record {
  ordered = remove-IsOrdered id s h.ordered;
  keyed = remove-IsKeyed id s h.keyed;
}
apply_command-IsConsistent (moving id offset) s h = record {
  ordered = move-IsOrdered id offset s h.ordered;
  keyed = move-IsKeyed id offset s h.keyed;
}

commands-IsConsistent :
    (cs : List Command) (s : SessionState) → IsConsistent s → IsConsistent (after_commands cs s)
commands-IsConsistent [] s h = h
commands-IsConsistent (c ∷ cs) s h =
    commands-IsConsistent cs (apply_command c s).0 (apply_command-IsConsistent c s h)

new_state-IsConsistent : IsConsistent new_state
unfolding new_state lookup present
new_state-IsConsistent = record {
  ordered = λ id. refl;
  keyed = λ id t e. absurd (ground (arith, e));
}

-- Whatever commands the goroutine has applied since its start, order and map of its state name the same
-- torrents, each once in the order, and each snapshot is kept under its own ID.
pub after_commands-IsConsistent : (cs : List Command) → IsConsistent (after_commands cs new_state)
after_commands-IsConsistent cs = commands-IsConsistent cs new_state new_state-IsConsistent

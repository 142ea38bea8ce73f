-- ===== src/State/Validate/Complete.antt =====
-- internal/state/store.go: what validateSession does not refuse.
use torrcli.Base.{
  ◌+◌, ◌≤◌, ◌<◌, ◌≡◌, ◌↔◌, ◌≢◌, inl, inr, List, [], ◌∷◌, none, some, arith, length,
  length-eq_of_counts, dec_str, count, hit_self, present, lookup, put, lookup_of_present,
  present-put, present_of_some, present_of_none, length-put_new, present-le_one, length-map,
  Option-cases,
}
use torrcli.Model.{Session, TorrentId, TorrentRecord}
use torrcli.State.Validate.{check_record, check_entry, check_order, validate_session}
use torrcli.State.Validate.Sound.{IsComplete, IsValid, check_order-IsValid}
use torrcli.State.Validate.Counting.{Agrees, keys}

check_record_complete :
    (id : TorrentId) (r : TorrentRecord) → IsComplete r → check_record id r ≡ none
unfolding check_record
check_record_complete id r c = ground arith

check_entry_valid :
    (seen : List (TorrentId × Unit {0})) (torrents : List (TorrentId × TorrentRecord))
    (id : TorrentId) (r : TorrentRecord)
    → id ≢ ""
    → lookup dec_str id seen ≡ none
    → lookup dec_str id torrents ≡ some r
    → IsComplete r
    → check_entry seen torrents id ≡ none
unfolding check_entry
check_entry_valid seen torrents id r named fresh found c =
    ground (arith, check_record_complete id r c)

-- What the loop needs of the ids that are left.
record Open (seen : List (TorrentId × Unit {0})) (torrents : List (TorrentId × TorrentRecord))
    (ids : List TorrentId) : Type 0 where
  once : (k : TorrentId) → count dec_str k ids + present dec_str k seen ≤ 1
  lengths : length ids + length seen ≡ length torrents
  known : (k : TorrentId) → 0 < count dec_str k ids → 0 < present dec_str k torrents

check_order_accepts :
    (seen : List (TorrentId × Unit {0})) (torrents : List (TorrentId × TorrentRecord))
    (ids : List TorrentId)
    → ((k : TorrentId) (r : TorrentRecord)
        → lookup dec_str k torrents ≡ some r
        → (k ≢ "") × IsComplete r)
    → Open seen torrents ids
    → check_order seen torrents ids ≡ none
unfolding check_order
check_order_accepts seen torrents [] v o = ground (arith, o.lengths)
check_order_accepts seen torrents (id ∷ ids) v o =
    let (r, found) =
      lookup_of_present dec_str id torrents (o.known id (omega (arith, hit_self dec_str id))) in
    let fresh : lookup dec_str id seen ≡ none = elim (Option-cases (lookup dec_str id seen)) [
      | inl e ↦ e
      | inr (u, e) ↦
          absurd (omega (arith, o.once id, hit_self dec_str id, present_of_some dec_str id seen e))
    ] in
    let (named, done) = v id r found in
    let rest = check_order_accepts (put dec_str id tt seen) torrents ids v (record {
      once = λ k. ground (
        arith,
        o.once k,
        present-put dec_str k id tt seen,
        present_of_none dec_str id seen fresh,
      );
      lengths = omega (arith, o.lengths, length-put_new dec_str id tt seen fresh);
      known = λ k n. o.known k (omega arith);
    }) in
    rw (check_entry_valid seen torrents id r named fresh found done, check_order) rest

-- A map that holds no key twice.
abbrev pub IsMap : List (TorrentId × TorrentRecord) → Type 0
IsMap torrents = Agrees dec_str (keys torrents) torrents

-- Order and records are both there, and valid.
abbrev pub IsValidSession : Session → Type 0
IsValidSession s =
    (order : List TorrentId) × (torrents : List (TorrentId × TorrentRecord)) × (s.order
      ≡ some order)
    × (s.torrents ≡ some torrents)
    × IsValid order torrents

pub check_order_valid :
    (torrents : List (TorrentId × TorrentRecord)) (order : List TorrentId)
    → IsMap torrents
    → IsValid order torrents
    → check_order [] torrents order ≡ none
unfolding present lookup
check_order_valid torrents order m v =
    check_order_accepts [] torrents order (λ k r e. (v.named k r e, v.complete k r e))
      (record {
        once = λ k. omega (arith, v.agrees k, present-le_one dec_str k torrents);
        lengths = omega (
          arith,
          length-eq_of_counts dec_str order (keys torrents) (λ k. omega (arith, v.agrees k, m k)),
          length-map torrents (λ e. e.0),
        );
        known = λ k n. omega (arith, v.agrees k);
      })

pub validate_session-valid : (s : Session) → validate_session s ≡ none → IsValidSession s
unfolding validate_session
validate_session-valid s h = elim (Option-cases s.order) [
  | inl e ↦ absurd (ground arith)
  | inr (order, e) ↦ elim (Option-cases s.torrents) [
    | inl f ↦ absurd (ground arith)
    | inr (torrents, f) ↦ (order, torrents, e, f, check_order-IsValid torrents order (ground arith))
  ]
]

-- validateSession accepts a session exactly if its order and its records are there, name the same
-- torrents (each once, by a text that is not empty), and every record is complete. The condition
-- on the records is that they form a map: no key stands twice.
pub validate_session_iff :
    (s : Session)
    → ((torrents : List (TorrentId × TorrentRecord)) → s.torrents ≡ some torrents → IsMap torrents)
    → (validate_session s ≡ none) ↔ IsValidSession s
unfolding validate_session
validate_session_iff s m = (
  validate_session-valid s,
  λ (order, torrents, e, f, v). ground (arith, check_order_valid torrents order (m torrents f) v),
)

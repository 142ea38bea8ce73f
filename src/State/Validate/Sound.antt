-- ===== src/State/Validate/Sound.antt =====
-- What validateSession accepts.
use torrcli.Base.{
  ◌+◌, ◌≤◌, ◌<◌, ◌≡◌, ◌≢◌, ◌⊎◌, subst, hit_ne, List, [], ◌∷◌, none, some, arith, length, dec_str,
  count, present, lookup, put, present-put, present_of_some, present_of_none, length-put_new, inl,
  inr, Option-cases,
}
use torrcli.Model.{TorrentId, TorrentRecord}
use torrcli.Model.States
use torrcli.State.Validate.{check_record, check_entry, check_order}
use torrcli.State.Validate.Counting.{Agrees, Agrees-of_covered}

-- A record that can be restored: a source, a place to save to, and one of the two desired states.
pub record IsComplete (r : TorrentRecord) : Type 0 where
  pub sourced : r.source ≢ ""
  pub placed : r.save_path ≢ ""
  pub desired : (r.desired_state ≡ States.downloading) ⊎ (r.desired_state ≡ States.paused)

-- The order and the records name the same torrents, each once, and each record is complete.
pub record IsValid (order : List TorrentId) (torrents : List (TorrentId × TorrentRecord))
    : Type 0 where
  pub agrees : Agrees dec_str order torrents
  pub named : (id : TorrentId) (r : TorrentRecord) → lookup dec_str id torrents ≡ some r → id ≢ ""
  pub complete :
      (id : TorrentId) (r : TorrentRecord) → lookup dec_str id torrents ≡ some r → IsComplete r

pub check_record-none :
    (id : TorrentId) (r : TorrentRecord) → check_record id r ≡ none → IsComplete r
unfolding check_record
check_record-none id r h = ground arith

-- What one round of the loop has checked.
abbrev Checked : List (TorrentId × Unit {0}) → List (TorrentId × TorrentRecord) → TorrentId → Type 0
Checked seen torrents id =
    (id ≢ "")
    × (lookup dec_str id seen ≡ none)
    × ((r : TorrentRecord) × (lookup dec_str id torrents ≡ some r) × IsComplete r)

check_entry-none :
    (seen : List (TorrentId × Unit {0})) (torrents : List (TorrentId × TorrentRecord))
    (id : TorrentId)
    → check_entry seen torrents id ≡ none
    → Checked seen torrents id
unfolding check_entry
check_entry-none seen torrents id h = elim (Option-cases (lookup dec_str id torrents)) [
  | inl e ↦ absurd (ground arith)
  | inr (r, e) ↦ (ground arith, ground arith, (r, e, check_record-none id r (ground arith)))
]

-- What the loop has checked of the ids from here on, given what it has seen.
record Covered (seen : List (TorrentId × Unit {0})) (torrents : List (TorrentId × TorrentRecord))
    (ids : List TorrentId) : Type 0 where
  within :
      (k : TorrentId) → count dec_str k ids + present dec_str k seen ≤ present dec_str k torrents
  lengths : length ids + length seen ≡ length torrents
  named : (k : TorrentId) → 0 < count dec_str k ids → k ≢ ""
  complete :
      (k : TorrentId) (r : TorrentRecord)
      → 0 < count dec_str k ids
      → lookup dec_str k torrents ≡ some r
      → IsComplete r

same_record :
    (torrents : List (TorrentId × TorrentRecord)) {id k : TorrentId} {r r' : TorrentRecord}
    → id ≡ k
    → lookup dec_str id torrents ≡ some r
    → lookup dec_str k torrents ≡ some r'
    → r ≡ r'
same_record torrents p found found' = cc

check_order-none :
    (seen : List (TorrentId × Unit {0})) (torrents : List (TorrentId × TorrentRecord))
    (ids : List TorrentId)
    → ((k : TorrentId) → present dec_str k seen ≤ present dec_str k torrents)
    → check_order seen torrents ids ≡ none
    → Covered seen torrents ids
unfolding check_order
check_order-none seen torrents [] s h = record {
  within = λ k. omega (arith, s k);
  lengths = ground arith;
  named = λ k n. absurd (omega arith);
  complete = λ k r n. absurd (omega arith);
}
check_order-none seen torrents (id ∷ ids) s h =
    let (named, fresh, (r, found, done)) = check_entry-none seen torrents id (ground arith) in
    let rest =
      check_order-none (put dec_str id tt seen) torrents ids
        (λ k.
          ground (
            arith,
            s k,
            present-put dec_str k id tt seen,
            present_of_some dec_str id torrents found,
          ))
        (ground arith) in
    record {
      within = λ k. ground (
        arith,
        rest.within k,
        present-put dec_str k id tt seen,
        present_of_none dec_str id seen fresh,
      );
      lengths = omega (arith, rest.lengths, length-put_new dec_str id tt seen fresh);
      named = λ k n. elim (dec_str id k) [
        | yes p ↦ subst (λ x. x ≢ "") p named
        | no p ↦ rest.named k (omega (arith, hit_ne dec_str id k p))
      ];
      complete = λ k r' n found'. elim (dec_str id k) [
        | yes p ↦ subst IsComplete (same_record torrents p found found') done
        | no p ↦ rest.complete k r' (omega (arith, hit_ne dec_str id k p)) found'
      ];
    }

-- A list of ids and a map of records that validateSession accepts.
pub check_order-IsValid :
    (torrents : List (TorrentId × TorrentRecord)) (order : List TorrentId)
    → check_order [] torrents order ≡ none
    → IsValid order torrents
unfolding lookup present
check_order-IsValid torrents order h =
    let c = check_order-none [] torrents order (λ k. omega arith) h in
    let agrees : Agrees dec_str order torrents =
      Agrees-of_covered dec_str order torrents (λ k. omega (arith, c.within k))
        (omega (arith, c.lengths)) in
    record {
      agrees = agrees;
      named =
          λ id r e. c.named id (omega (arith, agrees id, present_of_some dec_str id torrents e));
      complete = λ id r e.
          c.complete id r (omega (arith, agrees id, present_of_some dec_str id torrents e)) e;
    }

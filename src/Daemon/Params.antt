-- ===== src/Daemon/Params.antt =====
-- internal/daemon/rpc.go: which parameters the methods take, apart from how handleRPC tests them.
use torrcli.Base.{
  ℕ, ℤ, pos, negsuc, zero, suc, ◌≡◌, ◌≢◌, ◌⊎◌, inl, inr, refl, arith, Bool, true, false, not, ◌||◌,
  is_negative, Option, some, dec_str,
}
use torrcli.Model.{TorrentId, FilePriority}
use torrcli.Model.Priorities
use torrcli.Daemon.Controls.{valid_file_priority}
use torrcli.Daemon.Handler.{
  Decoders, Method, daemon_ping, daemon_info, torrent_add, torrent_list, torrent_get, torrent_move,
  torrent_pause, torrent_resume, torrent_verify, torrent_find_peers, torrent_remove,
  torrent_set_sequential, torrent_set_file_priority, empty_id, one_place,
}

-- That the parameters are decoded, and are good.
abbrev pub Decoded : {P : Type 0} → Option P → (P → Type 0) → Type 0
Decoded p Good = (q : _) × (p ≡ some q) × Good q

-- What parameters each method takes.
abbrev pub Accepts : {R : Type 0} → Decoders R → Method → R → Type 0
Accepts json daemon_ping p = Unit {0}
Accepts json daemon_info p = Unit {0}
Accepts json torrent_list p = Unit {0}
Accepts json torrent_add p = Decoded (json.add_params p) (λ q. Unit {0})
Accepts json torrent_get p = Decoded (json.torrent_params p) (λ id. id ≢ "")
Accepts json torrent_pause p = Decoded (json.torrent_params p) (λ id. id ≢ "")
Accepts json torrent_resume p = Decoded (json.torrent_params p) (λ id. id ≢ "")
Accepts json torrent_verify p = Decoded (json.torrent_params p) (λ id. id ≢ "")
Accepts json torrent_find_peers p = Decoded (json.torrent_params p) (λ id. id ≢ "")
Accepts json torrent_move p =
    Decoded (json.move_params p) (λ q. (q.id ≢ "") × ((q.offset ≡ pos 1) ⊎ (q.offset ≡ negsuc 0)))
Accepts json torrent_remove p = Decoded (json.remove_params p) (λ q. q.id ≢ "")
Accepts json torrent_set_sequential p = Decoded (json.sequential_params p) (λ q. q.id ≢ "")
Accepts json torrent_set_file_priority p = Decoded (json.priority_params p) λ q.
    ((q.id ≢ "") × ((n : ℕ) × (q.file_index ≡ pos n)))
    × ((q.priority ≡ Priorities.skip)
        ⊎ ((q.priority ≡ Priorities.normal) ⊎ (q.priority ≡ Priorities.high)))

-- A test that fails for what is good, and for nothing else.
pub data Tells (bad : Bool) (Good : Type 0) : Type 0 where
  passes : bad ≡ false → Good → Tells bad Good
  stops : bad ≡ true → ¬ Good → Tells bad Good

pub tells_always : Tells false (Unit {0})
tells_always = passes refl tt

pub tells_empty : (id : TorrentId) → Tells (empty_id id) (id ≢ "")
tells_empty id = elim (dec_str id "") [
  | yes e ↦ stops (ground arith) (λ n. n e)
  | no n ↦ passes (ground arith) n
]

pub tells_or : {a b : Bool} {P Q : Type 0} → Tells a P → Tells b Q → Tells (a || b) (P × Q)
tells_or (passes e p) (passes f q) = passes (ground arith) (p, q)
tells_or (passes e p) (stops f n) = stops (ground arith) (λ (x, y). n y)
tells_or (stops e n) t = stops (ground arith) (λ (x, y). n x)

pub tells_place : (z : ℤ) → Tells (not (one_place z)) ((z ≡ pos 1) ⊎ (z ≡ negsuc 0))
tells_place (pos zero) = stops refl λ s. elim s [ inl e ↦ ground arith | inr e ↦ ground arith ]
tells_place (pos (suc zero)) = passes refl (inl refl)
tells_place (pos (suc (suc n))) =
    stops refl λ s. elim s [ inl e ↦ ground arith | inr e ↦ ground arith ]
tells_place (negsuc zero) = passes refl (inr refl)
tells_place (negsuc (suc n)) =
    stops refl λ s. elim s [ inl e ↦ ground arith | inr e ↦ ground arith ]

pub tells_index : (z : ℤ) → Tells (is_negative z) ((n : ℕ) × (z ≡ pos n))
tells_index (pos n) = passes refl (n, refl)
tells_index (negsuc n) = stops refl λ (m, e). ground arith

pub tells_priority :
    (p : FilePriority)
    → Tells
        (not (valid_file_priority p))
        ((p ≡ Priorities.skip) ⊎ ((p ≡ Priorities.normal) ⊎ (p ≡ Priorities.high)))
unfolding valid_file_priority
tells_priority p = elim (dec_str p Priorities.skip) [
  | yes e ↦ passes (ground arith) (inl e)
  | no a ↦ elim (dec_str p Priorities.normal) [
    | yes e ↦ passes (ground arith) (inr (inl e))
    | no b ↦ elim (dec_str p Priorities.high) [
      | yes e ↦ passes (ground arith) (inr (inr e))
      | no c ↦
          stops (ground arith)
            λ s. elim s [ inl e ↦ a e | inr t ↦ elim t [ inl e ↦ b e | inr e ↦ c e ] ]
    ]
  ]
]

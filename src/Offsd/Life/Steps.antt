-- ===== src/Offsd/Life/Steps.antt =====
-- One call more on the parts of the daemon (src/offsd/main.c).
use offs.Base.{
  Bool, true, false, not, ◌∷◌, Bool-cases, inl, inr, ◌≡◌, refl, sym, ap, ◌∙◌, arith, subst,
}
use offs.Offsd.Life.{
  Part, members, pool, timer, authority, block_cache, ofd_cache, tuple_cache, http_server, network,
  ws_transport, wt_transport, wt_h3_transport, unix_transport, update_actor, Server, get, set,
  Event, apply, created, destroyed, started, stopped, Trace, live, allowed, safe, destroy_if,
  stop_if, start_if,
}

-- The calls so far were allowed and leave this alive.
pub data Leaves : Server → Trace → Type 0 where
  leaves : {s : Server} {t : Trace} → live t ≡ s → safe t ≡ true → Leaves s t

-- Whether the part may be destroyed: the pool has to have stopped.
abbrev pub is_quiet : Part → Server → Bool
is_quiet pool s = not s.running
is_quiet _ s = true

set_get : (p : Part) (s : Server) → set p (get p s) s ≡ s
set_get members s = refl
set_get pool s = refl
set_get timer s = refl
set_get authority s = refl
set_get block_cache s = refl
set_get ofd_cache s = refl
set_get tuple_cache s = refl
set_get http_server s = refl
set_get network s = refl
set_get ws_transport s = refl
set_get wt_transport s = refl
set_get wt_h3_transport s = refl
set_get unix_transport s = refl
set_get update_actor s = refl

allowed-destroyed :
    (p : Part) (b : Bool) (s : Server)
    → b ≡ get p s
    → is_quiet p s ≡ true
    → allowed (destroyed p b) s ≡ true
allowed-destroyed pool b s h q = ground arith
allowed-destroyed members b s h q = ground arith
allowed-destroyed timer b s h q = ground arith
allowed-destroyed authority b s h q = ground arith
allowed-destroyed block_cache b s h q = ground arith
allowed-destroyed ofd_cache b s h q = ground arith
allowed-destroyed tuple_cache b s h q = ground arith
allowed-destroyed http_server b s h q = ground arith
allowed-destroyed network b s h q = ground arith
allowed-destroyed ws_transport b s h q = ground arith
allowed-destroyed wt_transport b s h q = ground arith
allowed-destroyed wt_h3_transport b s h q = ground arith
allowed-destroyed unix_transport b s h q = ground arith
allowed-destroyed update_actor b s h q = ground arith

pub live-Leaves : {s : Server} {t : Trace} → Leaves s t → live t ≡ s
live-Leaves (leaves alive _) = alive

pub safe-Leaves : {s : Server} {t : Trace} → Leaves s t → safe t ≡ true
safe-Leaves (leaves _ fine) = fine

-- Any call that the state allows.
pub call-Leaves :
    (event : Event) {s : Server} {t : Trace}
    → allowed event s ≡ true
    → Leaves s t
    → Leaves (apply event s) (event ∷ t)
unfolding live safe
call-Leaves event {s} ok (leaves alive fine) =
    leaves (ap (apply event) alive) (rw alive (rw ok fine))

-- A destroy call.
pub destroy-Leaves :
    (p : Part) (b : Bool) {s : Server} {t : Trace}
    → b ≡ get p s
    → is_quiet p s ≡ true
    → Leaves s t
    → Leaves (set p false s) (destroyed p b ∷ t)
destroy-Leaves p b {s} h q so_far = call-Leaves (destroyed p b) (allowed-destroyed p b s h q) so_far

-- A guarded destroy call.
pub destroy_if-Leaves :
    (p : Part) (from : Server) {s : Server} {t : Trace}
    → get p from ≡ get p s
    → is_quiet p s ≡ true
    → Leaves s t
    → Leaves (set p false s) (destroy_if p from t)
destroy_if-Leaves p from {s} {t} h q so_far = elim (Bool-cases (get p from)) [
  | inl e ↦ rw e (destroy-Leaves p true (sym e ∙ h) q so_far)
  | inr e ↦ rw e (
      subst (λ b. Leaves (set p b s) t) (sym h ∙ e)
        (subst (λ x. Leaves x t) (sym (set_get p s)) so_far))
]

-- Guarded stop and start calls.
pub stop_if-Leaves :
    (p : Part) (from : Server) {s : Server} {t : Trace}
    → get p from ≡ get p s
    → Leaves s t
    → Leaves s (stop_if p from t)
stop_if-Leaves p from {s} {t} h so_far = elim (Bool-cases (get p from)) [
  | inl e ↦ rw e (call-Leaves (stopped p) (sym h ∙ e) so_far)
  | inr e ↦ rw e so_far
]

pub start_if-Leaves :
    (p : Part) (from : Server) {s : Server} {t : Trace}
    → get p from ≡ get p s
    → Leaves s t
    → Leaves s (start_if p from t)
start_if-Leaves p from {s} {t} h so_far = elim (Bool-cases (get p from)) [
  | inl e ↦ rw e (call-Leaves (started p) (sym h ∙ e) so_far)
  | inr e ↦ rw e so_far
]

-- A create call that fails.
pub create_failed-Leaves :
    (p : Part) {s : Server} {t : Trace}
    → get p s ≡ false
    → Leaves s t
    → Leaves s (created p false ∷ t)
create_failed-Leaves p {s} {t} lacks so_far =
    subst (λ x. Leaves x (created p false ∷ t)) (ap (λ b. set p b s) (sym lacks) ∙ set_get p s)
      (call-Leaves (created p false) (rw lacks refl) so_far)

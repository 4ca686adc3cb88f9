-- ===== src/Sync/Probes.antt =====
-- internal/explorer/stats.go: the status between probes of the node that end in any order.
use btcdwatch_com.Base.{
  ℕ, ◌≡◌, refl, ◌∙◌, List, [], ◌∷◌, Option, none, some, Bool, inl, inr, Bool-cases,
}
use btcdwatch_com.Base.Action.{Result, ok, err}
use btcdwatch_com.Node.{Error}
use btcdwatch_com.Sync.{Sync, SyncStatus, sync_status, end_sync, is_behind, is_due}

-- What happens to the state: a read of the status, or the end of a refresh.
pub data Event : Type 0 where
  asked : ℕ → Event
  answered : ℕ → Result Error (ℕ × ℕ) → Event

unfoldable pub after_events : Bool → Sync → List Event → Sync
unfolding sync_status end_sync
after_events gated s [] = s
after_events gated s (asked now ∷ es) = after_events gated (sync_status now s).1 es
after_events gated s (answered now probe ∷ es) = after_events gated (end_sync gated now probe s) es

-- The time and the answer of the last probe that the node answered, or else what is given.
abbrev pub last_answer : Option (ℕ × (ℕ × ℕ)) → List Event → Option (ℕ × (ℕ × ℕ))
last_answer old [] = old
last_answer old (asked now ∷ es) = last_answer old es
last_answer old (answered now (err x) ∷ es) = last_answer old es
last_answer old (answered now (ok tip) ∷ es) = last_answer (some (now, tip)) es

abbrev pub status_by : Bool → SyncStatus → Option (ℕ × (ℕ × ℕ)) → SyncStatus
status_by gated st none = st
status_by gated st (some (now, (tip, tip_time))) = record {
  syncing = is_behind gated now tip_time;
  tip_height = tip;
  checked_at = some now;
}

status-sync_status : (s : Sync) (now : ℕ) → (sync_status now s).1.status ≡ s.status
unfolding sync_status
status-sync_status s now = elim (Bool-cases (is_due s now)) [
  | inl due ↦ rw due refl
  | inr not_due ↦ rw not_due refl
]

after_events-status_by :
    (gated : Bool) (st : SyncStatus) (old : Option (ℕ × (ℕ × ℕ))) (s : Sync) (es : List Event)
    → s.status ≡ status_by gated st old
    → (after_events gated s es).status ≡ status_by gated st (last_answer old es)
unfolding after_events end_sync
after_events-status_by gated st old s [] h = h
after_events-status_by gated st old s (asked now ∷ es) h =
    after_events-status_by gated st old (sync_status now s).1 es (status-sync_status s now ∙ h)
after_events-status_by gated st old s (answered now (err x) ∷ es) h =
    after_events-status_by gated st old (end_sync gated now (err x) s) es h
after_events-status_by gated st old s (answered now (ok tip) ∷ es) h =
    after_events-status_by gated st (some (now, tip)) (end_sync gated now (ok tip) s) es refl

-- However reads of the status and ends of refreshes follow each other, errors and refreshes that run
-- beside each other included, the status is that of the last probe that the node answered: its height,
-- its time, and whether its tip was more than four hours old on a network where that counts. Without
-- one it is the status at the start.
pub after_events-last_answer :
    (gated : Bool) (s : Sync) (es : List Event)
    → (after_events gated s es).status ≡ status_by gated s.status (last_answer none es)
after_events-last_answer gated s es = after_events-status_by gated s.status none s es refl

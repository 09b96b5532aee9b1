-- ===== src/Sync/Outbox.antt =====
-- src/replication/sync.rs: what record_change and flush send.
use mathlib.Core.Path.{subst}
use edgeproxy.Prelude.{
  ℕ, ◌≡◌, refl, sym, ap, ◌∙◌, Bool, true, false, String, List, [], ◌∷◌, ◌++◌, none, some, inc64,
  nat_beq_iff, arith,
}
use edgeproxy.Changes.{Change, ChangeKind, ChangeSet, Hashing, new_changeset, verify}
use edgeproxy.Sync.{FlushEnd, returns, blocks, SyncService, record_change, flush, persist_version}
use edgeproxy.Sync.Delivery.{all_changes}

-- A call of `record_change` with the identifier and the time that it takes, or of `flush`, with
-- whether the channel takes its event.
pub data Call : Type 0 where
  records : ℕ → ℕ → String → String → ChangeKind → String → Call
  flushes : Bool → Call

-- The service after the calls, the change sets flushed, by calls that return or that wait for good, and
-- the changes recorded, in their order.
pub record Sent : Type 0 where
  pub service : SyncService
  pub flushed : List ChangeSet
  pub recorded : List Change

abbrev pub add_set : FlushEnd → List ChangeSet → List ChangeSet
add_set (returns none) cs = cs
add_set (returns (some c)) cs = c ∷ cs
add_set (blocks c) cs = c ∷ cs

unfoldable pub calls : Hashing → SyncService → List Call → Sent
calls h s [] = record { service = s; flushed = []; recorded = [] }
calls h s (records id now table pk kind data_text ∷ cs) =
    let (t, c) = record_change h.hash_text id now s table pk kind data_text in
    let rest = calls h t cs in
    record { service = rest.service; flushed = rest.flushed; recorded = c ∷ rest.recorded }
calls h s (flushes takes ∷ cs) =
    let (t, o) = flush h takes s in
    let rest = calls h t cs in
    record { service = rest.service; flushed = add_set o rest.flushed; recorded = rest.recorded }

-- The sets are intact, come from the node and are numbered one after another.
abbrev pub Numbered : Hashing → String → ℕ → List ChangeSet → Type 0
Numbered h node_id seq [] = Unit {0}
Numbered h node_id seq (c ∷ cs) =
    (verify h c ≡ true)
    × (c.source ≡ node_id)
    × (c.seq ≡ inc64 seq)
    × Numbered h node_id (inc64 seq) cs

append_assoc {ℓ} : {A : Type ℓ} (xs ys zs : List A) → (xs ++ ys) ++ zs ≡ xs ++ (ys ++ zs)
append_assoc [] ys zs = refl
append_assoc (x ∷ xs) ys zs = ap (λ l. x ∷ l) (append_assoc xs ys zs)

append_nil {ℓ} : {A : Type ℓ} (xs : List A) → xs ++ [] ≡ xs
append_nil [] = refl
append_nil (x ∷ xs) = ap (λ l. x ∷ l) (append_nil xs)

pub verify-new_changeset :
    (h : Hashing) (source : String) (seq : ℕ) (cs : List Change)
    → verify h (new_changeset h source seq cs) ≡ true
unfolding verify new_changeset
verify-new_changeset h source seq cs = (nat_beq_iff _ _).1 refl

-- What `flush` comes to: nothing, if nothing is pending, or a set of all that is.
abbrev FlushedAll : Hashing → SyncService → SyncService → ChangeSet → Type 0
FlushedAll h s t c =
    (c ≡ new_changeset h s.node_id (inc64 s.sequence) s.pending_changes)
    × (t.pending_changes ≡ [])
    × (t.sequence ≡ inc64 s.sequence)
    × (t.node_id ≡ s.node_id)

abbrev Flushed : Hashing → SyncService → SyncService × FlushEnd → Type 0
Flushed h s (t, returns none) = (t ≡ s) × (s.pending_changes ≡ [])
Flushed h s (t, returns (some c)) = FlushedAll h s t c
Flushed h s (t, blocks c) = FlushedAll h s t c

flush-Flushed : (h : Hashing) (takes : Bool) (s : SyncService) → Flushed h s (flush h takes s)
unfolding flush persist_version new_changeset
flush-Flushed h true s = ground arith
flush-Flushed h false s = ground arith

-- The sets and what is pending, in order, are these changes; the sets are numbered from `seq`.
abbrev Complete : Hashing → String → ℕ → List ChangeSet → List Change → List Change → Type 0
Complete h node_id seq sets pending whole_list =
    (all_changes sets ++ pending ≡ whole_list) × Numbered h node_id seq sets

set-Complete :
    (h : Hashing) (s t : SyncService) (c : ChangeSet) (sets : List ChangeSet)
    (pending recorded : List Change)
    → FlushedAll h s t c
    → Complete h t.node_id t.sequence sets pending (t.pending_changes ++ recorded)
    → Complete h s.node_id s.sequence (c ∷ sets) pending (s.pending_changes ++ recorded)
unfolding new_changeset
set-Complete h s t c sets pending recorded (made, empty, seq, node) (e, n) =
    subst (λ d. Complete h s.node_id s.sequence (d ∷ sets) pending (s.pending_changes ++ recorded))
      (sym made)
      (
        append_assoc s.pending_changes (all_changes sets) pending
            ∙ ap (λ l. s.pending_changes ++ l) (e ∙ ap (λ l. l ++ recorded) empty),
        (
          verify-new_changeset h s.node_id (inc64 s.sequence) s.pending_changes,
          refl,
          refl,
          subst (λ k. Numbered h s.node_id k sets) seq
              (subst (λ k. Numbered h k t.sequence sets) node n),
        ),
      )

flush-Complete :
    (h : Hashing) (s : SyncService) (sets : List ChangeSet) (pending recorded : List Change)
    (f : SyncService × FlushEnd)
    → Flushed h s f
    → Complete h f.0.node_id f.0.sequence sets pending (f.0.pending_changes ++ recorded)
    → Complete h s.node_id s.sequence (add_set f.1 sets) pending (s.pending_changes ++ recorded)
flush-Complete h s sets pending recorded (t, returns none) (same, none_pending) rest =
    subst
      (λ (u : SyncService).
        Complete h u.node_id u.sequence sets pending (u.pending_changes ++ recorded))
      same rest
flush-Complete h s sets pending recorded (t, returns (some c)) made rest =
    set-Complete h s t c sets pending recorded made rest
flush-Complete h s sets pending recorded (t, blocks c) made rest =
    set-Complete h s t c sets pending recorded made rest

-- After any calls of `record_change` and `flush`, the changes of the sets flushed, by calls that return
-- or that wait for good at a full channel, followed by those still pending, are those that were pending and those recorded, in their order; and the sets are
-- intact, come from the node and carry the numbers that follow its sequence number one by one.
pub calls_complete :
    (h : Hashing) (cs : List Call) (s : SyncService)
    → (all_changes (calls h s cs).flushed ++ (calls h s cs).service.pending_changes
        ≡ s.pending_changes ++ (calls h s cs).recorded)
      × Numbered h s.node_id s.sequence (calls h s cs).flushed
unfolding calls record_change
calls_complete h [] s = (sym (append_nil s.pending_changes), tt)
calls_complete h (records id now table pk kind data_text ∷ cs) s =
    let (t, c) = record_change h.hash_text id now s table pk kind data_text in
    let (e, n) = calls_complete h cs t in
    (e ∙ append_assoc s.pending_changes (c ∷ []) (calls h t cs).recorded, n)
calls_complete h (flushes takes ∷ cs) s =
    let rest = calls h (flush h takes s).0 cs in
    flush-Complete h s rest.flushed rest.service.pending_changes rest.recorded (flush h takes s)
      (flush-Flushed h takes s) (calls_complete h cs (flush h takes s).0)

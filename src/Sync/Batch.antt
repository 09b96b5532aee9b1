-- ===== src/Sync/Batch.antt =====
-- src/replication/sync.rs: a batch of changes leaves the latest change of each backend in force.
use mathlib.Core.Path.{subst}
use edgeproxy.Prelude.{
  ℕ, ◌+◌, ◌≡◌, refl, sym, ap, ◌∙◌, Bool, true, false, String, List, [], ◌∷◌, ◌++◌, Option, none,
  some, if◌then◌else◌, string_key, ◌==◌, inl, inr, arith, All, Bool-cases,
}
use edgeproxy.Changes.{Change}
use edgeproxy.Replica.{Json}
use edgeproxy.Sync.{
  SyncService, change_applied, newer, should_apply_change, apply_single_change, apply_changes,
}
use edgeproxy.Sync.Winner.{timestamp_of}
use edgeproxy.Sync.Agrees.{
  later, Sound, Agrees, should_apply_change-newer, apply_single_change-valid,
}

abbrev pub winner_from : String → Option Change → List Change → Option Change
winner_from pk best [] = best
winner_from pk best (c ∷ cs) = winner_from pk (if c.pk == pk then later best c else best) cs

-- The state agrees with a winner for each backend.
abbrev pub AgreesAll : Json → SyncService → (String → Option Change) → Type 0
AgreesAll json s best = (pk : String) → Agrees json s pk (best pk)

next_best :
    (best : String → Option Change) (c : Change) (pk : String) (b : Bool)
    → newer c.timestamp (timestamp_of (best c.pk)) ≡ b
    → (if c.pk == pk then (if b then some c else best pk) else best pk)
      ≡ (if c.pk == pk then later (best pk) c else best pk)
next_best best c pk b e = elim (Bool-cases (c.pk == pk)) [
  | inl h ↦
      let moved : newer c.timestamp (timestamp_of (best pk)) ≡ b =
        subst (λ k. newer c.timestamp (timestamp_of (best k)) ≡ b) (string_key.eq_of_same c.pk pk h)
          e in
      rw (h, moved)
  | inr h ↦ rw h
]

module _ (json : Json) (now : ℕ) where
  apply_changes-skips :
      (s : SyncService) (n : ℕ) (c : Change) (cs : List Change)
      → should_apply_change s c ≡ false
      → apply_changes json now s n (c ∷ cs) ≡ apply_changes json now s n cs
  unfolding apply_changes
  apply_changes-skips s n c cs e = rw (e, apply_changes)

  apply_changes-applies :
      (s t : SyncService) (n : ℕ) (c : Change) (cs : List Change)
      → should_apply_change s c ≡ true
      → apply_single_change json now s c ≡ (t, true)
      → apply_changes json now s n (c ∷ cs)
        ≡ apply_changes json now
            (record t { events = t.events ++ change_applied c ∷ [] })
            (n + 1)
            cs
  unfolding apply_changes
  apply_changes-applies s t n c cs e f =
      rw (e, apply_changes)
        (ap
          (λ (r : SyncService × Bool). elim r.1 as (λ _. SyncService × Option ℕ) [
            | false ↦ (r.0, none)
            | true ↦
                apply_changes json now (record r.0 { events = r.0.events ++ change_applied c ∷ [] })
                  (n + 1) cs
          ])
          f)

  -- The loop comes to its end with these winners.
  abbrev pub Took : SyncService → ℕ → List Change → (String → Option Change) → Type 0
  Took s n cs won =
      (t : SyncService) × (m : ℕ) × (apply_changes json now s n cs ≡ (t, some m))
      × AgreesAll json t won

  -- Sound changes are all taken in, and the winners move on.
  pub apply_changes-AgreesAll :
      (s : SyncService) (n : ℕ) (best : String → Option Change) (cs : List Change)
      → All (Sound json) cs
      → AgreesAll json s best
      → Took s n cs (λ pk. winner_from pk (best pk) cs)
  unfolding apply_changes
  apply_changes-AgreesAll s n best [] sound a = (s, n, refl, a)
  apply_changes-AgreesAll s n best (c ∷ cs) (sound, sounds) a =
      go (newer c.timestamp (timestamp_of (best c.pk))) refl
        (should_apply_change-newer json s c sound (best c.pk) (a c.pk))
        (λ u m won g. apply_changes-AgreesAll u m won cs sounds g)
    where
      moved : Bool → String → Option Change
      moved b pk = if c.pk == pk then (if b then some c else best pk) else best pk

      moved_not : (pk : String) → moved false pk ≡ best pk
      moved_not pk = ground arith

      finish :
          (b : Bool)
          → newer c.timestamp (timestamp_of (best c.pk)) ≡ b
          → (t : SyncService) → AgreesAll json t (λ pk. winner_from pk (moved b pk) cs)
          → AgreesAll json t (λ pk. winner_from pk (best pk) (c ∷ cs))
      finish b e t g pk =
          subst (λ o. Agrees json t pk (winner_from pk o cs)) (next_best best c pk b e) (g pk)

      go :
          (b : Bool)
          → newer c.timestamp (timestamp_of (best c.pk)) ≡ b
          → should_apply_change s c ≡ newer c.timestamp (timestamp_of (best c.pk))
          → ((u : SyncService) (m : ℕ) (won : String → Option Change)
              → AgreesAll json u won
              → Took u m cs (λ pk. winner_from pk (won pk) cs))
          → Took s n (c ∷ cs) (λ pk. winner_from pk (best pk) (c ∷ cs))
      go false e f rest =
          let (t, m, r, g) =
            rest s n (moved false) (λ pk. subst (Agrees json s pk) (sym (moved_not pk)) (a pk)) in
          (t, m, apply_changes-skips s n c cs (f ∙ e) ∙ r, finish false e t g)
      go true e f rest =
          let (u, one, keeps) = apply_single_change-valid json s c sound now in
          let logged = record u { events = u.events ++ change_applied c ∷ [] } in
          let (t, m, r, g) = rest logged (n + 1) (moved true) (λ pk.
            let k = keeps pk (best pk) (a pk) in
            record { stamp = k.stamp; cache = k.cache; row = k.row; readable = k.readable }) in
          (t, m, apply_changes-applies s u n c cs (f ∙ e) one ∙ r, finish true e t g)

-- ===== src/Sync/Latest.antt =====
-- src/replication/sync.rs: the change that wins is the latest one, whatever order they come in.
use mathlib.Core.Path.{subst}
use edgeproxy.Prelude.{
  ◌≡◌, refl, sym, ap, ◌∙◌, Bool, true, false, String, List, [], ◌∷◌, Option, none, some,
  if◌then◌else◌, string_key, ◌==◌, ◌⊎◌, inl, inr, Elem, here, there, ◌↔◌,
}
use edgeproxy.Clock.{before}
use edgeproxy.Clock.Order.{before_irrefl, before_total, before-later, before-earlier}
use edgeproxy.Changes.{Change}
use edgeproxy.Sync.{newer}
use edgeproxy.Sync.Agrees.{later}
use edgeproxy.Sync.Batch.{winner_from}

-- What the loop over `cs` makes of the winner `best` so far.
abbrev pub Outcome : String → Option Change → List Change → Option Change → Type 0
Outcome pk best cs none = (best ≡ none) × ((d : Change) → Elem d cs → (d.pk == pk) ≡ false)
Outcome pk best cs (some c) =
    ((best ≡ some c) ⊎ (Elem c cs × ((c.pk == pk) ≡ true)))
    × ((d : Change) → Elem d cs → (d.pk == pk) ≡ true → before c.timestamp d.timestamp ≡ false)
    × ((b : Change) → best ≡ some b → before c.timestamp b.timestamp ≡ false)

Elem-cons {κ} :
    (P : Change → Type κ) (c : Change) (cs : List Change)
    → P c
    → ((d : Change) → Elem d cs → P d)
    → (d : Change) → Elem d (c ∷ cs)
    → P d
Elem-cons P c cs p f d (here _ _ e) = subst P (sym e) p
Elem-cons P c cs p f d (there _ _ m) = f d m

-- How the winner so far changes at `c`.
record Moves (pk : String) (best : Option Change) (c : Change) (next : Option Change) : Type 0 where
  at_none : next ≡ none → (best ≡ none) × ((c.pk == pk) ≡ false)
  at_some : (w : Change) → next ≡ some w → (best ≡ some w) ⊎ ((w ≡ c) × ((c.pk == pk) ≡ true))
  beats :
      (w : Change)
      → ((b : Change) → next ≡ some b → before w.timestamp b.timestamp ≡ false)
      → ((b : Change) → best ≡ some b → before w.timestamp b.timestamp ≡ false)
        × ((c.pk == pk) ≡ true → before w.timestamp c.timestamp ≡ false)

some-injective : {a b : Change} → some b ≡ some a → a ≡ b
some-injective e = cc

Moves-next :
    (pk : String) (best : Option Change) (c : Change)
    → Moves pk best c (if c.pk == pk then later best c else best)
unfolding newer
Moves-next pk best c = go best (c.pk == pk) refl
  where
    go :
        (best : Option Change) (t : Bool)
        → (c.pk == pk) ≡ t
        → Moves pk best c (if t then later best c else best)
    go best false e = record {
      at_none = λ n. (n, e);
      at_some = λ w n. inl n;
      beats = λ w f. (f, λ h. cc);
    }
    go none true e = record {
      at_none = λ n. cc;
      at_some = λ w n. inr (some-injective n, e);
      beats = λ w f. (λ b n. cc, λ h. f c refl);
    }
    go (some b) true e = later_of (before b.timestamp c.timestamp) refl
      where
        later_of :
            (t : Bool)
            → before b.timestamp c.timestamp ≡ t
            → Moves pk (some b) c (if t then some c else some b)
        later_of true h = record {
          at_none = λ n. cc;
          at_some = λ w n. inr (some-injective n, e);
          beats = λ w f. (
            λ d n.
                subst (λ (x : Change). before w.timestamp x.timestamp ≡ false)
                  (some-injective (sym n))
                  (before-later w.timestamp b.timestamp c.timestamp h (f c refl)),
            λ _. f c refl,
          );
        }
        later_of false h = record {
          at_none = λ n. cc;
          at_some = λ w n. inl n;
          beats = λ w f. (f, λ _. before-earlier w.timestamp b.timestamp c.timestamp h (f b refl));
        }

extend :
    (pk : String) (best next : Option Change) (c : Change) (cs : List Change)
    → Moves pk best c next
    → (o : Option Change) → Outcome pk next cs o
    → Outcome pk best (c ∷ cs) o
extend pk best next c cs m none (e, missing) =
    let (b, miss) = m.at_none e in (b, Elem-cons (λ d. (d.pk == pk) ≡ false) c cs miss missing)
extend pk best next c cs m (some w) (from, top, over) = (
  elim from [
    | inl e ↦ elim (m.at_some w e) [
      | inl b ↦ inl b
      | inr (same, hit) ↦ inr (here c cs same, ap (λ (d : Change). d.pk == pk) same ∙ hit)
    ]
    | inr (e, hit) ↦ inr (there c cs e, hit)
  ],
  Elem-cons (λ d. (d.pk == pk) ≡ true → before w.timestamp d.timestamp ≡ false) c cs
      (m.beats w over).1 top,
  (m.beats w over).0,
)

winner_from-Outcome :
    (pk : String) (cs : List Change) (best : Option Change)
    → Outcome pk best cs (winner_from pk best cs)
winner_from-Outcome pk [] none = (refl, λ d m. elim m [ ])
winner_from-Outcome pk [] (some c) = (
  inl refl,
  λ d m. elim m [ ],
  λ b e.
      subst (λ (x : Change). before c.timestamp x.timestamp ≡ false) (some-injective (sym e))
        (before_irrefl c.timestamp),
)
winner_from-Outcome pk (c ∷ cs) best =
    extend pk best (if c.pk == pk then later best c else best) c cs (Moves-next pk best c) _
      (winner_from-Outcome pk cs (if c.pk == pk then later best c else best))

abbrev pub winner : String → List Change → Option Change
winner pk cs = winner_from pk none cs

-- `o` is the latest of the changes of `pk` in `cs`, if there is any.
abbrev pub Latest : String → List Change → Option Change → Type 0
Latest pk cs none = (d : Change) → Elem d cs → (d.pk == pk) ≡ false
Latest pk cs (some c) =
    Elem c cs
    × ((c.pk == pk) ≡ true)
    × ((d : Change) → Elem d cs → (d.pk == pk) ≡ true → before c.timestamp d.timestamp ≡ false)

pub winner-Latest : (pk : String) (cs : List Change) → Latest pk cs (winner pk cs)
winner-Latest pk cs = go (winner pk cs) (winner_from-Outcome pk cs none)
  where
    go : (o : Option Change) → Outcome pk none cs o → Latest pk cs o
    go none (e, missing) = missing
    go (some c) (inl e, top, over) = cc
    go (some c) (inr (m, hit), top, over) = (m, hit, top)

-- Two changes of a backend with the same timestamp are one change.
abbrev pub Distinct : List Change → Type 0
Distinct cs =
    (c d : Change) → Elem c cs → Elem d cs → c.pk ≡ d.pk → c.timestamp ≡ d.timestamp → c ≡ d

pub winner-same :
    (pk : String) (cs ds : List Change)
    → ((c : Change) → Elem c cs ↔ Elem c ds)
    → Distinct cs
    → winner pk cs ≡ winner pk ds
winner-same pk cs ds same apart =
    go (winner pk cs) (winner pk ds) (winner-Latest pk cs) (winner-Latest pk ds)
  where
    go : (o p : Option Change) → Latest pk cs o → Latest pk ds p → o ≡ p
    go none none l m = refl
    go none (some d) l (at, hit, _) = let clash : true ≡ false = sym hit ∙ l d ((same d).1 at) in cc
    go (some c) none (at, hit, _) m = let clash : true ≡ false = sym hit ∙ m c ((same c).0 at) in cc
    go (some c) (some d) (at, hit, top) (at', hit', top') =
        ap (λ (x : Change). some x)
          (apart c d at ((same d).1 at')
            (string_key.eq_of_same c.pk pk hit ∙ sym (string_key.eq_of_same d.pk pk hit'))
            (before_total c.timestamp d.timestamp (top d ((same d).1 at') hit')
              (top' c ((same c).0 at) hit)))

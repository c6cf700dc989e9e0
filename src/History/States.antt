-- ===== src/History/States.antt =====
-- What record changes mean (server/history.ts): the record that each id stands for, and a run of
-- changes over it, beside their replay.
use mathlib.Core.Path.{subst}
use collaborative_ai_whitebo.Prelude.{
  ℕ, String, ◌≡◌, refl, ◌∙◌, sym, ap, Bool, true, false, Option, none, some, List, [], ◌∷◌, ◌++◌,
  ◌↔◌, inl, inr, if◌then◌else◌, Bool-cases, ◌==◌, lookup, lookup-set, lookup-delete,
}
use collaborative_ai_whitebo.Exec.{ok}
use collaborative_ai_whitebo.History.Types.{Schema, Decides, HistoryRecordChange, Document}
use collaborative_ai_whitebo.History.Changes.{same}
use collaborative_ai_whitebo.History.Replay.{
  Replayed, state?, write_after, apply_change, apply_changes,
}

-- the record of each id
abbrev pub States : Type 0 → Type 0
States R = String → Option R

module _ {R : Type 0} where
  unfoldable pub state_of : Replayed R → States R
  state_of now id = state? (lookup id now.documents)

  unfoldable pub put : HistoryRecordChange R → States R → States R
  put c from id = if c.record_id == id then c.after else from id

  -- Each change finds its `before` and leaves its `after`.
  abbrev pub Runs : List (HistoryRecordChange R) → States R → States R → Type 0
  Runs [] from to = from ≡ to
  Runs (c ∷ cs) from to = (c.before ≡ from c.record_id) × Runs cs (put c from) to

  pub Runs-append :
      (cs ds : List (HistoryRecordChange R)) (from to : States R)
      → Runs (cs ++ ds) from to
      → (mid : States R) × Runs cs from mid × Runs ds mid to
  Runs-append [] ds from to r = (from, refl, r)
  Runs-append (c ∷ cs) ds from to r =
      let (mid, one, two) = Runs-append cs ds (put c from) to r.1 in (mid, (r.0, one), two)

  states_if :
      (b : Bool) (r : Option (Document R)) (o : Option (Document R))
      → state? (if b then r else o) ≡ (if b then state? r else state? o)
  states_if true r o = refl
  states_if false r o = refl

  written :
      (clock : ℕ) (id : String) (r : Option R) (now : Replayed R) (k : String)
      → state_of (write_after clock id r now) k ≡ (if id == k then r else state_of now k)
  unfolding write_after state_of
  written clock id none now k =
      ap state? (lookup-delete id k now.documents) ∙ states_if (id == k) _ _
  written clock id (some a) now k =
      ap state? (lookup-set id k _ now.documents) ∙ states_if (id == k) _ _

  pub write_after-states :
      (clock : ℕ) (c : HistoryRecordChange R) (now : Replayed R)
      → state_of (write_after clock c.record_id c.after now) ≡ put c (state_of now)
  unfolding put
  write_after-states clock c now = λ i k. written clock c.record_id c.after now k i

module _ {R : Type 0} (s : Schema R) (d : Decides s) where
  pub same_iff : (a b : Option R) → (same s a b ≡ true) ↔ (a ≡ b)
  unfolding same
  same_iff none none = (λ h. refl, λ h. refl)
  same_iff none (some b) = (λ h. cc, λ h. cc)
  same_iff (some a) none = (λ h. cc, λ h. cc)
  same_iff (some a) (some b) = (λ h. ap some ((d.equal a b).0 h), λ h. (d.equal a b).1 (cc h))

  pub record Replays (event_id clock : ℕ) (cs : List (HistoryRecordChange R)) (now : Replayed R)
      (to : States R) : Type 0 where
    pub next : Replayed R
    pub replayed : apply_changes s event_id clock cs now ≡ ok next
    pub states : state_of next ≡ to

  -- A run of changes is replayed without divergence, and leaves the records it should.
  pub Runs-Replays :
      (event_id clock : ℕ) (cs : List (HistoryRecordChange R)) (now : Replayed R) (to : States R)
      → Runs cs (state_of now) to
      → Replays event_id clock cs now to
  unfolding apply_changes apply_change state_of
  Runs-Replays event_id clock [] now to r = record { next = now; replayed = refl; states = r }
  Runs-Replays event_id clock (c ∷ cs) now to r =
      let hit = (same_iff (state_of now c.record_id) c.before).1 (sym r.0) in
      let after = write_after clock c.record_id c.after now in
      let rest =
        Runs-Replays event_id clock cs after to
          (subst (λ f. Runs cs f to) (sym (write_after-states clock c now)) r.1) in
      record { next = rest.next; replayed = rw hit rest.replayed; states = rest.states }

  -- What is replayed without divergence is a run.
  pub Runs-of_replay :
      (event_id clock : ℕ) (cs : List (HistoryRecordChange R)) (now next : Replayed R)
      → apply_changes s event_id clock cs now ≡ ok next
      → Runs cs (state_of now) (state_of next)
  unfolding apply_changes apply_change state_of
  Runs-of_replay event_id clock [] now next h = let e : now ≡ next = cc h in ap state_of e
  Runs-of_replay event_id clock (c ∷ cs) now next h =
      elim (Bool-cases (same s (state_of now c.record_id) c.before)) [
        | inl hit ↦
            let after = write_after clock c.record_id c.after now in
            let rest = Runs-of_replay event_id clock cs after next (rw hit at h) in
            (
              sym ((same_iff _ _).0 hit),
              subst (λ f. Runs cs f (state_of next)) (write_after-states clock c now) rest,
            )
        | inr miss ↦ cc (rw miss at h)
      ]

-- ===== src/History/Staging.antt =====
-- The order of the fragments in a history database (server/history.ts), and the forced flush.
use collaborative_ai_whitebo.Prelude.{
  ℕ, suc, ◌<◌, ◌≤◌, String, ◌≡◌, Bool, true, List, [], ◌∷◌, ◌++◌, arith, All, inl, inr, Bool-cases,
  filter,
}
use collaborative_ai_whitebo.Exec.{ok}
use collaborative_ai_whitebo.Exec.Keeps.{Keeps, Keeps-modify}
use collaborative_ai_whitebo.History.Types.{Schema, HistoryEvent, HistoryFragment, HistoryDatabase}
use collaborative_ai_whitebo.History.Rows.{pending, get_pending_fragment_count, delete_fragments}
use collaborative_ai_whitebo.History.Store.{flush_fragments}
use collaborative_ai_whitebo.History.Flush.{Sorted, flush_fragments-empties}
use collaborative_ai_whitebo.History.Steps.{Steps, HistoryReach, Reach-Rel}

module _ {R : Type 0} where
  All-filter :
      (P : HistoryFragment R → Type 0) (p : HistoryFragment R → Bool)
      (fs : List (HistoryFragment R))
      → All P fs
      → All P (filter p fs)
  All-filter P p [] h = tt
  All-filter P p (f ∷ fs) h = elim (Bool-cases (p f)) [
    | inl in_it ↦ rw in_it (h.0, All-filter P p fs h.1)
    | inr out ↦ rw out (All-filter P p fs h.1)
  ]

  Sorted-filter :
      (p : HistoryFragment R → Bool) (fs : List (HistoryFragment R))
      → Sorted fs
      → Sorted (filter p fs)
  Sorted-filter p [] s = tt
  Sorted-filter p (f ∷ fs) s = elim (Bool-cases (p f)) [
    | inl in_it ↦
        rw in_it (All-filter (λ g. f.event.id < g.event.id) p fs s.0, Sorted-filter p fs s.1)
    | inr out ↦ rw out (Sorted-filter p fs s.1)
  ]

  Below : ℕ → List (HistoryFragment R) → Type 0
  Below n fs = All (λ f. f.event.id < n) fs

  Below-snoc :
      (m n : ℕ) (fs : List (HistoryFragment R)) (f : HistoryFragment R)
      → m < n
      → f.event.id < n
      → Below m fs
      → Below n (fs ++ f ∷ [])
  unfolding Below
  Below-snoc m n [] f l k h = (k, tt)
  Below-snoc m n (g ∷ fs) f l k h = (omega (arith, h.0), Below-snoc m n fs f l k h.1)

  Above-snoc :
      (n : ℕ) (fs : List (HistoryFragment R)) (f : HistoryFragment R)
      → n < f.event.id
      → All (λ g. n < g.event.id) fs
      → All (λ g. n < g.event.id) (fs ++ f ∷ [])
  Above-snoc n [] f k h = (k, tt)
  Above-snoc n (g ∷ fs) f k h = (h.0, Above-snoc n fs f k h.1)

  Sorted-snoc :
      (n : ℕ) (fs : List (HistoryFragment R)) (f : HistoryFragment R)
      → Sorted fs
      → Below n fs
      → n ≤ f.event.id
      → Sorted (fs ++ f ∷ [])
  unfolding Below
  Sorted-snoc n [] f s b k = (tt, tt)
  Sorted-snoc n (g ∷ fs) f s b k =
      (Above-snoc g.event.id fs f (omega (arith, b.0, k)) s.0, Sorted-snoc n fs f s.1 b.1 k)

  -- The fragments are in the order of their ids, up to the last id given.
  record Staged (db : HistoryDatabase R) : Type 0 where
    sorted : Sorted db.fragments
    below : Below (suc db.last_fragment) db.fragments

  record StaysStaged (s t : HistoryDatabase R) : Type 0 where
    carry : Staged s → Staged t

  delete-StaysStaged :
      (board_id : String) (first last : ℕ)
      → Keeps StaysStaged (delete_fragments {R = R} board_id first last)
  unfolding delete_fragments Below
  delete-StaysStaged board_id first last = Keeps-modify _ λ db. record {
    carry = λ h. record {
      sorted = Sorted-filter _ db.fragments h.sorted;
      below = All-filter _ _ db.fragments h.below;
    };
  }

  StaysStaged-Steps : Steps StaysStaged
  StaysStaged-Steps = record {
    preorder = record {
      same = λ s. record { carry = λ h. h };
      trans = λ s t u g h. record { carry = λ x. h.carry (g.carry x) };
    };
    event = λ e db next. record { carry = λ h. record { sorted = h.sorted; below = h.below } };
    checkpoint = λ c db next. record { carry = λ h. record { sorted = h.sorted; below = h.below } };
    fragment = λ f db next. record {
      carry = λ h. record {
        sorted =
            Sorted-snoc (suc db.last_fragment) db.fragments f h.sorted h.below
              (omega (arith, next));
        below =
            Below-snoc (suc db.last_fragment) (suc f.event.id) db.fragments f (omega (arith, next))
              (omega arith) h.below;
      };
    };
    delete = delete-StaysStaged;
  }

abbrev pub new_history : {R : Type 0} → HistoryDatabase R
new_history = record {
  events = [];
  checkpoints = [];
  fragments = [];
  last_event = 0;
  last_checkpoint = 0;
  last_fragment = 0;
}

module _ {R : Type 0} (s : Schema R) (board_id : String) where
  new_history-Staged : Staged (new_history {R = R})
  unfolding Below
  new_history-Staged = record { sorted = tt; below = tt }

  -- In every history that operations of the store have reached from a new one, the ids of the pending
  -- fragments grow along the table.
  pub Reach-Sorted :
      (db : HistoryDatabase R)
      → HistoryReach s board_id new_history db
      → Sorted (pending board_id db)
  Reach-Sorted db r =
      Sorted-filter _ db.fragments
        ((Reach-Rel StaysStaged StaysStaged-Steps s board_id r).carry new_history-Staged).sorted

  -- In a history that operations of the store have reached from a new one, a forced flush that returns
  -- leaves the board without a pending fragment.
  pub flush_fragments-clears :
      (now : ℕ) (db : HistoryDatabase R) {events : List (HistoryEvent R)}
      → HistoryReach s board_id new_history db
      → (flush_fragments s board_id now true db).0 ≡ ok events
      → get_pending_fragment_count board_id (flush_fragments s board_id now true db).1 ≡ 0
  flush_fragments-clears now db r h =
      flush_fragments-empties s board_id now db (Reach-Sorted db r) h

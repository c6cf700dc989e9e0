-- ===== src/History/Appends.antt =====
-- What the operations of `BoardHistoryStore` (server/history.ts) do to the events and checkpoints that
-- are there.
use collaborative_ai_whitebo.Prelude.{
  ℕ, suc, String, ◌≡◌, refl, ◌∙◌, sym, ap, Bool, false, ◌&&◌, some, List, [], ◌∷◌, ◌++◌, ◌≤◌, ◌<◌,
  ◌==◌, arith, All, All-append, leb, ltb, filter,
}
use mathlib.Core.List.{append_assoc, append-nil}
use collaborative_ai_whitebo.Exec.Keeps.{IsPreorder, Keeps, Keeps-modify}
use collaborative_ai_whitebo.History.Types.{
  Schema, HistoryEvent, HistoryFragment, HistoryCheckpoint, HistoryDatabase,
}
use collaborative_ai_whitebo.History.Rows.{
  delete_fragments, with_event, with_fragment, with_checkpoint,
}
use collaborative_ai_whitebo.History.Reconstruct.{events_between}
use collaborative_ai_whitebo.History.Steps.{Steps, HistoryReach, Reach-Rel}

-- Rows with an id above `last` come after the rows that are there.
pub record Adds {A : Type 0} (id : A → ℕ) (last : ℕ) (xs ys : List A) : Type 0 where
  pub added : List A
  pub after : ys ≡ xs ++ added
  pub above : All (λ a. last < id a) added

module _ {A : Type 0} (id : A → ℕ) where
  pub Adds-refl : (last : ℕ) (xs : List A) → Adds id last xs xs
  Adds-refl last xs = record { added = []; after = sym (append-nil xs); above = tt }

  raise : (m n : ℕ) (xs : List A) → m ≤ n → All (λ a. n < id a) xs → All (λ a. m < id a) xs
  raise m n [] l h = tt
  raise m n (x ∷ xs) l h = (omega arith, raise m n xs l h.1)

  pub Adds-trans :
      (m n : ℕ) (xs ys zs : List A) → m ≤ n → Adds id m xs ys → Adds id n ys zs → Adds id m xs zs
  Adds-trans m n xs ys zs l g h = record {
    added = g.added ++ h.added;
    after = h.after ∙ ap (λ l. l ++ h.added) g.after ∙ append_assoc xs g.added h.added;
    above = All-append (λ a. m < id a) g.added h.added g.above (raise m n h.added l h.above);
  }

  -- Rows up to `last` are all that a test that only passes them can find.
  pub Adds-filter :
      (p : A → Bool) (last : ℕ) (xs ys : List A)
      → Adds id last xs ys
      → ((a : A) → last < id a → p a ≡ false)
      → filter p ys ≡ filter p xs
  Adds-filter p last xs ys g out =
      ap (filter p) g.after
      ∙ go xs
      ∙ ap (λ l. filter p xs ++ l) (none_left g.added g.above)
      ∙ append-nil (filter p xs)
    where
      go : (l : List A) → filter p (l ++ g.added) ≡ filter p l ++ filter p g.added
      go [] = refl
      go (x ∷ l) = ground (arith, go l)

      none_left : (l : List A) → All (λ a. last < id a) l → filter p l ≡ []
      none_left [] h = refl
      none_left (x ∷ l) h = rw (out x h.0) (none_left l h.1)

pub filter-filter :
    {A : Type 0} (p q : A → Bool) (xs : List A)
    → filter p (filter q xs) ≡ filter (λ a. q a && p a) xs
filter-filter p q [] = refl
filter-filter p q (x ∷ xs) = ground (arith, filter-filter p q xs)

-- No event and no checkpoint goes or changes, and ids are not given twice.
pub record Appends {R : Type 0} (s t : HistoryDatabase R) : Type 0 where
  pub events : Adds (λ e. e.id) s.last_event s.events t.events
  pub checkpoints : Adds (λ c. c.id) s.last_checkpoint s.checkpoints t.checkpoints
  pub last_event : s.last_event ≤ t.last_event
  pub last_checkpoint : s.last_checkpoint ≤ t.last_checkpoint

pub Appends-IsPreorder : {R : Type 0} → IsPreorder (Appends {R = R})
Appends-IsPreorder = record {
  same = λ s. record {
    events = Adds-refl _ s.last_event s.events;
    checkpoints = Adds-refl _ s.last_checkpoint s.checkpoints;
    last_event = omega arith;
    last_checkpoint = omega arith;
  };
  trans = λ s t u g h. record {
    events = Adds-trans _ _ _ _ _ _ g.last_event g.events h.events;
    checkpoints = Adds-trans _ _ _ _ _ _ g.last_checkpoint g.checkpoints h.checkpoints;
    last_event = omega (arith, g.last_event, h.last_event);
    last_checkpoint = omega (arith, g.last_checkpoint, h.last_checkpoint);
  };
}

module _ {R : Type 0} where
  one_event :
      (e : HistoryEvent R) (db : HistoryDatabase R)
      → e.id ≡ suc db.last_event
      → Appends db (with_event e db)
  one_event e db next = record {
    events = record { added = e ∷ []; after = refl; above = (omega (arith, next), tt) };
    checkpoints = Adds-refl _ db.last_checkpoint db.checkpoints;
    last_event = omega (arith, next);
    last_checkpoint = omega arith;
  }

  one_checkpoint :
      (c : HistoryCheckpoint R) (db : HistoryDatabase R)
      → c.id ≡ suc db.last_checkpoint
      → Appends db (with_checkpoint c db)
  one_checkpoint c db next = record {
    events = Adds-refl _ db.last_event db.events;
    checkpoints = record { added = c ∷ []; after = refl; above = (omega (arith, next), tt) };
    last_event = omega arith;
    last_checkpoint = omega (arith, next);
  }

  aside : (f : HistoryFragment R) (db : HistoryDatabase R) → Appends db (with_fragment f db)
  aside f db = record {
    events = Adds-refl _ db.last_event db.events;
    checkpoints = Adds-refl _ db.last_checkpoint db.checkpoints;
    last_event = omega arith;
    last_checkpoint = omega arith;
  }

  fewer_fragments :
      (rows : List (HistoryFragment R)) (db : HistoryDatabase R)
      → Appends db (record db { fragments = rows })
  fewer_fragments rows db = record {
    events = Adds-refl _ db.last_event db.events;
    checkpoints = Adds-refl _ db.last_checkpoint db.checkpoints;
    last_event = omega arith;
    last_checkpoint = omega arith;
  }

  delete_fragments-Appends :
      (board_id : String) (first last : ℕ)
      → Keeps Appends (delete_fragments {R = R} board_id first last)
  unfolding delete_fragments
  delete_fragments-Appends board_id first last = Keeps-modify _ λ db. fewer_fragments _ db

Appends-Steps : {R : Type 0} → Steps (Appends {R = R})
Appends-Steps = record {
  preorder = Appends-IsPreorder;
  event = one_event;
  checkpoint = one_checkpoint;
  fragment = λ f db next. aside f db;
  delete = delete_fragments-Appends;
}

module _ {R : Type 0} (s : Schema R) (board_id : String) where
  -- After any sequence of operations of the store, every event and every checkpoint that was there is
  -- there unchanged, at its place, and the ids of the new ones are above the last ids given before.
  pub Reach-Appends : {a b : HistoryDatabase R} → HistoryReach s board_id a b → Appends a b
  Reach-Appends r = Reach-Rel Appends Appends-Steps s board_id r

  pub past_unchanged :
      (a b : HistoryDatabase R) (base target : ℕ)
      → HistoryReach s board_id a b
      → target ≤ a.last_event
      → events_between board_id base (some target) b ≡ events_between board_id base (some target) a
  unfolding events_between
  past_unchanged a b base target r bound =
      filter-filter _ _ b.events
      ∙ Adds-filter _ _ a.last_event a.events b.events (Reach-Appends r).events (later bound)
      ∙ sym (filter-filter _ _ a.events)
    where
      later :
          target ≤ a.last_event
          → (e : HistoryEvent R) → a.last_event < e.id
          → ((e.board_id == board_id) && (ltb base e.id && leb e.id target)) ≡ false
      later h e above = ground arith

-- ===== src/Tokens/Backups.antt =====
-- No version of the token file is lost (server/token-store.mjs, `backUpStore` before `rename`).
use collaborative_ai_whitebo.Prelude.{
  ◌≡◌, refl, sym, ◌∙◌, Bool, true, false, ◌⊎◌, inl, inr, Option, none, some, List, [], ◌∷◌,
}
use mathlib.Core.Path.{subst}
use collaborative_ai_whitebo.Exec.{Result, ok, err, throw, lift, modify, ensure, ◌>>=◌}
use collaborative_ai_whitebo.Exec.Inversion.{Splits-bind}
use collaborative_ai_whitebo.Tokens.Types.{FileText, serialise, TokenFailure, StoreData}
use collaborative_ai_whitebo.Tokens.Platform.{parse_json, TokenPlatform, Checked}
use collaborative_ai_whitebo.Tokens.Files.{
  Disk, Written, done, nothing, torn, Faults, Machine, on_disk, add_backup, write_backup,
  back_up_store, write_store_atomically, checked_store, with_source, parsed_file, persist,
}
use collaborative_ai_whitebo.Tokens.Moves.{IsPolicy}
use collaborative_ai_whitebo.Tokens.Moves.Writes.{IsQuiet, back_up_store-Keeps, write_store-Keeps}
use collaborative_ai_whitebo.Tokens.WellFormed.Mutators.{Sound}
use collaborative_ai_whitebo.Tokens.Calls.{IsDocumented, Reach, Reach-Keeps}

-- The text is in the list.
abbrev pub Among : FileText → List FileText → Type 0
Among text [] = ⊥
Among text (first ∷ rest) = (first ≡ text) ⊎ Among text rest

-- The text is the token file, or one of its backups.
abbrev pub Kept : FileText → Disk → Type 0
Kept text disk = (disk.store ≡ some text) ⊎ (Among text disk.backups)

abbrev pub LosesNothing : Disk → Disk → Type 0
LosesNothing d e = (text : FileText) → Kept text d → Kept text e

-- The backups that are there stay.
abbrev pub KeepsBackups : Disk → Disk → Type 0
KeepsBackups d e = (text : FileText) → Among text d.backups → Among text e.backups

KeepsBackups-add : (part : FileText) (d : Disk) → KeepsBackups d (add_backup part d)
KeepsBackups-add part d text h = inr h

KeepsBackups-IsQuiet : IsQuiet KeepsBackups
KeepsBackups-IsQuiet = record {
  preorder = record { same = λ s text h. h; trans = λ s t u g h text k. h text (g text k) };
  backups = KeepsBackups-add;
  added = λ part d text h. h;
  dropped = λ d text h. h;
}

still_kept : (part : FileText) (d : Disk) → LosesNothing d (add_backup part d)
still_kept part d text (inl h) = inl h
still_kept part d text (inr h) = inr (KeepsBackups-add part d text h)

LosesNothing-IsQuiet : IsQuiet LosesNothing
LosesNothing-IsQuiet = record {
  preorder = record { same = λ s text h. h; trans = λ s t u g h text k. h text (g text k) };
  backups = still_kept;
  added = λ part d text h. h;
  dropped = λ d text h. h;
}

-- A backup that was made holds the text.
write_backup-has :
    (w : Written) (text : FileText) (s : Machine) {u : Unit}
    → (write_backup w text s).0 ≡ ok u
    → Among text (write_backup w text s).1.disk.backups
unfolding write_backup on_disk modify throw ◌>>=◌
write_backup-has done text s h = inl refl
write_backup-has nothing text s h = cc h
write_backup-has (torn part) text s h = cc h

ensure-same : (b : Bool) (e : TokenFailure) (s : Machine) → (ensure b e s).1 ≡ s
unfolding ensure
ensure-same true e s = refl
ensure-same false e s = refl

back_up_store-has :
    (faults : Faults) (text : FileText) (s : Machine) {u : Unit}
    → (back_up_store faults text s).0 ≡ ok u
    → Among text (back_up_store faults text s).1.disk.backups
unfolding back_up_store
back_up_store-has faults text s h =
    let step = Splits-bind _ _ s h in
    subst (λ (t : Machine). Among text t.disk.backups) (sym (step.final ∙ ensure-same _ _ _))
      (write_backup-has faults.write_backup text s step.first)

-- What is read is what the file holds.
parsed-source :
    (c : Checked StoreData) (text source : FileText) (store : StoreData)
    → with_source text c ≡ ok (store, source)
    → text ≡ source
parsed-source (ok st) text source store h = cc h
parsed-source (err e) text source store h = cc h

replaced :
    (faults : Faults) (source content : FileText) (r : Result TokenFailure Unit) (s t : Machine)
    → LosesNothing s.disk t.disk
    → ((text : FileText) → s.disk.store ≡ some text → text ≡ source)
    → ((u : Unit) → r ≡ ok u → Among source t.disk.backups)
    → KeepsBackups s.disk t.disk
    → LosesNothing s.disk ((lift r >>= λ u. write_store_atomically faults content) t).1.disk
unfolding ◌>>=◌ lift
replaced faults source content (err e) s t kept same backed grown text h = kept text h
replaced faults source content (ok u) s t kept same backed grown text (inl h) = inr (
    (write_store-Keeps KeepsBackups-IsQuiet faults content (λ d x k. k)).at t text
      (subst (λ x. Among x t.disk.backups) (sym (same text h)) (backed u refl)))
replaced faults source content (ok u) s t kept same backed grown text (inr h) =
    inr (
      (write_store-Keeps KeepsBackups-IsQuiet faults content (λ d x k. k)).at t text (grown text h))

read-source :
    (p : TokenPlatform) (file : Option FileText) (store : StoreData) (source : FileText)
    → parsed_file p file ≡ ok (store, source)
    → (text : FileText) → file ≡ some text
    → text ≡ source
unfolding parsed_file
read-source p none store source h text k = cc k
read-source p (some x) store source h text k =
    let e : x ≡ text = cc k in
    sym e ∙ parsed-source (checked_store (parse_json p x)) x source store h

module _ {p : TokenPlatform} where
  LosesNothing-IsPolicy : IsPolicy p Sound LosesNothing
  unfolding persist ◌>>=◌ lift
  LosesNothing-IsPolicy = record {
    preorder = LosesNothing-IsQuiet.preorder;
    locks = λ lock d text h. h;
    persists = λ faults source store changed s parsed sound.
        replaced faults source (serialise changed) (back_up_store faults source s).0 s
          (back_up_store faults source s).1
          ((back_up_store-Keeps LosesNothing-IsQuiet faults source).at s)
          (read-source p s.disk.store store source parsed)
          (λ u h. back_up_store-has faults source s h)
          ((back_up_store-Keeps KeepsBackups-IsQuiet faults source).at s);
  }

  -- Whatever operations follow and whatever calls of the file system fail in them, every version of the
  -- token file that was the file or one of its backups is the file or one of its backups afterwards.
  pub Reach-LosesNothing :
      IsDocumented p → {s t : Machine} → Reach p s t → LosesNothing s.disk t.disk
  Reach-LosesNothing doc r = Reach-Keeps doc LosesNothing-IsPolicy r

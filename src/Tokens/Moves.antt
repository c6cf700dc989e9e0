-- ===== src/Tokens/Moves.antt =====
-- What an operation on the token file (server/token-store.mjs) does to the disk, whatever call of the
-- file system fails: one rule for the locked mutation and one for the grant of a new board.
pub mod Grants
pub mod Writes
use collaborative_ai_whitebo.Prelude.{
  String, ◌≡◌, refl, Bool, true, false, Option, none, some, if◌then◌else◌,
}
use collaborative_ai_whitebo.Exec.{
  Result, ok, err, pure, throw, lift, gets, modify, ensure, handle, finally, ◌>>=◌, ◌>>◌,
}
use collaborative_ai_whitebo.Exec.Keeps.{
  IsPreorder, Keeps, Keeps-bind, bind-at, Keeps-pure, Keeps-throw, Keeps-gets, Keeps-ensure,
  Keeps-modify, Keeps-lift, Keeps-if, Keeps-handle, Keeps-finally, Keeps-lift-bind,
}
use collaborative_ai_whitebo.Accounts.Database.{Statement}
use collaborative_ai_whitebo.Tokens.Types.{FileText, TokenFailure, StoreData}
use collaborative_ai_whitebo.Tokens.Platform.{TokenPlatform, Checked}
use collaborative_ai_whitebo.Tokens.Files.{
  Disk, Faults, Machine, FileAction, Mutator, on_disk, call, remove_quietly, put_lock, release,
  initialise_lock, acquire_mutation_lock, parsed_file, read_store, persist, mutate_locked,
  mutate_store,
}

-- The disk moves along `R`.
abbrev pub OnDisk : (Disk → Disk → Type 0) → Machine → Machine → Type 0
OnDisk R s t = R s.disk t.disk

-- A relation that a lock and its release keep, and every write of an allowed change of the object.
pub record IsPolicy (p : TokenPlatform) (Step : StoreData → StoreData → Type 0)
    (R : Disk → Disk → Type 0) : Type 0 where
  pub preorder : IsPreorder (OnDisk R)
  pub locks : (lock : Option String) (d : Disk) → R d (put_lock lock d)
  pub persists :
      (faults : Faults) (source : FileText) (store changed : StoreData) (s : Machine)
      → parsed_file p s.disk.store ≡ ok (store, source)
      → Step store changed
      → R s.disk (persist p faults source changed s).1.disk

module _ {p : TokenPlatform} {Step : StoreData → StoreData → Type 0} {R : Disk → Disk → Type 0}
    (k : IsPolicy p Step R) where
  on_lock-Keeps : (lock : Option String) → Keeps (OnDisk R) (on_disk (put_lock lock))
  unfolding on_disk
  on_lock-Keeps lock = Keeps-modify _ (λ s. k.locks lock s.disk)

  pub release-Keeps : (faults : Faults) → Keeps (OnDisk R) (release faults)
  unfolding release
  release-Keeps faults =
      Keeps-bind k.preorder _ _ (Keeps-ensure k.preorder _ _) (λ u. on_lock-Keeps none)

  remove-Keeps : (fails : Bool) → Keeps (OnDisk R) (remove_quietly fails (put_lock none))
  unfolding remove_quietly
  remove-Keeps fails = Keeps-if fails _ _ (Keeps-pure k.preorder _) (on_lock-Keeps none)

  initialise_lock-Keeps :
      (faults : Faults) (pid : String) → Keeps (OnDisk R) (initialise_lock faults pid)
  unfolding initialise_lock
  initialise_lock-Keeps faults pid =
      Keeps-handle k.preorder _ _
        (Keeps-bind k.preorder _ _ (Keeps-ensure k.preorder _ _) (λ u. on_lock-Keeps (some pid)))
        (λ e.
          Keeps-bind k.preorder _ _ (remove-Keeps faults.remove_lock)
            (λ u. Keeps-throw k.preorder e))

  pub acquire-Keeps :
      (faults : Faults) (pid : String) → Keeps (OnDisk R) (acquire_mutation_lock faults pid)
  unfolding acquire_mutation_lock
  acquire-Keeps faults pid =
      search
        (k.preorder, Keeps-bind, Keeps-ensure, Keeps-gets, on_lock-Keeps, initialise_lock-Keeps)
        depth 12

  read_result :
      {A : Type 0} (file : Checked (StoreData × FileText)) (f : StoreData × FileText → FileAction A)
      (s : Machine)
      → ((store : StoreData) (source : FileText)
          → file ≡ ok (store, source)
          → R s.disk (f (store, source) s).1.disk)
      → R s.disk ((lift file >>= f) s).1.disk
  unfolding ◌>>=◌ lift
  read_result (ok (store, source)) f s h = h store source refl
  read_result (err e) f s h = k.preorder.same s

  read_if :
      {A : Type 0} (fails : Bool) (f : StoreData × FileText → FileAction A) (s : Machine)
      → ((store : StoreData) (source : FileText)
          → parsed_file p s.disk.store ≡ ok (store, source)
          → R s.disk (f (store, source) s).1.disk)
      → R s.disk ((read_store p fails >>= f) s).1.disk
  unfolding ◌>>=◌ lift read_store ensure gets
  read_if true f s h = k.preorder.same s
  read_if false f s h = read_result (parsed_file p s.disk.store) f s h

  -- What follows a read starts from what the file holds.
  pub read_store-bind :
      {A : Type 0} (fails : Bool) (f : StoreData × FileText → FileAction A)
      → ((s : Machine) (store : StoreData) (source : FileText)
          → parsed_file p s.disk.store ≡ ok (store, source)
          → R s.disk (f (store, source) s).1.disk)
      → Keeps (OnDisk R) (read_store p fails >>= f)
  read_store-bind fails f h = record { at = λ s. read_if fails f s (h s) }

  edited :
      {A : Type 0} (faults : Faults) (r : Checked A) (source : FileText) (store changed : StoreData)
      (s : Machine)
      → parsed_file p s.disk.store ≡ ok (store, source)
      → ((a : A) → r ≡ ok a → Step store changed)
      → R s.disk ((lift r >>= λ a. persist p faults source changed >>= λ u. pure a) s).1.disk
  unfolding ◌>>=◌ lift
  edited faults (ok a) source store changed s h step =
      bind-at k.preorder (persist p faults source changed) (λ u. pure a) s
        (k.persists faults source store changed s h (step a refl)) (λ u. Keeps-pure k.preorder a)
  edited faults (err e) source store changed s h step = k.preorder.same s

  pub mutate_store-Keeps :
      {A : Type 0} (faults : Faults) (pid : String) (mutate : Mutator A)
      → ((store : StoreData) (a : A) → (mutate store).0 ≡ ok a → Step store (mutate store).1)
      → Keeps (OnDisk R) (mutate_store p faults pid mutate)
  unfolding mutate_store mutate_locked
  mutate_store-Keeps faults pid mutate step =
      Keeps-bind k.preorder _ _ (acquire-Keeps faults pid) (λ u.
        Keeps-finally k.preorder _ _
          (read_store-bind faults.read _ (λ s store source h.
            edited faults (mutate store).0 source store (mutate store).1 s h (step store)))
          (release-Keeps faults))

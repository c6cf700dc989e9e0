-- ===== src/Tokens/Saved.antt =====
-- What a mutation that returns has done to the token file (server/token-store.mjs, `mutateStore`).
use collaborative_ai_whitebo.Prelude.{
  String, ◌≡◌, refl, sym, ◌∙◌, ap, Bool, true, false, Option, none, some,
}
use collaborative_ai_whitebo.Exec.{
  Result, ok, err, pure, lift, gets, modify, ensure, finally, concluded, ◌>>=◌,
}
use collaborative_ai_whitebo.Exec.Keeps.{IsPreorder, Keeps, Keeps-modify, keeps_rules}
use collaborative_ai_whitebo.Exec.Atomic.{ReadsOnly-ensure}
use collaborative_ai_whitebo.Exec.Inversion.{Splits-bind}
use collaborative_ai_whitebo.Tokens.Types.{FileText, serialise, TokenFailure, StoreData}
use collaborative_ai_whitebo.Tokens.Platform.{TokenPlatform, Checked}
use collaborative_ai_whitebo.Tokens.Files.{
  Disk, Faults, Machine, FileAction, Mutator, on_disk, put_lock, remove_quietly, release,
  initialise_lock, acquire_mutation_lock, parsed_file, read_store, persist, mutate_locked,
  mutate_store, write_store_atomically, rename_temporary,
}
use collaborative_ai_whitebo.Tokens.Moves.{OnDisk}

abbrev pub SameStore : Disk → Disk → Type 0
SameStore d e = e.store ≡ d.store

SameStore-IsPreorder : IsPreorder (OnDisk SameStore)
SameStore-IsPreorder = record { same = λ s. refl; trans = λ s t u g h. h ∙ g }

lock-SameStore : (lock : Option String) → Keeps (OnDisk SameStore) (on_disk (put_lock lock))
unfolding on_disk
lock-SameStore lock = Keeps-modify _ (λ s. refl)

remove_quietly-SameStore :
    (fails : Bool) → Keeps (OnDisk SameStore) (remove_quietly fails (put_lock none))
unfolding remove_quietly
remove_quietly-SameStore fails = search (SameStore-IsPreorder, lock-SameStore, keeps_rules) depth 9

pub release-SameStore : (faults : Faults) → Keeps (OnDisk SameStore) (release faults)
unfolding release
release-SameStore faults = search (SameStore-IsPreorder, lock-SameStore, keeps_rules) depth 9

initialise_lock-SameStore :
    (faults : Faults) (pid : String) → Keeps (OnDisk SameStore) (initialise_lock faults pid)
unfolding initialise_lock
initialise_lock-SameStore faults pid =
    search (SameStore-IsPreorder, lock-SameStore, remove_quietly-SameStore, keeps_rules) depth 12

pub acquire-SameStore :
    (faults : Faults) (pid : String) → Keeps (OnDisk SameStore) (acquire_mutation_lock faults pid)
unfolding acquire_mutation_lock
acquire-SameStore faults pid =
    search (SameStore-IsPreorder, lock-SameStore, initialise_lock-SameStore, keeps_rules) depth 15

concluded-eq-ok :
    {A : Type 0} (r : Result TokenFailure A) (q : Result TokenFailure Unit × Machine) (a : A)
    → (concluded r q).0 ≡ ok a
    → (r ≡ ok a) × ((concluded r q).1 ≡ q.1)
concluded-eq-ok r (ok u, s) a h = (h, refl)
concluded-eq-ok r (err e, s) a h = cc h

finally-eq-ok :
    {A : Type 0} (m : FileAction A) (cleanup : FileAction Unit) (s : Machine) (a : A)
    → (finally m cleanup s).0 ≡ ok a
    → ((m s).0 ≡ ok a) × ((finally m cleanup s).1 ≡ (cleanup (m s).1).1)
unfolding finally
finally-eq-ok m cleanup s a h = concluded-eq-ok (m s).0 (cleanup (m s).1) a h

renamed :
    (content : FileText) (s : Machine)
    → (on_disk (rename_temporary content) s).1.disk.store ≡ some content
unfolding on_disk modify
renamed content s = refl

write_store-eq-ok :
    (faults : Faults) (content : FileText) (s : Machine) (u : Unit)
    → (write_store_atomically faults content s).0 ≡ ok u
    → (write_store_atomically faults content s).1.disk.store ≡ some content
unfolding write_store_atomically
write_store-eq-ok faults content s u h =
    let written = Splits-bind _ _ s h in
    let ready = Splits-bind _ _ _ written.second in
    let moved = Splits-bind _ _ _ ready.second in
    ap (λ t. t.disk.store)
      (written.final ∙ ready.final ∙ moved.final ∙ (ReadsOnly-ensure _ _).same _)
    ∙ renamed content _

-- The object that was read, and the file with what the mutator made of it.
pub record IsSaved (p : TokenPlatform) {A : Type 0} (mutate : Mutator A) (s t : Machine) (a : A)
    : Type 0 where
  pub store : StoreData
  pub source : FileText
  pub read : parsed_file p s.disk.store ≡ ok (store, source)
  pub edited : (mutate store).0 ≡ ok a
  pub written : t.disk.store ≡ some (serialise (mutate store).1)

read_store-eq-ok :
    (p : TokenPlatform) (fails : Bool) (s : Machine) (x : StoreData × FileText)
    → (read_store p fails s).0 ≡ ok x
    → (parsed_file p s.disk.store ≡ ok x) × ((read_store p fails s).1 ≡ s)
unfolding read_store ensure gets lift ◌>>=◌
read_store-eq-ok p true s x h = cc h
read_store-eq-ok p false s x h = (h, refl)

persist-eq-ok :
    (p : TokenPlatform) (faults : Faults) (source : FileText) (store : StoreData) (s : Machine)
    (u : Unit)
    → (persist p faults source store s).0 ≡ ok u
    → (persist p faults source store s).1.disk.store ≡ some (serialise store)
unfolding persist
persist-eq-ok p faults source store s u h =
    let backed = Splits-bind _ _ s h in
    ap (λ t. t.disk.store) backed.final
    ∙ write_store-eq-ok faults (serialise store) _ u backed.second

mutate_locked-eq-ok :
    (p : TokenPlatform) (faults : Faults) {A : Type 0} (mutate : Mutator A) (s : Machine) (a : A)
    → (mutate_locked p faults mutate s).0 ≡ ok a
    → IsSaved p mutate s (mutate_locked p faults mutate s).1 a
unfolding mutate_locked pure lift
mutate_locked-eq-ok p faults mutate s a h =
    let read = Splits-bind _ _ s h in
    let (parsed, same) = read_store-eq-ok p faults.read s read.value read.first in
    let outcome = Splits-bind _ _ _ read.second in
    let saved = Splits-bind _ _ _ outcome.second in
    let end : ◌≡◌ {A = Checked _} (ok outcome.value) (ok a) = saved.second in
    record {
      store = read.value.0;
      source = read.value.1;
      read = parsed;
      edited = outcome.first ∙ end;
      written =
          ap (λ t. t.disk.store) (read.final ∙ outcome.final ∙ saved.final)
          ∙ persist-eq-ok p faults read.value.1 (mutate read.value.0).1 _ _ saved.first;
    }

-- A mutation that returns has written what its mutator made of the file it found.
pub mutate_store-IsSaved :
    (p : TokenPlatform) (faults : Faults) (pid : String) {A : Type 0} (mutate : Mutator A)
    (s : Machine) (a : A)
    → (mutate_store p faults pid mutate s).0 ≡ ok a
    → IsSaved p mutate s (mutate_store p faults pid mutate s).1 a
unfolding mutate_store
mutate_store-IsSaved p faults pid mutate s a h =
    let locked = Splits-bind _ _ s h in
    let (run, freed) = finally-eq-ok _ _ _ a locked.second in
    let saved = mutate_locked-eq-ok p faults mutate _ a run in
    record {
      store = saved.store;
      source = saved.source;
      read = ap (parsed_file p) (sym ((acquire-SameStore faults pid).at s)) ∙ saved.read;
      edited = saved.edited;
      written =
          ap (λ t. t.disk.store) (locked.final ∙ freed)
          ∙ (release-SameStore faults).at _
          ∙ saved.written;
    }

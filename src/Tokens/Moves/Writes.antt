-- ===== src/Tokens/Moves/Writes.antt =====
-- The two parts of a write of the token file (server/token-store.mjs): the backup and the replacement.
use collaborative_ai_whitebo.Prelude.{Bool}
use collaborative_ai_whitebo.Exec.{throw, handle, ◌>>◌}
use collaborative_ai_whitebo.Exec.Keeps.{
  IsPreorder, Keeps, Keeps-bind, Keeps-pure, Keeps-throw, Keeps-if, Keeps-modify, Keeps-handle,
  Keeps-ensure, keeps_rules,
}
use collaborative_ai_whitebo.Tokens.Types.{FileText}
use collaborative_ai_whitebo.Tokens.Files.{
  Disk, Written, done, nothing, torn, Faults, on_disk, add_backup, write_backup, back_up_store,
  add_temporary, drop_temporary, write_temporary, rename_temporary, before_rename,
  write_store_atomically, remove_quietly,
}
use collaborative_ai_whitebo.Tokens.Moves.{OnDisk}

-- What touches neither the store nor the lock keeps `R`.
pub record IsQuiet (R : Disk → Disk → Type 0) : Type 0 where
  pub preorder : IsPreorder (OnDisk R)
  pub backups : (text : FileText) (d : Disk) → R d (add_backup text d)
  pub added : (text : FileText) (d : Disk) → R d (add_temporary text d)
  pub dropped : (d : Disk) → R d (drop_temporary d)

module _ {R : Disk → Disk → Type 0} (q : IsQuiet R) where
  edit-Keeps : (f : Disk → Disk) → ((d : Disk) → R d (f d)) → Keeps (OnDisk R) (on_disk f)
  unfolding on_disk
  edit-Keeps f h = Keeps-modify _ (λ s. h s.disk)

  write_backup-Keeps : (w : Written) (source : FileText) → Keeps (OnDisk R) (write_backup w source)
  unfolding write_backup
  write_backup-Keeps done source = edit-Keeps _ (q.backups source)
  write_backup-Keeps nothing source = Keeps-throw q.preorder _
  write_backup-Keeps (torn part) source =
      Keeps-bind q.preorder _ _ (edit-Keeps _ (q.backups part)) (λ u. Keeps-throw q.preorder _)

  pub back_up_store-Keeps :
      (faults : Faults) (source : FileText) → Keeps (OnDisk R) (back_up_store faults source)
  unfolding back_up_store
  back_up_store-Keeps faults source = search (q.preorder, write_backup-Keeps, keeps_rules) depth 9

  remove_quietly-Keeps : (fails : Bool) → Keeps (OnDisk R) (remove_quietly fails drop_temporary)
  unfolding remove_quietly
  remove_quietly-Keeps fails = Keeps-if fails _ _ (Keeps-pure q.preorder _) (edit-Keeps _ q.dropped)

  write_temporary-Keeps :
      (w : Written) (faults : Faults) (source : FileText)
      → Keeps (OnDisk R) (write_temporary (record faults { write_temporary = w }) source)
  unfolding write_temporary
  write_temporary-Keeps done faults source = edit-Keeps _ (q.added source)
  write_temporary-Keeps nothing faults source = Keeps-throw q.preorder _
  write_temporary-Keeps (torn part) faults source =
      Keeps-bind q.preorder _ _
        (Keeps-bind q.preorder _ _ (edit-Keeps _ (q.added part)) (λ u. remove_quietly-Keeps _))
        (λ u. Keeps-throw q.preorder _)

  before_rename-Keeps :
      (faults : Faults)
      → Keeps (OnDisk R) (
          handle
            (before_rename faults)
            (λ e. remove_quietly faults.remove_temporary drop_temporary >> throw e))
  unfolding before_rename
  before_rename-Keeps faults =
      Keeps-handle q.preorder _ _ (search (q.preorder, keeps_rules) depth 9)
        (λ e. Keeps-bind q.preorder _ _ (remove_quietly-Keeps _) (λ u. Keeps-throw q.preorder e))

  pub write_store-Keeps :
      (faults : Faults) (source : FileText)
      → ((d : Disk) → R d (rename_temporary source d))
      → Keeps (OnDisk R) (write_store_atomically faults source)
  unfolding write_store_atomically
  write_store-Keeps faults source renamed =
      Keeps-bind q.preorder _ _ (write_temporary-Keeps faults.write_temporary faults source) (λ u.
        Keeps-bind q.preorder _ _ (before_rename-Keeps faults) (λ v.
          Keeps-bind q.preorder _ _ (edit-Keeps _ renamed) (λ w. Keeps-ensure q.preorder _ _)))
